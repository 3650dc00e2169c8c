-- ===== src/Sessions/Live.antt =====
-- The invariant of the session tables: at most one token of a family can still be used.

use seven_network_manager.Base.Text.{Text}
use seven_network_manager.Base.Result.{ok}
use seven_network_manager.Base.{
  ==_iff, Bool, Bool-cases, List, [], any, arith, count, false, find, inl, inr, not, refl, some,
  subst, sym, true, ℕ, ◌&&◌, ◌==◌, ◌||◌, ◌∷◌, ◌≡◌, ◌≤◌,
}
use seven_network_manager.Accounts.{Directory}
use seven_network_manager.Token.{IssuedOpaqueToken}
use seven_network_manager.Sessions.Tables.{
  RefreshTokenRow, Tables, conflicts, consume_token, has_hash, has_token_id, in_family,
  revoke_family, revoke_token, update_rows,
}
use seven_network_manager.Sessions.Service.{AuthService, RefreshRow, find_refresh, is_spent}
use seven_network_manager.Sessions.Login.{first_token}
use seven_network_manager.Sessions.Refresh.{next_token, rotate_token}
use seven_network_manager.Sessions.Rows.{
  any-update_rows, count-any, count-update_rows, count-update_rows-found, find-any,
}
use seven_network_manager.Sessions.Outcomes.{open_session-eq-ok, rotate_token-eq-ok}
use seven_network_manager.Sessions.Families.{
  Change, Step, Step-Change, join_session-eq-some, live_in, opened, revoked, rotated, unchanged,
}

-- The token that a login makes.
abbrev pub is_first : ℕ → RefreshTokenRow → Bool
is_first family_id t = in_family family_id t && t.generation == 0

-- Every family has the token of its login and at most one token that can still be used, and ids
-- differ.
pub record IsSessions (db : Tables) : Type 0 where
  pub one_live : (family_id : ℕ) → count (live_in family_id) db.refresh_tokens ≤ 1
  pub started :
      (family_id : ℕ)
      → (any (is_first family_id) db.refresh_tokens
          || not (any (in_family family_id) db.refresh_tokens))
        ≡ true
  pub one_id : (id : ℕ) → count (has_token_id id) db.refresh_tokens ≤ 1

unstarted :
    (db : Tables) (f : ℕ)
    → IsSessions db
    → any (is_first f) db.refresh_tokens ≡ false
    → any (in_family f) db.refresh_tokens ≡ false
unstarted db f s n = ground (arith, s.started f)

pub data Reachable (a : AuthService) (d : Directory) : Tables → Type 0 where
  start : Reachable a d (record { directory = d; sessions = []; refresh_tokens = [] })
  then_step : (db : Tables) {db' : Tables} → Reachable a d db → Step a db db' → Reachable a d db'

first-conflicts :
    (new : RefreshTokenRow) (rows : List RefreshTokenRow)
    → new.generation ≡ 0
    → any (conflicts new) rows ≡ false
    → any (is_first new.family_id) rows ≡ false
first-conflicts new [] z h = refl
first-conflicts new (t ∷ rows) z h = ground (arith, first-conflicts new rows z)

pub family_unused :
    (f : ℕ) (new : RefreshTokenRow) (db : Tables)
    → new.generation ≡ 0
    → any (conflicts new) db.refresh_tokens ≡ false
    → IsSessions db
    → in_family f new ≡ true
    → any (in_family f) db.refresh_tokens ≡ false
family_unused f new db z c s e =
    subst (λ (g : ℕ). any (in_family g) db.refresh_tokens ≡ false) ((==_iff new.family_id f).0 e)
      (unstarted db new.family_id s (first-conflicts new db.refresh_tokens z c))

one_id-new :
    (i : ℕ) (new : RefreshTokenRow) (rows : List RefreshTokenRow)
    → any (conflicts new) rows ≡ false
    → count (has_token_id i) rows ≤ 1
    → count (has_token_id i) (new ∷ rows) ≤ 1
one_id-new i new rows c le = elim (Bool-cases (has_token_id i new)) [
  | inr other ↦ ground (arith, le)
  | inl own ↦
      ground (arith, count-any (conflicts new) (has_token_id i) rows (λ t h. ground arith) c)
]

open-IsSessions :
    (new : RefreshTokenRow) (db db' : Tables)
    → new.generation ≡ 0
    → any (conflicts new) db.refresh_tokens ≡ false
    → db'.refresh_tokens ≡ new ∷ db.refresh_tokens
    → IsSessions db
    → IsSessions db'
open-IsSessions new db db' z c e s = record {
  one_live = λ f. rw e (elim (Bool-cases (in_family f new)) [
    | inr other ↦ ground (arith, s.one_live f)
    | inl own ↦ ground (
      arith,
      count-any (in_family f) (live_in f) db.refresh_tokens (λ t h. ground arith)
          (family_unused f new db z c s own),
    )
  ]);
  started = λ f. rw e (ground (arith, s.started f));
  one_id = λ i. rw e (one_id-new i new db.refresh_tokens c (s.one_id i));
}

revoke-IsSessions :
    (family_id session_id now : ℕ) (db : Tables)
    → IsSessions db
    → IsSessions (revoke_family family_id session_id now db)
unfolding revoke_family
revoke-IsSessions family_id session_id now db s = record {
  one_live = λ f. ground (
    arith,
    s.one_live f,
    count-update_rows (in_family family_id) (live_in f) (revoke_token now) db.refresh_tokens
        (λ t h. ground arith),
  );
  started = λ f.
      rw
        (
          any-update_rows (in_family family_id) (is_first f) (revoke_token now) db.refresh_tokens
              (λ t. refl),
          any-update_rows (in_family family_id) (in_family f) (revoke_token now) db.refresh_tokens
              (λ t. refl),
        )
        (s.started f);
  one_id = λ i. ground (
    arith,
    s.one_id i,
    count-update_rows (in_family family_id) (has_token_id i) (revoke_token now) db.refresh_tokens
        (λ t h. h),
  );
}

rotate-one_live :
    (id now f : ℕ) (row : RefreshRow) (next : IssuedOpaqueToken) (hash : Text)
    (rows : List RefreshTokenRow)
    → find (has_hash hash) rows ≡ some row.refresh_token
    → is_spent row ≡ false
    → count (live_in f) rows ≤ 1
    → count (live_in f) (
        update_rows
          (has_token_id row.refresh_token.id)
          (consume_token now id)
          (next_token id row next ∷ rows))
      ≤ 1
unfolding update_rows
rotate-one_live id now f row next hash rows found fresh le =
    elim (Bool-cases (in_family f row.refresh_token)) [
      | inr other ↦ ground (
        arith,
        count-update_rows (has_token_id row.refresh_token.id) (live_in f) (consume_token now id)
            rows (λ t h. ground arith),
      )
      | inl own ↦ ground (
        arith,
        count-update_rows-found (has_token_id row.refresh_token.id) (live_in f)
            (consume_token now id) (has_hash hash) rows row.refresh_token (λ t h. ground arith)
            found (ground arith) (ground arith) (ground arith),
      )
    ]

rotate-IsSessions :
    (id now : ℕ) (row : RefreshRow) (next : IssuedOpaqueToken) (hash : Text) (db db' : Tables)
    → find_refresh hash db ≡ some row
    → is_spent row ≡ false
    → rotate_token id now row next db ≡ ok db'
    → IsSessions db
    → IsSessions db'
rotate-IsSessions id now row next hash db db' found fresh h s =
    let made = rotate_token-eq-ok id now row next db db' h in
    subst IsSessions (sym made.1) (record {
      one_live = λ f.
          rotate-one_live id now f row next hash db.refresh_tokens
            (join_session-eq-some db.sessions _ row found).0 fresh (s.one_live f);
      started = λ f.
          rw
            (
              any-update_rows (has_token_id row.refresh_token.id) (is_first f)
                  (consume_token now id) (next_token id row next ∷ db.refresh_tokens) (λ t. refl),
              any-update_rows (has_token_id row.refresh_token.id) (in_family f)
                  (consume_token now id) (next_token id row next ∷ db.refresh_tokens) (λ t. refl),
            )
            (started_after f);
      one_id = λ i. ground (
        arith,
        one_id-new i (next_token id row next) db.refresh_tokens made.0 (s.one_id i),
        count-update_rows (has_token_id row.refresh_token.id) (has_token_id i)
            (consume_token now id) (next_token id row next ∷ db.refresh_tokens) (λ t h. h),
      );
    })
  where
    started_after :
        (f : ℕ)
        → (any (is_first f) (next_token id row next ∷ db.refresh_tokens)
            || not (any (in_family f) (next_token id row next ∷ db.refresh_tokens)))
          ≡ true
    started_after f =
        let q = join_session-eq-some db.sessions _ row found in
        elim (Bool-cases (any (is_first f) db.refresh_tokens)) [
          | inl e ↦ ground (arith, e)
          | inr e ↦
              let later = unstarted db f s e in
              ground (
                arith,
                later,
                find-any (in_family f) (has_hash hash) db.refresh_tokens row.refresh_token q.0
                    later,
              )
        ]

pub Change-IsSessions :
    (a : AuthService) (db db' : Tables) → Change a db db' → IsSessions db → IsSessions db'
Change-IsSessions a db db' (unchanged e) s = subst IsSessions (sym e) s
Change-IsSessions a db db' (opened f now user issued h) s =
    let made = open_session-eq-ok f now user issued db db' h in
    open-IsSessions (first_token f now issued) db db' refl made.1 made.3 s
Change-IsSessions a db db' (rotated id now row next hash found fresh h) s =
    rotate-IsSessions id now row next hash db db' found fresh h s
Change-IsSessions a db db' (revoked now t hash found e) s =
    subst IsSessions (sym e) (revoke-IsSessions t.family_id t.session_id now db s)

-- In every table of sessions that logins, refreshes and logouts can lead to from an empty one, at
-- most one token of each family is neither consumed nor revoked, and every family has the token
-- of its login.
pub Reachable-IsSessions :
    (a : AuthService) (d : Directory) {db : Tables} → Reachable a d db → IsSessions db
Reachable-IsSessions a d start = record {
  one_live = λ f. omega arith;
  started = λ f. refl;
  one_id = λ i. omega arith;
}
Reachable-IsSessions a d {db = db'} (then_step db r t) =
    Change-IsSessions a db db' (Step-Change a db db' t) (Reachable-IsSessions a d r)
