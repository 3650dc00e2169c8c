-- ===== src/Sessions/Refinement.antt =====
-- The calls refine the abstract machine.

use seven_network_manager.Base.Text.{Text}
use seven_network_manager.Base.Result.{ok}
use seven_network_manager.Base.{
  ==_iff, Bool-cases, List, Option, [], any, arith, false, find, inl, inr, none, refl, some, true,
  ℕ, ◌==◌, ◌∷◌, ◌≡◌,
}
use seven_network_manager.Accounts.{Directory}
use seven_network_manager.Token.{IssuedOpaqueToken}
use seven_network_manager.Sessions.Tables.{
  RefreshTokenRow, Tables, conflicts, consume_token, has_hash, has_token_id, in_family,
  revoke_family, revoke_token, update_rows,
}
use seven_network_manager.Sessions.Service.{AuthService, RefreshRow, find_refresh, is_spent}
use seven_network_manager.Sessions.Login.{first_token}
use seven_network_manager.Sessions.Refresh.{next_token, rotate_token}
use seven_network_manager.Sessions.Rows.{any-update_rows, find-any}
use seven_network_manager.Sessions.Families.{
  Change, Step, Step-Change, is_live, join_session-eq-some, live_in, opened, revoked, rotated,
  unchanged,
}
use seven_network_manager.Sessions.Live.{IsSessions, Reachable, Reachable-IsSessions, family_unused}
use seven_network_manager.Sessions.Outcomes.{open_session-eq-ok, rotate_token-eq-ok}
use seven_network_manager.Sessions.Machine.{
  All-count, All-from, Move, SpecStep, closed, closes, current, exchanges, family_state,
  find-any-none, find-count, find-update_rows-other, opens, state_of, stays,
}

-- A family other than that of a new token.
new_token-other :
    (new : RefreshTokenRow) (g : ℕ) (rows : List RefreshTokenRow)
    → (g == new.family_id) ≡ false
    → (any (in_family g) (new ∷ rows) ≡ any (in_family g) rows)
      × (find (live_in g) (new ∷ rows) ≡ find (live_in g) rows)
new_token-other new g rows h = (ground arith, ground arith)

in_own_family : (t : RefreshTokenRow) → in_family t.family_id t ≡ true
in_own_family t = (==_iff t.family_id t.family_id).1 refl

-- A live new token is the current one of its family.
new_token-own :
    (new : RefreshTokenRow) (rows : List RefreshTokenRow)
    → is_live new ≡ true
    → state_of
        (any (in_family new.family_id) (new ∷ rows))
        (find (live_in new.family_id) (new ∷ rows))
      ≡ current new.token_hash
new_token-own new rows live = ground (arith, in_own_family new, live)

opened-SpecStep :
    (new : RefreshTokenRow) (db db' : Tables)
    → db'.refresh_tokens ≡ new ∷ db.refresh_tokens
    → any (in_family new.family_id) db.refresh_tokens ≡ false
    → is_live new ≡ true
    → SpecStep (family_state db) (family_state db')
opened-SpecStep new db db' e free live = (
  new.family_id,
  λ g h. let k = new_token-other new g db.refresh_tokens h in rw (e, k.0, k.1) refl,
  rw (free, e, new_token-own new db.refresh_tokens live) (opens new.token_hash),
)

revoked-any :
    (f now : ℕ) (rows : List RefreshTokenRow)
    → any (live_in f) (update_rows (in_family f) (revoke_token now) rows) ≡ false
unfolding update_rows
revoked-any f now [] = refl
revoked-any f now (t ∷ rows) = ground (arith, revoked-any f now rows)

found_used :
    (hash : Text) (t : RefreshTokenRow) (rows : List RefreshTokenRow)
    → find (has_hash hash) rows ≡ some t
    → any (in_family t.family_id) rows ≡ true
found_used hash t rows found = elim (Bool-cases (any (in_family t.family_id) rows)) [
  | inl e ↦ e
  | inr e ↦ absurd (
      ground
        (arith, in_own_family t, find-any (in_family t.family_id) (has_hash hash) rows t found e))
]

shut-Move : (o : Option RefreshTokenRow) → Move (state_of true o) closed
shut-Move none = stays closed
shut-Move (some t) = closes t.token_hash

revoked-SpecStep :
    (now session_id : ℕ) (t : RefreshTokenRow) (hash : Text) (db : Tables)
    → find (has_hash hash) db.refresh_tokens ≡ some t
    → SpecStep (family_state db) (family_state (revoke_family t.family_id session_id now db))
unfolding revoke_family
revoked-SpecStep now session_id t hash db found =
    let used = found_used hash t db.refresh_tokens found in
    (
      t.family_id,
      λ g h.
          rw
            (
              any-update_rows (in_family t.family_id) (in_family g) (revoke_token now)
                  db.refresh_tokens (λ u. refl),
              find-update_rows-other (in_family t.family_id) (live_in g) (revoke_token now)
                  db.refresh_tokens
                  (All-from db.refresh_tokens (λ u e. (ground arith, ground arith))),
            )
            refl,
      rw
          (
            any-update_rows (in_family t.family_id) (in_family t.family_id) (revoke_token now)
                db.refresh_tokens (λ u. refl),
            used,
            find-any-none (live_in t.family_id)
                (update_rows (in_family t.family_id) (revoke_token now) db.refresh_tokens)
                (revoked-any t.family_id now db.refresh_tokens),
          )
          (shut-Move (find (live_in t.family_id) db.refresh_tokens)),
    )

rotated-SpecStep :
    (id now : ℕ) (row : RefreshRow) (next : IssuedOpaqueToken) (hash : Text) (db db' : Tables)
    → IsSessions db
    → find_refresh hash db ≡ some row
    → is_spent row ≡ false
    → rotate_token id now row next db ≡ ok db'
    → SpecStep (family_state db) (family_state db')
unfolding update_rows
rotated-SpecStep id now row next hash db db' s found fresh h =
    let made = rotate_token-eq-ok id now row next db db' h in
    let q = (join_session-eq-some db.sessions _ row found).0 in
    let t = row.refresh_token in
    let own_id = (==_iff t.id t.id).1 refl in
    let other_id : has_token_id t.id (next_token id row next) ≡ false =
      let k =
        find-any (conflicts (next_token id row next)) (has_hash hash) db.refresh_tokens t q
          made.0 in
      ground arith in
    let rest = update_rows (has_token_id t.id) (consume_token now id) db.refresh_tokens in
    (
      t.family_id,
      λ g k.
          let passed =
            All-count (has_token_id t.id) (has_hash hash)
              (λ u. (live_in g u ≡ false) × (live_in g (consume_token now id u) ≡ false))
              db.refresh_tokens t (s.one_id t.id) q own_id (ground arith, ground arith) in
          let apart = new_token-other (next_token id row next) g rest k in
          rw
            (
              made.1,
              other_id,
              apart.0,
              apart.1,
              any-update_rows (has_token_id t.id) (in_family g) (consume_token now id)
                  db.refresh_tokens (λ u. refl),
              find-update_rows-other (has_token_id t.id) (live_in g) (consume_token now id)
                  db.refresh_tokens passed,
            )
            refl,
      rw
          (
            found_used hash t db.refresh_tokens q,
            find-count (live_in t.family_id) (has_hash hash) db.refresh_tokens t
                (s.one_live t.family_id) q (let own = in_own_family t in ground arith),
            made.1,
            other_id,
            new_token-own (next_token id row next) rest refl,
          )
          (exchanges t.token_hash next.hash),
    )

Change-SpecStep :
    (a : AuthService) (db db' : Tables)
    → Change a db db'
    → IsSessions db
    → SpecStep (family_state db) (family_state db')
Change-SpecStep a db db' (unchanged e) s = rw e (0, λ g h. refl, stays (family_state db 0))
Change-SpecStep a db db' (opened f now user issued h) s =
    let made = open_session-eq-ok f now user issued db db' h in
    let new = first_token f now issued in
    opened-SpecStep new db db' made.3
      (family_unused f.family_id new db refl made.1 s (in_own_family new)) refl
Change-SpecStep a db db' (rotated id now row next hash found fresh h) s =
    rotated-SpecStep id now row next hash db db' s found fresh h
Change-SpecStep a db db' (revoked now t hash found e) s =
    rw e (revoked-SpecStep now t.session_id t hash db found)

-- Every login, refresh and logout refines one step of an abstract machine over the families of refresh
-- tokens, from every reachable table: at most one family changes its state, and it goes from
-- unused to having a current token, from there to another current token or to closed, and never
-- out of closed.
pub Step-SpecStep :
    (a : AuthService) (d : Directory) (db db' : Tables)
    → Reachable a d db
    → Step a db db'
    → SpecStep (family_state db) (family_state db')
Step-SpecStep a d db db' reached t =
    Change-SpecStep a db db' (Step-Change a db db' t) (Reachable-IsSessions a d reached)
