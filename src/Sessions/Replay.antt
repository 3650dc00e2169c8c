-- ===== src/Sessions/Replay.antt =====
-- What stays of a row through later calls: a spent token stays spent, and a revoked session revoked.

use seven_network_manager.Base.Text.{Text, text_eq, text_eq-eq, text_eq_refl}
use seven_network_manager.Base.{
  Bool, Bool-cases, List, any, arith, false, find, if◌then◌else◌, inl, inr, is_some, refl, some,
  subst, sym, true, ℕ, ◌∷◌, ◌≡◌,
}
use seven_network_manager.Sessions.Tables.{
  RefreshTokenRow, SessionRow, Tables, conflicts, consume_token, has_hash, has_session_id,
  has_token_id, in_family, revoke_family, revoke_session, revoke_token, update_rows, use_session,
}
use seven_network_manager.Sessions.Service.{AuthService}
use seven_network_manager.Sessions.Login.{first_token, new_session}
use seven_network_manager.Sessions.Refresh.{next_token}
use seven_network_manager.Sessions.Rows.{find-any, find-test, find-update_rows, updated}
use seven_network_manager.Sessions.Families.{Change, Step, opened, revoked, rotated, unchanged}
use seven_network_manager.Sessions.Outcomes.{open_session-eq-ok, rotate_token-eq-ok}

pub data Steps (a : AuthService) : Tables → Tables → Type 0 where
  done : (db : Tables) → Steps a db db
  then_steps : (db db' db'' : Tables) → Step a db db' → Steps a db' db'' → Steps a db db''

pub record KeptSession (s s' : SessionRow) : Type 0 where
  pub same_id : s'.id ≡ s.id
  pub revoked_stays : is_some s.revoked_at ≡ true → is_some s'.revoked_at ≡ true

pub record KeptToken (t t' : RefreshTokenRow) : Type 0 where
  pub same_session : t'.session_id ≡ t.session_id
  pub consumed_stays : is_some t.consumed_at ≡ true → is_some t'.consumed_at ≡ true
  pub revoked_stays : is_some t.revoked_at ≡ true → is_some t'.revoked_at ≡ true

-- The session with an id, or the token with a hash, is still there.
abbrev pub SessionStays : ℕ → Tables → Tables → Type 0
SessionStays id db db' =
    (s : SessionRow)
    → find (has_session_id id) db.sessions ≡ some s
    → (s' : SessionRow) × (find (has_session_id id) db'.sessions ≡ some s') × KeptSession s s'

abbrev pub TokenStays : Text → Tables → Tables → Type 0
TokenStays hash db db' =
    (t : RefreshTokenRow)
    → find (has_hash hash) db.refresh_tokens ≡ some t
    → (t' : RefreshTokenRow) × (find (has_hash hash) db'.refresh_tokens ≡ some t') × KeptToken t t'

session_unchanged : (s : SessionRow) → KeptSession s s
session_unchanged s = record { same_id = refl; revoked_stays = λ h. h }

token_unchanged : (t : RefreshTokenRow) → KeptToken t t
token_unchanged t = record { same_session = refl; consumed_stays = λ h. h; revoked_stays = λ h. h }

find-new_session :
    (id : ℕ) (new s : SessionRow) (rows : List SessionRow)
    → any (has_session_id new.id) rows ≡ false
    → find (has_session_id id) rows ≡ some s
    → find (has_session_id id) (new ∷ rows) ≡ some s
find-new_session id new s rows c h =
    let other = find-any (has_session_id new.id) (has_session_id id) rows s h c in
    let own = find-test (has_session_id id) rows s h in ground (arith, h)

pub find-new_token :
    (hash : Text) (new t : RefreshTokenRow) (rows : List RefreshTokenRow)
    → any (conflicts new) rows ≡ false
    → find (has_hash hash) rows ≡ some t
    → find (has_hash hash) (new ∷ rows) ≡ some t
find-new_token hash new t rows c h =
    let other = find-any (conflicts new) (has_hash hash) rows t h c in
    let own = find-test (has_hash hash) rows t h in
    elim (Bool-cases (has_hash hash new)) [
      | inr e ↦ rw (find, e) h
      | inl e ↦ absurd (
          ground (
            arith,
            other,
            text_eq_refl hash,
            subst (λ (u : Text). text_eq t.token_hash u ≡ true)
                (sym (text_eq-eq new.token_hash hash e)) own,
          ))
    ]

update-SessionStays :
    (p : SessionRow → Bool) (f : SessionRow → SessionRow) (id : ℕ) (rows : List SessionRow)
    (s : SessionRow)
    → ((u : SessionRow) → has_session_id id (f u) ≡ has_session_id id u)
    → KeptSession s (f s)
    → find (has_session_id id) rows ≡ some s
    → (s' : SessionRow) × (find (has_session_id id) (update_rows p f rows) ≡ some s')
      × KeptSession s s'
update-SessionStays p f id rows s k kept h = (
  updated p f s,
  find-update_rows p (has_session_id id) f rows s k h,
  elim (Bool-cases (p s)) [
    | inl e ↦ subst (λ b. KeptSession s (if b then f s else s)) (sym e) kept
    | inr e ↦ subst (λ b. KeptSession s (if b then f s else s)) (sym e) (session_unchanged s)
  ],
)

update-TokenStays :
    (p : RefreshTokenRow → Bool) (f : RefreshTokenRow → RefreshTokenRow) (hash : Text)
    (rows : List RefreshTokenRow) (t : RefreshTokenRow)
    → ((u : RefreshTokenRow) → has_hash hash (f u) ≡ has_hash hash u)
    → KeptToken t (f t)
    → find (has_hash hash) rows ≡ some t
    → (t' : RefreshTokenRow) × (find (has_hash hash) (update_rows p f rows) ≡ some t')
      × KeptToken t t'
update-TokenStays p f hash rows t k kept h = (
  updated p f t,
  find-update_rows p (has_hash hash) f rows t k h,
  elim (Bool-cases (p t)) [
    | inl e ↦ subst (λ b. KeptToken t (if b then f t else t)) (sym e) kept
    | inr e ↦ subst (λ b. KeptToken t (if b then f t else t)) (sym e) (token_unchanged t)
  ],
)

pub Change-SessionStays :
    (a : AuthService) (id : ℕ) (db db' : Tables) → Change a db db' → SessionStays id db db'
unfolding revoke_family
Change-SessionStays a id db db' (unchanged e) s h = (s, rw e h, session_unchanged s)
Change-SessionStays a id db db' (opened f now user issued o) s h =
    let made = open_session-eq-ok f now user issued db db' o in
    (
      s,
      rw made.2 (find-new_session id (new_session f now user issued) s db.sessions made.0 h),
      session_unchanged s,
    )
Change-SessionStays a id db db' (rotated next_id now row next hash found fresh o) s h =
    rw (rotate_token-eq-ok next_id now row next db db' o).1 (
      update-SessionStays (has_session_id row.refresh_token.session_id)
        (use_session next.hash next.prefix now) id db.sessions s (λ u. refl)
        (record { same_id = refl; revoked_stays = λ r. r }) h)
Change-SessionStays a id db db' (revoked now t hash found e) s h =
    rw (e, revoke_family)
      (update-SessionStays (has_session_id t.session_id) (revoke_session now) id db.sessions s
        (λ u. refl) (record { same_id = refl; revoked_stays = λ r. ground arith }) h)

pub Change-TokenStays :
    (a : AuthService) (hash : Text) (db db' : Tables) → Change a db db' → TokenStays hash db db'
unfolding revoke_family
Change-TokenStays a hash db db' (unchanged e) t h = (t, rw e h, token_unchanged t)
Change-TokenStays a hash db db' (opened f now user issued o) t h =
    let made = open_session-eq-ok f now user issued db db' o in
    (
      t,
      rw made.3 (find-new_token hash (first_token f now issued) t db.refresh_tokens made.1 h),
      token_unchanged t,
    )
Change-TokenStays a hash db db' (rotated next_id now row next other found fresh o) t h =
    let made = rotate_token-eq-ok next_id now row next db db' o in
    rw made.1 (
      update-TokenStays (has_token_id row.refresh_token.id) (consume_token now next_id) hash
        (next_token next_id row next ∷ db.refresh_tokens) t (λ u. refl)
        (record { same_session = refl; consumed_stays = λ r. refl; revoked_stays = λ r. r })
        (find-new_token hash (next_token next_id row next) t db.refresh_tokens made.0 h))
Change-TokenStays a hash db db' (revoked now t' other found e) t h =
    rw (e, revoke_family)
      (update-TokenStays (in_family t'.family_id) (revoke_token now) hash db.refresh_tokens t
        (λ u. refl)
        (record { same_session = refl; consumed_stays = λ r. r; revoked_stays = λ r. ground arith })
        h)
