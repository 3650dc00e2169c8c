-- ===== src/Sessions/Families.antt =====
-- What the calls do to the families of refresh tokens.

use seven_network_manager.Base.Text.{Text}
use seven_network_manager.Base.Result.{Result-cases, ok}
use seven_network_manager.Base.{
  Bool, Bool-cases, List, Option, Option-cases, arith, false, find, inl, inr, is_none, none, refl,
  some, subst, ℕ, ◌&&◌, ◌≡◌,
}
use mathlib.Core.Option.{some-injective}
use seven_network_manager.Token.{IssuedOpaqueToken, hash_opaque_token}
use seven_network_manager.Sessions.Tables.{
  RefreshTokenRow, SessionRow, Tables, has_hash, has_session_id, in_family, revoke_family,
}
use seven_network_manager.Sessions.Service.{
  AuthService, Fresh, LoginRequest, LoginUser, RefreshRow, find_refresh, is_expired, is_spent,
  issue_tokens, join_session,
}
use seven_network_manager.Sessions.Login.{login, open_session, start_session}
use seven_network_manager.Sessions.Refresh.{logout, refresh, refresh_found, rotate_token}

-- A token that can still be used.
abbrev pub is_live : RefreshTokenRow → Bool
is_live t = is_none t.consumed_at && is_none t.revoked_at

abbrev pub live_in : ℕ → RefreshTokenRow → Bool
live_in family_id t = in_family family_id t && is_live t

-- A call of one of the methods that change the tables.
pub data Step (a : AuthService) (db db' : Tables) : Type 0 where
  logged_in :
      (f : Fresh) (now : ℕ) (request : LoginRequest)
      → (login a f now request db).1 ≡ db'
      → Step a db db'
  refreshed :
      (f : Fresh) (now : ℕ) (presented : Text)
      → (refresh a f now presented db).1 ≡ db'
      → Step a db db'
  logged_out : (now : ℕ) (presented : Text) → (logout a now presented db).1 ≡ db' → Step a db db'

-- What a call leaves of the tables: nothing changed, a new session, a rotation or a revocation.
pub data Change (a : AuthService) (db db' : Tables) : Type 0 where
  unchanged : db' ≡ db → Change a db db'
  opened :
      (f : Fresh) (now : ℕ) (user : LoginUser) (issued : IssuedOpaqueToken)
      → open_session f now user issued db ≡ ok db'
      → Change a db db'
  rotated :
      (id now : ℕ) (row : RefreshRow) (next : IssuedOpaqueToken) (hash : Text)
      → find_refresh hash db ≡ some row
      → is_spent row ≡ false
      → rotate_token id now row next db ≡ ok db'
      → Change a db db'
  revoked :
      (now : ℕ) (t : RefreshTokenRow) (hash : Text)
      → find (has_hash hash) db.refresh_tokens ≡ some t
      → db' ≡ revoke_family t.family_id t.session_id now db
      → Change a db db'

pub join_session-eq-some :
    (sessions : List SessionRow) (o : Option RefreshTokenRow) (row : RefreshRow)
    → join_session sessions o ≡ some row
    → (o ≡ some row.refresh_token)
      × (find (has_session_id row.refresh_token.session_id) sessions ≡ some row.session)
join_session-eq-some sessions none row h = cc
join_session-eq-some sessions (some t) row h =
    elim (Option-cases (find (has_session_id t.session_id) sessions)) [
      | inl e ↦ absurd (ground arith)
      | inr (s, e) ↦
          subst
            (λ (r : RefreshRow).
              (some t ≡ some r.refresh_token)
              × (find (has_session_id r.refresh_token.session_id) sessions ≡ some r.session))
            (some-injective _ _ (rw (e, join_session) at h)) (refl, e)
    ]

start_session-eq-ok :
    (a : AuthService) (f : Fresh) (now : ℕ) (request : LoginRequest) (db : Tables)
    (user : LoginUser) (issued : IssuedOpaqueToken × IssuedOpaqueToken) (db' : Tables)
    → start_session a f now request db ≡ ok (user, issued, db')
    → open_session f now user issued.0 db ≡ ok db'
unfolding start_session
start_session-eq-ok a f now request db user issued db' h = ground arith

login-Change :
    (a : AuthService) (f : Fresh) (now : ℕ) (request : LoginRequest) (db : Tables)
    → Change a db (login a f now request db).1
unfolding login
login-Change a f now request db = elim (Result-cases (start_session a f now request db)) [
  | inr (e, h) ↦ unchanged (rw h refl)
  | inl ((user, issued, db'), h) ↦
      rw h (opened f now user issued.0 (start_session-eq-ok a f now request db user issued db' h))
]

refresh_found-Change :
    (a : AuthService) (f : Fresh) (now : ℕ) (issued : IssuedOpaqueToken × IssuedOpaqueToken)
    (hash : Text) (db : Tables)
    → Change a db (refresh_found a f now issued db (find_refresh hash db)).1
unfolding refresh_found
refresh_found-Change a f now issued hash db = elim (Option-cases (find_refresh hash db)) [
  | inl e ↦ unchanged (rw e refl)
  | inr (row, e) ↦ rw e (elim (Bool-cases (is_spent row)) [
    | inl spent ↦
        rw spent
          (revoked now row.refresh_token hash (join_session-eq-some db.sessions _ row e).0 refl)
    | inr fresh ↦ rw fresh (elim (Bool-cases (is_expired now row)) [
      | inl late ↦
          rw late
            (revoked now row.refresh_token hash (join_session-eq-some db.sessions _ row e).0 refl)
      | inr timely ↦ rw timely (elim (Result-cases (rotate_token f.token_id now row issued.0 db)) [
        | inr (x, h) ↦ unchanged (rw h refl)
        | inl (db', h) ↦ rw h (rotated f.token_id now row issued.0 hash e fresh h)
      ])
    ])
  ])
]

pub refresh-Change :
    (a : AuthService) (f : Fresh) (now : ℕ) (presented : Text) (db : Tables)
    → Change a db (refresh a f now presented db).1
unfolding refresh
refresh-Change a f now presented db = elim (Result-cases (issue_tokens a f)) [
  | inr (e, h) ↦ unchanged (rw h refl)
  | inl (issued, h) ↦
      rw h (refresh_found-Change a f now issued (hash_opaque_token a.tokens presented) db)
]

logout-Change :
    (a : AuthService) (now : ℕ) (presented : Text) (db : Tables)
    → Change a db (logout a now presented db).1
unfolding logout
logout-Change a now presented db =
    elim (Option-cases (find (has_hash (hash_opaque_token a.tokens presented)) db.refresh_tokens)) [
      | inl e ↦ unchanged (rw e refl)
      | inr (t, e) ↦ rw e (revoked now t (hash_opaque_token a.tokens presented) e refl)
    ]

pub Step-Change : (a : AuthService) (db db' : Tables) → Step a db db' → Change a db db'
Step-Change a db db' (logged_in f now request e) =
    subst (Change a db) e (login-Change a f now request db)
Step-Change a db db' (refreshed f now presented e) =
    subst (Change a db) e (refresh-Change a f now presented db)
Step-Change a db db' (logged_out now presented e) =
    subst (Change a db) e (logout-Change a now presented db)
