-- ===== src/Sessions/Login.antt =====
-- `AuthService::login` and `authenticate_access` (apps/backend/src/auth.rs).

use seven_network_manager.Base.Int.{leb_ℤ, ℤ}
use seven_network_manager.Base.Text.{Text}
use seven_network_manager.Base.Result.{Result, err, fail_if, map_err, ok, ok_or, ◌>>=◌, ◌>>◌}
use seven_network_manager.Base.{
  Bool, Option, false, find, is_some, leb, none, not, some, ℕ, ◌+◌, ◌==◌, ◌||◌,
}
use seven_network_manager.Token.{AccessClaims, IssuedOpaqueToken, decode_access_token}
use seven_network_manager.Sessions.Tables.{
  AuthError, RefreshTokenRow, SessionRow, Tables, has_session_id, insert_refresh_token,
  insert_session, invalid_session,
}
use seven_network_manager.Sessions.Service.{
  AuthService, Fresh, IssuedSession, LoginRequest, LoginUser, SessionIdentity, identity_of,
  issue_session, issue_tokens, session_lifetime, timestamp, to_invalid_session, touch_user,
  verified_user,
}

abbrev pub new_session : Fresh → ℕ → LoginUser → IssuedOpaqueToken → SessionRow
new_session f now user refresh = record {
  id = f.session_id;
  organization_id = user.organization_id;
  user_id = user.user_id;
  refresh_token_hash = refresh.hash;
  refresh_token_prefix = refresh.prefix;
  expires_at = now + session_lifetime;
  revoked_at = none;
  last_used_at = now;
  access_revoked_before = none;
}

abbrev pub first_token : Fresh → ℕ → IssuedOpaqueToken → RefreshTokenRow
first_token f now refresh = record {
  id = f.token_id;
  session_id = f.session_id;
  family_id = f.family_id;
  generation = 0;
  token_prefix = refresh.prefix;
  token_hash = refresh.hash;
  expires_at = now + session_lifetime;
  consumed_at = none;
  revoked_at = none;
  replaced_by_id = none;
}

-- The transaction of `login`.
unfoldable pub open_session :
    Fresh → ℕ → LoginUser → IssuedOpaqueToken → Tables → Result AuthError Tables
unfolding insert_session insert_refresh_token
open_session f now user refresh db = do
  with_session ← insert_session (new_session f now user refresh) db
  with_token ← insert_refresh_token (first_token f now refresh) with_session
  ok (touch_user user.user_id now with_token)

abbrev pub cutoff_passed : Option ℕ → ℤ → Bool
cutoff_passed none iat = false
cutoff_passed (some cutoff) iat = leb_ℤ iat (timestamp cutoff)

-- What `authenticate_access` refuses of the session that it finds.
abbrev pub session_refused : AccessClaims → ℕ → SessionRow → Bool
session_refused claims now s =
    not (s.user_id == claims.sub)
    || not (s.organization_id == claims.org)
    || is_some s.revoked_at
    || leb s.expires_at now
    || cutoff_passed s.access_revoked_before claims.iat

module _ (a : AuthService) where
  -- Up to the commit.
  unfoldable pub start_session :
      Fresh
      → ℕ
      → LoginRequest
      → Tables
      → Result AuthError (LoginUser × (IssuedOpaqueToken × IssuedOpaqueToken) × Tables)
  unfolding verified_user issue_tokens open_session
  start_session f now request db = do
    user ← verified_user a request db.directory
    issued ← issue_tokens a f
    db' ← open_session f now user issued.0 db
    ok (user, issued, db')

  -- After the commit.
  abbrev pub finish_login :
      Fresh
      → ℕ
      → Tables
      → Result AuthError (LoginUser × (IssuedOpaqueToken × IssuedOpaqueToken) × Tables)
      → Result AuthError IssuedSession × Tables
  finish_login f now db (err e) = (err e, db)
  finish_login f now db (ok (user, issued, db')) = (
    issue_session a f now
        (identity_of a db'.directory f.session_id user.user_id user.organization_id) issued,
    db',
  )

  unfoldable pub login : Fresh → ℕ → LoginRequest → Tables → Result AuthError IssuedSession × Tables
  unfolding start_session
  login f now request db = finish_login f now db (start_session f now request db)

  unfoldable pub authenticate_access : ℕ → Text → Tables → Result AuthError SessionIdentity
  authenticate_access now token db = do
    claims ←
        map_err to_invalid_session
          (decode_access_token a.tokens token a.access_key (timestamp now) a.issuer a.audience)
    s ← ok_or (find (has_session_id claims.sid) db.sessions) invalid_session
    fail_if (session_refused claims now s) invalid_session
    ok (identity_of a db.directory claims.sid s.user_id s.organization_id)
