-- ===== src/Sessions/Http.antt =====
-- The handlers of the session endpoints (apps/backend/src/auth.rs). Whether a text can be a header's
-- value is a parameter.

use seven_network_manager.Base.Text.{Text, codes, contains}
use seven_network_manager.Base.Result.{Result, err, fail_if, ok, ◌>>◌}
use seven_network_manager.Base.{
  Bool, List, Option, [], if◌then◌else◌, keep, none, not, some, ℕ, ◌++◌, ◌∷◌,
}
use seven_network_manager.Sessions.Tables.{
  AuthError, Tables, csrf_rejected, invalid_credentials, invalid_request, invalid_session,
  refresh_reuse_detected, unavailable,
}
use seven_network_manager.Sessions.Service.{
  AuthService, Fresh, IssuedSession, LoginRequest, SessionIdentity, access_ttl_seconds,
}
use seven_network_manager.Sessions.Login.{authenticate_access, login}
use seven_network_manager.Sessions.Refresh.{logout, refresh}
use seven_network_manager.Sessions.Cookies.{
  HeaderMap, bearer_token, cookie_value, csrf_cookie, csrf_cookie_name, csrf_valid, refresh_cookie,
  refresh_cookie_name, secure_part,
}

pub record AccessResponse : Type 0 where
  pub access_token : Text
  pub token_type : Text
  pub expires_in_seconds : ℕ
  pub csrf_token : Text

pub record MeResponse : Type 0 where
  pub user_id : ℕ
  pub organization_id : ℕ
  pub session_id : ℕ
  pub permissions : List Text

-- The responses; the list is of the values of `Set-Cookie`, and those with one are not stored.
pub data Response : Type 0 where
  issued : List Text → AccessResponse → Response
  no_content : List Text → Response
  me_found : MeResponse → Response
  failed : ℕ → Text → Text → Response

-- `auth_error_response`
unfoldable pub auth_error_response : AuthError → Response
auth_error_response invalid_credentials =
    failed 401 (codes "invalid_credentials") (codes "invalid credentials")
auth_error_response invalid_session =
    failed 401 (codes "invalid_session") (codes "invalid or expired session")
auth_error_response refresh_reuse_detected =
    failed 401 (codes "refresh_reuse_detected") (codes "session revoked after refresh-token reuse")
auth_error_response csrf_rejected =
    failed 403 (codes "csrf_rejected") (codes "CSRF validation failed")
auth_error_response invalid_request =
    failed 422 (codes "invalid_auth_request") (codes "authentication request is invalid")
auth_error_response unavailable =
    failed 503 (codes "auth_unavailable")
      (codes "authentication subsystem is temporarily unavailable")

module _ (a : AuthService) (is_header_value : Text → Bool) where
  unfoldable pub session_cookie_headers : IssuedSession → Result AuthError (List Text)
  session_cookie_headers s = do
    fail_if (not (is_header_value (refresh_cookie a s))) unavailable
    fail_if (not (is_header_value (csrf_cookie a s))) unavailable
    ok (refresh_cookie a s ∷ csrf_cookie a s ∷ [])

  abbrev pub clear_cookie : Text → Text
  clear_cookie name =
      name
      ++ codes "=; Path=/; SameSite=Strict; Max-Age=0"
      ++ (if contains name (codes "refresh") then codes "; HttpOnly" else [])
      ++ (secure_part a)

  unfoldable pub clear_cookie_headers : List Text
  clear_cookie_headers =
      keep is_header_value
        (clear_cookie (refresh_cookie_name a) ∷ clear_cookie (csrf_cookie_name a) ∷ [])

  abbrev pub issued_with : IssuedSession → Result AuthError (List Text) → Response
  issued_with s (err e) = auth_error_response e
  issued_with s (ok cookies) = issued cookies (record {
    access_token = s.access_token;
    token_type = codes "Bearer";
    expires_in_seconds = access_ttl_seconds;
    csrf_token = s.csrf_token.secret;
  })

  unfoldable pub issued_response : IssuedSession → Response
  unfolding session_cookie_headers auth_error_response
  issued_response s = issued_with s (session_cookie_headers s)

  -- The response to a result.
  abbrev pub respond_issued : Result AuthError IssuedSession → Response
  respond_issued (ok s) = issued_response s
  respond_issued (err e) = auth_error_response e

  unfoldable pub login_handler : Fresh → ℕ → LoginRequest → Tables → Response × Tables
  unfolding issued_response auth_error_response
  login_handler f now request db =
      let (result, db') = login a f now request db in (respond_issued result, db')

  abbrev pub refresh_with : Fresh → ℕ → HeaderMap → Tables → Option Text → Response × Tables
  refresh_with f now headers db none = (auth_error_response invalid_session, db)
  refresh_with f now headers db (some cookie) =
      if not (csrf_valid a headers (csrf_cookie_name a))
      then (auth_error_response csrf_rejected, db)
      else let (result, db') = refresh a f now cookie db in (respond_issued result, db')

  unfoldable pub refresh_handler : Fresh → ℕ → HeaderMap → Tables → Response × Tables
  unfolding csrf_valid issued_response auth_error_response cookie_value
  refresh_handler f now headers db =
      refresh_with f now headers db (cookie_value headers (refresh_cookie_name a))

  abbrev pub respond_logout : Result AuthError (Unit {0}) → Response
  respond_logout (ok u) = no_content clear_cookie_headers
  respond_logout (err e) = auth_error_response e

  abbrev pub logout_with : ℕ → HeaderMap → Tables → Option Text → Response × Tables
  logout_with now headers db none = (no_content clear_cookie_headers, db)
  logout_with now headers db (some cookie) =
      if not (csrf_valid a headers (csrf_cookie_name a))
      then (auth_error_response csrf_rejected, db)
      else let (result, db') = logout a now cookie db in (respond_logout result, db')

  unfoldable pub logout_handler : ℕ → HeaderMap → Tables → Response × Tables
  unfolding csrf_valid clear_cookie_headers auth_error_response cookie_value
  logout_handler now headers db =
      logout_with now headers db (cookie_value headers (refresh_cookie_name a))

  abbrev pub respond_me : Result AuthError SessionIdentity → Response
  respond_me (err e) = auth_error_response e
  respond_me (ok identity) = me_found (record {
    user_id = identity.user_id;
    organization_id = identity.organization_id;
    session_id = identity.session_id;
    permissions = identity.permissions;
  })

  abbrev pub me_with : ℕ → Tables → Option Text → Response
  me_with now db none = auth_error_response invalid_session
  me_with now db (some token) = respond_me (authenticate_access a now token db)

  unfoldable pub me_handler : ℕ → HeaderMap → Tables → Response
  unfolding bearer_token auth_error_response
  me_handler now headers db = me_with now db (bearer_token headers)
