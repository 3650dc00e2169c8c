-- ===== src/Sessions/Csrf.antt =====
-- What the handlers refuse, and the cookies that come back.

use seven_network_manager.Base.Text.{Text}
use seven_network_manager.Base.{
  Bool, Option-cases, arith, false, inl, inr, refl, some, true, ℕ, ◌↔◌, ◌≡◌,
}
use seven_network_manager.Token.{hash_opaque_token}
use seven_network_manager.Sessions.Tables.{Tables, csrf_rejected}
use seven_network_manager.Sessions.Service.{AuthService, Fresh}
use seven_network_manager.Token.Opaque.{opaque_token_matches_iff}
use seven_network_manager.Sessions.Cookies.{
  HeaderMap, cookie_value, csrf_cookie_name, csrf_valid, refresh_cookie_name,
}
use seven_network_manager.Sessions.Http.{auth_error_response, logout_handler, refresh_handler}

module _ (a : AuthService) (is_header_value : Text → Bool) where
  -- A request with a refresh cookie whose CSRF header does not match its CSRF cookie is answered by the CSRF
  -- error, at the refresh and at the logout endpoint, and neither changes the tables.
  pub handlers-csrf_rejected :
      (f : Fresh) (now : ℕ) (headers : HeaderMap) (cookie : Text) (db : Tables)
      → cookie_value headers (refresh_cookie_name a) ≡ some cookie
      → csrf_valid a headers (csrf_cookie_name a) ≡ false
      → (refresh_handler a is_header_value f now headers db
          ≡ (auth_error_response csrf_rejected, db))
        × (logout_handler a is_header_value now headers db
            ≡ (auth_error_response csrf_rejected, db))
  unfolding refresh_handler logout_handler
  handlers-csrf_rejected f now headers cookie db k h = (rw (k, h) refl, rw (k, h) refl)

module _ (a : AuthService) where
  -- Where the codes of two hashes are equal only if the hashes are, the CSRF test passes exactly if the
  -- request has a CSRF cookie and a header value with the same hash.
  pub csrf_valid_iff :
      ((key x y : Text) → a.tokens.hmac key x ≡ a.tokens.hmac key y → x ≡ y)
      → (headers : HeaderMap) → (name : Text)
      → (csrf_valid a headers name ≡ true) ↔ (
          (cookie : Text) × (value : Text) × (cookie_value headers name ≡ some cookie)
          × (headers.csrf ≡ some value)
          × (hash_opaque_token a.tokens value ≡ hash_opaque_token a.tokens cookie))
  unfolding csrf_valid
  csrf_valid_iff injective headers name = (
    forth,
    λ (cookie, value, c, v, e).
        rw (c, v) ((opaque_token_matches_iff a.tokens injective value _).1 e),
  )
    where
      forth :
          csrf_valid a headers name ≡ true
          → (cookie : Text) × (value : Text) × (cookie_value headers name ≡ some cookie)
            × (headers.csrf ≡ some value)
            × (hash_opaque_token a.tokens value ≡ hash_opaque_token a.tokens cookie)
      forth h = elim (Option-cases (cookie_value headers name)) [
        | inl e ↦ absurd (ground arith)
        | inr (cookie, e) ↦ elim (Option-cases headers.csrf) [
          | inl k ↦ absurd (ground arith)
          | inr (value, k) ↦ (
            cookie,
            value,
            e,
            k,
            (opaque_token_matches_iff a.tokens injective value _).0 (ground arith),
          )
        ]
      ]
