-- ===== src/Sessions/Cookies.antt =====
-- Cookies and headers of the session endpoints (apps/backend/src/auth.rs).

use seven_network_manager.Base.Text.{Text, codes, text_eq, trim}
use seven_network_manager.Base.{
  Bool, List, Option, [], false, if◌then◌else◌, is_empty, none, some, ℕ, ◌++◌, ◌==◌, ◌∷◌,
}
use seven_network_manager.Base.Split.{split, split_once}
use seven_network_manager.Token.{hash_opaque_token, opaque_token_matches}
use seven_network_manager.Sessions.Service.{AuthService, IssuedSession}

-- Of a request, the first value of each header that the code reads, where it is there and is text.
pub record HeaderMap : Type 0 where
  pub cookie : Option Text
  pub csrf : Option Text
  pub authorization : Option Text

abbrev pub text_of : Option (Text × Text) → Text → Option Text
text_of none name = none
text_of (some (key, value)) name = if text_eq key name then some value else none

abbrev pub first_some : Option Text → Option Text → Option Text
first_some none later = later
first_some (some value) later = some value

-- The parts of a cookie header, up to the first with the name.
unfoldable pub find_cookie : Text → List Text → Option Text
unfolding split_once
find_cookie name [] = none
find_cookie name (part ∷ parts) =
    first_some (text_of (split_once b'=' (trim part)) name) (find_cookie name parts)

abbrev pub semicolon : ℕ
semicolon = b';'

abbrev pub cookie_in : Text → Option Text → Option Text
cookie_in name none = none
cookie_in name (some value) = find_cookie name (split semicolon value)

unfoldable pub cookie_value : HeaderMap → Text → Option Text
unfolding find_cookie
cookie_value headers name = cookie_in name headers.cookie

-- `strip_prefix`
unfoldable pub strip_prefix : Text → Text → Option Text
strip_prefix [] s = some s
strip_prefix (p ∷ ps) [] = none
strip_prefix (p ∷ ps) (c ∷ s) = if c == p then strip_prefix ps s else none

abbrev pub filled : Option Text → Option Text
filled none = none
filled (some s) = if is_empty s then none else some s

abbrev pub bearer_in : Option Text → Option Text
bearer_in none = none
bearer_in (some value) = filled (strip_prefix (codes "Bearer ") value)

unfoldable pub bearer_token : HeaderMap → Option Text
unfolding strip_prefix
bearer_token headers = bearer_in headers.authorization

module _ (a : AuthService) where
  abbrev pub refresh_cookie_name : Text
  refresh_cookie_name = if a.cookie_secure then codes "__Host-snm_refresh" else codes "snm_refresh"

  abbrev pub csrf_cookie_name : Text
  csrf_cookie_name = if a.cookie_secure then codes "__Host-snm_csrf" else codes "snm_csrf"

  abbrev pub header_matches : Option Text → Text → Bool
  header_matches none cookie = false
  header_matches (some value) cookie =
      opaque_token_matches a.tokens value (hash_opaque_token a.tokens cookie)

  abbrev pub csrf_matches : HeaderMap → Option Text → Bool
  csrf_matches headers none = false
  csrf_matches headers (some cookie) = header_matches headers.csrf cookie

  unfoldable pub csrf_valid : HeaderMap → Text → Bool
  unfolding cookie_value
  csrf_valid headers cookie_name = csrf_matches headers (cookie_value headers cookie_name)

  abbrev pub secure_part : Text
  secure_part = if a.cookie_secure then codes "; Secure" else []

  -- The number is `REFRESH_TTL_DAYS * 24 * 60 * 60`.
  abbrev pub refresh_cookie : IssuedSession → Text
  refresh_cookie s =
      refresh_cookie_name
      ++ codes "="
      ++ s.refresh_token.secret
      ++ codes "; Path=/; HttpOnly; SameSite=Strict; Max-Age=2592000"
      ++ secure_part

  abbrev pub csrf_cookie : IssuedSession → Text
  csrf_cookie s =
      csrf_cookie_name
      ++ codes "="
      ++ s.csrf_token.secret
      ++ codes "; Path=/; SameSite=Strict; Max-Age=2592000"
      ++ secure_part
