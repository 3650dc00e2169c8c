-- ===== src/Authorization.antt =====
-- Authorisation of the backend's requests (apps/backend/src/authorization.rs).
pub mod Principals
pub mod Strictness
pub mod Sites
pub mod Bootstrapped
mod Tests
use seven_network_manager.Base.Text.{Text, len, text_eq, trim}
use seven_network_manager.Base.Result.{Result, err, fail_if, map_err, ok, ok_or, ◌>>=◌, ◌>>◌}
use seven_network_manager.Base.{
  Bool, List, Option, any, find, if◌then◌else◌, is_empty, is_none, is_some, leb, length, ltb, none,
  not, option_eq, some, ℕ, ◌&&◌, ◌==◌, ◌||◌,
}
use seven_network_manager.Accounts.{
  Directory, PermissionRow, RoleBindingRow, RolePermissionRow, RoleRow, SiteRow, UserRow, is_active,
}
use seven_network_manager.Token.{AccessClaims, TokenCrypto, decode_access_token, new_key}
use seven_network_manager.Sessions.Tables.{SessionRow, Tables, has_session_id}
use seven_network_manager.Sessions.Service.{timestamp}
use seven_network_manager.Sessions.Login.{cutoff_passed}
use seven_network_manager.Sessions.Cookies.{HeaderMap, bearer_token}

pub data AuthorizationError : Type 0 where
  session_rejected permission_denied authorization_unavailable : AuthorizationError

pub data AuthorizationInitError : Type 0 where
  missing_or_weak_key signing_key : AuthorizationInitError

-- `struct AuthorizationService` without the database's pool, and the libraries.
pub record AuthorizationService : Type 0 where
  pub access_key : Text
  pub issuer : Text
  pub audience : Text
  pub tokens : TokenCrypto

-- `AuthorizationService::new`
unfoldable pub new_service :
    TokenCrypto → Text → Text → Text → Result AuthorizationInitError AuthorizationService
new_service x signing_secret issuer audience =
    if ltb (length signing_secret) 32
    then err missing_or_weak_key
    else map_err (λ e. signing_key) (new_key signing_secret) >>= λ key.
        ok (record { access_key = key; issuer = issuer; audience = audience; tokens = x })

pub record Principal : Type 0 where
  pub session_id : ℕ
  pub user_id : ℕ
  pub organization_id : ℕ

abbrev pub to_rejected {ℓ} : {E : Type ℓ} → E → AuthorizationError
to_rejected e = session_rejected

-- `JOIN users u ON u.id = s.user_id AND u.organization_id = s.organization_id`
abbrev pub is_session_user : SessionRow → UserRow → Bool
is_session_user s u = u.id == s.user_id && u.organization_id == s.organization_id

abbrev pub join_user : List UserRow → Option SessionRow → Option (SessionRow × UserRow)
join_user users none = none
join_user users (some s) = elim (find (is_session_user s) users) [
  | none ↦ none
  | some u ↦ some (s, u)
]

-- What `authenticate` refuses of the session and the user that it finds.
abbrev pub principal_refused : AccessClaims → ℕ → SessionRow × UserRow → Bool
principal_refused claims now (s, u) =
    not (s.user_id == claims.sub)
    || not (s.organization_id == claims.org)
    || not (is_active u.status)
    || is_some s.revoked_at
    || leb s.expires_at now
    || cutoff_passed s.access_revoked_before claims.iat

unfoldable pub authenticate :
    AuthorizationService → ℕ → HeaderMap → Tables → Result AuthorizationError Principal
authenticate a now headers db = do
  token ← ok_or (bearer_token headers) session_rejected
  claims ←
      map_err to_rejected
        (decode_access_token a.tokens token a.access_key (timestamp now) a.issuer a.audience)
  row ←
      ok_or (join_user db.directory.users (find (has_session_id claims.sid) db.sessions))
        session_rejected
  fail_if (principal_refused claims now row) session_rejected
  ok (record {
    session_id = claims.sid;
    user_id = row.0.user_id;
    organization_id = row.0.organization_id;
  })

abbrev pub has_site : ℕ → ℕ → SiteRow → Bool
has_site organization_id site_id s = s.id == site_id && s.organization_id == organization_id

-- The bindings of the query: of the organisation and the user, for the site or for all.
abbrev pub binds : Principal → ℕ → RoleBindingRow → Bool
binds principal site_id rb =
    rb.organization_id == principal.organization_id
    && option_eq rb.user_id (some principal.user_id)
    && (is_none rb.site_id || option_eq rb.site_id (some site_id))

-- A role of the organisation, or of none.
abbrev pub is_usable_role : Principal → ℕ → RoleRow → Bool
is_usable_role principal role_id r =
    r.id == role_id
    && (is_none r.organization_id || option_eq r.organization_id (some principal.organization_id))

abbrev pub has_permission : Text → ℕ → PermissionRow → Bool
has_permission permission permission_id p = p.id == permission_id && text_eq p.code permission

abbrev pub role_grants : Directory → Text → ℕ → RolePermissionRow → Bool
role_grants d permission role_id rp =
    rp.role_id == role_id && any (has_permission permission rp.permission_id) d.permissions

-- A binding that leads to the permission.
abbrev pub binding_grants : Directory → Principal → ℕ → Text → RoleBindingRow → Bool
binding_grants d principal site_id permission rb =
    binds principal site_id rb
    && any (is_usable_role principal rb.role_id) d.roles
    && any (role_grants d permission rb.role_id) d.role_permissions

-- The `EXISTS` of the query.
abbrev pub is_allowed : Directory → Principal → ℕ → Text → Bool
is_allowed d principal site_id permission =
    any (has_site principal.organization_id site_id) d.sites
    && any (binding_grants d principal site_id permission) d.role_bindings

unfoldable pub require_site_permission :
    Directory → Principal → ℕ → Text → Result AuthorizationError (Unit {0})
require_site_permission d principal site_id permission = do
  fail_if (is_empty (trim permission) || ltb 120 (len permission)) permission_denied
  if is_allowed d principal site_id permission then ok tt else err permission_denied
