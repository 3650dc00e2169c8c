-- ===== src/Rbac.antt =====
-- Permissions, grants and authorisation (crates/security/src/rbac.rs).
pub mod Decision
mod Tests
use seven_network_manager.Base.{
  Bool, List, Option, all, any, if◌then◌else◌, is_empty, is_none, ltb, not, option_eq, ℕ, ◌&&◌,
  ◌==◌, ◌||◌,
}
use seven_network_manager.Base.Result.{Result, err, fail_if, ok, ◌>>=◌, ◌>>◌}
use seven_network_manager.Base.Text.{
  Text, contains_char, is_ascii_digit, is_ascii_lowercase, len, text_eq,
}

pub data AuthorizationError : Type 0 where
  invalid_permission denied self_approval_denied : AuthorizationError

-- The bytes that an identifier may hold.
abbrev pub is_identifier_byte : ℕ → Bool
is_identifier_byte c =
    is_ascii_lowercase c || is_ascii_digit c || c == b'.' || c == b'_' || c == b'-'

-- `struct Permission`
abbrev pub Permission : Type 0
Permission = Text

unfoldable pub parse : Text → Result AuthorizationError Permission
parse value =
    if is_empty value
      || ltb 128 (len value)
      || not (contains_char value b'.')
      || not (all is_identifier_byte value)
    then err invalid_permission
    else ok value

pub record ResourceScope : Type 0 where
  pub organization_id : ℕ
  pub site_id : Option ℕ

unfoldable pub scope_contains : ResourceScope → ResourceScope → Bool
scope_contains self requested =
    self.organization_id == requested.organization_id
    && (is_none self.site_id || option_eq self.site_id requested.site_id)

pub record PermissionGrant : Type 0 where
  pub permission : Permission
  pub scope : ResourceScope

pub record AuthorizationContext : Type 0 where
  pub actor_id : ℕ
  pub session_id : ℕ
  pub grants : List PermissionGrant

pub record AuthorizationRequest : Type 0 where
  pub permission : Permission
  pub scope : ResourceScope

-- The closure of `any` in `authorize`.
abbrev pub grant_covers : AuthorizationRequest → PermissionGrant → Bool
grant_covers request grant =
    text_eq grant.permission request.permission && scope_contains grant.scope request.scope

unfoldable pub authorize :
    AuthorizationContext → AuthorizationRequest → Result AuthorizationError (Unit {0})
unfolding scope_contains
authorize self request = if any (grant_covers request) self.grants then ok tt else err denied

unfoldable pub authorize_approval :
    AuthorizationContext → AuthorizationRequest → ℕ → Bool → Result AuthorizationError (Unit {0})
authorize_approval self request requested_by require_separation_of_duties = do
  authorize self request
  fail_if (require_separation_of_duties && self.actor_id == requested_by) self_approval_denied
