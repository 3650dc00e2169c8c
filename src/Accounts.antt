-- ===== src/Accounts.antt =====
-- Organisations, sites, users and roles, as the queries of apps/backend/src/auth.rs and
-- authorization.rs and of crates/identity-store/src/lib.rs read them. A row has the columns that the
-- code reads or writes; the database's collation is a parameter.

use seven_network_manager.Base.Text.{Text, text_eq}
use seven_network_manager.Base.{
  Bool, List, Option, [], false, if◌then◌else◌, option_eq, some, true, ℕ, ◌&&◌, ◌==◌, ◌∷◌,
}

pub data UserStatus : Type 0 where
  active disabled pending : UserStatus

abbrev pub is_active : UserStatus → Bool
is_active UserStatus.active = true
is_active _ = false

pub record OrganizationRow : Type 0 where
  pub id : ℕ
  pub slug : Text

pub record SiteRow : Type 0 where
  pub id : ℕ
  pub organization_id : ℕ

pub record UserRow : Type 0 where
  pub id : ℕ
  pub organization_id : ℕ
  pub email : Text
  pub display_name : Text
  pub status : UserStatus
  pub password_hash : Option Text
  pub last_login_at : Option ℕ

pub record RoleRow : Type 0 where
  pub id : ℕ
  pub organization_id : Option ℕ
  pub name : Text
  pub is_system : Bool

pub record PermissionRow : Type 0 where
  pub id : ℕ
  pub code : Text

pub record RolePermissionRow : Type 0 where
  pub role_id : ℕ
  pub permission_id : ℕ

pub record RoleBindingRow : Type 0 where
  pub organization_id : ℕ
  pub role_id : ℕ
  pub user_id : Option ℕ
  pub service_account_id : Option ℕ
  pub site_id : Option ℕ

pub record Directory : Type 0 where
  pub organizations : List OrganizationRow
  pub sites : List SiteRow
  pub users : List UserRow
  pub roles : List RoleRow
  pub permissions : List PermissionRow
  pub role_permissions : List RolePermissionRow
  pub role_bindings : List RoleBindingRow

-- The database's functions on text: `lower`, and whether one text sorts before another.
pub record Collation : Type 0 where
  pub lower : Text → Text
  pub before : Text → Text → Bool

-- The codes of `permissions` whose id is `id`, before `rest`.
abbrev pub codes_with_id : ℕ → List PermissionRow → List Text → List Text
codes_with_id id [] rest = rest
codes_with_id id (p ∷ permissions) rest =
    let more = codes_with_id id permissions rest in if p.id == id then p.code ∷ more else more

-- `JOIN role_permissions rp ON rp.role_id = role_id JOIN permissions p ON p.id = rp.permission_id`
abbrev pub codes_of_role : ℕ → List PermissionRow → List RolePermissionRow → List Text → List Text
codes_of_role role_id permissions [] rest = rest
codes_of_role role_id permissions (rp ∷ role_permissions) rest =
    let more = codes_of_role role_id permissions role_permissions rest in
    if rp.role_id == role_id then codes_with_id rp.permission_id permissions more else more

-- The codes that the bindings passing `bound` give, each as often as a path leads to it.
abbrev pub codes_of_bindings : (RoleBindingRow → Bool) → Directory → List RoleBindingRow → List Text
codes_of_bindings bound d [] = []
codes_of_bindings bound d (rb ∷ role_bindings) =
    let more = codes_of_bindings bound d role_bindings in
    if bound rb then codes_of_role rb.role_id d.permissions d.role_permissions more else more

module _ (c : Collation) where
  -- Puts a text into its place of an ordered list, unless it is there.
  unfoldable pub insert_ordered : Text → List Text → List Text
  insert_ordered t [] = t ∷ []
  insert_ordered t (u ∷ us) =
      let rest = insert_ordered t us in
      if text_eq t u then u ∷ us else if c.before t u then t ∷ u ∷ us else u ∷ rest

  -- `SELECT DISTINCT ... ORDER BY`
  unfoldable pub distinct_ordered : List Text → List Text
  unfolding insert_ordered
  distinct_ordered [] = []
  distinct_ordered (t ∷ ts) = insert_ordered t (distinct_ordered ts)

abbrev pub bound_to_user : ℕ → ℕ → RoleBindingRow → Bool
bound_to_user organization_id user_id rb =
    rb.organization_id == organization_id && option_eq rb.user_id (some user_id)

-- `AuthService::permissions_for_user`
unfoldable pub permissions_for_user : Collation → Directory → ℕ → ℕ → List Text
unfolding distinct_ordered
permissions_for_user c d organization_id user_id =
    distinct_ordered c (codes_of_bindings (bound_to_user organization_id user_id) d d.role_bindings)
