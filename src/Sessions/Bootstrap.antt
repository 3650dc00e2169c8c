-- ===== src/Sessions/Bootstrap.antt =====
-- `AuthService::bootstrap_admin` (apps/backend/src/auth.rs). It returns the columns of the row that
-- it adds to `audit_events`, outside every chain, and the tables.

use seven_network_manager.Base.Text.{Text, codes, len, text_eq, trim}
use seven_network_manager.Base.Result.{Result, err, fail_if, map_err, ok, ok_or, ◌>>=◌, ◌>>◌}
use seven_network_manager.Base.{
  Bool, List, Option, [], any, find, if◌then◌else◌, is_empty, is_none, ltb, none, option_eq, some,
  true, ℕ, ◌&&◌, ◌==◌, ◌||◌, ◌∷◌,
}
use seven_network_manager.Accounts.{
  OrganizationRow, PermissionRow, RoleBindingRow, RolePermissionRow, RoleRow, UserRow, UserStatus,
}
use seven_network_manager.Passwords.{default_policy, hash_password}
use seven_network_manager.Sessions.Tables.{
  AuthError, Tables, invalid_request, unavailable, update_rows,
}
use seven_network_manager.Sessions.Service.{AuthService, has_user_id}

-- What the call draws.
pub record FreshAdmin : Type 0 where
  pub salt : Text
  pub user_id : ℕ
  pub role_id : ℕ
  pub correlation_id : ℕ

-- The row of `audit_events`: its other columns are constants.
pub record BootstrapEvent : Type 0 where
  pub organization_id : ℕ
  pub resource_id : ℕ
  pub correlation_id : ℕ

abbrev pub has_slug : Text → OrganizationRow → Bool
has_slug slug o = text_eq o.slug slug

abbrev pub same_user : ℕ → Text → UserRow → Bool
same_user organization_id email u = u.organization_id == organization_id && text_eq u.email email

abbrev pub or_hash : Option Text → Text → Option Text
or_hash none hash = some hash
or_hash (some old) hash = some old

abbrev pub set_password : Text → UserRow → UserRow
set_password hash u = record {
  id = u.id;
  organization_id = u.organization_id;
  email = u.email;
  display_name = u.display_name;
  status = u.status;
  password_hash = or_hash u.password_hash hash;
  last_login_at = u.last_login_at;
}

abbrev pub ensure_found_user :
    UserRow → List UserRow → Text → Option UserRow → Result AuthError (ℕ × List UserRow)
ensure_found_user new users hash (some u) =
    ok (u.id, update_rows (same_user new.organization_id new.email) (set_password hash) users)
ensure_found_user new users hash none =
    if any (has_user_id new.id) users then err unavailable else ok (new.id, new ∷ users)

-- `INSERT INTO users ... ON CONFLICT (organization_id, email) DO UPDATE`
unfoldable pub ensure_user : UserRow → Text → List UserRow → Result AuthError (ℕ × List UserRow)
unfolding update_rows
ensure_user new hash users =
    ensure_found_user new users hash (find (same_user new.organization_id new.email) users)

abbrev pub admin_role : Text
admin_role = codes "organization-admin"

abbrev pub same_role : ℕ → RoleRow → Bool
same_role organization_id r =
    option_eq r.organization_id (some organization_id) && text_eq r.name admin_role

abbrev pub make_system : RoleRow → RoleRow
make_system r = record {
  id = r.id;
  organization_id = r.organization_id;
  name = r.name;
  is_system = true;
}

abbrev pub has_role_id : ℕ → RoleRow → Bool
has_role_id id r = r.id == id

abbrev pub new_role : ℕ → ℕ → RoleRow
new_role id organization_id = record {
  id = id;
  organization_id = some organization_id;
  name = admin_role;
  is_system = true;
}

abbrev pub ensure_found_role :
    ℕ → ℕ → List RoleRow → Option RoleRow → Result AuthError (ℕ × List RoleRow)
ensure_found_role id organization_id roles (some r) =
    ok (r.id, update_rows (same_role organization_id) make_system roles)
ensure_found_role id organization_id roles none =
    if any (has_role_id id) roles
    then err unavailable
    else ok (id, new_role id organization_id ∷ roles)

-- `INSERT INTO roles ... ON CONFLICT (organization_id, name) DO UPDATE`
unfoldable pub ensure_role : ℕ → ℕ → List RoleRow → Result AuthError (ℕ × List RoleRow)
unfolding update_rows
ensure_role id organization_id roles =
    ensure_found_role id organization_id roles (find (same_role organization_id) roles)

abbrev pub same_grant : ℕ → ℕ → RolePermissionRow → Bool
same_grant role_id permission_id rp = rp.role_id == role_id && rp.permission_id == permission_id

-- `INSERT INTO role_permissions SELECT ... ON CONFLICT DO NOTHING`
unfoldable pub grant_all : ℕ → List PermissionRow → List RolePermissionRow → List RolePermissionRow
grant_all role_id [] rows = rows
grant_all role_id (p ∷ permissions) rows =
    let more = grant_all role_id permissions rows in
    if any (same_grant role_id p.id) more
    then more
    else record { role_id = role_id; permission_id = p.id } ∷ more

abbrev pub same_binding : ℕ → ℕ → ℕ → RoleBindingRow → Bool
same_binding organization_id role_id user_id rb =
    rb.organization_id == organization_id
    && rb.role_id == role_id
    && option_eq rb.user_id (some user_id)
    && is_none rb.site_id

-- `INSERT INTO role_bindings ... WHERE NOT EXISTS`
unfoldable pub ensure_binding : ℕ → ℕ → ℕ → List RoleBindingRow → List RoleBindingRow
ensure_binding organization_id role_id user_id rows =
    if any (same_binding organization_id role_id user_id) rows
    then rows
    else record {
      organization_id = organization_id;
      role_id = role_id;
      user_id = some user_id;
      service_account_id = none;
      site_id = none;
    }
      ∷ rows

abbrev pub new_user : ℕ → ℕ → Text → Text → Text → UserRow
new_user id organization_id email display_name hash = record {
  id = id;
  organization_id = organization_id;
  email = email;
  display_name = display_name;
  status = UserStatus.active;
  password_hash = some hash;
  last_login_at = none;
}

module _ (a : AuthService) where
  unfoldable pub bootstrap_admin :
      FreshAdmin → Text → Text → Text → Text → Tables → Result AuthError (BootstrapEvent × Tables)
  unfolding hash_password ensure_user ensure_role grant_all ensure_binding
  bootstrap_admin f organization_slug email display_name password db = do
    fail_if
        (ltb 320 (len email) || is_empty (trim display_name) || is_empty (trim organization_slug))
        invalid_request
    encoded ←
        map_err (λ e. invalid_request) (hash_password a.passwords f.salt password default_policy)
    o ← ok_or (find (has_slug organization_slug) db.directory.organizations) invalid_request
    user ←
        ensure_user (new_user f.user_id o.id (a.collation.lower email) display_name encoded) encoded
          db.directory.users
    role ← ensure_role f.role_id o.id db.directory.roles
    ok (
      record { organization_id = o.id; resource_id = user.0; correlation_id = f.correlation_id },
      record {
        directory = record {
          organizations = db.directory.organizations;
          sites = db.directory.sites;
          users = user.1;
          roles = role.1;
          permissions = db.directory.permissions;
          role_permissions =
              grant_all role.0 db.directory.permissions db.directory.role_permissions;
          role_bindings = ensure_binding o.id role.0 user.0 db.directory.role_bindings;
        };
        sessions = db.sessions;
        refresh_tokens = db.refresh_tokens;
      },
    )
