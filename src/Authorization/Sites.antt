-- ===== src/Authorization/Sites.antt =====
-- What a site permission needs.

use seven_network_manager.Base.Text.{Text, len, text_eq_iff, trim}
use seven_network_manager.Base.Result.{ok}
use seven_network_manager.Base.Members.{Has, Has-any, any-Has}
use seven_network_manager.Base.{
  &&_iff, ==_iff, Bool, Option, any, arith, false, inl, inr, is_empty, is_none, none, option_eq,
  option_eq_iff, refl, some, sym, true, ℕ, ◌&&◌, ◌||◌, ◌↔◌, ◌≡◌, ◌≤◌, ◌⊎◌,
}
use seven_network_manager.Accounts.{
  Directory, PermissionRow, RoleBindingRow, RolePermissionRow, RoleRow, SiteRow,
}
use seven_network_manager.Authorization.{
  Principal, binding_grants, binds, has_permission, has_site, is_allowed, is_usable_role,
  require_site_permission, role_grants,
}

-- A chain of rows from a user to a permission for a site.
pub record IsGranted (d : Directory) (p : Principal) (site_id : ℕ) (permission : Text)
    : Type 0 where
  pub site : SiteRow
  pub binding : RoleBindingRow
  pub role : RoleRow
  pub grant : RolePermissionRow
  pub row : PermissionRow
  pub site_there : Has site d.sites
  pub binding_there : Has binding d.role_bindings
  pub role_there : Has role d.roles
  pub grant_there : Has grant d.role_permissions
  pub row_there : Has row d.permissions
  pub site_is : (site.id ≡ site_id) × (site.organization_id ≡ p.organization_id)
  pub binding_is :
      (binding.organization_id ≡ p.organization_id) × (binding.user_id ≡ some p.user_id)
  pub binding_covers : (binding.site_id ≡ none) ⊎ (binding.site_id ≡ some site_id)
  pub role_is : role.id ≡ binding.role_id
  pub role_usable : (role.organization_id ≡ none) ⊎ (role.organization_id ≡ some p.organization_id)
  pub grant_is : (grant.role_id ≡ binding.role_id) × (grant.permission_id ≡ row.id)
  pub code_is : row.code ≡ permission

none_or :
    (o : Option ℕ) (n : ℕ)
    → ((is_none o || option_eq o (some n)) ≡ true) ↔ ((o ≡ none) ⊎ (o ≡ some n))
none_or none n = (λ h. inl refl, λ h. refl)
none_or (some m) n = (
  λ h. inr ((option_eq_iff (some m) (some n)).0 h),
  λ h. elim h [ inl e ↦ absurd (ground arith) | inr e ↦ (option_eq_iff (some m) (some n)).1 e ],
)

-- Both tests of a conjunction, by what they mean.
and_iff :
    {A B : Type 0} (a b : Bool) → (a ≡ true) ↔ A → (b ≡ true) ↔ B → ((a && b) ≡ true) ↔ (A × B)
and_iff a b f g =
    (λ h. let (u, v) = (&&_iff a b).0 h in (f.0 u, g.0 v), λ (u, v). (&&_iff a b).1 (f.1 u, g.1 v))

site_iff :
    (o i : ℕ) (s : SiteRow) → (has_site o i s ≡ true) ↔ ((s.id ≡ i) × (s.organization_id ≡ o))
site_iff o i s = and_iff _ _ (==_iff _ _) (==_iff _ _)

binds_iff :
    (p : Principal) (i : ℕ) (b : RoleBindingRow)
    → (binds p i b ≡ true) ↔ (
        ((b.organization_id ≡ p.organization_id) × (b.user_id ≡ some p.user_id))
        × ((b.site_id ≡ none) ⊎ (b.site_id ≡ some i)))
binds_iff p i b = and_iff _ _ (and_iff _ _ (==_iff _ _) (option_eq_iff _ _)) (none_or b.site_id i)

role_iff :
    (p : Principal) (i : ℕ) (r : RoleRow)
    → (is_usable_role p i r ≡ true)
      ↔ ((r.id ≡ i) × ((r.organization_id ≡ none) ⊎ (r.organization_id ≡ some p.organization_id)))
role_iff p i r = and_iff _ _ (==_iff _ _) (none_or r.organization_id p.organization_id)

row_iff :
    (t : Text) (i : ℕ) (c : PermissionRow)
    → (has_permission t i c ≡ true) ↔ ((c.id ≡ i) × (c.code ≡ t))
row_iff t i c = and_iff _ _ (==_iff _ _) (text_eq_iff _ _)

grants_iff :
    (d : Directory) (p : Principal) (i : ℕ) (t : Text) (b : RoleBindingRow)
    → (binding_grants d p i t b ≡ true) ↔ (
        ((binds p i b ≡ true) × (any (is_usable_role p b.role_id) d.roles ≡ true))
        × (any (role_grants d t b.role_id) d.role_permissions ≡ true))
grants_iff d p i t b = and_iff _ _ (&&_iff _ _) (λ h. h, λ h. h)

is_allowed-IsGranted :
    (d : Directory) (p : Principal) (site_id : ℕ) (permission : Text)
    → is_allowed d p site_id permission ≡ true
    → IsGranted d p site_id permission
is_allowed-IsGranted d p site_id permission h =
    let (hs, hb) = (&&_iff _ _).0 h in
    let (s, s_in, s_ok) = any-Has (has_site p.organization_id site_id) d.sites hs in
    let (b, b_in, b_ok) = any-Has (binding_grants d p site_id permission) d.role_bindings hb in
    let ((b_binds, b_roles), b_grants) = (grants_iff d p site_id permission b).0 b_ok in
    let (r, r_in, r_ok) = any-Has (is_usable_role p b.role_id) d.roles b_roles in
    let (g, g_in, g_ok) =
      any-Has (role_grants d permission b.role_id) d.role_permissions b_grants in
    let (g_is, g_row) = (&&_iff _ _).0 g_ok in
    let (c, c_in, c_ok) = any-Has (has_permission permission g.permission_id) d.permissions g_row in
    let binding = (binds_iff p site_id b).0 b_binds in
    let role = (role_iff p b.role_id r).0 r_ok in
    let row = (row_iff permission g.permission_id c).0 c_ok in
    record {
      site = s;
      binding = b;
      role = r;
      grant = g;
      row = c;
      site_there = s_in;
      binding_there = b_in;
      role_there = r_in;
      grant_there = g_in;
      row_there = c_in;
      site_is = (site_iff p.organization_id site_id s).0 s_ok;
      binding_is = binding.0;
      binding_covers = binding.1;
      role_is = role.0;
      role_usable = role.1;
      grant_is = ((==_iff _ _).0 g_is, sym row.0);
      code_is = row.1;
    }

IsGranted-is_allowed :
    (d : Directory) (p : Principal) (site_id : ℕ) (permission : Text)
    → IsGranted d p site_id permission
    → is_allowed d p site_id permission ≡ true
IsGranted-is_allowed d p site_id permission v =
    let c =
      Has-any (has_permission permission v.grant.permission_id) d.permissions v.row v.row_there
        ((row_iff permission v.grant.permission_id v.row).1 (sym v.grant_is.1, v.code_is)) in
    let g =
      Has-any (role_grants d permission v.binding.role_id) d.role_permissions v.grant v.grant_there
        ((&&_iff _ _).1 ((==_iff _ _).1 v.grant_is.0, c)) in
    let r =
      Has-any (is_usable_role p v.binding.role_id) d.roles v.role v.role_there
        ((role_iff p v.binding.role_id v.role).1 (v.role_is, v.role_usable)) in
    let b = (binds_iff p site_id v.binding).1 (v.binding_is, v.binding_covers) in
    (&&_iff _ _).1 (
      Has-any (has_site p.organization_id site_id) d.sites v.site v.site_there
          ((site_iff p.organization_id site_id v.site).1 v.site_is),
      Has-any (binding_grants d p site_id permission) d.role_bindings v.binding v.binding_there
          ((grants_iff d p site_id permission v.binding).1 ((b, r), g)),
    )

-- A permission is required with success exactly if its name has a character that is not white space
-- and at most 120 bytes, and rows lead from the user to it: the site is of the principal's organisation,
-- and a binding of this organisation and user, for this site or for all, names a role of the
-- organisation or of none that has the permission.
pub require_site_permission_iff :
    (d : Directory) (p : Principal) (site_id : ℕ) (permission : Text)
    → (require_site_permission d p site_id permission ≡ ok tt) ↔ (
        (is_empty (trim permission) ≡ false)
        × (len permission ≤ 120)
        × IsGranted d p site_id permission)
unfolding require_site_permission
require_site_permission_iff d p site_id permission = (
  λ h. (ground arith, ground arith, is_allowed-IsGranted d p site_id permission (ground arith)),
  λ (filled, short, v).
      let yes_allowed = IsGranted-is_allowed d p site_id permission v in ground arith,
)
