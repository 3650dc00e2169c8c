-- ===== src/Authorization/Bootstrapped.antt =====
-- What the first administrator of an organisation may do.

use seven_network_manager.Base.Text.{Text, len, trim}
use seven_network_manager.Base.Result.{>>=-eq-ok, Result, fail_if, map_err, ok, ok_or}
use seven_network_manager.Base.{
  Bool, Bool-cases, List, Option-cases, [], any, ap, arith, false, find, inl, inr, is_empty, ltb,
  none, option_eq_iff, refl, some, subst, sym, true, ℕ, ◌||◌, ◌∙◌, ◌∷◌, ◌≡◌, ◌≤◌, ◌⊎◌,
}
use seven_network_manager.Base.Members.{Has, any-Has, find-Has}
use seven_network_manager.Accounts.{
  OrganizationRow, PermissionRow, RoleBindingRow, RolePermissionRow, RoleRow, SiteRow, UserRow,
}
use seven_network_manager.Passwords.{default_policy, hash_password}
use seven_network_manager.Sessions.Tables.{AuthError, Tables, invalid_request, update_rows}
use seven_network_manager.Sessions.Service.{AuthService}
use seven_network_manager.Sessions.Bootstrap.{
  BootstrapEvent, FreshAdmin, bootstrap_admin, ensure_binding, ensure_role, ensure_user, grant_all,
  has_slug, make_system, new_role, new_user, same_binding, same_grant, same_role,
}
use seven_network_manager.Sessions.Rows.{find-test, updated}
use seven_network_manager.Authorization.{require_site_permission}
use seven_network_manager.Authorization.Sites.{require_site_permission_iff}

Has-update_rows :
    {A : Type 0} (p : A → Bool) (f : A → A) (rows : List A) (r : A)
    → Has r rows
    → Has (updated p f r) (update_rows p f rows)
unfolding update_rows
Has-update_rows p f [] r m = absurd m
Has-update_rows p f (s ∷ rows) r (inl e) = inl (ap (updated p f) e)
Has-update_rows p f (s ∷ rows) r (inr m) = inr (Has-update_rows p f rows r m)

RoleThere : ℕ → ℕ → List RoleRow → Type 0
RoleThere id organization_id rows =
    (r : RoleRow) × Has r rows × (r.id ≡ id) × (r.organization_id ≡ some organization_id)

ensure_role-there :
    (fresh organization_id id : ℕ) (roles rows : List RoleRow)
    → ensure_role fresh organization_id roles ≡ ok (id, rows)
    → RoleThere id organization_id rows
unfolding ensure_role RoleThere
ensure_role-there fresh organization_id id roles rows h =
    elim (Option-cases (find (same_role organization_id) roles)) [
      | inl e ↦
          let added : new_role fresh organization_id ∷ roles ≡ rows = ground arith in
          (
            new_role fresh organization_id,
            subst (Has (new_role fresh organization_id)) added (inl refl),
            ground arith,
            refl,
          )
      | inr (r, e) ↦
          let own = find-test (same_role organization_id) roles r e in
          let made : update_rows (same_role organization_id) make_system roles ≡ rows =
            ground arith in
          let there =
            Has-update_rows (same_role organization_id) make_system roles r
              (find-Has (same_role organization_id) roles r e) in
          (
            make_system r,
            subst (Has (make_system r)) made (rw own at there),
            ground arith,
            (option_eq_iff _ _).0 (ground arith),
          )
    ]

GrantThere : ℕ → ℕ → List RolePermissionRow → Type 0
GrantThere role_id permission_id rows =
    (g : RolePermissionRow) × Has g rows × (g.role_id ≡ role_id) × (g.permission_id ≡ permission_id)

grant_all-there :
    (role_id : ℕ) (p : PermissionRow) (permissions : List PermissionRow)
    (rows : List RolePermissionRow)
    → Has p permissions
    → GrantThere role_id p.id (grant_all role_id permissions rows)
unfolding grant_all GrantThere
grant_all-there role_id p [] rows m = absurd m
grant_all-there role_id p (q ∷ permissions) rows m =
    elim (Bool-cases (any (same_grant role_id q.id) (grant_all role_id permissions rows))) [
      | inl e ↦ rw e (kept e m (λ k. grant_all-there role_id p permissions rows k))
      | inr e ↦ rw e (added m (λ k. grant_all-there role_id p permissions rows k))
    ]
  where
    kept :
        any (same_grant role_id q.id) (grant_all role_id permissions rows) ≡ true
        → (q ≡ p) ⊎ Has p permissions
        → (Has p permissions → GrantThere role_id p.id (grant_all role_id permissions rows))
        → GrantThere role_id p.id (grant_all role_id permissions rows)
    kept e (inl same) rest =
        let (g, there, own) =
          any-Has (same_grant role_id q.id) (grant_all role_id permissions rows) e in
        (
          g,
          there,
          ground arith,
          subst (λ (u : PermissionRow). g.permission_id ≡ u.id) same (ground arith),
        )
    kept e (inr k) rest = rest k

    added :
        (q ≡ p) ⊎ Has p permissions
        → (Has p permissions → GrantThere role_id p.id (grant_all role_id permissions rows))
        → GrantThere role_id p.id (
            record { role_id = role_id; permission_id = q.id } ∷ grant_all role_id permissions rows)
    added (inl same) rest = (_, inl refl, refl, ap (λ (u : PermissionRow). u.id) same)
    added (inr k) rest = let (g, there, r, c) = rest k in (g, inr there, r, c)

BindingThere : ℕ → ℕ → ℕ → List RoleBindingRow → Type 0
BindingThere organization_id role_id user_id rows =
    (b : RoleBindingRow) × Has b rows
    × (b.organization_id ≡ organization_id)
    × (b.role_id ≡ role_id)
    × (b.user_id ≡ some user_id)
    × (b.site_id ≡ none)

ensure_binding-there :
    (organization_id role_id user_id : ℕ) (rows : List RoleBindingRow)
    → BindingThere organization_id role_id user_id
        (ensure_binding organization_id role_id user_id rows)
unfolding ensure_binding BindingThere
ensure_binding-there organization_id role_id user_id rows =
    elim (Bool-cases (any (same_binding organization_id role_id user_id) rows)) [
      | inl e ↦ rw e (
          let (b, there, own) = any-Has (same_binding organization_id role_id user_id) rows e in
          (
            b,
            there,
            ground arith,
            ground arith,
            (option_eq_iff _ _).0 (ground arith),
            ground arith,
          ))
      | inr e ↦ rw e (_, inl refl, refl, refl, refl, refl)
    ]

ok-injective : {A : Type 0} (x y : A) (r : Result AuthError A) → r ≡ ok x → r ≡ ok y → x ≡ y
ok-injective x y r h k = cc

-- What a successful call did.
record Bootstrapped (f : FreshAdmin) (db db' : Tables) (event : BootstrapEvent) : Type 0 where
  user : ℕ × List UserRow
  role : ℕ × List RoleRow
  role_made : ensure_role f.role_id event.organization_id db.directory.roles ≡ ok role
  user_is : event.resource_id ≡ user.0
  sites_kept : db'.directory.sites ≡ db.directory.sites
  permissions_kept : db'.directory.permissions ≡ db.directory.permissions
  roles_are : db'.directory.roles ≡ role.1
  grants_are :
      db'.directory.role_permissions
      ≡ grant_all role.0 db.directory.permissions db.directory.role_permissions
  bindings_are :
      db'.directory.role_bindings
      ≡ ensure_binding event.organization_id role.0 user.0 db.directory.role_bindings

bootstrap_admin-Bootstrapped :
    (a : AuthService) (f : FreshAdmin) (slug email display_name password : Text) (db db' : Tables)
    (event : BootstrapEvent)
    → bootstrap_admin a f slug email display_name password db ≡ ok (event, db')
    → Bootstrapped f db db' event
unfolding bootstrap_admin
bootstrap_admin-Bootstrapped a f slug email display_name password db db' event h =
    let guarded =
      >>=-eq-ok
        (fail_if (ltb 320 (len email) || is_empty (trim display_name) || is_empty (trim slug))
          invalid_request)
        _ h in
    let hashed =
      >>=-eq-ok
        (map_err (λ e. invalid_request) (hash_password a.passwords f.salt password default_policy))
        _ guarded.2 in
    let named =
      >>=-eq-ok (ok_or (find (has_slug slug) db.directory.organizations) invalid_request) _
        hashed.2 in
    let o : OrganizationRow = named.0 in
    let upserted =
      >>=-eq-ok
        (ensure_user (new_user f.user_id o.id (a.collation.lower email) display_name hashed.0)
          hashed.0 db.directory.users)
        _ named.2 in
    let ruled = >>=-eq-ok (ensure_role f.role_id o.id db.directory.roles) _ upserted.2 in
    let result = ok-injective _ _ _ refl ruled.2 in
    let same_org : o.id ≡ event.organization_id =
      ap (λ (q : BootstrapEvent × Tables). q.0.organization_id) result in
    record {
      user = upserted.0;
      role = ruled.0;
      role_made =
          subst (λ (i : ℕ). ensure_role f.role_id i db.directory.roles ≡ ok ruled.0) same_org
            ruled.1;
      user_is = sym (ap (λ (q : BootstrapEvent × Tables). q.0.resource_id) result);
      sites_kept = sym (ap (λ (q : BootstrapEvent × Tables). q.1.directory.sites) result);
      permissions_kept =
          sym (ap (λ (q : BootstrapEvent × Tables). q.1.directory.permissions) result);
      roles_are = sym (ap (λ (q : BootstrapEvent × Tables). q.1.directory.roles) result);
      grants_are =
          sym (ap (λ (q : BootstrapEvent × Tables). q.1.directory.role_permissions) result);
      bindings_are =
          subst
            (λ (i : ℕ).
              db'.directory.role_bindings
              ≡ ensure_binding i ruled.0.0 upserted.0.0 db.directory.role_bindings)
            same_org
            (sym (ap (λ (q : BootstrapEvent × Tables). q.1.directory.role_bindings) result));
    }

-- After a successful `bootstrap_admin` the user has every permission on every site of the organisation: each code
-- of the table, of at most 120 bytes and not all white space, is required with success.
pub bootstrap_admin-require_site_permission :
    (a : AuthService) (f : FreshAdmin) (slug email display_name password : Text) (db db' : Tables)
    (event : BootstrapEvent) (session_id : ℕ) (s : SiteRow) (p : PermissionRow)
    → bootstrap_admin a f slug email display_name password db ≡ ok (event, db')
    → Has s db.directory.sites
    → s.organization_id ≡ event.organization_id
    → Has p db.directory.permissions
    → is_empty (trim p.code) ≡ false
    → len p.code ≤ 120
    → require_site_permission db'.directory
        (record {
          session_id = session_id;
          user_id = event.resource_id;
          organization_id = event.organization_id;
        })
        s.id
        p.code
      ≡ ok tt
unfolding RoleThere GrantThere BindingThere
bootstrap_admin-require_site_permission a f slug email display_name password db db' event session_id
      s p h s_in s_org p_in filled short =
    let v = bootstrap_admin-Bootstrapped a f slug email display_name password db db' event h in
    let (r, r_in, r_id, r_org) =
      ensure_role-there f.role_id event.organization_id v.role.0 db.directory.roles v.role.1
        v.role_made in
    let (g, g_in, g_role, g_is) =
      grant_all-there v.role.0 p db.directory.permissions db.directory.role_permissions p_in in
    let (b, b_in, b_org, b_role, b_user, b_site) =
      ensure_binding-there event.organization_id v.role.0 v.user.0 db.directory.role_bindings in
    (require_site_permission_iff db'.directory _ s.id p.code).1 (
      filled,
      short,
      record {
        site = s;
        binding = b;
        role = r;
        grant = g;
        row = p;
        site_there = rw v.sites_kept s_in;
        binding_there = rw v.bindings_are b_in;
        role_there = rw v.roles_are r_in;
        grant_there = rw v.grants_are g_in;
        row_there = rw v.permissions_kept p_in;
        site_is = (refl, s_org);
        binding_is = (b_org, b_user ∙ ap (λ (n : ℕ). some n) (sym v.user_is));
        binding_covers = inl b_site;
        role_is = r_id ∙ sym b_role;
        role_usable = inr r_org;
        grant_is = (g_role ∙ sym b_role, g_is);
        code_is = refl;
      },
    )
