-- ===== src/Authorization/Tests.antt =====
-- Runs and instances of the authorisation rules.

use seven_network_manager.Base.Int.{saturate, saturating_add, saturating_sub, ◌+ℤ◌, ◌-ℤ◌}
use seven_network_manager.Base.Text.{
  Text, codes, drop_end_while, drop_while, is_whitespace, len, text_eq, trim,
}
use seven_network_manager.Base.Result.{err, ok}
use seven_network_manager.Base.{
  [], arith, false, find, inl, inr, is_empty, none, refl, some, true, ◌&&◌, ◌++◌, ◌==◌, ◌↔◌, ◌∷◌,
  ◌≡◌, ◌≤◌,
}
use seven_network_manager.Base.Split.{split}
use seven_network_manager.Accounts.{Directory, UserRow, UserStatus}
use seven_network_manager.Passwords.{hash_password}
use seven_network_manager.Token.{decode_access_token, decode_parts, dot, validate_claim_lifetime}
use seven_network_manager.Token.Toy.{shift, toy}
use seven_network_manager.Sessions.Tables.{Tables}
use seven_network_manager.Sessions.Service.{AuthService, SessionIdentity}
use seven_network_manager.Sessions.Bootstrap.{
  BootstrapEvent, FreshAdmin, bootstrap_admin, ensure_binding, ensure_role, ensure_user, grant_all,
  new_role, new_user,
}
use seven_network_manager.Sessions.Login.{authenticate_access}
use seven_network_manager.Sessions.Cookies.{HeaderMap, bearer_token, strip_prefix}
use seven_network_manager.Authorization.{
  AuthorizationService, Principal, authenticate, permission_denied, require_site_permission,
}
use seven_network_manager.Authorization.Strictness.{authenticate-authenticate_access}
use seven_network_manager.Authorization.Sites.{IsGranted, require_site_permission_iff}
use seven_network_manager.Authorization.Bootstrapped.{bootstrap_admin-require_site_permission}

abbrev gate : AuthorizationService
gate = record {
  access_key = codes "k";
  issuer = codes "snm";
  audience = codes "snm-api";
  tokens = toy;
}

abbrev sessions_service : AuthService
sessions_service = record {
  access_key = codes "k";
  issuer = codes "snm";
  audience = codes "snm-api";
  cookie_secure = true;
  dummy_password_hash = [];
  tokens = toy;
  passwords = record {
    params_accepted = λ p. true;
    encode_salt = λ s. some s;
    argon2_hash = λ p password salt. some password;
    parse_hash = λ encoded. none;
    argon2_verify = λ password parsed. false;
  };
  collation = record { lower = λ s. s; before = λ s t. false };
}

-- A user with a role for the first of two sites.
abbrev scoped : Directory
scoped = record {
  organizations = record { id = 1; slug = codes "acme" } ∷ [];
  sites = record { id = 10; organization_id = 1 } ∷ record { id = 11; organization_id = 1 } ∷ [];
  users =
      record {
        id = 7;
        organization_id = 1;
        email = codes "a@b";
        display_name = codes "A";
        status = UserStatus.active;
        password_hash = none;
        last_login_at = none;
      }
      ∷ [];
  roles =
      record { id = 20; organization_id = some 1; name = codes "viewer"; is_system = false } ∷ [];
  permissions = record { id = 30; code = codes "devices.view" } ∷ [];
  role_permissions = record { role_id = 20; permission_id = 30 } ∷ [];
  role_bindings =
      record {
        organization_id = 1;
        role_id = 20;
        user_id = some 7;
        service_account_id = none;
        site_id = some 10;
      }
      ∷ [];
}

abbrev signed : Tables
signed = record {
  directory = scoped;
  sessions =
      record {
        id = 3;
        organization_id = 1;
        user_id = 7;
        refresh_token_hash = [];
        refresh_token_prefix = [];
        expires_at = 5_000_000_000;
        revoked_at = none;
        last_used_at = 0;
        access_revoked_before = some 900_000_000;
      }
      ∷ [];
  refresh_tokens = [];
}

abbrev signing_input : Text
signing_input = dot ∷ shift (7 ∷ 1 ∷ 3 ∷ 5 ∷ 1_000 ∷ 0 ∷ 1_000 ∷ 0 ∷ 1_600 ∷ 0 ∷ [])

abbrev bearer : HeaderMap
bearer = record {
  cookie = none;
  csrf = none;
  authorization = some (codes "Bearer " ++ signing_input ++ dot ∷ shift signing_input);
}

abbrev someone : Principal
someone = record { session_id = 3; user_id = 7; organization_id = 1 }

admitted : authenticate gate 1_100_000_000 bearer signed ≡ ok someone
unfolding authenticate bearer_token strip_prefix decode_access_token decode_parts split
    validate_claim_lifetime saturating_sub saturating_add saturate ◌-ℤ◌ ◌+ℤ◌ text_eq len
admitted = refl

authenticate-authenticate_access_example :
    (token : Text) × (identity : SessionIdentity) × (user : UserRow) × (bearer_token bearer
      ≡ some token)
    × (authenticate_access sessions_service 1_100_000_000 token signed ≡ ok identity)
    × (someone ≡ record {
      session_id = identity.session_id;
      user_id = identity.user_id;
      organization_id = identity.organization_id;
    })
    × (find
          (λ (u : UserRow). u.id == someone.user_id && u.organization_id == someone.organization_id)
          scoped.users
        ≡ some user)
    × (user.status ≡ UserStatus.active)
authenticate-authenticate_access_example =
    authenticate-authenticate_access gate sessions_service 1_100_000_000 bearer signed someone refl
      refl refl refl admitted

-- `site_binding_does_not_authorize_another_site`
first_site : require_site_permission scoped someone 10 (codes "devices.view") ≡ ok tt
unfolding require_site_permission trim drop_while drop_end_while is_whitespace len text_eq
first_site = refl

second_site :
    require_site_permission scoped someone 11 (codes "devices.view") ≡ err permission_denied
unfolding require_site_permission trim drop_while drop_end_while is_whitespace len text_eq
second_site = refl

require_site_permission_iff_example :
    (require_site_permission scoped someone 10 (codes "devices.view") ≡ ok tt) ↔ (
      (is_empty (trim (codes "devices.view")) ≡ false)
      × (len (codes "devices.view") ≤ 120)
      × IsGranted scoped someone 10 (codes "devices.view"))
require_site_permission_iff_example =
    require_site_permission_iff scoped someone 10 (codes "devices.view")

abbrev first_admin : FreshAdmin
first_admin = record { salt = []; user_id = 8; role_id = 21; correlation_id = 99 }

abbrev ensured : BootstrapEvent
ensured = record { organization_id = 1; resource_id = 8; correlation_id = 99 }

abbrev administered : Tables
administered = record {
  directory = record {
    organizations = scoped.organizations;
    sites = scoped.sites;
    users = new_user 8 1 (codes "root@b") (codes "Root") (codes "long password") ∷ scoped.users;
    roles = new_role 21 1 ∷ scoped.roles;
    permissions = scoped.permissions;
    role_permissions = record { role_id = 21; permission_id = 30 } ∷ scoped.role_permissions;
    role_bindings =
        record {
          organization_id = 1;
          role_id = 21;
          user_id = some 8;
          service_account_id = none;
          site_id = none;
        }
        ∷ scoped.role_bindings;
  };
  sessions = signed.sessions;
  refresh_tokens = [];
}

bootstrapped :
    bootstrap_admin sessions_service first_admin
      (codes "acme")
      (codes "root@b")
      (codes "Root")
      (codes "long password")
      signed
    ≡ ok (ensured, administered)
unfolding bootstrap_admin hash_password ensure_user ensure_role grant_all ensure_binding trim
    drop_while drop_end_while is_whitespace len text_eq
bootstrapped = refl

bootstrap_admin-require_site_permission_example :
    require_site_permission administered.directory
      (record { session_id = 4; user_id = 8; organization_id = 1 })
      11
      (codes "devices.view")
    ≡ ok tt
unfolding trim drop_while drop_end_while is_whitespace len
bootstrap_admin-require_site_permission_example =
    bootstrap_admin-require_site_permission sessions_service first_admin (codes "acme")
      (codes "root@b") (codes "Root") (codes "long password") signed administered ensured 4
      (record { id = 11; organization_id = 1 }) (record { id = 30; code = codes "devices.view" })
      bootstrapped (inr (inl refl)) refl (inl refl) refl (omega arith)
