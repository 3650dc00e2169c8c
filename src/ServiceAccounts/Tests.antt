-- ===== src/ServiceAccounts/Tests.antt =====
-- Runs and instances of the rules of service accounts.

use seven_network_manager.Base.Int.{pos}
use seven_network_manager.Base.Text.{
  Text, codes, drop_end_while, drop_while, is_ascii_digit, is_ascii_lowercase, is_whitespace, len,
  starts_with, text_eq, trim,
}
use seven_network_manager.Base.Result.{ok}
use seven_network_manager.Base.{
  Option, [], if◌then◌else◌, none, refl, some, take, true, ◌++◌, ◌∷◌, ◌≡◌, ◌≢◌, ◌≤◌,
}
use seven_network_manager.Base.Split.{split_once}
use seven_network_manager.Accounts.{Collation, Directory, distinct_ordered, insert_ordered}
use seven_network_manager.Token.{
  IssuedOpaqueToken, TokenCrypto, issue_opaque_token, opaque_token_matches,
}
use seven_network_manager.Sessions.Tables.{update_rows}
use seven_network_manager.ServiceAccounts.Inputs.{
  IpVersion, insert_text, intersect_permissions, parse_u8, text_ltb, validate_cidr, validate_cidrs,
  validate_scopes,
}
use seven_network_manager.ServiceAccounts.Store.{
  Networks, NewServiceAccountCredential, ServiceAccountSummary, ServicePrincipal, ServiceTables,
  account_active, create_account, disable_account, issue_credential, new_credential, with_accounts,
  with_credentials,
}
use seven_network_manager.ServiceAccounts.Tokens.{
  authenticate_service, bind_role, find_credential, match_row, token_of, use_credential,
}
use seven_network_manager.ServiceAccounts.Admission.{IsEntitled, authenticate_service-IsEntitled}
use seven_network_manager.ServiceAccounts.Disabled.{bound, created, issued}
use seven_network_manager.ServiceAccounts.Shut.{
  Reachable, disabled-authenticate_service, done, start, then_step,
}

-- A toy hash keeps 32 characters, and a network is an address or the whole.
abbrev padding : Text
padding = codes "................................"

abbrev toy_crypto : TokenCrypto
toy_crypto = record {
  encode_base64 = λ s. s;
  decode_base64 = λ s. some s;
  header_to_vec = λ h. some [];
  header_from_slice = λ b. none;
  claims_to_vec = λ c. some [];
  claims_from_slice = λ b. none;
  key_accepted = λ k. true;
  hmac = λ k b. b;
  sha256 = λ b. take 32 (b ++ padding);
}

abbrev toy_address : Text → Option IpVersion
toy_address s = if starts_with s (codes "10.") then some IpVersion.ipv4 else none

abbrev toy_networks : Networks
toy_networks = record {
  parse_address = toy_address;
  is_cidr = λ s. true;
  is_timestamp = λ t. true;
  contained = λ ip cidr. starts_with cidr ip;
}

abbrev toy_collation : Collation
toy_collation = record { lower = λ s. s; before = text_ltb }

abbrev no_rows : Directory
no_rows = record {
  organizations = record { id = 1; slug = codes "acme" } ∷ [];
  sites = [];
  users = [];
  roles = record { id = 20; organization_id = none; name = codes "viewer"; is_system = true } ∷ [];
  permissions =
      record { id = 30; code = codes "devices.view" }
      ∷ record { id = 31; code = codes "devices.create" }
      ∷ [];
  role_permissions =
      record { role_id = 20; permission_id = 30 }
      ∷ record { role_id = 20; permission_id = 31 }
      ∷ [];
  role_bindings = [];
}

abbrev nobody : ServiceTables
nobody = record { directory = no_rows; accounts = []; credentials = [] }

abbrev collector : ServiceAccountSummary
collector = record {
  id = 5;
  organization_id = 1;
  name = codes "collector";
  status = account_active;
}

abbrev with_collector : ServiceTables
with_collector = with_accounts (collector ∷ []) nobody

created_collector : create_account 5 1 (codes " collector ") nobody ≡ ok (collector, with_collector)
unfolding create_account disable_account issue_credential authenticate_service bind_role
    validate_scopes validate_cidrs validate_cidr parse_u8 split_once issue_opaque_token
    find_credential token_of match_row opaque_token_matches update_rows distinct_ordered
    insert_ordered intersect_permissions insert_text text_ltb text_eq len trim drop_while
    drop_end_while is_whitespace is_ascii_lowercase is_ascii_digit starts_with
created_collector = refl

abbrev bound_tables : ServiceTables
bound_tables = record {
  directory = record {
    organizations = no_rows.organizations;
    sites = [];
    users = [];
    roles = no_rows.roles;
    permissions = no_rows.permissions;
    role_permissions = no_rows.role_permissions;
    role_bindings =
        record {
          organization_id = 1;
          role_id = 20;
          user_id = none;
          service_account_id = some 5;
          site_id = none;
        }
        ∷ [];
  };
  accounts = collector ∷ [];
  credentials = [];
}

bound_collector : bind_role 1 5 20 none with_collector ≡ ok bound_tables
unfolding create_account disable_account issue_credential authenticate_service bind_role
    validate_scopes validate_cidrs validate_cidr parse_u8 split_once issue_opaque_token
    find_credential token_of match_row opaque_token_matches update_rows distinct_ordered
    insert_ordered intersect_permissions insert_text text_ltb text_eq len trim drop_while
    drop_end_while is_whitespace is_ascii_lowercase is_ascii_digit starts_with
bound_collector = refl

abbrev asked : NewServiceAccountCredential
asked = record {
  scopes = codes "devices.view" ∷ codes "credentials.manage" ∷ [];
  allowed_cidrs = codes "10.0.0.1/32" ∷ [];
  expires_at_unix_seconds = some (pos 2_000);
}

abbrev token : Text
token = codes "snm_sa_abcdefgh12"

abbrev given : IssuedOpaqueToken
given = record {
  secret = token;
  prefix = codes "snm_sa_abcdefgh";
  hash = take 32 (token ++ padding);
}

abbrev with_credential : ServiceTables
with_credential = with_credentials (new_credential 9 5 asked given ∷ []) bound_tables

issued_credential :
    issue_credential toy_crypto toy_networks 9 (codes "abcdefgh12") 1 5 asked bound_tables
    ≡ ok (record { credential_id = 9; token = given }, with_credential)
unfolding create_account disable_account issue_credential authenticate_service bind_role
    validate_scopes validate_cidrs validate_cidr parse_u8 split_once issue_opaque_token
    find_credential token_of match_row opaque_token_matches update_rows distinct_ordered
    insert_ordered intersect_permissions insert_text text_ltb text_eq len trim drop_while
    drop_end_while is_whitespace is_ascii_lowercase is_ascii_digit starts_with
issued_credential = refl

abbrev principal : ServicePrincipal
principal = record {
  service_account_id = 5;
  credential_id = 9;
  organization_id = 1;
  effective_permissions = codes "devices.view" ∷ [];
}

abbrev after_use : ServiceTables
after_use =
    with_credentials (use_credential 1_000_000_000 (new_credential 9 5 asked given) ∷ [])
      bound_tables

admitted_token :
    authenticate_service toy_crypto toy_networks toy_collation 1_000_000_000
      (some token)
      (codes "10.0.0.1")
      with_credential
    ≡ (ok principal, after_use)
unfolding create_account disable_account issue_credential authenticate_service bind_role
    validate_scopes validate_cidrs validate_cidr parse_u8 split_once issue_opaque_token
    find_credential token_of match_row opaque_token_matches update_rows distinct_ordered
    insert_ordered intersect_permissions insert_text text_ltb text_eq len trim drop_while
    drop_end_while is_whitespace is_ascii_lowercase is_ascii_digit starts_with
admitted_token = refl

authenticate_service-IsEntitled_example :
    (t : Text) × (some token ≡ some t)
    × (starts_with t (codes "snm_sa_") ≡ true)
    × (len t ≤ 256)
    × IsEntitled toy_crypto toy_networks toy_collation 1_000_000_000 t
        (codes "10.0.0.1")
        with_credential
        principal
authenticate_service-IsEntitled_example =
    authenticate_service-IsEntitled toy_crypto toy_networks toy_collation 1_000_000_000 (some token)
      (codes "10.0.0.1") with_credential after_use principal admitted_token

-- Another account is disabled first; the token of the collector still passes.
abbrev two_accounts : ServiceTables
two_accounts =
    with_accounts
      (record { id = 6; organization_id = 1; name = codes "old"; status = account_active }
        ∷ collector
        ∷ [])
      with_credential

abbrev one_disabled_tables : ServiceTables
one_disabled_tables = (disable_account 500_000_000 1 6 two_accounts).1

created_old :
    create_account 6 1 (codes "old") with_credential
    ≡ ok (
      record { id = 6; organization_id = 1; name = codes "old"; status = account_active },
      two_accounts,
    )
unfolding create_account disable_account issue_credential authenticate_service bind_role
    validate_scopes validate_cidrs validate_cidr parse_u8 split_once issue_opaque_token
    find_credential token_of match_row opaque_token_matches update_rows distinct_ordered
    insert_ordered intersect_permissions insert_text text_ltb text_eq len trim drop_while
    drop_end_while is_whitespace is_ascii_lowercase is_ascii_digit starts_with
created_old = refl

disabled_old : disable_account 500_000_000 1 6 two_accounts ≡ (true, one_disabled_tables)
unfolding create_account disable_account issue_credential authenticate_service bind_role
    validate_scopes validate_cidrs validate_cidr parse_u8 split_once issue_opaque_token
    find_credential token_of match_row opaque_token_matches update_rows distinct_ordered
    insert_ordered intersect_permissions insert_text text_ltb text_eq len trim drop_while
    drop_end_while is_whitespace is_ascii_lowercase is_ascii_digit starts_with
disabled_old = refl

reached_two : Reachable toy_crypto toy_networks toy_collation no_rows two_accounts
reached_two =
    then_step with_credential
      (then_step bound_tables
        (then_step with_collector
          (then_step nobody start (created 5 1 (codes " collector ") collector created_collector))
          (bound 1 5 20 none bound_collector))
        (issued 9 (codes "abcdefgh12") 1 5 asked (record { credential_id = 9; token = given })
          issued_credential))
      (created 6 1 (codes "old") _ created_old)

still_admitted :
    authenticate_service toy_crypto toy_networks toy_collation 1_000_000_000
      (some token)
      (codes "10.0.0.1")
      one_disabled_tables
    ≡ (
      ok principal,
      (authenticate_service toy_crypto toy_networks toy_collation 1_000_000_000
          (some token)
          (codes "10.0.0.1")
          one_disabled_tables).1,
    )
unfolding create_account disable_account issue_credential authenticate_service bind_role
    validate_scopes validate_cidrs validate_cidr parse_u8 split_once issue_opaque_token
    find_credential token_of match_row opaque_token_matches update_rows distinct_ordered
    insert_ordered intersect_permissions insert_text text_ltb text_eq len trim drop_while
    drop_end_while is_whitespace is_ascii_lowercase is_ascii_digit starts_with
still_admitted = refl

disabled-authenticate_service_example : principal.service_account_id ≢ 6
disabled-authenticate_service_example =
    disabled-authenticate_service toy_crypto toy_networks toy_collation no_rows 500_000_000
      1_000_000_000 1 6 two_accounts one_disabled_tables one_disabled_tables
      (authenticate_service toy_crypto toy_networks toy_collation 1_000_000_000 (some token)
        (codes "10.0.0.1") one_disabled_tables).1
      (some token) (codes "10.0.0.1") principal reached_two disabled_old (done one_disabled_tables)
      still_admitted
