-- ===== src/ServiceAccounts/Store.antt =====
-- `ServiceAccountStore` (crates/identity-store/src/lib.rs). Networks, the libraries of tokens and the
-- database's own functions are parameters; a call takes the time and the fresh ids and bytes.

use seven_network_manager.Base.Int.{ℤ}
use seven_network_manager.Base.Text.{Text, codes, len, text_eq, trim}
use seven_network_manager.Base.Result.{Result, fail_if, map_err, ok, ◌>>=◌, ◌>>◌}
use seven_network_manager.Base.{
  Bool, List, Option, all, any, false, if◌then◌else◌, is_empty, is_none, ltb, none, not, some, true,
  ℕ, ◌&&◌, ◌==◌, ◌||◌, ◌∷◌,
}
use seven_network_manager.Accounts.{Directory, OrganizationRow}
use seven_network_manager.Token.{IssuedOpaqueToken, TokenCrypto, issue_opaque_token}
use seven_network_manager.Sessions.Tables.{coalesce, update_rows}
use seven_network_manager.ServiceAccounts.Inputs.{
  IdentityStoreError, IpVersion, database, invalid_input, not_found_or_disabled, token_generation,
  validate_cidrs, validate_scopes,
}

pub data AccountStatus : Type 0 where
  account_active account_disabled : AccountStatus

abbrev pub is_enabled : AccountStatus → Bool
is_enabled account_active = true
is_enabled account_disabled = false

-- A row of `service_accounts`, which is also `ServiceAccountSummary`.
pub record ServiceAccountSummary : Type 0 where
  pub id : ℕ
  pub organization_id : ℕ
  pub name : Text
  pub status : AccountStatus

pub record NewServiceAccountCredential : Type 0 where
  pub scopes : List Text
  pub allowed_cidrs : List Text
  pub expires_at_unix_seconds : Option ℤ

pub record IssuedServiceAccountCredential : Type 0 where
  pub credential_id : ℕ
  pub token : IssuedOpaqueToken

pub record ServicePrincipal : Type 0 where
  pub service_account_id : ℕ
  pub credential_id : ℕ
  pub organization_id : ℕ
  pub effective_permissions : List Text

-- A row of `service_account_credentials`; an end is in whole seconds.
pub record CredentialRow : Type 0 where
  pub id : ℕ
  pub service_account_id : ℕ
  pub token_prefix : Text
  pub token_hash : Text
  pub scopes : List Text
  pub allowed_cidrs : List Text
  pub expires_at : Option ℤ
  pub revoked_at : Option ℕ
  pub last_used_at : Option ℕ

pub record ServiceTables : Type 0 where
  pub directory : Directory
  pub accounts : List ServiceAccountSummary
  pub credentials : List CredentialRow

-- The database's types `cidr` and `timestamptz`, and the parser of addresses.
pub record Networks : Type 0 where
  pub parse_address : Text → Option IpVersion
  pub is_cidr : Text → Bool
  pub is_timestamp : ℤ → Bool
  pub contained : Text → Text → Bool

abbrev pub service_token_prefix : Text
service_token_prefix = codes "snm_sa"

abbrev pub visible_prefix_length : ℕ
visible_prefix_length = 15

abbrev pub same_name : ℕ → Text → ServiceAccountSummary → Bool
same_name organization_id name a = a.organization_id == organization_id && text_eq a.name name

abbrev pub has_account_id : ℕ → ServiceAccountSummary → Bool
has_account_id id a = a.id == id

abbrev pub with_accounts : List ServiceAccountSummary → ServiceTables → ServiceTables
with_accounts accounts db = record {
  directory = db.directory;
  accounts = accounts;
  credentials = db.credentials;
}

abbrev pub with_credentials : List CredentialRow → ServiceTables → ServiceTables
with_credentials credentials db = record {
  directory = db.directory;
  accounts = db.accounts;
  credentials = credentials;
}

abbrev pub is_organization : ℕ → OrganizationRow → Bool
is_organization id o = o.id == id

abbrev pub new_account : ℕ → ℕ → Text → ServiceAccountSummary
new_account id organization_id name = record {
  id = id;
  organization_id = organization_id;
  name = name;
  status = account_active;
}

-- The organisation must be there, and the name is unique in it.
unfoldable pub create_account :
    ℕ → ℕ → Text → ServiceTables → Result IdentityStoreError (ServiceAccountSummary × ServiceTables)
create_account id organization_id text db = do
  let name = trim text
  fail_if (is_empty name || ltb 160 (len name)) invalid_input
  fail_if
      (not (any (is_organization organization_id) db.directory.organizations)
        || any (has_account_id id) db.accounts
        || any (same_name organization_id name) db.accounts)
      database
  ok (
    new_account id organization_id (trim text),
    with_accounts (new_account id organization_id (trim text) ∷ db.accounts) db,
  )

abbrev pub is_disablable : ℕ → ℕ → ServiceAccountSummary → Bool
is_disablable organization_id id a =
    has_account_id id a && a.organization_id == organization_id && is_enabled a.status

abbrev pub disable : ServiceAccountSummary → ServiceAccountSummary
disable a = record {
  id = a.id;
  organization_id = a.organization_id;
  name = a.name;
  status = account_disabled;
}

abbrev pub of_account : ℕ → CredentialRow → Bool
of_account id c = c.service_account_id == id

abbrev pub revoke_credential_row : ℕ → CredentialRow → CredentialRow
revoke_credential_row now c = record {
  id = c.id;
  service_account_id = c.service_account_id;
  token_prefix = c.token_prefix;
  token_hash = c.token_hash;
  scopes = c.scopes;
  allowed_cidrs = c.allowed_cidrs;
  expires_at = c.expires_at;
  revoked_at = coalesce c.revoked_at now;
  last_used_at = c.last_used_at;
}

-- The id is a primary key, so a row is updated exactly if one passes.
unfoldable pub disable_account : ℕ → ℕ → ℕ → ServiceTables → Bool × ServiceTables
unfolding update_rows
disable_account now organization_id id db =
    if any (is_disablable organization_id id) db.accounts
    then (
      true,
      record {
        directory = db.directory;
        accounts = update_rows (is_disablable organization_id id) disable db.accounts;
        credentials = update_rows (of_account id) (revoke_credential_row now) db.credentials;
      },
    )
    else (false, db)

abbrev pub accepts_credentials : ℕ → ℕ → ServiceAccountSummary → Bool
accepts_credentials organization_id id a =
    has_account_id id a && a.organization_id == organization_id && is_enabled a.status

abbrev pub bad_timestamp : Networks → Option ℤ → Bool
bad_timestamp n none = false
bad_timestamp n (some t) = not (n.is_timestamp t)

abbrev pub same_credential : ℕ → ℕ → Text → CredentialRow → Bool
same_credential id account_id prefix c =
    c.id == id || (of_account account_id c && text_eq c.token_prefix prefix)

abbrev pub new_credential : ℕ → ℕ → NewServiceAccountCredential → IssuedOpaqueToken → CredentialRow
new_credential id service_account_id input token = record {
  id = id;
  service_account_id = service_account_id;
  token_prefix = token.prefix;
  token_hash = token.hash;
  scopes = input.scopes;
  allowed_cidrs = input.allowed_cidrs;
  expires_at = input.expires_at_unix_seconds;
  revoked_at = none;
  last_used_at = none;
}

module _ (x : TokenCrypto) (n : Networks) where
  -- The account is read first: where none accepts a credential, no value is converted.
  unfoldable pub issue_credential :
      ℕ
      → Text
      → ℕ
      → ℕ
      → NewServiceAccountCredential
      → ServiceTables
      → Result IdentityStoreError (IssuedServiceAccountCredential × ServiceTables)
  unfolding validate_scopes validate_cidrs
  issue_credential id random organization_id service_account_id input db = do
    validate_scopes input.scopes
    validate_cidrs n.parse_address input.allowed_cidrs
    token ← map_err (λ e. token_generation) (issue_opaque_token x random service_token_prefix)
    fail_if (not (any (accepts_credentials organization_id service_account_id) db.accounts))
        not_found_or_disabled
    fail_if
        (not (all n.is_cidr input.allowed_cidrs)
          || bad_timestamp n input.expires_at_unix_seconds
          || any (same_credential id service_account_id token.prefix) db.credentials)
        database
    ok (
      record { credential_id = id; token = token },
      with_credentials (new_credential id service_account_id input token ∷ db.credentials) db,
    )

abbrev pub of_organization : ℕ → ℕ → ServiceAccountSummary → Bool
of_organization organization_id id a = has_account_id id a && a.organization_id == organization_id

abbrev pub is_revocable : List ServiceAccountSummary → ℕ → ℕ → ℕ → CredentialRow → Bool
is_revocable accounts organization_id account_id id c =
    c.id == id
    && of_account account_id c
    && any (of_organization organization_id c.service_account_id) accounts
    && is_none c.revoked_at

unfoldable pub revoke_credential : ℕ → ℕ → ℕ → ℕ → ServiceTables → Bool × ServiceTables
unfolding update_rows
revoke_credential now organization_id account_id id db =
    let p = is_revocable db.accounts organization_id account_id id in
    (
      any p db.credentials,
      with_credentials (update_rows p (revoke_credential_row now) db.credentials) db,
    )
