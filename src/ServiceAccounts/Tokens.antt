-- ===== src/ServiceAccounts/Tokens.antt =====
-- `authenticate` and `bind_role` of `ServiceAccountStore` (crates/identity-store/src/lib.rs). The bytes
-- of a token are a text, or none where they are not UTF-8; rows come in the order of the table.

use seven_network_manager.Base.Int.{negsuc, pos, ℤ}
use seven_network_manager.Base.Text.{Text, codes, len, starts_with, text_eq}
use seven_network_manager.Base.Result.{Result, err, fail_if, ok, ok_or, ◌>>=◌, ◌>>◌}
use seven_network_manager.Base.{
  Bool, List, Option, [], any, false, find, if◌then◌else◌, is_empty, is_none, keep, length, ltb,
  none, not, option_eq, some, take, true, ℕ, ◌&&◌, ◌*◌, ◌==◌, ◌||◌, ◌∷◌,
}
use seven_network_manager.Accounts.{
  Collation, Directory, RoleBindingRow, RoleRow, SiteRow, codes_of_bindings, distinct_ordered,
}
use seven_network_manager.Token.{TokenCrypto, opaque_token_matches}
use seven_network_manager.Sessions.Tables.{update_rows}
use seven_network_manager.Sessions.Service.{microseconds}
use seven_network_manager.ServiceAccounts.Inputs.{
  IdentityStoreError, database, intersect_permissions, invalid_stored_credential, invalid_token,
}
use seven_network_manager.ServiceAccounts.Store.{
  CredentialRow, Networks, ServiceAccountSummary, ServicePrincipal, ServiceTables, is_enabled,
  is_organization, of_organization, visible_prefix_length, with_credentials,
}

abbrev pub bound_to_service : ℕ → ℕ → RoleBindingRow → Bool
bound_to_service organization_id id rb =
    rb.organization_id == organization_id && option_eq rb.service_account_id (some id)

-- `expires_at IS NULL OR expires_at > now()`
abbrev pub lasts : ℕ → Option ℤ → Bool
lasts now none = true
lasts now (some (pos end)) = ltb now (end * microseconds)
lasts now (some (negsuc end)) = false

abbrev pub from_network : Networks → Text → List Text → Bool
from_network n source_ip cidrs = is_empty cidrs || any (n.contained source_ip) cidrs

-- The account of a credential, where it is active.
abbrev pub is_owner : CredentialRow → ServiceAccountSummary → Bool
is_owner c a = a.id == c.service_account_id && is_enabled a.status

-- The rows of the query.
abbrev pub is_usable :
    Networks → ℕ → Text → Text → List ServiceAccountSummary → CredentialRow → Bool
is_usable n now source_ip prefix accounts c =
    text_eq c.token_prefix prefix
    && any (is_owner c) accounts
    && is_none c.revoked_at
    && lasts now c.expires_at
    && from_network n source_ip c.allowed_cidrs

abbrev pub use_credential : ℕ → CredentialRow → CredentialRow
use_credential now c = record {
  id = c.id;
  service_account_id = c.service_account_id;
  token_prefix = c.token_prefix;
  token_hash = c.token_hash;
  scopes = c.scopes;
  allowed_cidrs = c.allowed_cidrs;
  expires_at = c.expires_at;
  revoked_at = c.revoked_at;
  last_used_at = some now;
}

abbrev pub has_credential_id : ℕ → CredentialRow → Bool
has_credential_id id c = c.id == id

-- The organisation of the row's account.
abbrev pub organization_of : CredentialRow → Option ServiceAccountSummary → ℕ
organization_of c none = 0
organization_of c (some a) = a.organization_id

-- The checks of the token's form.
unfoldable pub token_of : Option Text → Result IdentityStoreError Text
token_of bytes = do
  token ← ok_or bytes invalid_token
  fail_if (not (starts_with token (codes "snm_sa_")) || ltb 256 (len token)) invalid_token
  fail_if (not (len (take visible_prefix_length token) == visible_prefix_length)) invalid_token
  ok token

module _ (x : TokenCrypto) where
  -- The loop over the rows.
  unfoldable pub match_row : Text → List CredentialRow → Result IdentityStoreError CredentialRow
  match_row token [] = err invalid_token
  match_row token (c ∷ rows) =
      let rest = match_row token rows in
      if not (length c.token_hash == 32)
      then err invalid_stored_credential
      else if opaque_token_matches x token c.token_hash
      then ok c
      else rest

module _ (x : TokenCrypto) (n : Networks) (collation : Collation) where
  -- The subquery of the row, for the organisation of its account.
  abbrev pub rbac_permissions : Directory → ℕ → ℕ → List Text
  rbac_permissions d organization_id id =
      distinct_ordered collation
        (codes_of_bindings (bound_to_service organization_id id) d d.role_bindings)

  -- What a row that matches gives.
  abbrev pub principal_of : ServiceTables → CredentialRow → ServicePrincipal
  principal_of db c =
      let organization_id = organization_of c (find (is_owner c) db.accounts) in
      record {
        service_account_id = c.service_account_id;
        credential_id = c.id;
        organization_id = organization_id;
        effective_permissions =
            intersect_permissions c.scopes
              (rbac_permissions db.directory organization_id c.service_account_id);
      }

  unfoldable pub find_credential :
      ℕ → Option Text → Text → ServiceTables → Result IdentityStoreError CredentialRow
  unfolding token_of match_row
  find_credential now bytes source_ip db = do
    token ← token_of bytes
    match_row x token (
        keep (is_usable n now source_ip (take visible_prefix_length token) db.accounts)
          db.credentials)

  abbrev pub finish_authenticate :
      ℕ
      → ServiceTables
      → Result IdentityStoreError CredentialRow
      → Result IdentityStoreError ServicePrincipal × ServiceTables
  finish_authenticate now db (err e) = (err e, db)
  finish_authenticate now db (ok c) = (
    ok (principal_of db c),
    with_credentials (update_rows (has_credential_id c.id) (use_credential now) db.credentials) db,
  )

  unfoldable pub authenticate_service :
      ℕ
      → Option Text
      → Text
      → ServiceTables
      → Result IdentityStoreError ServicePrincipal × ServiceTables
  unfolding find_credential update_rows intersect_permissions distinct_ordered
  authenticate_service now bytes source_ip db =
      finish_authenticate now db (find_credential now bytes source_ip db)

abbrev pub role_fits : ℕ → ℕ → RoleRow → Bool
role_fits organization_id role_id r =
    r.id == role_id
    && (is_none r.organization_id || option_eq r.organization_id (some organization_id))

abbrev pub site_fits : ℕ → List SiteRow → Option ℕ → Bool
site_fits organization_id sites none = true
site_fits organization_id sites (some id) =
    any (λ (s : SiteRow). s.id == id && s.organization_id == organization_id) sites

-- The keys of the table, and the trigger that it has, refuse a role, a site or an account of another
-- organisation.
unfoldable pub bind_role :
    ℕ → ℕ → ℕ → Option ℕ → ServiceTables → Result IdentityStoreError ServiceTables
bind_role organization_id service_account_id role_id site_id db =
    if any (is_organization organization_id) db.directory.organizations
      && any (role_fits organization_id role_id) db.directory.roles
      && site_fits organization_id db.directory.sites site_id
      && any (of_organization organization_id service_account_id) db.accounts
    then ok (record {
      directory = record {
        organizations = db.directory.organizations;
        sites = db.directory.sites;
        users = db.directory.users;
        roles = db.directory.roles;
        permissions = db.directory.permissions;
        role_permissions = db.directory.role_permissions;
        role_bindings =
            record {
              organization_id = organization_id;
              role_id = role_id;
              user_id = none;
              service_account_id = some service_account_id;
              site_id = site_id;
            }
            ∷ db.directory.role_bindings;
      };
      accounts = db.accounts;
      credentials = db.credentials;
    })
    else err database
