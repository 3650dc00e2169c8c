-- ===== src/Sessions/Service.antt =====
-- `AuthService` (apps/backend/src/auth.rs). The libraries and the configuration are parameters; a
-- call takes the time, the fresh ids and random bytes that it draws, and the tables, and returns
-- its result with the tables that it leaves. A transaction that fails leaves them as they were, and
-- the locks make the calls on one family follow one another.

use seven_network_manager.Base.Int.{pos, ℤ}
use seven_network_manager.Base.Text.{Text, codes, len, text_eq, trim}
use seven_network_manager.Base.Result.{Result, err, fail_if, map_err, ok, ok_or, ◌>>=◌, ◌>>◌}
use seven_network_manager.Base.{
  Bool, List, Option, any, false, find, is_empty, is_some, leb, ltb, none, not, some, ℕ, ◌&&◌, ◌*◌,
  ◌+◌, ◌/◌, ◌==◌, ◌||◌,
}
use seven_network_manager.Accounts.{
  Collation, Directory, OrganizationRow, UserRow, is_active, permissions_for_user,
}
use seven_network_manager.Passwords.{PasswordCrypto, verify_password}
use seven_network_manager.Token.{
  IssuedOpaqueToken, TokenCrypto, encode_access_token, issue_opaque_token,
}
use seven_network_manager.Sessions.Tables.{
  AuthError, RefreshTokenRow, SessionRow, Tables, has_hash, has_session_id, invalid_credentials,
  invalid_session, unavailable, update_rows,
}

abbrev pub access_ttl_seconds : ℕ
access_ttl_seconds = 10 * 60

abbrev pub refresh_ttl_days : ℕ
refresh_ttl_days = 30

abbrev pub microseconds : ℕ
microseconds = 1_000_000

-- `DateTime::timestamp`
abbrev pub timestamp : ℕ → ℤ
timestamp t = pos (t / microseconds)

abbrev pub session_lifetime : ℕ
session_lifetime = refresh_ttl_days * (24 * 60 * 60 * microseconds)

pub record LoginRequest : Type 0 where
  pub organization_slug : Text
  pub email : Text
  pub password : Text

pub record LoginUser : Type 0 where
  pub user_id : ℕ
  pub organization_id : ℕ
  pub password_hash : Option Text

pub record SessionIdentity : Type 0 where
  pub session_id : ℕ
  pub user_id : ℕ
  pub organization_id : ℕ
  pub permissions : List Text

pub record IssuedSession : Type 0 where
  pub identity : SessionIdentity
  pub access_token : Text
  pub refresh_token : IssuedOpaqueToken
  pub csrf_token : IssuedOpaqueToken

-- `struct AuthService` without the database's pool, and the libraries.
pub record AuthService : Type 0 where
  pub access_key : Text
  pub issuer : Text
  pub audience : Text
  pub cookie_secure : Bool
  pub dummy_password_hash : Text
  pub tokens : TokenCrypto
  pub passwords : PasswordCrypto
  pub collation : Collation

-- What a call draws: ids, and the bytes of the refresh and the CSRF token.
pub record Fresh : Type 0 where
  pub session_id : ℕ
  pub family_id : ℕ
  pub token_id : ℕ
  pub jti : ℕ
  pub refresh_random : Text
  pub csrf_random : Text

abbrev pub to_unavailable {ℓ} : {E : Type ℓ} → E → AuthError
to_unavailable e = unavailable

abbrev pub to_invalid_session {ℓ} : {E : Type ℓ} → E → AuthError
to_invalid_session e = invalid_session

abbrev pub otherwise_false {ℓ} : {E : Type ℓ} → Result E Bool → Bool
otherwise_false (ok b) = b
otherwise_false (err e) = false

abbrev pub has_organization : ℕ → Text → OrganizationRow → Bool
has_organization id slug o = o.id == id && text_eq o.slug slug

-- The users of the query of `load_login_user`.
abbrev pub is_login_user : Collation → Directory → Text → Text → UserRow → Bool
is_login_user c d organization_slug email u =
    any (has_organization u.organization_id organization_slug) d.organizations
    && text_eq (c.lower u.email) (c.lower email)
    && is_active u.status

abbrev pub to_login_user : Option UserRow → Option LoginUser
to_login_user none = none
to_login_user (some u) = some (record {
  user_id = u.id;
  organization_id = u.organization_id;
  password_hash = u.password_hash;
})

abbrev pub hash_or : Text → Option Text → Text
hash_or dummy none = dummy
hash_or dummy (some hash) = hash

-- The hash that a password is compared with.
abbrev pub encoded_of : Option LoginUser → Text → Text
encoded_of none dummy = dummy
encoded_of (some user) dummy = hash_or dummy user.password_hash

abbrev pub has_password : LoginUser → Bool
has_password user = is_some user.password_hash

-- `UPDATE users SET last_login_at`
abbrev pub log_in_user : ℕ → UserRow → UserRow
log_in_user now u = record {
  id = u.id;
  organization_id = u.organization_id;
  email = u.email;
  display_name = u.display_name;
  status = u.status;
  password_hash = u.password_hash;
  last_login_at = some now;
}

abbrev pub has_user_id : ℕ → UserRow → Bool
has_user_id id u = u.id == id

unfoldable pub touch_user : ℕ → ℕ → Tables → Tables
unfolding update_rows
touch_user user_id now db = record {
  directory = record {
    organizations = db.directory.organizations;
    sites = db.directory.sites;
    users = update_rows (has_user_id user_id) (log_in_user now) db.directory.users;
    roles = db.directory.roles;
    permissions = db.directory.permissions;
    role_permissions = db.directory.role_permissions;
    role_bindings = db.directory.role_bindings;
  };
  sessions = db.sessions;
  refresh_tokens = db.refresh_tokens;
}

-- The row of `session_refresh_tokens` that a query finds, with its row of `sessions`.
pub record RefreshRow : Type 0 where
  pub refresh_token : RefreshTokenRow
  pub session : SessionRow

abbrev pub join_session : List SessionRow → Option RefreshTokenRow → Option RefreshRow
join_session sessions none = none
join_session sessions (some t) = elim (find (has_session_id t.session_id) sessions) [
  | none ↦ none
  | some s ↦ some (record { refresh_token = t; session = s })
]

-- The query of `refresh`.
abbrev pub find_refresh : Text → Tables → Option RefreshRow
find_refresh hash db = join_session db.sessions (find (has_hash hash) db.refresh_tokens)

abbrev pub is_spent : RefreshRow → Bool
is_spent row =
    is_some row.refresh_token.consumed_at
    || is_some row.refresh_token.revoked_at
    || is_some row.session.revoked_at

abbrev pub is_expired : ℕ → RefreshRow → Bool
is_expired now row = leb row.refresh_token.expires_at now || leb row.session.expires_at now

module _ (a : AuthService) where
  unfoldable pub load_login_user : Text → Text → Directory → Option LoginUser
  load_login_user organization_slug email d =
      to_login_user (find (is_login_user a.collation d organization_slug email) d.users)

  -- The guards of `login`.
  abbrev pub is_malformed : LoginRequest → Bool
  is_malformed request =
      ltb 128 (len request.organization_slug)
      || ltb 320 (len request.email)
      || ltb 1_024 (len request.password)
      || is_empty (trim request.organization_slug)
      || is_empty (trim request.email)

  -- The user of a login whose password is verified; the comparison runs for an unknown user too.
  unfoldable pub verified_user : LoginRequest → Directory → Result AuthError LoginUser
  verified_user request d = do
    fail_if (is_malformed request) invalid_credentials
    let found = load_login_user request.organization_slug request.email d
    let verified =
        otherwise_false
          (verify_password a.passwords request.password (encoded_of found a.dummy_password_hash))
    user ← ok_or found invalid_credentials
    fail_if (not verified || not (has_password user)) invalid_credentials
    ok user

  -- The refresh token and the CSRF token of a call.
  unfoldable pub issue_tokens : Fresh → Result AuthError (IssuedOpaqueToken × IssuedOpaqueToken)
  issue_tokens f = do
    refresh ← map_err to_unavailable (issue_opaque_token a.tokens f.refresh_random (codes "snm_rt"))
    csrf ← map_err to_unavailable (issue_opaque_token a.tokens f.csrf_random (codes "csrf"))
    ok (refresh, csrf)

  unfoldable pub issue_access_token : ℕ → SessionIdentity → ℕ → Result AuthError Text
  issue_access_token jti identity now = map_err to_unavailable (
      encode_access_token a.tokens
        (record {
          iss = a.issuer;
          aud = a.audience;
          sub = identity.user_id;
          org = identity.organization_id;
          sid = identity.session_id;
          jti = jti;
          scopes = identity.permissions;
          iat = timestamp now;
          nbf = timestamp now;
          exp = timestamp (now + access_ttl_seconds * microseconds);
        })
        a.access_key)

  abbrev pub identity_of : Directory → ℕ → ℕ → ℕ → SessionIdentity
  identity_of d session_id user_id organization_id = record {
    session_id = session_id;
    user_id = user_id;
    organization_id = organization_id;
    permissions = permissions_for_user a.collation d organization_id user_id;
  }

  -- The end of `login` and of `refresh`, after the commit.
  abbrev pub issue_session :
      Fresh
      → ℕ
      → SessionIdentity
      → IssuedOpaqueToken × IssuedOpaqueToken
      → Result AuthError IssuedSession
  issue_session f now identity (refresh, csrf) =
      issue_access_token f.jti identity now >>= λ access_token. ok (record {
        identity = identity;
        access_token = access_token;
        refresh_token = refresh;
        csrf_token = csrf;
      })
