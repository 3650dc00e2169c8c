-- ===== src/Sessions/Sample.antt =====
-- A service over the toy codec, and its tables after a login and a rotation.

use seven_network_manager.Base.Text.{Text, codes, text_eq}
use seven_network_manager.Base.{[], false, map, none, some, true, ℕ, ◌*◌, ◌++◌, ◌+◌, ◌∷◌}
use seven_network_manager.Accounts.{Directory, UserStatus}
use seven_network_manager.Passwords.{PasswordCrypto}
use seven_network_manager.Token.{IssuedOpaqueToken, dot}
use seven_network_manager.Token.Toy.{shift, toy}
use seven_network_manager.Sessions.Tables.{Tables}
use seven_network_manager.Sessions.Service.{
  AuthService, Fresh, IssuedSession, LoginRequest, LoginUser, RefreshRow, log_in_user,
}
use seven_network_manager.Sessions.Login.{first_token, new_session}
use seven_network_manager.Sessions.Refresh.{next_token, settle_rotation}
use seven_network_manager.Sessions.Outcomes.{with_new_token}

abbrev toy_passwords : PasswordCrypto
toy_passwords = record {
  params_accepted = λ p. true;
  encode_salt = λ s. some s;
  argon2_hash = λ p password salt. some password;
  parse_hash = λ encoded.
      some (record { algorithm = []; version = none; get_decimal = λ k. none; encoded = encoded });
  argon2_verify = λ password parsed. text_eq password parsed.encoded;
}

abbrev pub service : AuthService
service = record {
  access_key = codes "k";
  issuer = codes "snm";
  audience = codes "snm-api";
  cookie_secure = false;
  dummy_password_hash = codes "dummy";
  tokens = toy;
  passwords = toy_passwords;
  collation = record { lower = λ s. s; before = λ s t. false };
}

abbrev pub people : Directory
people = record {
  organizations = record { id = 1; slug = codes "acme" } ∷ [];
  sites = [];
  users =
      record {
        id = 7;
        organization_id = 1;
        email = codes "a@b";
        display_name = codes "A";
        status = UserStatus.active;
        password_hash = some (codes "secret");
        last_login_at = none;
      }
      ∷ [];
  roles = [];
  permissions = [];
  role_permissions = [];
  role_bindings = [];
}

abbrev pub empty : Tables
empty = record { directory = people; sessions = []; refresh_tokens = [] }

abbrev pub drawn : ℕ → Fresh
drawn n = record {
  session_id = n;
  family_id = n;
  token_id = n;
  jti = n;
  refresh_random = n ∷ [];
  csrf_random = n ∷ [];
}

abbrev pub request : LoginRequest
request = record {
  organization_slug = codes "acme";
  email = codes "a@b";
  password = codes "secret";
}

abbrev pub at : ℕ → ℕ
at seconds = seconds * 1_000_000

abbrev pub refresh_token : ℕ → IssuedOpaqueToken
refresh_token n = record {
  secret = codes "snm_rt_" ++ (n + 47) ∷ [];
  prefix = codes "snm_rt_" ++ (n + 47) ∷ [];
  hash = codes "snm_rt_" ++ (n + 47) ∷ [];
}

abbrev csrf_token : ℕ → IssuedOpaqueToken
csrf_token n = record {
  secret = codes "csrf_" ++ (n + 47) ∷ [];
  prefix = codes "csrf_" ++ (n + 47) ∷ [];
  hash = codes "csrf_" ++ (n + 47) ∷ [];
}

abbrev signing_input : ℕ → ℕ → ℕ → Text
signing_input id n s = dot ∷ shift (7 ∷ 1 ∷ id ∷ n ∷ s ∷ 0 ∷ s ∷ 0 ∷ (s + 600) ∷ 0 ∷ [])

-- What the session `id` gets from the draw `n` in a second.
abbrev pub issued_at : ℕ → ℕ → ℕ → IssuedSession
issued_at id n s = record {
  identity = record { session_id = id; user_id = 7; organization_id = 1; permissions = [] };
  access_token = signing_input id n s ++ dot ∷ shift (signing_input id n s);
  refresh_token = refresh_token n;
  csrf_token = csrf_token n;
}

abbrev alice : LoginUser
alice = record { user_id = 7; organization_id = 1; password_hash = some (codes "secret") }

-- The tables after a login.
abbrev pub one_session : Tables
one_session = record {
  directory = record {
    organizations = people.organizations;
    sites = [];
    users = map (log_in_user (at 1_000)) people.users;
    roles = [];
    permissions = [];
    role_permissions = [];
    role_bindings = [];
  };
  sessions = new_session (drawn 1) (at 1_000) alice (refresh_token 1) ∷ [];
  refresh_tokens = first_token (drawn 1) (at 1_000) (refresh_token 1) ∷ [];
}

abbrev pub first_row : RefreshRow
first_row = record {
  refresh_token = first_token (drawn 1) (at 1_000) (refresh_token 1);
  session = new_session (drawn 1) (at 1_000) alice (refresh_token 1);
}

-- The tables after a rotation.
abbrev pub rotated_once : Tables
rotated_once =
    settle_rotation 2 (at 1_100) first_row (refresh_token 2)
      (with_new_token (next_token 2 first_row (refresh_token 2)) one_session)
