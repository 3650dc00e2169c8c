-- ===== src/Authorization/Strictness.antt =====
-- The two ways to authenticate an access token.

use seven_network_manager.Base.Text.{Text}
use seven_network_manager.Base.Result.{ok}
use seven_network_manager.Base.{arith, find, refl, some, true, ℕ, ◌&&◌, ◌==◌, ◌≡◌}
use seven_network_manager.Accounts.{UserRow, UserStatus, is_active}
use seven_network_manager.Sessions.Tables.{Tables}
use seven_network_manager.Sessions.Service.{AuthService, SessionIdentity, identity_of}
use seven_network_manager.Sessions.Login.{authenticate_access}
use seven_network_manager.Sessions.Access.{authenticate_access_iff, session_refused_iff}
use seven_network_manager.Sessions.Cookies.{HeaderMap, bearer_token}
use seven_network_manager.Authorization.{AuthorizationService, Principal, authenticate}
use seven_network_manager.Authorization.Principals.{authenticate-IsAdmitted}

-- `authenticate` lets a request in only where `authenticate_access`, under the same key, issuer,
-- audience and libraries, accepts the token that the request carries, for the same session, user
-- and organisation, and where this user has the status `active`.
pub authenticate-authenticate_access :
    (a : AuthorizationService) (b : AuthService) (now : ℕ) (headers : HeaderMap) (db : Tables)
    (p : Principal)
    → b.access_key ≡ a.access_key
    → b.issuer ≡ a.issuer
    → b.audience ≡ a.audience
    → b.tokens ≡ a.tokens
    → authenticate a now headers db ≡ ok p
    → (token : Text) × (identity : SessionIdentity) × (user : UserRow) × (bearer_token headers
        ≡ some token)
      × (authenticate_access b now token db ≡ ok identity)
      × (p ≡ record {
        session_id = identity.session_id;
        user_id = identity.user_id;
        organization_id = identity.organization_id;
      })
      × (find
            (λ (u : UserRow). u.id == p.user_id && u.organization_id == p.organization_id)
            db.directory.users
          ≡ some user)
      × (user.status ≡ UserStatus.active)
authenticate-authenticate_access a b now headers db p k i d t h =
    let v = authenticate-IsAdmitted a now headers db p h in
    (
      v.token,
      identity_of b db.directory v.claims.sid v.session.user_id v.session.organization_id,
      v.user,
      v.carried,
      (authenticate_access_iff b now v.token db _).1 (record {
        claims = v.claims;
        session = v.session;
        decoded = rw (k, i, d, t) v.decoded;
        found = v.found;
        fit = (session_refused_iff _ _ _).0 (let w = v.allowed in ground arith);
        made = refl;
      }),
      v.made,
      rw v.made v.owned,
      active_user v.user (let w = v.allowed in ground arith),
    )
  where
    active_user : (u : UserRow) → is_active u.status ≡ true → u.status ≡ UserStatus.active
    active_user u e = ground arith
