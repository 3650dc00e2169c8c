-- ===== src/Authorization/Principals.antt =====
-- Whom `authenticate` lets in.

use seven_network_manager.Base.Text.{Text}
use seven_network_manager.Base.Result.{Result-cases, ok}
use seven_network_manager.Base.{Option-cases, arith, false, find, inl, inr, some, ℕ, ◌≡◌}
use seven_network_manager.Accounts.{UserRow}
use seven_network_manager.Token.{AccessClaims, decode_access_token}
use seven_network_manager.Sessions.Tables.{SessionRow, Tables, has_session_id}
use seven_network_manager.Sessions.Service.{timestamp}
use seven_network_manager.Sessions.Cookies.{HeaderMap, bearer_token}
use seven_network_manager.Authorization.{
  AuthorizationService, Principal, authenticate, is_session_user, principal_refused,
}

-- A request is let in: its token is decoded, and the session and the user that it names pass.
pub record IsAdmitted (a : AuthorizationService) (now : ℕ) (headers : HeaderMap) (db : Tables)
    (p : Principal) : Type 0 where
  pub token : Text
  pub claims : AccessClaims
  pub session : SessionRow
  pub user : UserRow
  pub carried : bearer_token headers ≡ some token
  pub decoded :
      decode_access_token a.tokens token a.access_key (timestamp now) a.issuer a.audience
      ≡ ok claims
  pub found : find (has_session_id claims.sid) db.sessions ≡ some session
  pub owned : find (is_session_user session) db.directory.users ≡ some user
  pub allowed : principal_refused claims now (session, user) ≡ false
  pub made : p ≡ record {
    session_id = claims.sid;
    user_id = session.user_id;
    organization_id = session.organization_id;
  }

pub authenticate-IsAdmitted :
    (a : AuthorizationService) (now : ℕ) (headers : HeaderMap) (db : Tables) (p : Principal)
    → authenticate a now headers db ≡ ok p
    → IsAdmitted a now headers db p
unfolding authenticate
authenticate-IsAdmitted a now headers db p h = elim (Option-cases (bearer_token headers)) [
  | inl e ↦ absurd (ground arith)
  | inr (token, e) ↦
      elim (Result-cases
        (decode_access_token a.tokens token a.access_key (timestamp now) a.issuer a.audience)) [
          | inr (x, d) ↦ absurd (ground arith)
          | inl (claims, d) ↦ elim (Option-cases (find (has_session_id claims.sid) db.sessions)) [
            | inl f ↦ absurd (ground arith)
            | inr (s, f) ↦ elim (Option-cases (find (is_session_user s) db.directory.users)) [
              | inl u ↦ absurd (ground arith)
              | inr (user, u) ↦ record {
                token = token;
                claims = claims;
                session = s;
                user = user;
                carried = e;
                decoded = d;
                found = f;
                owned = u;
                allowed = ground arith;
                made = ground arith;
              }
            ]
          ]
        ]
]
