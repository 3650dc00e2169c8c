-- ===== src/Sessions/RoundTrip.antt =====
-- What a login gives is accepted.

use seven_network_manager.Base.Int.{
  i64_limit, neg_part, pos, pos_part, saturate, saturating_add, ◌+ℤ◌,
}
use seven_network_manager.Base.Text.{Text, len, text_eq_refl}
use seven_network_manager.Base.Result.{Result-cases, map_err-eq-ok, ok}
use seven_network_manager.Base.{
  List, arith, false, inl, inr, leb, subst, ℕ, ◌*◌, ◌+◌, ◌/◌, ◌<◌, ◌∙◌, ◌≡◌, ◌≤◌,
}
use seven_network_manager.Accounts.{permissions_for_user}
use seven_network_manager.Token.{
  AccessClaims, IssuedOpaqueToken, decode_access_token, outside_window,
}
use seven_network_manager.Token.RoundTrip.{TokenLaws, decode-encode_access_token}
use seven_network_manager.Sessions.Tables.{Tables}
use seven_network_manager.Sessions.Service.{
  AuthService, Fresh, IssuedSession, LoginRequest, LoginUser, SessionIdentity, access_ttl_seconds,
  identity_of, issue_access_token, issue_session, issue_tokens, microseconds, session_lifetime,
  timestamp, verified_user,
}
use seven_network_manager.Sessions.Login.{
  authenticate_access, login, new_session, open_session, session_refused, start_session,
}
use seven_network_manager.Sessions.Outcomes.{open_session-eq-ok}
use seven_network_manager.Sessions.Access.{authenticate_access_iff, session_refused_iff}
use seven_network_manager.Sessions.Rotation.{issue_session-eq-ok}

claims_of : AuthService → ℕ → SessionIdentity → ℕ → AccessClaims
claims_of a jti identity now = record {
  iss = a.issuer;
  aud = a.audience;
  sub = identity.user_id;
  org = identity.organization_id;
  sid = identity.session_id;
  jti = jti;
  scopes = identity.permissions;
  iat = timestamp now;
  nbf = timestamp now;
  exp = timestamp (now + access_ttl_seconds * microseconds);
}

-- The whole second of a time, as the claims keep it.
abbrev pub second : ℕ → ℕ
second t = t / microseconds

second_mono : (now later : ℕ) → now ≤ later → second now ≤ second later
second_mono now later h = omega arith

second_add : (now : ℕ) → second (now + access_ttl_seconds * microseconds) ≡ second now + 600
second_add now = omega arith

saturated : (n : ℕ) → n < i64_limit → n ≤ pos_part (saturating_add (pos n) (pos 60))
unfolding saturating_add ◌+ℤ◌ saturate
saturated n h = ground arith

saturated_sign : (n : ℕ) → neg_part (saturating_add (pos n) (pos 60)) ≡ 0
unfolding saturating_add ◌+ℤ◌ saturate
saturated_sign n = ground arith

in_window :
    (a : AuthService) (jti : ℕ) (identity : SessionIdentity) (now later : ℕ)
    → now ≤ later
    → second later < second now + 600
    → second later < i64_limit
    → outside_window (claims_of a jti identity now) (timestamp later) ≡ false
unfolding claims_of
in_window a jti identity now later h k b = ground (
  arith,
  second_mono now later h,
  second_add now,
  saturated (second later) b,
  saturated_sign (second later),
)

-- The access token of an issued session is decoded to its claims.
issue_access_token-decoded :
    (a : AuthService) (jti : ℕ) (identity : SessionIdentity) (now later : ℕ) (token : Text)
    → TokenLaws a.tokens
    → issue_access_token a jti identity now ≡ ok token
    → len token ≤ 16_384
    → now ≤ later
    → second later < second now + 600
    → second later < i64_limit
    → decode_access_token a.tokens token a.access_key (timestamp later) a.issuer a.audience
      ≡ ok (claims_of a jti identity now)
unfolding issue_access_token claims_of
issue_access_token-decoded a jti identity now later token laws h l n k b =
    decode-encode_access_token a.tokens laws a.access_key _ token (timestamp later) a.issuer
      a.audience (map_err-eq-ok _ _ h)
    ∙ ground (
      arith,
      in_window a jti identity now later n k b,
      text_eq_refl a.issuer,
      text_eq_refl a.audience,
      l,
    )

start_session-eq-parts :
    (a : AuthService) (f : Fresh) (now : ℕ) (request : LoginRequest) (db db' : Tables)
    (user : LoginUser) (tokens : IssuedOpaqueToken × IssuedOpaqueToken)
    → start_session a f now request db ≡ ok (user, tokens, db')
    → (verified_user a request db.directory ≡ ok user)
      × (issue_tokens a f ≡ ok tokens)
      × (open_session f now user tokens.0 db ≡ ok db')
unfolding start_session
start_session-eq-parts a f now request db db' user tokens h =
    (ground arith, ground arith, ground arith)

-- What a successful login did.
pub record LoggedIn (a : AuthService) (f : Fresh) (now : ℕ) (request : LoginRequest)
    (db db' : Tables) (s : IssuedSession) : Type 0 where
  pub user : LoginUser
  pub tokens : IssuedOpaqueToken × IssuedOpaqueToken
  pub verified : verified_user a request db.directory ≡ ok user
  pub drawn : issue_tokens a f ≡ ok tokens
  pub opened : open_session f now user tokens.0 db ≡ ok db'
  pub answer :
      issue_session a f now
        (identity_of a db'.directory f.session_id user.user_id user.organization_id)
        tokens
      ≡ ok s

pub login-eq-ok :
    (a : AuthService) (f : Fresh) (now : ℕ) (request : LoginRequest) (db db' : Tables)
    (s : IssuedSession)
    → login a f now request db ≡ (ok s, db')
    → LoggedIn a f now request db db' s
unfolding login
login-eq-ok a f now request db db' s h = elim (Result-cases (start_session a f now request db)) [
  | inr (e, r) ↦ absurd (ground arith)
  | inl ((user, tokens, db1), r) ↦
      let same : db1 ≡ db' = ground arith in
      let parts = start_session-eq-parts a f now request db db1 user tokens r in
      record {
        user = user;
        tokens = tokens;
        verified = parts.0;
        drawn = parts.1;
        opened = subst (λ (d : Tables). open_session f now user tokens.0 db ≡ ok d) same parts.2;
        answer =
            subst
              (λ (d : Tables).
                issue_session a f now
                  (identity_of a d.directory f.session_id user.user_id user.organization_id) tokens
                ≡ ok s)
              same (ground arith);
      }
]

session_fits :
    (now later : ℕ) → second later < second now + 600 → leb (now + session_lifetime) later ≡ false
session_fits now later h = ground arith

new_session_allowed :
    (a : AuthService) (f : Fresh) (now later : ℕ) (user : LoginUser) (refresh : IssuedOpaqueToken)
    (permissions : List Text)
    → second later < second now + 600
    → session_refused
        (claims_of a f.jti
          (record {
            session_id = f.session_id;
            user_id = user.user_id;
            organization_id = user.organization_id;
            permissions = permissions;
          })
          now)
        later
        (new_session f now user refresh)
      ≡ false
unfolding claims_of
new_session_allowed a f now later user refresh permissions h =
    ground (arith, session_fits now later h)

-- The access token of a successful login, of at most 16384 bytes, authenticates in the tables that
-- the login leaves, in each of the next 600 seconds within the range of `i64`, as the identity of
-- the login.
pub login-authenticate_access :
    (a : AuthService) (f : Fresh) (now later : ℕ) (request : LoginRequest) (db db' : Tables)
    (s : IssuedSession)
    → TokenLaws a.tokens
    → login a f now request db ≡ (ok s, db')
    → len s.access_token ≤ 16_384
    → now ≤ later
    → second later < second now + 600
    → second later < i64_limit
    → authenticate_access a later s.access_token db' ≡ ok s.identity
unfolding claims_of
login-authenticate_access a f now later request db db' s laws h l n k b =
    let v = login-eq-ok a f now request db db' s h in
    let made = open_session-eq-ok f now v.user v.tokens.0 db db' v.opened in
    let given = issue_session-eq-ok a f now _ v.tokens s v.answer in
    (authenticate_access_iff a later s.access_token db' s.identity).1 (record {
      claims = _;
      session = new_session f now v.user v.tokens.0;
      decoded = issue_access_token-decoded a f.jti _ now later s.access_token laws given.0 l n k b;
      found = rw made.2 (ground arith);
      fit = (session_refused_iff _ _ _).0 (
          new_session_allowed a f now later v.user v.tokens.0
            (permissions_for_user a.collation db'.directory v.user.organization_id v.user.user_id)
            k);
      made = given.1;
    })
