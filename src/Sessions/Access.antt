-- ===== src/Sessions/Access.antt =====
-- What `authenticate_access` accepts.

use seven_network_manager.Base.Int.{ltb_ℤ, ℤ}
use seven_network_manager.Base.Text.{Text}
use seven_network_manager.Base.Result.{>>=-eq-ok, map_err, map_err-eq-ok, ok}
use seven_network_manager.Base.{
  Option, Option-cases, ap, arith, false, find, inl, inr, is_some, none, refl, some, sym, true, ℕ,
  ◌<◌, ◌↔◌, ◌≡◌, ◌⊎◌,
}
use seven_network_manager.Token.{AccessClaims, decode_access_token}
use seven_network_manager.Sessions.Tables.{SessionRow, Tables, has_session_id}
use seven_network_manager.Sessions.Service.{
  AuthService, SessionIdentity, identity_of, timestamp, to_invalid_session,
}
use seven_network_manager.Sessions.Login.{authenticate_access, cutoff_passed, session_refused}

-- The session of the claims, unrevoked, unexpired and not cut off.
pub record IsFit (claims : AccessClaims) (now : ℕ) (s : SessionRow) : Type 0 where
  pub user_is : s.user_id ≡ claims.sub
  pub organization_is : s.organization_id ≡ claims.org
  pub unrevoked : s.revoked_at ≡ none
  pub unexpired : now < s.expires_at
  pub uncut :
      (s.access_revoked_before ≡ none)
      ⊎ ((cutoff : ℕ) × (s.access_revoked_before ≡ some cutoff)
          × (ltb_ℤ (timestamp cutoff) claims.iat ≡ true))

cutoff_iff :
    (o : Option ℕ) (iat : ℤ)
    → (cutoff_passed o iat ≡ false)
      ↔ ((o ≡ none) ⊎ ((cutoff : ℕ) × (o ≡ some cutoff) × (ltb_ℤ (timestamp cutoff) iat ≡ true)))
cutoff_iff none iat = (λ h. inl refl, λ h. refl)
cutoff_iff (some cutoff) iat = (
  λ h. inr (cutoff, refl, ground arith),
  λ h. elim h [ inl e ↦ absurd (ground arith) | inr (c, e, k) ↦ ground arith ],
)

none_iff : (o : Option ℕ) → (is_some o ≡ false) ↔ (o ≡ none)
none_iff o = ground arith

pub session_refused_iff :
    (claims : AccessClaims) (now : ℕ) (s : SessionRow)
    → (session_refused claims now s ≡ false) ↔ IsFit claims now s
session_refused_iff claims now s = (
  λ h. record {
    user_is = ground arith;
    organization_is = ground arith;
    unrevoked = (none_iff _).0 (ground arith);
    unexpired = ground arith;
    uncut = (cutoff_iff _ _).0 (ground arith);
  },
  λ v.
      let a = v.user_is in
      let b = v.organization_is in
      let c = (none_iff _).1 v.unrevoked in
      let d = v.unexpired in let e = (cutoff_iff _ _).1 v.uncut in ground arith,
)

-- A token is accepted: it is decoded, and the session that it names passes.
pub record IsAccepted (a : AuthService) (now : ℕ) (token : Text) (db : Tables)
    (identity : SessionIdentity) : Type 0 where
  pub claims : AccessClaims
  pub session : SessionRow
  pub decoded :
      decode_access_token a.tokens token a.access_key (timestamp now) a.issuer a.audience
      ≡ ok claims
  pub found : find (has_session_id claims.sid) db.sessions ≡ some session
  pub fit : IsFit claims now session
  pub made :
      identity ≡ identity_of a db.directory claims.sid session.user_id session.organization_id

-- An access token is accepted, for some identity, exactly if it is decoded to claims that name an
-- unrevoked and unexpired session of their user and organisation and were issued after the session's
-- cutoff; the identity has the session of the claims and the permissions that its user has now.
pub authenticate_access_iff :
    (a : AuthService) (now : ℕ) (token : Text) (db : Tables) (identity : SessionIdentity)
    → (authenticate_access a now token db ≡ ok identity) ↔ IsAccepted a now token db identity
unfolding authenticate_access
authenticate_access_iff a now token db identity = (forth, back)
  where
    forth : authenticate_access a now token db ≡ ok identity → IsAccepted a now token db identity
    forth h =
        let first =
          >>=-eq-ok
            (map_err to_invalid_session
              (decode_access_token a.tokens token a.access_key (timestamp now) a.issuer a.audience))
            _ h in
        elim (Option-cases (find (has_session_id (first.0).sid) db.sessions)) [
          | inl missing ↦ absurd (ground arith)
          | inr (s, f) ↦ record {
            claims = first.0;
            session = s;
            decoded = map_err-eq-ok _ _ first.1;
            found = f;
            fit = (session_refused_iff _ _ _).0 (ground arith);
            made = ground arith;
          }
        ]

    back : IsAccepted a now token db identity → authenticate_access a now token db ≡ ok identity
    back v = rw (v.decoded, v.found, (session_refused_iff _ _ _).1 v.fit) (ap ok (sym v.made))
