-- ===== src/Sessions/Verified.antt =====
-- Whom `login` lets in.

use seven_network_manager.Base.Text.{Text, text_eq}
use seven_network_manager.Base.Result.{Result, Result-cases, err, ok}
use seven_network_manager.Base.{
  Bool, Bool-cases, Option-cases, any, arith, false, find, inl, inr, refl, some, true, ℕ, ◌≡◌, ◌≢◌,
  ◌⊎◌,
}
use seven_network_manager.Accounts.{Directory, UserRow, is_active}
use seven_network_manager.Passwords.{verify_password}
use seven_network_manager.Token.{IssuedOpaqueToken}
use seven_network_manager.Sessions.Tables.{
  AuthError, Tables, insert_refresh_token, insert_session, invalid_credentials,
}
use seven_network_manager.Sessions.Service.{
  AuthService, Fresh, LoginRequest, LoginUser, SessionIdentity, has_organization, is_login_user,
  is_malformed, issue_access_token, issue_session, issue_tokens, load_login_user, otherwise_false,
  verified_user,
}
use seven_network_manager.Sessions.Login.{finish_login, login, open_session, start_session}
use seven_network_manager.Sessions.Rows.{find-test}

-- The request is well formed, and names an active user whose stored hash fits the password.
pub record IsVerified (a : AuthService) (request : LoginRequest) (d : Directory) : Type 0 where
  pub well_formed : is_malformed a request ≡ false
  pub user : UserRow
  pub hash : Text
  pub user_found :
      find (is_login_user a.collation d request.organization_slug request.email) d.users ≡ some user
  pub named :
      (any (has_organization user.organization_id request.organization_slug) d.organizations ≡ true)
      × (text_eq (a.collation.lower user.email) (a.collation.lower request.email) ≡ true)
      × (is_active user.status ≡ true)
  pub stored : user.password_hash ≡ some hash
  pub fits : verify_password a.passwords request.password hash ≡ ok true

user_of : UserRow → LoginUser
user_of u = record {
  user_id = u.id;
  organization_id = u.organization_id;
  password_hash = u.password_hash;
}

ok_true : {E : Type 0} (r : Result E Bool) → otherwise_false r ≡ true → r ≡ ok true
ok_true (ok b) h = cc
ok_true (err e) h = cc

verified_user-found :
    (a : AuthService) (request : LoginRequest) (d : Directory) (user : UserRow) (hash : Text)
    → is_malformed a request ≡ false
    → find (is_login_user a.collation d request.organization_slug request.email) d.users ≡ some user
    → user.password_hash ≡ some hash
    → (IsVerified a request d × (verified_user a request d ≡ ok (user_of user)))
      ⊎ (verified_user a request d ≡ err invalid_credentials)
unfolding verified_user load_login_user user_of
verified_user-found a request d user hash w f s =
    elim (Bool-cases (otherwise_false (verify_password a.passwords request.password hash))) [
      | inl e ↦ inl (
        record {
          well_formed = w;
          user = user;
          hash = hash;
          user_found = f;
          named =
              let t =
                find-test (is_login_user a.collation d request.organization_slug request.email)
                  d.users user f in
              (ground arith, ground arith, ground arith);
          stored = s;
          fits = ok_true _ e;
        },
        rw (w, f, s, e) refl,
      )
      | inr e ↦ inr (rw (w, f, s, e) refl)
    ]

IsVerified-ok :
    (a : AuthService) (request : LoginRequest) (d : Directory) (v : IsVerified a request d)
    → verified_user a request d ≡ ok (user_of v.user)
unfolding verified_user load_login_user user_of
IsVerified-ok a request d v = rw (v.well_formed, v.user_found, v.stored, v.fits) refl

verified_user-cases :
    (a : AuthService) (request : LoginRequest) (d : Directory)
    → IsVerified a request d ⊎ (verified_user a request d ≡ err invalid_credentials)
unfolding verified_user load_login_user
verified_user-cases a request d = elim (Bool-cases (is_malformed a request)) [
  | inl bad ↦ inr (rw bad refl)
  | inr good ↦
      elim (Option-cases
        (find (is_login_user a.collation d request.organization_slug request.email) d.users)) [
          | inl missing ↦ inr (rw (good, missing) refl)
          | inr (user, found) ↦ elim (Option-cases user.password_hash) [
            | inl unset ↦ inr (rw (good, found, unset) (ground arith))
            | inr (hash, stored) ↦
                elim (verified_user-found a request d user hash good found stored) [
                  | inl (v, e) ↦ inl v
                  | inr e ↦ inr e
                ]
          ]
        ]
]

issue_session-error :
    (a : AuthService) (f : Fresh) (now : ℕ) (identity : SessionIdentity)
    (tokens : IssuedOpaqueToken × IssuedOpaqueToken)
    → issue_session a f now identity tokens ≢ err invalid_credentials
unfolding issue_access_token
issue_session-error a f now identity tokens e = ground arith

start_session-error :
    (a : AuthService) (f : Fresh) (now : ℕ) (request : LoginRequest) (db : Tables)
    (user : LoginUser)
    → verified_user a request db.directory ≡ ok user
    → start_session a f now request db ≢ err invalid_credentials
unfolding start_session issue_tokens open_session insert_session insert_refresh_token
start_session-error a f now request db user v e = ground arith

same_error :
    {A B : Type 0} (r : Result AuthError A) (q : Result AuthError B) (e e' : AuthError)
    → r ≡ err e
    → q ≡ err e
    → r ≡ err e'
    → q ≡ err e'
same_error r q e e' h k l = cc

-- A login is answered by the error for invalid credentials, with nothing changed, exactly if the request is
-- not verified: if it is malformed, or the first active user of that organisation and address is missing,
-- has no password or another one.
pub login-IsVerified :
    (a : AuthService) (f : Fresh) (now : ℕ) (request : LoginRequest) (db : Tables)
    → (IsVerified a request db.directory × ((login a f now request db).0 ≢ err invalid_credentials))
      ⊎ (¬ IsVerified a request db.directory
          × (login a f now request db ≡ (err invalid_credentials, db)))
unfolding login start_session
login-IsVerified a f now request db = elim (verified_user-cases a request db.directory) [
  | inr e ↦
      inr (λ v. absurd (let k = IsVerified-ok a request db.directory v in ground arith), rw e refl)
  | inl v ↦ inl (v, other (user_of v.user) (IsVerified-ok a request db.directory v))
]
  where
    other :
        (user : LoginUser)
        → verified_user a request db.directory ≡ ok user
        → (finish_login a f now db (start_session a f now request db)).0 ≢ err invalid_credentials
    other user v h = elim (Result-cases (start_session a f now request db)) [
      | inr (e, k) ↦
          start_session-error a f now request db user v
            (same_error _ _ e invalid_credentials refl k (rw k at h))
      | inl ((u, tokens, db'), k) ↦ issue_session-error a f now _ tokens (rw k at h)
    ]
