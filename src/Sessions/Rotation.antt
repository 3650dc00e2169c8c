-- ===== src/Sessions/Rotation.antt =====
-- What a successful refresh did, and what a refresh does with a token that is used already.

use seven_network_manager.Base.Text.{Text, is_ascii_digit, is_ascii_lowercase, len}
use seven_network_manager.Base.Result.{>>=-eq-ok, Result, Result-cases, err, ok}
use seven_network_manager.Base.{
  Option-cases, arith, false, find, inl, inr, refl, some, true, ℕ, ◌≡◌,
}
use seven_network_manager.Token.{IssuedOpaqueToken, hash_opaque_token, issue_opaque_token}
use seven_network_manager.Sessions.Tables.{
  AuthError, RefreshTokenRow, SessionRow, Tables, has_hash, has_session_id, refresh_reuse_detected,
}
use seven_network_manager.Sessions.Service.{
  AuthService, Fresh, IssuedSession, RefreshRow, SessionIdentity, find_refresh, identity_of,
  is_expired, is_spent, issue_access_token, issue_session, issue_tokens, join_session,
}
use seven_network_manager.Sessions.Refresh.{refresh, refresh_found, revoke_row, rotate_token}

issue_tokens-eq-ok :
    (a : AuthService) (f : Fresh)
    → (issued : IssuedOpaqueToken × IssuedOpaqueToken) × (issue_tokens a f ≡ ok issued)
unfolding issue_tokens issue_opaque_token len is_ascii_lowercase is_ascii_digit
issue_tokens-eq-ok a f = (_, refl)

pub refresh-used :
    (a : AuthService) (f : Fresh) (now : ℕ) (presented : Text) (db : Tables) (row : RefreshRow)
    → find_refresh (hash_opaque_token a.tokens presented) db ≡ some row
    → is_spent row ≡ true
    → refresh a f now presented db ≡ (err refresh_reuse_detected, revoke_row now row db)
unfolding refresh refresh_found
refresh-used a f now presented db row h s =
    let issued = issue_tokens-eq-ok a f in rw (issued.1, h, s) refl

pub find_refresh-made :
    (hash : Text) (db : Tables) (t : RefreshTokenRow) (s : SessionRow)
    → find (has_hash hash) db.refresh_tokens ≡ some t
    → find (has_session_id t.session_id) db.sessions ≡ some s
    → find_refresh hash db ≡ some (record { refresh_token = t; session = s })
find_refresh-made hash db t s h k = rw (h, join_session, k) refl

-- The rotation that a refresh made.
pub record Rotated (a : AuthService) (f : Fresh) (now : ℕ) (presented : Text) (db db' : Tables)
    (result : Result AuthError IssuedSession) : Type 0 where
  pub row : RefreshRow
  pub tokens : IssuedOpaqueToken × IssuedOpaqueToken
  pub drawn : issue_tokens a f ≡ ok tokens
  pub found : find_refresh (hash_opaque_token a.tokens presented) db ≡ some row
  pub unspent : is_spent row ≡ false
  pub timely : is_expired now row ≡ false
  pub rotated : rotate_token f.token_id now row tokens.0 db ≡ ok db'
  pub answer :
      result
      ≡ issue_session a f now
          (identity_of a db'.directory row.refresh_token.session_id row.session.user_id
            row.session.organization_id)
          tokens

refresh_found-eq-ok :
    (a : AuthService) (f : Fresh) (now : ℕ) (tokens : IssuedOpaqueToken × IssuedOpaqueToken)
    (row : RefreshRow) (db db' : Tables) (issued : IssuedSession)
    → refresh_found a f now tokens db (some row) ≡ (ok issued, db')
    → (is_spent row ≡ false)
      × (is_expired now row ≡ false)
      × (rotate_token f.token_id now row tokens.0 db ≡ ok db')
      × (ok issued
          ≡ issue_session a f now
              (identity_of a db'.directory row.refresh_token.session_id row.session.user_id
                row.session.organization_id)
              tokens)
unfolding refresh_found
refresh_found-eq-ok a f now tokens row db db' issued h =
    elim (Result-cases (rotate_token f.token_id now row tokens.0 db)) [
      | inr (e, r) ↦ absurd (ground arith)
      | inl (db1, r) ↦ (ground arith, ground arith, ground arith, ground arith)
    ]

pub refresh-eq-ok :
    (a : AuthService) (f : Fresh) (now : ℕ) (presented : Text) (db db' : Tables)
    (issued : IssuedSession)
    → refresh a f now presented db ≡ (ok issued, db')
    → Rotated a f now presented db db' (ok issued)
unfolding refresh refresh_found
refresh-eq-ok a f now presented db db' issued h =
    let drawn = issue_tokens-eq-ok a f in
    elim (Option-cases (find_refresh (hash_opaque_token a.tokens presented) db)) [
      | inl e ↦ absurd (let k = drawn.1 in ground arith)
      | inr (row, e) ↦
          let k = drawn.1 in
          let v = refresh_found-eq-ok a f now drawn.0 row db db' issued (rw (refresh, k, e) at h) in
          record {
            row = row;
            tokens = drawn.0;
            drawn = k;
            found = e;
            unspent = v.0;
            timely = v.1;
            rotated = v.2;
            answer = v.3;
          }
    ]

pub issue_session-eq-ok :
    (a : AuthService) (f : Fresh) (now : ℕ) (identity : SessionIdentity)
    (tokens : IssuedOpaqueToken × IssuedOpaqueToken) (issued : IssuedSession)
    → issue_session a f now identity tokens ≡ ok issued
    → (issue_access_token a f.jti identity now ≡ ok issued.access_token)
      × (issued.identity ≡ identity)
      × (issued.refresh_token ≡ tokens.0)
      × (issued.csrf_token ≡ tokens.1)
issue_session-eq-ok a f now identity tokens issued h =
    let first = >>=-eq-ok (issue_access_token a f.jti identity now) _ h in
    let same = first.2 in (ground (arith, first.1), ground arith, ground arith, ground arith)
