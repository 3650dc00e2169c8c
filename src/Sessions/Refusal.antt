-- ===== src/Sessions/Refusal.antt =====
-- What is refused once a refresh token is spent or a session is revoked, whatever calls follow.

use seven_network_manager.Base.Text.{Text}
use seven_network_manager.Base.Result.{Result, err, ok}
use mathlib.Core.Option.{some-injective}
use seven_network_manager.Base.{
  ==_iff, ap, arith, find, is_some, refl, some, subst, sym, true, ℕ, ◌∙◌, ◌∷◌, ◌≡◌, ◌≢◌,
}
use seven_network_manager.Token.{hash_opaque_token}
use seven_network_manager.Sessions.Tables.{
  AuthError, SessionRow, Tables, consume_token, has_hash, has_session_id, has_token_id,
  refresh_reuse_detected, revoke_family, revoke_session, use_session,
}
use seven_network_manager.Sessions.Service.{
  AuthService, Fresh, IssuedSession, RefreshRow, SessionIdentity, find_refresh, is_spent,
}
use seven_network_manager.Sessions.Login.{authenticate_access}
use seven_network_manager.Sessions.Refresh.{logout, next_token, refresh, revoke_row}
use seven_network_manager.Sessions.Rows.{find-test, find-update_rows-hit}
use seven_network_manager.Sessions.Access.{authenticate_access_iff}
use seven_network_manager.Sessions.Outcomes.{rotate_token-eq-ok}
use seven_network_manager.Sessions.Families.{Step, Step-Change, join_session-eq-some}
use seven_network_manager.Sessions.Rotation.{
  find_refresh-made, issue_session-eq-ok, refresh-eq-ok, refresh-used,
}
use seven_network_manager.Sessions.Replay.{
  Change-SessionStays, Change-TokenStays, Steps, done, find-new_token, then_steps,
}

-- A session that is revoked.
abbrev pub IsRevoked : ℕ → Tables → Type 0
IsRevoked id db =
    (s : SessionRow) × (find (has_session_id id) db.sessions ≡ some s)
    × (is_some s.revoked_at ≡ true)

-- A token of the session whose next use is a reuse.
abbrev pub IsUsed : ℕ → Text → Tables → Type 0
IsUsed id hash db =
    (row : RefreshRow) × (find_refresh hash db ≡ some row)
    × (is_spent row ≡ true)
    × (row.refresh_token.session_id ≡ id)

-- Nothing of the session is accepted: none of its access tokens and none of its refresh tokens.
pub record IsClosed (a : AuthService) (id : ℕ) (db : Tables) : Type 0 where
  pub access_refused :
      (now : ℕ) (token : Text) (identity : SessionIdentity)
      → authenticate_access a now token db ≡ ok identity
      → identity.session_id ≢ id
  pub refresh_refused :
      (f : Fresh) (now : ℕ) (presented : Text) (row : RefreshRow)
      → find_refresh (hash_opaque_token a.tokens presented) db ≡ some row
      → row.refresh_token.session_id ≡ id
      → (refresh a f now presented db).0 ≡ err refresh_reuse_detected

IsRevoked-IsClosed : (a : AuthService) (id : ℕ) (db : Tables) → IsRevoked id db → IsClosed a id db
IsRevoked-IsClosed a id db (s, found, gone) = record {
  access_refused = λ now token identity h e.
      let v = (authenticate_access_iff a now token db identity).0 h in
      let same_id : v.claims.sid ≡ id =
        sym (ap (λ (i : SessionIdentity). i.session_id) v.made) ∙ e in
      let found_too =
        subst (λ (i : ℕ). find (has_session_id i) db.sessions ≡ some v.session) same_id v.found in
      let same_session = some-injective _ _ (sym found ∙ found_too) in
      let still = subst (λ (u : SessionRow). is_some u.revoked_at ≡ true) same_session gone in
      ground (arith, still, v.fit.unrevoked);
  refresh_refused = λ f now presented row h e.
      let q = join_session-eq-some db.sessions _ row h in
      let found_too =
        subst (λ (i : ℕ). find (has_session_id i) db.sessions ≡ some row.session) e q.1 in
      let still =
        subst (λ (u : SessionRow). is_some u.revoked_at ≡ true)
          (some-injective _ _ (sym found ∙ found_too)) gone in
      ap (λ (r : Result AuthError IssuedSession × Tables). r.0)
        (refresh-used a f now presented db row h (ground (arith, still)));
}

Steps-IsRevoked :
    (a : AuthService) (id : ℕ) (db db' : Tables)
    → Steps a db db'
    → IsRevoked id db
    → IsRevoked id db'
Steps-IsRevoked a id db db' (done _) r = r
Steps-IsRevoked a id db db' (then_steps _ mid _ t more) (s, found, gone) =
    let (s', found', kept) = Change-SessionStays a id db mid (Step-Change a db mid t) s found in
    Steps-IsRevoked a id mid db' more (s', found', kept.revoked_stays gone)

Step-IsUsed :
    (a : AuthService) (id : ℕ) (hash : Text) (db db' : Tables)
    → Step a db db'
    → IsUsed id hash db
    → IsUsed id hash db'
Step-IsUsed a id hash db db' t (row, found, used, own) =
    let q = join_session-eq-some db.sessions _ row found in
    let (t', token', kept) =
      Change-TokenStays a hash db db' (Step-Change a db db' t) row.refresh_token q.0 in
    let (s', session', kept') =
      Change-SessionStays a row.refresh_token.session_id db db' (Step-Change a db db' t) row.session
        q.1 in
    (
      record { refresh_token = t'; session = s' },
      find_refresh-made hash db' t' s' token' (
          subst (λ (i : ℕ). find (has_session_id i) db'.sessions ≡ some s') (sym kept.same_session)
            session'),
      ground (arith, used, kept.consumed_stays, kept.revoked_stays, kept'.revoked_stays),
      kept.same_session ∙ own,
    )

Steps-IsUsed :
    (a : AuthService) (id : ℕ) (hash : Text) (db db' : Tables)
    → Steps a db db'
    → IsUsed id hash db
    → IsUsed id hash db'
Steps-IsUsed a id hash db db' (done _) r = r
Steps-IsUsed a id hash db db' (then_steps _ mid _ t more) r =
    Steps-IsUsed a id hash mid db' more (Step-IsUsed a id hash db mid t r)

revoke_family-IsRevoked :
    (family_id id now : ℕ) (db : Tables) (s : SessionRow)
    → find (has_session_id id) db.sessions ≡ some s
    → IsRevoked id (revoke_family family_id id now db)
unfolding revoke_family
revoke_family-IsRevoked family_id id now db s h =
    let own = find-test (has_session_id id) db.sessions s h in
    (
      revoke_session now s,
      find-update_rows-hit (has_session_id id) (has_session_id id) (revoke_session now) db.sessions
          s (λ u. refl) h own,
      ground arith,
    )

-- A successful refresh leaves the presented token used.
refresh-IsUsed :
    (a : AuthService) (f : Fresh) (now : ℕ) (presented : Text) (db db' : Tables)
    (issued : IssuedSession)
    → refresh a f now presented db ≡ (ok issued, db')
    → IsUsed issued.identity.session_id (hash_opaque_token a.tokens presented) db'
refresh-IsUsed a f now presented db db' issued h =
    let v = refresh-eq-ok a f now presented db db' issued h in
    let made = rotate_token-eq-ok f.token_id now v.row v.tokens.0 db db' v.rotated in
    let q = join_session-eq-some db.sessions _ v.row v.found in
    (
      record {
        refresh_token = consume_token now f.token_id v.row.refresh_token;
        session = use_session v.tokens.0.hash v.tokens.0.prefix now v.row.session;
      },
      find_refresh-made _ db' _ _
          (rw made.1 (
            find-update_rows-hit (has_token_id v.row.refresh_token.id)
              (has_hash (hash_opaque_token a.tokens presented)) (consume_token now f.token_id)
              (next_token f.token_id v.row v.tokens.0 ∷ db.refresh_tokens) v.row.refresh_token
              (λ u. refl) (find-new_token _ _ _ db.refresh_tokens made.0 q.0)
              ((==_iff _ _).1 refl)))
          (rw made.1 (
            find-update_rows-hit (has_session_id v.row.refresh_token.session_id)
              (has_session_id v.row.refresh_token.session_id)
              (use_session v.tokens.0.hash v.tokens.0.prefix now) db.sessions v.row.session
              (λ u. refl) q.1 (find-test _ db.sessions v.row.session q.1))),
      refl,
      ap (λ (i : SessionIdentity). i.session_id)
          (sym (issue_session-eq-ok a f now _ v.tokens issued (sym v.answer)).1),
    )

-- After the second use of a token that was exchanged, whatever calls came between.
used_again-IsRevoked :
    (a : AuthService) (f g : Fresh) (now later : ℕ) (presented : Text) (db db1 db2 : Tables)
    (issued : IssuedSession)
    → refresh a f now presented db ≡ (ok issued, db1)
    → Steps a db1 db2
    → ((refresh a g later presented db2).0 ≡ err refresh_reuse_detected)
      × IsRevoked issued.identity.session_id (refresh a g later presented db2).1
used_again-IsRevoked a f g now later presented db db1 db2 issued h between =
    let hash = hash_opaque_token a.tokens presented in
    let (row, found, spent, own) =
      Steps-IsUsed a issued.identity.session_id hash db1 db2 between
        (refresh-IsUsed a f now presented db db1 issued h) in
    let gone =
      revoke_family-IsRevoked row.refresh_token.family_id row.refresh_token.session_id later db2
        row.session (join_session-eq-some db2.sessions _ row found).1 in
    rw (refresh-used a g later presented db2 row found spent)
      (refl, subst (λ (i : ℕ). IsRevoked i (revoke_row later row db2)) own gone)

-- Once a refresh token was exchanged, presenting it again, after whatever calls, is answered by
-- the reuse error, and from then on, after whatever calls, so is every refresh token of the same
-- session.
pub refresh-reused :
    (a : AuthService) (f g k : Fresh) (now later last : ℕ) (presented other : Text)
    (db db1 db2 db3 : Tables) (issued : IssuedSession) (row : RefreshRow)
    → refresh a f now presented db ≡ (ok issued, db1)
    → Steps a db1 db2
    → Steps a (refresh a g later presented db2).1 db3
    → find_refresh (hash_opaque_token a.tokens other) db3 ≡ some row
    → row.refresh_token.session_id ≡ issued.identity.session_id
    → ((refresh a g later presented db2).0 ≡ err refresh_reuse_detected)
      × ((refresh a k last other db3).0 ≡ err refresh_reuse_detected)
refresh-reused a f g k now later last presented other db db1 db2 db3 issued row h between after
      found own =
    let v = used_again-IsRevoked a f g now later presented db db1 db2 issued h between in
    let closed = IsRevoked-IsClosed a _ db3 (Steps-IsRevoked a _ _ db3 after v.1) in
    (v.0, closed.refresh_refused k last other row found own)

-- Once a refresh token was exchanged and then presented again, whatever calls come between and after,
-- no access token is accepted as one of its session.
pub reuse-authenticate_access :
    (a : AuthService) (f g : Fresh) (now later last : ℕ) (presented token : Text)
    (db db1 db2 db3 : Tables) (issued : IssuedSession) (identity : SessionIdentity)
    → refresh a f now presented db ≡ (ok issued, db1)
    → Steps a db1 db2
    → Steps a (refresh a g later presented db2).1 db3
    → authenticate_access a last token db3 ≡ ok identity
    → identity.session_id ≢ issued.identity.session_id
reuse-authenticate_access a f g now later last presented token db db1 db2 db3 issued identity h
      between after accepted =
    let v = used_again-IsRevoked a f g now later presented db db1 db2 issued h between in
    let closed = IsRevoked-IsClosed a _ db3 (Steps-IsRevoked a _ _ db3 after v.1) in
    closed.access_refused last token identity accepted

-- A logout with a token of a session succeeds, and from then on, whatever calls follow, no access token is
-- accepted as one of this session.
pub logout-authenticate_access :
    (a : AuthService) (now last : ℕ) (presented token : Text) (row : RefreshRow) (db db' : Tables)
    (identity : SessionIdentity)
    → find_refresh (hash_opaque_token a.tokens presented) db ≡ some row
    → Steps a (logout a now presented db).1 db'
    → authenticate_access a last token db' ≡ ok identity
    → ((logout a now presented db).0 ≡ ok tt) × (identity.session_id ≢ row.refresh_token.session_id)
unfolding logout
logout-authenticate_access a now last presented token row db db' identity found after accepted =
    let q = join_session-eq-some db.sessions _ row found in
    let gone =
      revoke_family-IsRevoked row.refresh_token.family_id row.refresh_token.session_id now db
        row.session q.1 in
    let closed = IsRevoked-IsClosed a _ db' (Steps-IsRevoked a _ _ db' (rw q.0 at after) gone) in
    (refl, closed.access_refused last token identity accepted)
