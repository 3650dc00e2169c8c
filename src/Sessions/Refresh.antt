-- ===== src/Sessions/Refresh.antt =====
-- `AuthService::refresh` and `logout` (apps/backend/src/auth.rs).

use seven_network_manager.Base.Text.{Text}
use seven_network_manager.Base.Result.{Result, err, ok, ◌>>=◌}
use seven_network_manager.Base.{Option, find, if◌then◌else◌, none, some, ℕ, ◌+◌}
use seven_network_manager.Token.{IssuedOpaqueToken, hash_opaque_token}
use seven_network_manager.Sessions.Tables.{
  AuthError, RefreshTokenRow, Tables, consume_token, has_hash, has_session_id, has_token_id,
  insert_refresh_token, invalid_session, refresh_reuse_detected, revoke_family, update_rows,
  use_session,
}
use seven_network_manager.Sessions.Service.{
  AuthService, Fresh, IssuedSession, RefreshRow, find_refresh, identity_of, is_expired, is_spent,
  issue_session, issue_tokens,
}

abbrev pub next_token : ℕ → RefreshRow → IssuedOpaqueToken → RefreshTokenRow
next_token next_id row next = record {
  id = next_id;
  session_id = row.refresh_token.session_id;
  family_id = row.refresh_token.family_id;
  generation = row.refresh_token.generation + 1;
  token_prefix = next.prefix;
  token_hash = next.hash;
  expires_at = row.session.expires_at;
  consumed_at = none;
  revoked_at = none;
  replaced_by_id = none;
}

-- The two updates of a rotation.
abbrev pub settle_rotation : ℕ → ℕ → RefreshRow → IssuedOpaqueToken → Tables → Tables
settle_rotation next_id now row next db = record {
  directory = db.directory;
  sessions =
      update_rows (has_session_id row.refresh_token.session_id)
        (use_session next.hash next.prefix now) db.sessions;
  refresh_tokens =
      update_rows (has_token_id row.refresh_token.id) (consume_token now next_id) db.refresh_tokens;
}

-- The rotation of a token: the next one is inserted, and the presented one is consumed.
unfoldable pub rotate_token :
    ℕ → ℕ → RefreshRow → IssuedOpaqueToken → Tables → Result AuthError Tables
unfolding insert_refresh_token update_rows
rotate_token next_id now row next db = do
  with_next ← insert_refresh_token (next_token next_id row next) db
  ok (settle_rotation next_id now row next with_next)

abbrev pub revoke_row : ℕ → RefreshRow → Tables → Tables
revoke_row now row db =
    revoke_family row.refresh_token.family_id row.refresh_token.session_id now db

module _ (a : AuthService) where
  -- The end of `refresh`: a rotation that fails leaves the tables as they were.
  abbrev pub finish_rotation :
      Fresh
      → ℕ
      → RefreshRow
      → IssuedOpaqueToken × IssuedOpaqueToken
      → Tables
      → Result AuthError Tables
      → Result AuthError IssuedSession × Tables
  finish_rotation f now row issued db (err e) = (err e, db)
  finish_rotation f now row issued db (ok db') = (
    issue_session a f now
        (identity_of a db'.directory row.refresh_token.session_id row.session.user_id
          row.session.organization_id)
        issued,
    db',
  )

  -- From the row that the query found on.
  unfoldable pub refresh_found :
      Fresh
      → ℕ
      → IssuedOpaqueToken × IssuedOpaqueToken
      → Tables
      → Option RefreshRow
      → Result AuthError IssuedSession × Tables
  unfolding rotate_token revoke_family
  refresh_found f now issued db none = (err invalid_session, db)
  refresh_found f now issued db (some row) =
      if is_spent row
      then (err refresh_reuse_detected, revoke_row now row db)
      else if is_expired now row
      then (err invalid_session, revoke_row now row db)
      else finish_rotation f now row issued db (rotate_token f.token_id now row issued.0 db)

  abbrev pub refresh_issued :
      Fresh
      → ℕ
      → Text
      → Tables
      → Result AuthError (IssuedOpaqueToken × IssuedOpaqueToken)
      → Result AuthError IssuedSession × Tables
  refresh_issued f now presented db (err e) = (err e, db)
  refresh_issued f now presented db (ok issued) =
      refresh_found f now issued db (find_refresh (hash_opaque_token a.tokens presented) db)

  unfoldable pub refresh : Fresh → ℕ → Text → Tables → Result AuthError IssuedSession × Tables
  unfolding refresh_found issue_tokens
  refresh f now presented db = refresh_issued f now presented db (issue_tokens a f)

  abbrev pub logout_found : ℕ → Tables → Option RefreshTokenRow → Tables
  logout_found now db none = db
  logout_found now db (some t) = revoke_family t.family_id t.session_id now db

  unfoldable pub logout : ℕ → Text → Tables → Result AuthError (Unit {0}) × Tables
  unfolding revoke_family
  logout now presented db = (
    ok tt,
    logout_found now db (find (has_hash (hash_opaque_token a.tokens presented)) db.refresh_tokens),
  )
