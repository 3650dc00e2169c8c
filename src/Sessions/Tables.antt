-- ===== src/Sessions/Tables.antt =====
-- The tables of sessions and refresh tokens (apps/backend/src/auth.rs, with the keys of the schema:
-- migrations/0001_foundation.sql, 0003_security_foundation.sql and 0005_auth_refresh_rotation.sql).
-- A time is in microseconds; the database's clock is the program's.

use seven_network_manager.Base.Text.{Text, text_eq}
use seven_network_manager.Base.Result.{Result, err, ok}
use seven_network_manager.Base.{
  Bool, List, Option, [], any, if◌then◌else◌, none, some, ℕ, ◌&&◌, ◌==◌, ◌||◌, ◌∷◌,
}
use seven_network_manager.Accounts.{Directory}

pub data AuthError : Type 0 where
  invalid_credentials invalid_session refresh_reuse_detected csrf_rejected : AuthError
  invalid_request unavailable : AuthError

-- A row of `sessions`.
pub record SessionRow : Type 0 where
  pub id : ℕ
  pub organization_id : ℕ
  pub user_id : ℕ
  pub refresh_token_hash : Text
  pub refresh_token_prefix : Text
  pub expires_at : ℕ
  pub revoked_at : Option ℕ
  pub last_used_at : ℕ
  pub access_revoked_before : Option ℕ

-- A row of `session_refresh_tokens`.
pub record RefreshTokenRow : Type 0 where
  pub id : ℕ
  pub session_id : ℕ
  pub family_id : ℕ
  pub generation : ℕ
  pub token_prefix : Text
  pub token_hash : Text
  pub expires_at : ℕ
  pub consumed_at : Option ℕ
  pub revoked_at : Option ℕ
  pub replaced_by_id : Option ℕ

pub record Tables : Type 0 where
  pub directory : Directory
  pub sessions : List SessionRow
  pub refresh_tokens : List RefreshTokenRow

-- `UPDATE ... SET ... WHERE p`
unfoldable pub update_rows {ℓ} : {A : Type ℓ} → (A → Bool) → (A → A) → List A → List A
update_rows p f [] = []
update_rows p f (r ∷ rows) = (if p r then f r else r) ∷ update_rows p f rows

abbrev pub has_session_id : ℕ → SessionRow → Bool
has_session_id id s = s.id == id

abbrev pub has_token_id : ℕ → RefreshTokenRow → Bool
has_token_id id t = t.id == id

abbrev pub in_family : ℕ → RefreshTokenRow → Bool
in_family family_id t = t.family_id == family_id

abbrev pub has_hash : Text → RefreshTokenRow → Bool
has_hash hash t = text_eq t.token_hash hash

-- The keys that the schema makes unique: the id, the hash, and the generation of a family.
abbrev pub conflicts : RefreshTokenRow → RefreshTokenRow → Bool
conflicts new t =
    has_token_id new.id t
    || has_hash new.token_hash t
    || (in_family new.family_id t && t.generation == new.generation)

-- `INSERT INTO sessions`
unfoldable pub insert_session : SessionRow → Tables → Result AuthError Tables
insert_session new db =
    if any (has_session_id new.id) db.sessions
    then err unavailable
    else ok (record {
      directory = db.directory;
      sessions = new ∷ db.sessions;
      refresh_tokens = db.refresh_tokens;
    })

-- `INSERT INTO session_refresh_tokens`
unfoldable pub insert_refresh_token : RefreshTokenRow → Tables → Result AuthError Tables
insert_refresh_token new db =
    if any (conflicts new) db.refresh_tokens
    then err unavailable
    else ok (record {
      directory = db.directory;
      sessions = db.sessions;
      refresh_tokens = new ∷ db.refresh_tokens;
    })

-- `COALESCE(revoked_at, now)`
abbrev pub coalesce : Option ℕ → ℕ → Option ℕ
coalesce none now = some now
coalesce (some at) now = some at

abbrev pub revoke_token : ℕ → RefreshTokenRow → RefreshTokenRow
revoke_token now t = record {
  id = t.id;
  session_id = t.session_id;
  family_id = t.family_id;
  generation = t.generation;
  token_prefix = t.token_prefix;
  token_hash = t.token_hash;
  expires_at = t.expires_at;
  consumed_at = t.consumed_at;
  revoked_at = coalesce t.revoked_at now;
  replaced_by_id = t.replaced_by_id;
}

abbrev pub revoke_session : ℕ → SessionRow → SessionRow
revoke_session now s = record {
  id = s.id;
  organization_id = s.organization_id;
  user_id = s.user_id;
  refresh_token_hash = s.refresh_token_hash;
  refresh_token_prefix = s.refresh_token_prefix;
  expires_at = s.expires_at;
  revoked_at = coalesce s.revoked_at now;
  last_used_at = s.last_used_at;
  access_revoked_before = s.access_revoked_before;
}

unfoldable pub revoke_family : ℕ → ℕ → ℕ → Tables → Tables
unfolding update_rows
revoke_family family_id session_id now db = record {
  directory = db.directory;
  sessions = update_rows (has_session_id session_id) (revoke_session now) db.sessions;
  refresh_tokens = update_rows (in_family family_id) (revoke_token now) db.refresh_tokens;
}

-- `SET consumed_at = now, replaced_by_id = next_id`
abbrev pub consume_token : ℕ → ℕ → RefreshTokenRow → RefreshTokenRow
consume_token now next_id t = record {
  id = t.id;
  session_id = t.session_id;
  family_id = t.family_id;
  generation = t.generation;
  token_prefix = t.token_prefix;
  token_hash = t.token_hash;
  expires_at = t.expires_at;
  consumed_at = some now;
  revoked_at = t.revoked_at;
  replaced_by_id = some next_id;
}

-- `SET refresh_token_hash, refresh_token_prefix, last_used_at`
abbrev pub use_session : Text → Text → ℕ → SessionRow → SessionRow
use_session hash prefix now s = record {
  id = s.id;
  organization_id = s.organization_id;
  user_id = s.user_id;
  refresh_token_hash = hash;
  refresh_token_prefix = prefix;
  expires_at = s.expires_at;
  revoked_at = s.revoked_at;
  last_used_at = now;
  access_revoked_before = s.access_revoked_before;
}
