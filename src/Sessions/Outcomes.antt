-- ===== src/Sessions/Outcomes.antt =====
-- What a transaction that succeeds did to the tables.

use seven_network_manager.Base.Result.{ok}
use seven_network_manager.Base.{Bool-cases, any, arith, false, inl, inr, ℕ, ◌∷◌, ◌≡◌}
use seven_network_manager.Token.{IssuedOpaqueToken}
use seven_network_manager.Sessions.Tables.{
  RefreshTokenRow, Tables, conflicts, has_session_id, insert_refresh_token, insert_session,
}
use seven_network_manager.Sessions.Service.{Fresh, LoginUser, RefreshRow, touch_user}
use seven_network_manager.Sessions.Login.{first_token, new_session, open_session}
use seven_network_manager.Sessions.Refresh.{next_token, refresh, rotate_token, settle_rotation}

abbrev pub with_new_token : RefreshTokenRow → Tables → Tables
with_new_token new db = record {
  directory = db.directory;
  sessions = db.sessions;
  refresh_tokens = new ∷ db.refresh_tokens;
}

pub insert_refresh_token-eq-ok :
    (new : RefreshTokenRow) (db db' : Tables)
    → insert_refresh_token new db ≡ ok db'
    → (any (conflicts new) db.refresh_tokens ≡ false) × (db' ≡ with_new_token new db)
unfolding insert_refresh_token
insert_refresh_token-eq-ok new db db' h =
    elim (Bool-cases (any (conflicts new) db.refresh_tokens)) [
      | inl e ↦ absurd (ground arith)
      | inr e ↦ (e, ground arith)
    ]

pub open_session-eq-ok :
    (f : Fresh) (now : ℕ) (user : LoginUser) (refresh : IssuedOpaqueToken) (db db' : Tables)
    → open_session f now user refresh db ≡ ok db'
    → (any (has_session_id f.session_id) db.sessions ≡ false)
      × (any (conflicts (first_token f now refresh)) db.refresh_tokens ≡ false)
      × (db'.sessions ≡ new_session f now user refresh ∷ db.sessions)
      × (db'.refresh_tokens ≡ first_token f now refresh ∷ db.refresh_tokens)
unfolding open_session insert_session touch_user insert_refresh_token
open_session-eq-ok f now user refresh db db' h = ground arith

pub rotate_token-eq-ok :
    (id now : ℕ) (row : RefreshRow) (next : IssuedOpaqueToken) (db db' : Tables)
    → rotate_token id now row next db ≡ ok db'
    → (any (conflicts (next_token id row next)) db.refresh_tokens ≡ false)
      × (db' ≡ settle_rotation id now row next (with_new_token (next_token id row next) db))
unfolding rotate_token insert_refresh_token
rotate_token-eq-ok id now row next db db' h = ground arith
