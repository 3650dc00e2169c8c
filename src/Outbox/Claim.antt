-- ===== src/Outbox/Claim.antt =====
-- `enqueue` and `claim` of the outbox.

use seven_network_manager.Base.{
  Bool, List, Option, [], any, clamp, if◌then◌else◌, is_empty, keep, leb, ltb, map, none, not, some,
  take, true, ℕ, ◌&&◌, ◌+◌, ◌-◌, ◌==◌, ◌^◌, ◌||◌, ◌∷◌,
}
use seven_network_manager.Base.Int.{leb_ℤ, pos, pos_part, ℤ}
use seven_network_manager.Base.Text.{Text, trim}
use seven_network_manager.Base.Result.{Result, fail_if, ok, ◌>>◌}
use seven_network_manager.Outbox.Table.{
  NewOutboxEvent, Outbox, OutboxError, OutboxEvent, OutboxRow, OutboxStatus, database, has_id,
  invalid_claim, invalid_event, is_open, update_where,
}

unfoldable pub validate : NewOutboxEvent → Result OutboxError (Unit {0})
validate e =
    fail_if
      (is_empty (trim e.aggregate_type)
        || is_empty (trim e.aggregate_id)
        || is_empty (trim e.event_type)
        || leb_ℤ e.event_version (pos 0))
      invalid_event

-- The row with the schema's defaults.
abbrev pub new_row : ℕ → NewOutboxEvent → OutboxRow
new_row now e = record {
  event = e;
  occurred_at = now;
  available_at = now;
  published_at = none;
  attempts = 0;
  last_error_code = none;
  dead_lettered_at = none;
  status = OutboxStatus.pending;
  lease_owner = none;
  lease_expires_at = none;
  last_error_at = none;
}

-- In the transaction of the mutation. The id is the primary key.
unfoldable pub enqueue : ℕ → NewOutboxEvent → Outbox → Result OutboxError Outbox
enqueue now e s = do
  validate e
  fail_if (any (has_id e.id) s.events) database
  ok (record s { events = new_row now e ∷ s.events })

-- `lease_expires_at IS NULL OR lease_expires_at < now()`
abbrev pub lease_over : ℕ → Option ℕ → Bool
lease_over now none = true
lease_over now (some until) = ltb until now

-- `WHERE ... FOR UPDATE SKIP LOCKED`; `locked` says which ids another transaction holds.
unfoldable pub eligible : (ℕ → Bool) → ℕ → OutboxRow → Bool
eligible locked now r =
    is_open r.status
    && leb r.available_at now
    && lease_over now r.lease_expires_at
    && not (locked r.event.id)

-- `ORDER BY available_at, occurred_at, id`
abbrev pub before_row : OutboxRow → OutboxRow → Bool
before_row r s =
    ltb r.available_at s.available_at
    || r.available_at == s.available_at
      && (ltb r.occurred_at s.occurred_at
          || r.occurred_at == s.occurred_at && ltb r.event.id s.event.id)

unfoldable pub insert_row : OutboxRow → List OutboxRow → List OutboxRow
insert_row r [] = r ∷ []
insert_row r (s ∷ ss) = if before_row r s then r ∷ s ∷ ss else s ∷ insert_row r ss

unfoldable pub sort_rows : List OutboxRow → List OutboxRow
sort_rows [] = []
sort_rows (r ∷ rs) = insert_row r (sort_rows rs)

-- The ids of the `picked` rows.
unfoldable pub picked : (ℕ → Bool) → ℕ → ℕ → List OutboxRow → List ℕ
picked locked now limit rows =
    map (λ r. r.event.id) (take limit (sort_rows (keep (eligible locked now) rows)))

abbrev pub mem : ℕ → List ℕ → Bool
mem id ids = any (λ j. j == id) ids

abbrev pub lease_row : Text → ℕ → OutboxRow → OutboxRow
lease_row worker_id until r = record r {
  lease_owner = some worker_id;
  lease_expires_at = some until;
  attempts = r.attempts + 1;
  status = OutboxStatus.pending;
}

abbrev pub row_to_event : OutboxRow → OutboxEvent
row_to_event r = record {
  id = r.event.id;
  organization_id = r.event.organization_id;
  aggregate_type = r.event.aggregate_type;
  aggregate_id = r.event.aggregate_id;
  event_type = r.event.event_type;
  event_version = r.event.event_version;
  payload = r.event.payload;
  correlation_id = r.event.correlation_id;
  attempts = r.attempts;
}

-- `lease.as_secs().clamp(1, 300)`, which fits an `i32`
abbrev pub lease_seconds : ℕ → ℕ
lease_seconds lease = clamp lease 1 300

abbrev pub i32_max : ℕ
i32_max = 2 ^ 31 - 1

-- The update fails as a whole where an attempt count leaves PostgreSQL's `integer`. The rows come
-- back in the table's order, which PostgreSQL leaves open.
unfoldable pub claim :
    (ℕ → Bool) → ℕ → Text → ℤ → ℕ → Outbox → Result OutboxError (List OutboxEvent × Outbox)
claim locked now worker_id batch_size lease s = do
  fail_if (is_empty (trim worker_id) || leb_ℤ batch_size (pos 0)) invalid_claim
  let ids = picked locked now (clamp (pos_part batch_size) 1 250) s.events
  let is_picked = λ (r : OutboxRow). mem r.event.id ids
  fail_if (any (λ (r : OutboxRow). is_picked r && leb i32_max r.attempts) s.events) database
  let rows = update_where is_picked (lease_row worker_id (now + lease_seconds lease)) s.events
  ok (map row_to_event (keep is_picked rows), record s { events = rows })
