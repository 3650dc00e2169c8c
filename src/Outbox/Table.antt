-- ===== src/Outbox/Table.antt =====
-- The outbox's three tables (crates/platform-events/src/lib.rs). Times are seconds, and the columns
-- that the schema checks not to be negative are ℕ.

use seven_network_manager.Base.{Bool, List, Option, false, if◌then◌else◌, map, true, ℕ, ◌==◌}
use seven_network_manager.Base.Int.{ℤ}
use seven_network_manager.Base.Text.{Text}
use seven_network_manager.Governance.{Value}

pub data OutboxError : Type 0 where
  invalid_event invalid_claim invalid_failure invalid_consumer invalid_dispatcher : OutboxError
  lease_lost dispatcher_closed dispatcher_task_failed database : OutboxError

pub record NewOutboxEvent : Type 0 where
  pub id : ℕ
  pub organization_id : ℕ
  pub aggregate_type : Text
  pub aggregate_id : Text
  pub event_type : Text
  pub event_version : ℤ
  pub payload : Value
  pub correlation_id : ℕ

pub record OutboxEvent : Type 0 where
  pub id : ℕ
  pub organization_id : ℕ
  pub aggregate_type : Text
  pub aggregate_id : Text
  pub event_type : Text
  pub event_version : ℤ
  pub payload : Value
  pub correlation_id : ℕ
  pub attempts : ℕ

-- The status of `outbox_events`.
pub data OutboxStatus : Type 0 where
  pending published failed dead_letter : OutboxStatus

-- A row of `outbox_events`.
pub record OutboxRow : Type 0 where
  pub event : NewOutboxEvent
  pub occurred_at : ℕ
  pub available_at : ℕ
  pub published_at : Option ℕ
  pub attempts : ℕ
  pub last_error_code : Option Text
  pub dead_lettered_at : Option ℕ
  pub status : OutboxStatus
  pub lease_owner : Option Text
  pub lease_expires_at : Option ℕ
  pub last_error_at : Option ℕ

pub data DeliveryOutcome : Type 0 where
  published_outcome retry_outcome dead_letter_outcome : DeliveryOutcome

-- A row of `outbox_delivery_attempts`.
pub record DeliveryAttempt : Type 0 where
  pub event_id : ℕ
  pub attempt : ℕ
  pub worker_id : Text
  pub outcome : DeliveryOutcome
  pub error_code : Option Text

pub record Outbox : Type 0 where
  pub events : List OutboxRow
  pub delivery_attempts : List DeliveryAttempt
  pub consumptions : List (Text × ℕ)

pub data DeliveryDisposition : Type 0 where
  retry dead_letter : DeliveryDisposition

abbrev pub is_open : OutboxStatus → Bool
is_open OutboxStatus.pending = true
is_open OutboxStatus.failed = true
is_open _ = false

abbrev pub has_id : ℕ → OutboxRow → Bool
has_id id r = r.event.id == id

-- `UPDATE ... SET ... WHERE p`
unfoldable pub update_where :
    (OutboxRow → Bool) → (OutboxRow → OutboxRow) → List OutboxRow → List OutboxRow
update_where p f rows = map (λ r. if p r then f r else r) rows
