-- ===== src/Outbox/Marks.antt =====
-- The ends of a delivery, consumption and the backlog.

use seven_network_manager.Base.{
  Bool, List, Option, any, clamp, count, false, if◌then◌else◌, is_empty, none, not, some, true, ℕ,
  ◌&&◌, ◌+◌, ◌-◌, ◌==◌, ◌^◌, ◌||◌, ◌∷◌,
}
use seven_network_manager.Base.Int.{leb_ℤ, pos, ℤ}
use seven_network_manager.Base.Text.{Text, text_eq, trim}
use seven_network_manager.Base.Result.{Result, fail_if, ok, ◌>>=◌, ◌>>◌}
use seven_network_manager.Outbox.Table.{
  DeliveryAttempt, DeliveryDisposition, DeliveryOutcome, Outbox, OutboxError, OutboxEvent,
  OutboxRow, OutboxStatus, database, dead_letter_outcome, has_id, invalid_consumer, invalid_failure,
  is_open, lease_lost, published_outcome, retry_outcome, update_where,
}

-- `lease_owner = $2`, which is not true of NULL
abbrev pub owned_by : Text → Option Text → Bool
owned_by worker_id none = false
owned_by worker_id (some owner) = text_eq owner worker_id

abbrev pub is_pending : OutboxStatus → Bool
is_pending OutboxStatus.pending = true
is_pending _ = false

-- `PRIMARY KEY`, `CHECK (attempt > 0)` and `UNIQUE (event_id, attempt)`
unfoldable pub insert_attempt :
    DeliveryAttempt → List DeliveryAttempt → Result OutboxError (List DeliveryAttempt)
insert_attempt a attempts = do
  fail_if
      (a.attempt == 0
        || any (λ (b : DeliveryAttempt). b.event_id == a.event_id && b.attempt == a.attempt)
            attempts)
      database
  ok (a ∷ attempts)

abbrev pub holds_pending : Text → ℕ → OutboxRow → Bool
holds_pending worker_id id r =
    has_id id r && owned_by worker_id r.lease_owner && is_pending r.status

abbrev pub publish_row : ℕ → OutboxRow → OutboxRow
publish_row now r = record r {
  status = OutboxStatus.published;
  published_at = some now;
  lease_owner = none;
  lease_expires_at = none;
  last_error_code = none;
  last_error_at = none;
}

-- An error rolls the transaction back.
unfoldable pub mark_published : ℕ → Text → OutboxEvent → Outbox → Result OutboxError Outbox
mark_published now worker_id e s = do
  fail_if (not (count (holds_pending worker_id e.id) s.events == 1)) lease_lost
  attempts ←
      insert_attempt
        (record {
          event_id = e.id;
          attempt = e.attempts;
          worker_id = worker_id;
          outcome = published_outcome;
          error_code = none;
        })
        s.delivery_attempts
  ok (record s {
    events = update_where (holds_pending worker_id e.id) (publish_row now) s.events;
    delivery_attempts = attempts;
  })

abbrev pub holds : Text → ℕ → OutboxRow → Bool
holds worker_id id r = has_id id r && owned_by worker_id r.lease_owner

abbrev pub dead_letter_row : ℕ → Text → OutboxRow → OutboxRow
dead_letter_row now error_code r = record r {
  status = OutboxStatus.dead_letter;
  dead_lettered_at = some now;
  lease_owner = none;
  lease_expires_at = none;
  last_error_code = some error_code;
  last_error_at = some now;
}

abbrev pub fail_row : ℕ → ℕ → Text → OutboxRow → OutboxRow
fail_row now retry_seconds error_code r = record r {
  status = OutboxStatus.failed;
  available_at = now + retry_seconds;
  lease_owner = none;
  lease_expires_at = none;
  last_error_code = some error_code;
  last_error_at = some now;
}

abbrev pub disposition_of : ℤ → ℕ → DeliveryDisposition
disposition_of max_attempts attempts =
    if leb_ℤ max_attempts (pos attempts)
    then DeliveryDisposition.dead_letter
    else DeliveryDisposition.retry

abbrev pub outcome_of : DeliveryDisposition → DeliveryOutcome
outcome_of DeliveryDisposition.dead_letter = dead_letter_outcome
outcome_of DeliveryDisposition.retry = retry_outcome

-- The row that a failed delivery leaves.
abbrev pub failed_row : DeliveryDisposition → ℕ → ℕ → Text → OutboxRow → OutboxRow
failed_row DeliveryDisposition.dead_letter now retry_after error_code =
    dead_letter_row now error_code
failed_row DeliveryDisposition.retry now retry_after error_code =
    fail_row now (clamp retry_after 1 3600) error_code

unfoldable pub mark_failed :
    ℕ
    → Text
    → OutboxEvent
    → Text
    → ℤ
    → ℕ
    → Outbox
    → Result OutboxError (DeliveryDisposition × Outbox)
mark_failed now worker_id e error_code max_attempts retry_after s = do
  fail_if (is_empty (trim error_code) || leb_ℤ max_attempts (pos 0)) invalid_failure
  let disposition = disposition_of max_attempts e.attempts
  fail_if (not (count (holds worker_id e.id) s.events == 1)) lease_lost
  attempts ←
      insert_attempt
        (record {
          event_id = e.id;
          attempt = e.attempts;
          worker_id = worker_id;
          outcome = outcome_of disposition;
          error_code = some error_code;
        })
        s.delivery_attempts
  ok (
    disposition,
    record s {
      events =
          update_where (holds worker_id e.id) (failed_row disposition now retry_after error_code)
            s.events;
      delivery_attempts = attempts;
    },
  )

-- `ON CONFLICT DO NOTHING`
unfoldable pub record_consumption : Text → ℕ → Outbox → Result OutboxError (Bool × Outbox)
record_consumption consumer event_id s = do
  fail_if (is_empty (trim consumer)) invalid_consumer
  ok (
      if any (λ (c : Text × ℕ). text_eq c.0 consumer && c.1 == event_id) s.consumptions
      then (false, s)
      else (true, record s { consumptions = (consumer, event_id) ∷ s.consumptions }))

unfoldable pub backlog : Outbox → ℕ
backlog s = count (λ (r : OutboxRow). is_open r.status) s.events

unfoldable pub retry_delay_seconds : ℕ → ℕ
retry_delay_seconds attempt = clamp (2 ^ clamp (attempt - 1) 0 6) 1 60
