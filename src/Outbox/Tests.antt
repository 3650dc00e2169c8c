-- ===== src/Outbox/Tests.antt =====
-- Runs and instances of the outbox rules.

use seven_network_manager.Base.{
  Bool, List, [], arith, clamp, false, inl, map, min, none, refl, some, ℕ, ◌-◌, ◌^◌, ◌∷◌, ◌≡◌, ◌≤◌,
}
use seven_network_manager.Base.Int.{pos}
use seven_network_manager.Base.Text.{codes, is_whitespace, text_eq, trim}
use seven_network_manager.Base.Result.{Result, ok}
use seven_network_manager.Governance.{Value}
use seven_network_manager.Outbox.Table.{
  DeliveryAttempt, NewOutboxEvent, Outbox, OutboxError, OutboxRow, OutboxStatus, published_outcome,
  update_where,
}
use seven_network_manager.Outbox.Claim.{
  claim, eligible, enqueue, insert_row, lease_row, new_row, picked, row_to_event, sort_rows,
  validate,
}
use seven_network_manager.Outbox.Marks.{
  holds_pending, insert_attempt, mark_failed, mark_published, publish_row, retry_delay_seconds,
}
use seven_network_manager.Outbox.Dispatch.{deliver, deliver_all, dispatch_once}
use seven_network_manager.Outbox.Rows.{
  Reachable, claimed, enqueued, marked_published, start, then_step,
}
use seven_network_manager.Outbox.Leases.{has_event}
use seven_network_manager.Outbox.Exclusion.{claim_exclusive, then_call, unchanged_yet}
use seven_network_manager.Outbox.Safety.{Has, IsOutbox, Reachable-IsOutbox, terminal_rows_stay}
use seven_network_manager.Outbox.Backoff.{retry_delay-doubles, retry_delay_seconds_lem}
use seven_network_manager.Outbox.Delivery.{mark_published-claim}

abbrev created : NewOutboxEvent
created = record {
  id = 5;
  organization_id = 1;
  aggregate_type = codes "device";
  aggregate_id = codes "d";
  event_type = codes "device.created";
  event_version = pos 1;
  payload = Value.null;
  correlation_id = 9;
}

abbrev nothing : Outbox
nothing = record { events = []; delivery_attempts = []; consumptions = [] }

abbrev one_event : Outbox
one_event = record nothing { events = new_row 100 created ∷ [] }

abbrev leased_row : OutboxRow
leased_row = lease_row (codes "worker-a") 130 (new_row 100 created)

abbrev one_leased : Outbox
one_leased = record nothing { events = leased_row ∷ [] }

abbrev free : ℕ → Bool
free id = false

enqueued_once : enqueue 100 created nothing ≡ ok one_event
unfolding enqueue validate trim is_whitespace
enqueued_once = refl

-- `event_survives_commit_before_publication_and_is_claimed_once`
claimed_once :
    claim free 100 (codes "worker-a") (pos 1) 30 one_event
    ≡ ok (row_to_event leased_row ∷ [], one_leased)
unfolding claim picked sort_rows insert_row eligible update_where trim is_whitespace
claimed_once = refl

-- Another event is written, and another worker claims it.
abbrev other : NewOutboxEvent
other = record created { id = 6 }

abbrev two_events : Outbox
two_events = record nothing { events = new_row 105 other ∷ leased_row ∷ [] }

enqueued_other : enqueue 105 other one_leased ≡ ok two_events
unfolding enqueue validate trim is_whitespace
enqueued_other = refl

abbrev other_row : OutboxRow
other_row = lease_row (codes "worker-b") 140 (new_row 105 other)

abbrev two_leased : Outbox
two_leased = record nothing { events = other_row ∷ leased_row ∷ [] }

claimed_other :
    claim free 110 (codes "worker-b") (pos 10) 30 two_events
    ≡ ok (row_to_event other_row ∷ [], two_leased)
unfolding claim picked sort_rows insert_row eligible update_where trim is_whitespace
claimed_other = refl

claimed_none : claim free 130 (codes "worker-c") (pos 10) 30 two_leased ≡ ok ([], two_leased)
unfolding claim picked sort_rows insert_row eligible update_where trim is_whitespace
claimed_none = refl

claim_exclusive_example : has_event 5 [] ≡ false
claim_exclusive_example =
    claim_exclusive free free 100 130 (codes "worker-a") (codes "worker-c") (pos 1) (pos 10) 30 30
      one_event one_leased two_leased two_leased (row_to_event leased_row ∷ []) [] 5 claimed_once
      refl
      (then_call two_events
        (then_call one_leased unchanged_yet (enqueued 105 other enqueued_other) tt)
        (claimed free 110 (codes "worker-b") (pos 10) 30 (row_to_event other_row ∷ [])
          claimed_other)
        (omega arith))
      (omega arith) claimed_none

abbrev delivered : DeliveryAttempt
delivered = record {
  event_id = 5;
  attempt = 1;
  worker_id = codes "worker-a";
  outcome = published_outcome;
  error_code = none;
}

abbrev one_published : Outbox
one_published = record {
  events = publish_row 101 leased_row ∷ [];
  delivery_attempts = delivered ∷ [];
  consumptions = [];
}

published_once :
    mark_published 101 (codes "worker-a") (row_to_event leased_row) one_leased ≡ ok one_published
unfolding mark_published insert_attempt update_where text_eq
published_once = refl

published_reached : Reachable one_published
published_reached =
    then_step one_leased
      (then_step one_event (then_step nothing start (enqueued 100 created enqueued_once)) (
        claimed free 100 (codes "worker-a") (pos 1) 30 (row_to_event leased_row ∷ []) claimed_once))
      (marked_published 101 (codes "worker-a") (row_to_event leased_row) published_once)

Reachable-IsOutbox_example : IsOutbox one_published
Reachable-IsOutbox_example = Reachable-IsOutbox published_reached

claim_after : claim free 900 (codes "worker-b") (pos 10) 30 one_published ≡ ok ([], one_published)
unfolding claim picked sort_rows insert_row eligible update_where trim is_whitespace
claim_after = refl

terminal_rows_stay_example : Has (publish_row 101 leased_row) one_published.events
terminal_rows_stay_example =
    terminal_rows_stay one_published one_published (publish_row 101 leased_row) published_reached
      (claimed free 900 (codes "worker-b") (pos 10) 30 [] claim_after) refl (inl refl)

abbrev statuses : Result OutboxError ℕ × Outbox → List OutboxStatus
statuses (_, s) = map (λ (r : OutboxRow). r.status) s.events

-- `failed_publication_is_retried_without_false_success`
retried :
    statuses (
      dispatch_once free
        (record {
          worker_id = codes "worker-retry";
          max_attempts = pos 3;
          lease = 30;
          concurrency = 2;
        })
        (λ e. some (codes "fixture_failure"))
        100
        101
        (pos 1)
        one_event)
    ≡ OutboxStatus.failed ∷ []
unfolding dispatch_once deliver_all deliver claim picked sort_rows insert_row eligible update_where
    trim is_whitespace mark_failed insert_attempt text_eq
retried = refl

retry_delay_seconds_lem_example : retry_delay_seconds 4 ≡ 8
retry_delay_seconds_lem_example = retry_delay_seconds_lem 4

retry_delay-doubles_example :
    (retry_delay_seconds 5 ≡ min (2 ^ (5 - 1)) 60)
    × (1 ≤ retry_delay_seconds 5)
    × (retry_delay_seconds 5 ≤ retry_delay_seconds 9)
    × (retry_delay_seconds 9 ≤ 60)
    × (clamp (retry_delay_seconds 5) 1 3600 ≡ retry_delay_seconds 5)
retry_delay-doubles_example = retry_delay-doubles 5 9 (omega arith)

mark_published-claim_example :
    mark_published 101 (codes "worker-a") (row_to_event leased_row) one_leased
    ≡ ok (record one_leased {
      events =
          update_where (holds_pending (codes "worker-a") 5) (publish_row 101) one_leased.events;
      delivery_attempts = delivered ∷ [];
    })
mark_published-claim_example =
    mark_published-claim free 100 101 (codes "worker-a") (pos 1) 30 one_event one_leased
      (row_to_event leased_row ∷ []) (row_to_event leased_row)
      (then_step nothing start (enqueued 100 created enqueued_once)) claimed_once (inl refl) refl
