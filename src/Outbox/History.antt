-- ===== src/Outbox/History.antt =====
-- What every call does to the rows of the outbox, one by one.

use seven_network_manager.Base.{
  All, Bool, List, [], all, any, arith, false, inl, inr, refl, subst, sym, true, ℕ, ◌∷◌, ◌≡◌, ◌⊎◌,
}
use seven_network_manager.Base.Int.{ℤ}
use seven_network_manager.Base.Text.{Text}
use seven_network_manager.Base.Result.{ok}
use seven_network_manager.Outbox.Table.{
  DeliveryDisposition, NewOutboxEvent, Outbox, OutboxEvent, OutboxRow, has_id, update_where,
}
use seven_network_manager.Outbox.Claim.{eligible, enqueue, lease_row, mem, new_row, picked}
use seven_network_manager.Outbox.Marks.{
  failed_row, holds, holds_pending, insert_attempt, mark_failed, mark_published, publish_row,
  record_consumption,
}
use seven_network_manager.Outbox.Rows.{
  RowSteps, Step, claimed, consumed, enqueued, failed_now, leased, marked_failed, marked_published,
  published_now, unchanged, update_steps,
}
use seven_network_manager.Outbox.Leases.{claim-eq-ok, picked-eligible, some_row}

-- The ids are a primary key.
abbrev pub Distinct : List OutboxRow → Type 0
Distinct [] = Unit
Distinct (r ∷ rows) = (any (has_id r.event.id) rows ≡ false) × Distinct rows

any_of_test :
    (q : OutboxRow → Bool) (i : ℕ) (rows : List OutboxRow)
    → some_row q i rows ≡ true
    → any (has_id i) rows ≡ true
any_of_test q i [] h = h
any_of_test q i (r ∷ rows) h = ground (arith, any_of_test q i rows)

-- Where ids are distinct, the row with an id is the one that passes.
weaken :
    (q : OutboxRow → Bool) (r : OutboxRow) (all rows : List OutboxRow)
    → any (has_id r.event.id) rows ≡ false
    → All (λ s. some_row q s.event.id all ≡ true → q s ≡ true) rows
    → All (λ s. some_row q s.event.id (r ∷ all) ≡ true → q s ≡ true) rows
weaken q r all [] d h = tt
weaken q r all (s ∷ rows) d h = (λ e. ground (arith, h.0), weaken q r all rows (ground arith) h.1)

Distinct-test :
    (q : OutboxRow → Bool) (rows : List OutboxRow)
    → Distinct rows
    → All (λ r. some_row q r.event.id rows ≡ true → q r ≡ true) rows
Distinct-test q [] d = tt
Distinct-test q (r ∷ rows) d = (
  λ e. ground (arith, d.0, any_of_test q r.event.id rows),
  weaken q r rows rows d.0 (Distinct-test q rows d.1),
)

All-map {ℓ} :
    {A : Type ℓ} {P Q : A → Type 0} (xs : List A) → ((a : A) → P a → Q a) → All P xs → All Q xs
All-map [] f h = tt
All-map (a ∷ xs) f h = (f a h.0, All-map xs f h.1)

All-true {ℓ} : {A : Type ℓ} {P : A → Type 0} (xs : List A) → ((a : A) → P a) → All P xs
All-true [] f = tt
All-true (a ∷ xs) f = (f a, All-true xs f)

claim_steps :
    (locked : ℕ → Bool) (now n until : ℕ) (worker_id : Text) (rows : List OutboxRow)
    → Distinct rows
    → RowSteps rows (
        update_where
          (λ r. mem r.event.id (picked locked now n rows))
          (lease_row worker_id until)
          rows)
claim_steps locked now n until w rows d =
    update_steps (λ r. mem r.event.id (picked locked now n rows)) (eligible locked now)
      (lease_row w until) rows
      (All-map rows (λ r h m. h (picked-eligible locked now n r.event.id rows m))
        (Distinct-test (eligible locked now) rows d))
      (λ r m e. leased w until (unfold eligible in ground arith) refl)

publish_steps :
    (now id : ℕ) (worker_id : Text) (rows : List OutboxRow)
    → RowSteps rows (update_where (holds_pending worker_id id) (publish_row now) rows)
publish_steps now id w rows =
    update_steps (holds_pending w id) (λ r. true) (publish_row now) rows
      (All-true rows (λ r h. refl))
      (λ r h _. published_now w now (ground arith) (ground arith) refl)

fail_steps :
    (d : DeliveryDisposition) (now id retry_after : ℕ) (worker_id code : Text)
    (rows : List OutboxRow)
    → RowSteps rows (update_where (holds worker_id id) (failed_row d now retry_after code) rows)
fail_steps d now id ra w code rows =
    update_steps (holds w id) (λ r. true) (failed_row d now ra code) rows
      (All-true rows (λ r h. refl)) (λ r h _. failed_now w d now ra code (ground arith) refl)

-- A call adds a row with a new id in front, or steps row by row.
abbrev pub Stepped : List OutboxRow → List OutboxRow → Type 0
Stepped rows rows' =
    RowSteps rows rows'
    ⊎ ((now : ℕ) × (e : NewOutboxEvent) × (rows' ≡ new_row now e ∷ rows)
        × (any (has_id e.id) rows ≡ false))

pub consumption_rows :
    (consumer : Text) (id : ℕ) (s s' : Outbox) (first : Bool)
    → record_consumption consumer id s ≡ ok (first, s')
    → s'.events ≡ s.events
unfolding record_consumption
consumption_rows consumer id s s' first e = ground arith

pub mark_published-rows :
    (now : ℕ) (worker_id : Text) (e : OutboxEvent) (s s' : Outbox)
    → mark_published now worker_id e s ≡ ok s'
    → s'.events ≡ update_where (holds_pending worker_id e.id) (publish_row now) s.events
unfolding mark_published insert_attempt
mark_published-rows now w e s s' h = ground arith

pub mark_failed-rows :
    (now : ℕ) (worker_id : Text) (e : OutboxEvent) (code : Text) (max_attempts : ℤ)
    (retry_after : ℕ) (d : DeliveryDisposition) (s s' : Outbox)
    → mark_failed now worker_id e code max_attempts retry_after s ≡ ok (d, s')
    → s'.events ≡ update_where (holds worker_id e.id) (failed_row d now retry_after code) s.events
unfolding mark_failed insert_attempt
mark_failed-rows now w e code m ra d s s' h = ground arith

pub Step-rows : (s s' : Outbox) → Step s s' → Distinct s.events → Stepped s.events s'.events
Step-rows s s' (enqueued now e h) d =
    inr (now, e, unfold enqueue in ground arith, unfold enqueue in ground arith)
Step-rows s s' (claimed locked now w batch lease es c) d =
    let (_, left) = claim-eq-ok locked now w batch lease s c in
    inl (
      subst (λ (t : Outbox). RowSteps s.events t.events) (sym left)
        (claim_steps locked now _ _ w s.events d))
Step-rows s s' (marked_published now w e h) d = inl (
    subst (RowSteps s.events) (sym (mark_published-rows now w e s s' h))
      (publish_steps now e.id w s.events))
Step-rows s s' (marked_failed now w e code m ra disposition h) d = inl (
    subst (RowSteps s.events) (sym (mark_failed-rows now w e code m ra disposition s s' h))
      (fail_steps disposition now e.id ra w code s.events))
Step-rows s s' (consumed consumer id first h) d = inl (
    subst (RowSteps s.events) (sym (consumption_rows consumer id s s' first h))
      (unchanged s.events))
