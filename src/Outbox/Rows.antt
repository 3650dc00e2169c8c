-- ===== src/Outbox/Rows.antt =====
-- What holds of every row of the outbox, whatever the calls that led to it.

use seven_network_manager.Base.{
  All, Bool, Bool-cases, List, Option, [], arith, false, if◌then◌else◌, inl, inr, is_some, none,
  not, refl, some, subst, sym, true, ℕ, ◌&&◌, ◌∷◌, ◌≡◌,
}
use seven_network_manager.Base.Int.{ℤ}
use seven_network_manager.Base.Text.{Text}
use seven_network_manager.Base.Result.{ok}
use seven_network_manager.Outbox.Table.{
  DeliveryDisposition, NewOutboxEvent, Outbox, OutboxEvent, OutboxRow, OutboxStatus, is_open,
  update_where,
}
use seven_network_manager.Outbox.Claim.{claim, enqueue, lease_row}
use seven_network_manager.Outbox.Marks.{
  failed_row, is_pending, mark_failed, mark_published, owned_by, publish_row, record_consumption,
}

abbrev pub is_published : OutboxStatus → Bool
is_published OutboxStatus.published = true
is_published _ = false

abbrev pub is_dead_letter : OutboxStatus → Bool
is_dead_letter OutboxStatus.dead_letter = true
is_dead_letter _ = false

-- A lease has an owner and an end, and is held on a pending row only; the row is published, or a
-- dead letter, exactly if the time of that is set.
pub record IsRow (r : OutboxRow) : Type 0 where
  pub lease_paired : is_some r.lease_owner ≡ is_some r.lease_expires_at
  pub leased_pending : (is_some r.lease_owner && not (is_pending r.status)) ≡ false
  pub published_dated : is_published r.status ≡ is_some r.published_at
  pub dead_dated : is_dead_letter r.status ≡ is_some r.dead_lettered_at

-- A call of one of the methods that change the tables, at any time and by any worker.
pub data Step (s s' : Outbox) : Type 0 where
  enqueued : (now : ℕ) (e : NewOutboxEvent) → enqueue now e s ≡ ok s' → Step s s'
  claimed :
      (locked : ℕ → Bool) (now : ℕ) (worker_id : Text) (batch : ℤ) (lease : ℕ)
      (es : List OutboxEvent)
      → claim locked now worker_id batch lease s ≡ ok (es, s')
      → Step s s'
  marked_published :
      (now : ℕ) (worker_id : Text) (e : OutboxEvent)
      → mark_published now worker_id e s ≡ ok s'
      → Step s s'
  marked_failed :
      (now : ℕ) (worker_id : Text) (e : OutboxEvent) (code : Text) (max_attempts : ℤ)
      (retry_after : ℕ) (d : DeliveryDisposition)
      → mark_failed now worker_id e code max_attempts retry_after s ≡ ok (d, s')
      → Step s s'
  consumed :
      (consumer : Text) (id : ℕ) (first : Bool)
      → record_consumption consumer id s ≡ ok (first, s')
      → Step s s'

pub data Reachable : Outbox → Type 0 where
  start : Reachable (record { events = []; delivery_attempts = []; consumptions = [] })
  then_step : (s : Outbox) {s' : Outbox} → Reachable s → Step s s' → Reachable s'

-- The row that a call leaves of a row.
pub data RowStep (r r' : OutboxRow) : Type 0 where
  same : r' ≡ r → RowStep r r'
  leased :
      (worker_id : Text) (until : ℕ)
      → is_open r.status ≡ true
      → r' ≡ lease_row worker_id until r
      → RowStep r r'
  published_now :
      (worker_id : Text) (now : ℕ)
      → is_pending r.status ≡ true
      → owned_by worker_id r.lease_owner ≡ true
      → r' ≡ publish_row now r
      → RowStep r r'
  failed_now :
      (worker_id : Text) (d : DeliveryDisposition) (now retry_after : ℕ) (code : Text)
      → owned_by worker_id r.lease_owner ≡ true
      → r' ≡ failed_row d now retry_after code r
      → RowStep r r'

owned_is_some : (w : Text) (o : Option Text) → owned_by w o ≡ true → is_some o ≡ true
owned_is_some w none h = cc
owned_is_some w (some o) h = refl

owned_pending :
    (w : Text) (r : OutboxRow)
    → IsRow r
    → owned_by w r.lease_owner ≡ true
    → r.status ≡ OutboxStatus.pending
owned_pending w r h o = ground (arith, h.leased_pending, owned_is_some w r.lease_owner o)

failed_row-IsRow :
    (d : DeliveryDisposition) (now retry_after : ℕ) (code : Text) (r : OutboxRow)
    → IsRow r
    → r.status ≡ OutboxStatus.pending
    → IsRow (failed_row d now retry_after code r)
failed_row-IsRow DeliveryDisposition.retry now ra code r h p = record {
  lease_paired = refl;
  leased_pending = refl;
  published_dated = ground (arith, h.published_dated);
  dead_dated = ground (arith, h.dead_dated);
}
failed_row-IsRow DeliveryDisposition.dead_letter now ra code r h p = record {
  lease_paired = refl;
  leased_pending = refl;
  published_dated = ground (arith, h.published_dated);
  dead_dated = refl;
}

pub RowStep-IsRow : (r r' : OutboxRow) → RowStep r r' → IsRow r → IsRow r'
RowStep-IsRow r r' (same e) h = subst IsRow (sym e) h
RowStep-IsRow r r' (leased w u o e) h = subst IsRow (sym e) (record {
  lease_paired = refl;
  leased_pending = refl;
  published_dated = ground (arith, h.published_dated);
  dead_dated = ground (arith, h.dead_dated);
})
RowStep-IsRow r r' (published_now w now p o e) h = subst IsRow (sym e) (record {
  lease_paired = refl;
  leased_pending = refl;
  published_dated = refl;
  dead_dated = ground (arith, h.dead_dated);
})
RowStep-IsRow r r' (failed_now w d now ra code o e) h =
    subst IsRow (sym e) (failed_row-IsRow d now ra code r h (owned_pending w r h o))

-- A terminal row has no lease, so no call changes it.
pub RowStep-terminal :
    (r r' : OutboxRow) → RowStep r r' → IsRow r → is_open r.status ≡ false → r' ≡ r
RowStep-terminal r r' (same e) h t = e
RowStep-terminal r r' (leased w u o e) h t = absurd (ground arith)
RowStep-terminal r r' (published_now w now p o e) h t = absurd (ground arith)
RowStep-terminal r r' (failed_now w d now ra code o e) h t =
    absurd (let p = owned_pending w r h o in ground arith)

-- The rows that a call leaves, in their order; an enqueued one comes first.
abbrev pub RowSteps : List OutboxRow → List OutboxRow → Type 0
RowSteps [] [] = Unit
RowSteps (r ∷ rs) (r' ∷ rs') = RowStep r r' × RowSteps rs rs'
RowSteps _ _ = ⊥

pub unchanged : (rows : List OutboxRow) → RowSteps rows rows
unchanged [] = tt
unchanged (r ∷ rows) = (same refl, unchanged rows)

pub update_steps :
    (p q : OutboxRow → Bool) (f : OutboxRow → OutboxRow) (rows : List OutboxRow)
    → All (λ r. p r ≡ true → q r ≡ true) rows
    → ((r : OutboxRow) → p r ≡ true → q r ≡ true → RowStep r (f r))
    → RowSteps rows (update_where p f rows)
unfolding update_where
update_steps p q f [] k h = tt
update_steps p q f (r ∷ rows) k h = (
  elim (Bool-cases (p r)) [
    | inl e ↦ subst (λ b. RowStep r (if b then f r else r)) (sym e) (h r e (k.0 e))
    | inr e ↦ subst (λ b. RowStep r (if b then f r else r)) (sym e) (same refl)
  ],
  update_steps p q f rows k.1 h,
)
