-- ===== src/Outbox/Exclusion.antt =====
-- One event is with one worker at a time, whatever calls are made while its lease lasts.

use seven_network_manager.Base.Int.{pos_part, ℤ}
use seven_network_manager.Base.Text.{Text}
use seven_network_manager.Base.Result.{ok}
use seven_network_manager.Base.{
  ==_iff, Bool, Bool-cases, List, Option, [], all, any, ap, arith, clamp, false, inl, inr, keep,
  leb, map, none, not, refl, some, subst, sym, true, ℕ, ◌+◌, ◌==◌, ◌||◌, ◌∙◌, ◌∷◌, ◌≡◌, ◌≢◌, ◌≤◌,
}
use seven_network_manager.Outbox.Table.{
  DeliveryDisposition, NewOutboxEvent, Outbox, OutboxEvent, OutboxRow, has_id, is_open,
  update_where,
}
use seven_network_manager.Outbox.Claim.{
  claim, eligible, enqueue, lease_row, lease_seconds, mem, new_row, picked, row_to_event,
}
use seven_network_manager.Outbox.Marks.{failed_row, holds, holds_pending, publish_row}
use seven_network_manager.Outbox.Rows.{
  Step, claimed, consumed, enqueued, marked_failed, marked_published,
}
use seven_network_manager.Outbox.History.{consumption_rows, mark_failed-rows, mark_published-rows}
use seven_network_manager.Outbox.Leases.{
  claim-eq-ok, has_event, picked-eligible, returned_picked, some_row,
}

abbrev covers : ℕ → Option ℕ → Bool
covers until none = false
covers until (some end) = leb until end

-- No claim can take the row up to the time `until`.
abbrev blocked : ℕ → OutboxRow → Bool
blocked until r = not (is_open r.status) || covers until r.lease_expires_at

clash : {a : Bool} → a ≡ true → a ≡ false → ⊥
clash t f = cc

module _ (i until : ℕ) where
  -- A call that leaves the event `i` with its holder up to the time `until`: any call but a claim
  -- after that time, and but the report that the delivery of `i` failed, which gives it back.
  abbrev pub Spares : {s s' : Outbox} → Step s s' → Type 0
  Spares (enqueued now e h) = Unit
  Spares (claimed locked now w batch lease es h) = now ≤ until
  Spares (marked_published now w e h) = Unit
  Spares (marked_failed now w e code max_attempts retry_after d h) = e.id ≢ i
  Spares (consumed consumer id first h) = Unit

  -- The tables after any number of such calls of any workers.
  pub data Meanwhile (s : Outbox) : Outbox → Type 0 where
    unchanged_yet : Meanwhile s s
    then_call :
        (t : Outbox) {t' : Outbox}
        → Meanwhile s t
        → (call : Step t t') → Spares call
        → Meanwhile s t'

  -- The event is in the table, and every row of it is blocked.
  abbrev IsHeld : List OutboxRow → Type 0
  IsHeld rows =
      (any (has_id i) rows ≡ true) × (all (λ r. not (has_id i r) || blocked until r) rows ≡ true)

  held-eligible :
      (locked : ℕ → Bool) (now : ℕ) (rows : List OutboxRow)
      → now ≤ until
      → all (λ r. not (has_id i r) || blocked until r) rows ≡ true
      → some_row (eligible locked now) i rows ≡ false
  unfolding eligible
  held-eligible locked now [] b h = refl
  held-eligible locked now (r ∷ rows) b h = ground (arith, held-eligible locked now rows)

  held-picked :
      (locked : ℕ → Bool) (now n : ℕ) (rows : List OutboxRow)
      → now ≤ until
      → IsHeld rows
      → mem i (picked locked now n rows) ≡ false
  held-picked locked now n rows b h = elim (Bool-cases (mem i (picked locked now n rows))) [
    | inr e ↦ e
    | inl e ↦
        absurd (clash (picked-eligible locked now n i rows e) (held-eligible locked now rows b h.1))
  ]

  update-any :
      (p : OutboxRow → Bool) (f : OutboxRow → OutboxRow) (rows : List OutboxRow)
      → ((r : OutboxRow) → (f r).event ≡ r.event)
      → any (has_id i) (update_where p f rows) ≡ any (has_id i) rows
  unfolding update_where
  update-any p f [] ids = refl
  update-any p f (r ∷ rows) ids = ground (arith, ids r, update-any p f rows ids)

  update-all :
      (p : OutboxRow → Bool) (f : OutboxRow → OutboxRow) (rows : List OutboxRow)
      → ((r : OutboxRow) → (f r).event ≡ r.event)
      → ((r : OutboxRow) → has_id i r ≡ true → p r ≡ true → blocked until (f r) ≡ true)
      → all (λ r. not (has_id i r) || blocked until r) rows ≡ true
      → all (λ r. not (has_id i r) || blocked until r) (update_where p f rows) ≡ true
  unfolding update_where
  update-all p f [] ids k h = refl
  update-all p f (r ∷ rows) ids k h = ground (arith, ids r, k r, update-all p f rows ids k)

  update-IsHeld :
      (p : OutboxRow → Bool) (f : OutboxRow → OutboxRow) (rows : List OutboxRow)
      → ((r : OutboxRow) → (f r).event ≡ r.event)
      → ((r : OutboxRow) → has_id i r ≡ true → p r ≡ true → blocked until (f r) ≡ true)
      → IsHeld rows
      → IsHeld (update_where p f rows)
  update-IsHeld p f rows ids k h = (update-any p f rows ids ∙ h.0, update-all p f rows ids k h.1)

  -- The rows that a claim leases are held from then on.
  leased-all :
      (ids : List ℕ) (worker_id : Text) (rows : List OutboxRow)
      → mem i ids ≡ true
      → all
          (λ r. not (has_id i r) || blocked until r)
          (update_where (λ r. mem r.event.id ids) (lease_row worker_id until) rows)
        ≡ true
  unfolding update_where
  leased-all ids w [] m = refl
  leased-all ids w (r ∷ rows) m = ground (arith, leased-all ids w rows m, ap (λ j. mem j ids))

  returned_present :
      (p : ℕ → Bool) (rows : List OutboxRow)
      → has_event i (map row_to_event (keep (λ r. p r.event.id) rows)) ≡ true
      → any (has_id i) rows ≡ true
  returned_present p [] h = absurd (ground arith)
  returned_present p (r ∷ rows) h = ground (arith, returned_present p rows)

  same_id : (r : OutboxRow) → has_id i r ≡ true → r.event.id ≡ i
  same_id r h = ground arith

  failed_event :
      (d : DeliveryDisposition) (now retry_after : ℕ) (code : Text) (r : OutboxRow)
      → (failed_row d now retry_after code r).event ≡ r.event
  failed_event DeliveryDisposition.retry now ra code r = refl
  failed_event DeliveryDisposition.dead_letter now ra code r = refl

  enqueued-IsHeld :
      (e : NewOutboxEvent) (s s' : Outbox) (now : ℕ)
      → enqueue now e s ≡ ok s'
      → IsHeld s.events
      → IsHeld s'.events
  unfolding enqueue
  enqueued-IsHeld e s s' now q h =
      let made : s'.events ≡ new_row now e ∷ s.events = ground arith in
      let new : any (has_id e.id) s.events ≡ false = ground arith in
      let other : (e.id == i) ≡ false = elim (Bool-cases (e.id == i)) [
        | inr n ↦ n
        | inl equal ↦ absurd (
            clash (subst (λ j. any (has_id j) s.events ≡ true) (sym ((==_iff e.id i).0 equal)) h.0)
              new)
      ] in
      subst IsHeld (sym made) (ground arith, ground arith)

  call-IsHeld :
      (s s' : Outbox) (call : Step s s') → Spares call → IsHeld s.events → IsHeld s'.events
  call-IsHeld s s' (enqueued now e q) b h = enqueued-IsHeld e s s' now q h
  call-IsHeld s s' (claimed locked now w batch lease es q) b h =
      let (_, left) = claim-eq-ok locked now w batch lease s q in
      let ids = picked locked now (clamp (pos_part batch) 1 250) s.events in
      let free = held-picked locked now (clamp (pos_part batch) 1 250) s.events b h in
      subst (λ (t : Outbox). IsHeld t.events) (sym left)
        (update-IsHeld (λ r. mem r.event.id ids) (lease_row w (now + lease_seconds lease)) s.events
          (λ r. refl) (λ r m o. absurd (clash (sym (ap (λ j. mem j ids) (same_id r m)) ∙ o) free))
          h)
  call-IsHeld s s' (marked_published now w e q) b h =
      subst IsHeld (sym (mark_published-rows now w e s s' q)) (
        update-IsHeld (holds_pending w e.id) (publish_row now) s.events (λ r. refl) (λ r m o. refl)
          h)
  call-IsHeld s s' (marked_failed now w e code m ra d q) b h =
      subst IsHeld (sym (mark_failed-rows now w e code m ra d s s' q)) (
        update-IsHeld (holds w e.id) (failed_row d now ra code) s.events
          (failed_event d now ra code) (λ r m o. absurd (b (ground arith))) h)
  call-IsHeld s s' (consumed consumer id first q) b h =
      subst IsHeld (sym (consumption_rows consumer id s s' first q)) h

  Meanwhile-IsHeld : {s t : Outbox} → Meanwhile s t → IsHeld s.events → IsHeld t.events
  Meanwhile-IsHeld unchanged_yet h = h
  Meanwhile-IsHeld {s} {t = t'} (then_call t m call b) h =
      call-IsHeld t t' call b (Meanwhile-IsHeld m h)

-- Once a claim has returned an event, no claim of any worker returns it again until its lease is
-- over, 1 to 300 seconds after that claim, whatever length was asked for: whichever calls of
-- whichever workers are made in between, other claims included, as long as those claims are not
-- after the end of the lease and no report of a failed delivery gives the event back.
pub claim_exclusive :
    (locked locked' : ℕ → Bool) (now now' : ℕ) (worker_id worker_id' : Text) (batch batch' : ℤ)
    (lease lease' : ℕ) (s s' t t' : Outbox) (es es' : List OutboxEvent) (i : ℕ)
    → claim locked now worker_id batch lease s ≡ ok (es, s')
    → has_event i es ≡ true
    → Meanwhile i (now + clamp lease 1 300) s' t
    → now' ≤ now + clamp lease 1 300
    → claim locked' now' worker_id' batch' lease' t ≡ ok (es', t')
    → has_event i es' ≡ false
claim_exclusive locked locked' now now' w w' batch batch' lease lease' s s' t t' es es' i c h m b
      c' =
    let until = now + clamp lease 1 300 in
    let (made, left) = claim-eq-ok locked now w batch lease s c in
    let (made', _) = claim-eq-ok locked' now' w' batch' lease' t c' in
    let ids = picked locked now (clamp (pos_part batch) 1 250) s.events in
    let ids' = picked locked' now' (clamp (pos_part batch') 1 250) t.events in
    let shown = subst (λ l. has_event i l ≡ true) made h in
    let held : IsHeld i until s'.events =
      subst (λ (u : Outbox). IsHeld i until u.events) (sym left)
        (
          returned_present i until (λ j. mem j ids) _ shown,
          leased-all i until ids w s.events (returned_picked (λ j. mem j ids) i _ shown),
        ) in
    let barred =
      held-picked i until locked' now' (clamp (pos_part batch') 1 250) t.events b
        (Meanwhile-IsHeld i until m held) in
    elim (Bool-cases (has_event i es')) [
      | inr e ↦ e
      | inl e ↦ absurd (
          clash (returned_picked (λ j. mem j ids') i _ (subst (λ l. has_event i l ≡ true) made' e))
            barred)
    ]
