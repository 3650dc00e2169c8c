-- ===== src/Outbox/Delivery.antt =====
-- A claimed event can be delivered by the worker that claimed it.

use seven_network_manager.Base.{
  Bool, Bool-cases, List, [], any, ap, arith, clamp, count, false, inl, inr, keep, map, none, refl,
  some, subst, sym, true, ℕ, ◌&&◌, ◌+◌, ◌==◌, ◌∙◌, ◌∷◌, ◌≡◌, ◌≤◌, ◌⊎◌,
}
use seven_network_manager.Base.Int.{pos_part, ℤ}
use seven_network_manager.Base.Text.{Text, text_eq_refl}
use seven_network_manager.Base.Result.{ok}
use seven_network_manager.Outbox.Table.{
  DeliveryAttempt, Outbox, OutboxEvent, OutboxRow, OutboxStatus, has_id, published_outcome,
  update_where,
}
use seven_network_manager.Outbox.Claim.{claim, lease_row, lease_seconds, mem, picked, row_to_event}
use seven_network_manager.Outbox.Marks.{
  holds_pending, insert_attempt, is_pending, mark_published, owned_by, publish_row,
}
use seven_network_manager.Outbox.Rows.{Reachable, claimed, then_step}
use seven_network_manager.Outbox.Leases.{claim-eq-ok}
use seven_network_manager.Outbox.History.{Distinct}
use seven_network_manager.Outbox.Safety.{Has, Reachable-IsOutbox}

abbrev pub HasEvent : OutboxEvent → List OutboxEvent → Type 0
HasEvent e [] = ⊥
HasEvent e (f ∷ es) = (f ≡ e) ⊎ HasEvent e es

returned_row :
    (p : OutboxRow → Bool) (e : OutboxEvent) (rows : List OutboxRow)
    → HasEvent e (map row_to_event (keep p rows))
    → (r : OutboxRow) × Has r rows × (p r ≡ true) × (row_to_event r ≡ e)
returned_row p e [] h = absurd h
returned_row p e (r ∷ rows) h = elim (Bool-cases (p r)) [
  | inr missed ↦ (let (s, m, q, made) = returned_row p e rows (left missed) in (s, inr m, q, made))
  | inl hit ↦ elim (split_head hit) [
    | inl made ↦ (r, inl refl, hit, made)
    | inr more ↦ (let (s, m, q, made) = returned_row p e rows more in (s, inr m, q, made))
  ]
]
  where
    left : p r ≡ false → HasEvent e (map row_to_event (keep p rows))
    left missed =
        subst
          (λ b.
            HasEvent e (map row_to_event (elim b [ true ↦ r ∷ keep p rows | false ↦ keep p rows ])))
          missed h

    split_head : p r ≡ true → (row_to_event r ≡ e) ⊎ HasEvent e (map row_to_event (keep p rows))
    split_head hit =
        subst
          (λ b.
            HasEvent e (map row_to_event (elim b [ true ↦ r ∷ keep p rows | false ↦ keep p rows ])))
          hit h

no_other :
    (q : OutboxRow → Bool) (i : ℕ) (rows : List OutboxRow)
    → any (has_id i) rows ≡ false
    → count (λ r. has_id i r && q r) rows ≡ 0
no_other q i [] h = refl
no_other q i (r ∷ rows) h = ground (arith, no_other q i rows)

id_found :
    (r : OutboxRow) (rows : List OutboxRow) → Has r rows → any (has_id r.event.id) rows ≡ true
id_found r [] m = absurd m
id_found r (s ∷ rows) (inl e) = ground (arith, ap (λ (t : OutboxRow). t.event.id) e)
id_found r (s ∷ rows) (inr m) = ground (arith, id_found r rows m)

count_one :
    (q : OutboxRow → Bool) (r : OutboxRow) (rows : List OutboxRow)
    → Distinct rows
    → Has r rows
    → q r ≡ true
    → count (λ s. has_id r.event.id s && q s) rows ≡ 1
count_one q r [] d m h = absurd m
count_one q r (s ∷ rows) d (inl e) h =
    subst (λ t. count (λ u. has_id t.event.id u && q u) (s ∷ rows) ≡ 1) e
      (let passes : q s ≡ true = ap q e ∙ h in
        ground (arith, no_other q s.event.id rows d.0, passes))
count_one q r (s ∷ rows) d (inr m) h =
    ground (arith, count_one q r rows d.1 m h, id_found r rows m, d.0)

holds_count :
    (w : Text) (i : ℕ) (rows : List OutboxRow)
    → count (λ r. has_id i r && (owned_by w r.lease_owner && is_pending r.status)) rows
      ≡ count (holds_pending w i) rows
holds_count w i [] = refl
holds_count w i (r ∷ rows) = ground (arith, holds_count w i rows)

-- A row of the updated table whose id was picked holds the lease.
leased_here :
    (ids : List ℕ) (w : Text) (until : ℕ) (r : OutboxRow) (rows : List OutboxRow)
    → Has r (update_where (λ s. mem s.event.id ids) (lease_row w until) rows)
    → mem r.event.id ids ≡ true
    → (r.lease_owner ≡ some w) × (r.status ≡ OutboxStatus.pending) × (1 ≤ r.attempts)
unfolding update_where
leased_here ids w until r [] m h = absurd m
leased_here ids w until r (s ∷ rows) (inl e) h = elim (Bool-cases (mem s.event.id ids)) [
  | inl hit ↦ held (rw hit at e)
  | inr missed ↦ absurd (clash missed (rw missed at e))
]
  where
    held :
        lease_row w until s ≡ r
        → (r.lease_owner ≡ some w) × (r.status ≡ OutboxStatus.pending) × (1 ≤ r.attempts)
    held made =
        subst
          (λ (t : OutboxRow).
            (t.lease_owner ≡ some w) × (t.status ≡ OutboxStatus.pending) × (1 ≤ t.attempts))
          made (refl, refl, omega arith)

    clash : mem s.event.id ids ≡ false → s ≡ r → ⊥
    clash missed made =
        let hit : mem s.event.id ids ≡ true = ap (λ (t : OutboxRow). mem t.event.id ids) made ∙ h in
        cc
leased_here ids w until r (s ∷ rows) (inr m) h = leased_here ids w until r rows m h

-- In the tables that a claim leaves of reachable ones, the worker can mark an event that it was
-- given as published, at any time, if this attempt was not recorded before: the call succeeds,
-- publishes the row and records the delivery.
pub mark_published-claim :
    (locked : ℕ → Bool) (now later : ℕ) (worker_id : Text) (batch : ℤ) (lease : ℕ) (s s' : Outbox)
    (es : List OutboxEvent) (e : OutboxEvent)
    → Reachable s
    → claim locked now worker_id batch lease s ≡ ok (es, s')
    → HasEvent e es
    → any
        (λ (b : DeliveryAttempt). b.event_id == e.id && b.attempt == e.attempts)
        s'.delivery_attempts
      ≡ false
    → mark_published later worker_id e s'
      ≡ ok (record s' {
        events = update_where (holds_pending worker_id e.id) (publish_row later) s'.events;
        delivery_attempts =
            record {
              event_id = e.id;
              attempt = e.attempts;
              worker_id = worker_id;
              outcome = published_outcome;
              error_code = none;
            }
            ∷ s'.delivery_attempts;
      })
unfolding mark_published insert_attempt
mark_published-claim locked now later w batch lease s s' es e reached c m new =
    let (made, left) = claim-eq-ok locked now w batch lease s c in
    let ids = picked locked now (clamp (pos_part batch) 1 250) s.events in
    let rows =
      update_where (λ r. mem r.event.id ids) (lease_row w (now + lease_seconds lease)) s.events in
    let (r, here, was_picked, is_e) =
      returned_row (λ r. mem r.event.id ids) e rows (subst (HasEvent e) made m) in
    let (owner, status, tried) =
      leased_here ids w (now + lease_seconds lease) r s.events here was_picked in
    let h = Reachable-IsOutbox (then_step s reached (claimed locked now w batch lease es c)) in
    let here' : Has r s'.events = subst (λ (t : Outbox). Has r t.events) (sym left) here in
    let passes : (owned_by w r.lease_owner && is_pending r.status) ≡ true =
      rw (owner, status) (ground (arith, text_eq_refl w)) in
    let one =
      count_one (λ t. owned_by w t.lease_owner && is_pending t.status) r s'.events h.distinct here'
        passes in
    let one_e : count (holds_pending w e.id) s'.events ≡ 1 =
      subst (λ (f : OutboxEvent). count (holds_pending w f.id) s'.events ≡ 1) is_e
        (sym (holds_count w r.event.id s'.events) ∙ one) in
    let tried_e : 1 ≤ e.attempts = subst (λ (f : OutboxEvent). 1 ≤ f.attempts) is_e tried in
    let not_zero : (e.attempts == 0) ≡ false = ground (arith, tried_e) in
    rw (one_e, not_zero, new) refl
