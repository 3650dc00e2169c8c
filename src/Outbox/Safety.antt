-- ===== src/Outbox/Safety.antt =====
-- The invariant of the outbox, and the rows that stay as they are.

use seven_network_manager.Base.{
  All, List, [], any, ap, false, inl, inr, refl, subst, sym, ℕ, ◌∙◌, ◌∷◌, ◌≡◌, ◌⊎◌,
}
use seven_network_manager.Outbox.Table.{
  DeliveryDisposition, NewOutboxEvent, Outbox, OutboxRow, has_id, is_open,
}
use seven_network_manager.Outbox.Claim.{new_row}
use seven_network_manager.Outbox.Rows.{
  IsRow, Reachable, RowStep, RowSteps, Step, failed_now, leased, published_now, RowStep-IsRow,
  RowStep-terminal, same, start, then_step,
}
use seven_network_manager.Outbox.History.{Distinct, Stepped, Step-rows}

pub record IsOutbox (s : Outbox) : Type 0 where
  pub rows_ok : All IsRow s.events
  pub distinct : Distinct s.events

abbrev pub Has : OutboxRow → List OutboxRow → Type 0
Has r [] = ⊥
Has r (s ∷ rows) = (s ≡ r) ⊎ Has r rows

RowStep-id : (r r' : OutboxRow) → RowStep r r' → r'.event ≡ r.event
RowStep-id r r' (same e) = ap (λ (s : OutboxRow). s.event) e
RowStep-id r r' (leased w u o e) = ap (λ (s : OutboxRow). s.event) e
RowStep-id r r' (published_now w now p o e) = ap (λ (s : OutboxRow). s.event) e
RowStep-id r r' (failed_now w DeliveryDisposition.retry now ra code o e) =
    ap (λ (s : OutboxRow). s.event) e
RowStep-id r r' (failed_now w DeliveryDisposition.dead_letter now ra code o e) =
    ap (λ (s : OutboxRow). s.event) e

steps-IsRow : (rows rows' : List OutboxRow) → RowSteps rows rows' → All IsRow rows → All IsRow rows'
steps-IsRow [] [] t h = tt
steps-IsRow [] (r' ∷ rows') t h = absurd t
steps-IsRow (r ∷ rows) [] t h = absurd t
steps-IsRow (r ∷ rows) (r' ∷ rows') t h =
    (RowStep-IsRow r r' t.0 h.0, steps-IsRow rows rows' t.1 h.1)

steps-ids :
    (i : ℕ) (rows rows' : List OutboxRow)
    → RowSteps rows rows'
    → any (has_id i) rows' ≡ any (has_id i) rows
steps-ids i [] [] t = refl
steps-ids i [] (r' ∷ rows') t = absurd t
steps-ids i (r ∷ rows) [] t = absurd t
steps-ids i (r ∷ rows) (r' ∷ rows') t = rw (RowStep-id r r' t.0, steps-ids i rows rows' t.1) refl

steps-Distinct :
    (rows rows' : List OutboxRow) → RowSteps rows rows' → Distinct rows → Distinct rows'
steps-Distinct [] [] t d = tt
steps-Distinct [] (r' ∷ rows') t d = absurd t
steps-Distinct (r ∷ rows) [] t d = absurd t
steps-Distinct (r ∷ rows) (r' ∷ rows') t d = (
  rw (RowStep-id r r' t.0) (steps-ids r.event.id rows rows' t.1 ∙ d.0),
  steps-Distinct rows rows' t.1 d.1,
)

steps-terminal :
    (r : OutboxRow) (rows rows' : List OutboxRow)
    → RowSteps rows rows'
    → All IsRow rows
    → is_open r.status ≡ false
    → Has r rows
    → Has r rows'
steps-terminal r [] rows' t h o m = absurd m
steps-terminal r (s ∷ rows) [] t h o m = absurd t
steps-terminal r (s ∷ rows) (s' ∷ rows') t h o (inl e) =
    inl (RowStep-terminal s s' t.0 h.0 (ap (λ (u : OutboxRow). is_open u.status) e ∙ o) ∙ e)
steps-terminal r (s ∷ rows) (s' ∷ rows') t h o (inr m) =
    inr (steps-terminal r rows rows' t.1 h.1 o m)

new_row-IsRow : (now : ℕ) (e : NewOutboxEvent) → IsRow (new_row now e)
new_row-IsRow now e = record {
  lease_paired = refl;
  leased_pending = refl;
  published_dated = refl;
  dead_dated = refl;
}

Stepped-IsOutbox : (s s' : Outbox) → Stepped s.events s'.events → IsOutbox s → IsOutbox s'
Stepped-IsOutbox s s' (inl t) h = record {
  rows_ok = steps-IsRow s.events s'.events t h.rows_ok;
  distinct = steps-Distinct s.events s'.events t h.distinct;
}
Stepped-IsOutbox s s' (inr (now, e, made, new)) h = record {
  rows_ok = subst (All IsRow) (sym made) (new_row-IsRow now e, h.rows_ok);
  distinct = subst Distinct (sym made) (new, h.distinct);
}

-- In every table that the program can reach by whatever calls of whatever workers, the ids are
-- distinct and each row is consistent: a lease has an owner and an end, is held on pending rows
-- only, and the row is published, or a dead letter, exactly if it has the time of that.
pub Reachable-IsOutbox : {s : Outbox} → Reachable s → IsOutbox s
Reachable-IsOutbox start = record { rows_ok = tt; distinct = tt }
Reachable-IsOutbox {s = s'} (then_step s r t) =
    let h = Reachable-IsOutbox r in Stepped-IsOutbox s s' (Step-rows s s' t h.distinct) h

-- In a reachable table, no call of any worker changes or removes a row that is published or a dead
-- letter.
pub terminal_rows_stay :
    (s s' : Outbox) (r : OutboxRow)
    → Reachable s
    → Step s s'
    → is_open r.status ≡ false
    → Has r s.events
    → Has r s'.events
terminal_rows_stay s s' r reached t o m =
    let h = Reachable-IsOutbox reached in
    elim (Step-rows s s' t h.distinct) [
      | inl steps ↦ steps-terminal r s.events s'.events steps h.rows_ok o m
      | inr (now, e, made, new) ↦ subst (Has r) (sym made) (inr m)
    ]
