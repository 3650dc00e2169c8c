-- ===== src/Outbox/Leases.antt =====
-- Who is claimed, and for how long.

use seven_network_manager.Base.{
  Bool, List, [], any, ap, arith, clamp, keep, map, refl, suc, sym, take, true, zero, ℕ, ◌&&◌, ◌+◌,
  ◌==◌, ◌||◌, ◌∙◌, ◌∷◌, ◌≡◌,
}
use seven_network_manager.Base.Int.{pos_part, ℤ}
use seven_network_manager.Base.Text.{Text}
use seven_network_manager.Base.Result.{ok}
use seven_network_manager.Outbox.Table.{Outbox, OutboxEvent, OutboxRow, has_id, update_where}
use seven_network_manager.Outbox.Claim.{
  claim, eligible, insert_row, lease_row, lease_seconds, mem, picked, row_to_event, sort_rows,
}

module _ (q : OutboxRow → Bool) (i : ℕ) where
  -- Some row with id `i` passes the test `q`.
  abbrev pub some_row : List OutboxRow → Bool
  some_row rows = any (λ r. q r && has_id i r) rows

  some-keep : (rows : List OutboxRow) → any (has_id i) (keep q rows) ≡ some_row rows
  some-keep [] = refl
  some-keep (r ∷ rows) = ground (arith, some-keep rows)

module _ (i : ℕ) where
  some-insert :
      (r : OutboxRow) (rows : List OutboxRow)
      → any (has_id i) (insert_row r rows) ≡ any (has_id i) (r ∷ rows)
  unfolding insert_row
  some-insert r [] = refl
  some-insert r (s ∷ rows) = ground (arith, some-insert r rows)

  some-sort : (rows : List OutboxRow) → any (has_id i) (sort_rows rows) ≡ any (has_id i) rows
  unfolding sort_rows
  some-sort [] = refl
  some-sort (r ∷ rows) = some-insert r (sort_rows rows) ∙ ap (λ b. has_id i r || b) (some-sort rows)

  some-take :
      (n : ℕ) (rows : List OutboxRow)
      → mem i (map (λ r. r.event.id) (take n rows)) ≡ true
      → any (has_id i) rows ≡ true
  some-take zero rows h = absurd (ground arith)
  some-take (suc n) [] h = h
  some-take (suc n) (r ∷ rows) h = ground (arith, some-take n rows)

-- An id is picked only if a row with it is eligible.
pub picked-eligible :
    (locked : ℕ → Bool) (now n i : ℕ) (rows : List OutboxRow)
    → mem i (picked locked now n rows) ≡ true
    → some_row (eligible locked now) i rows ≡ true
unfolding picked
picked-eligible locked now n i rows h =
    sym (some-keep (eligible locked now) i rows)
    ∙ sym (some-sort i (keep (eligible locked now) rows))
    ∙ some-take i n (sort_rows (keep (eligible locked now) rows)) h

-- An event of the list has the id.
abbrev pub has_event : ℕ → List OutboxEvent → Bool
has_event i es = any (λ (e : OutboxEvent). e.id == i) es

pub returned_picked :
    (p : ℕ → Bool) (i : ℕ) (rows : List OutboxRow)
    → has_event i (map row_to_event (keep (λ r. p r.event.id) rows)) ≡ true
    → p i ≡ true
returned_picked p i [] h = absurd (ground arith)
returned_picked p i (r ∷ rows) h = ground (arith, returned_picked p i rows, ap p)

-- What a successful claim returns and leaves.
pub claim-eq-ok :
    (locked : ℕ → Bool) (now : ℕ) (worker_id : Text) (batch : ℤ) (lease : ℕ) (s : Outbox)
    {s' : Outbox} {es : List OutboxEvent}
    → claim locked now worker_id batch lease s ≡ ok (es, s')
    → let ids = picked locked now (clamp (pos_part batch) 1 250) s.events in
      let rows =
        update_where
          (λ r. mem r.event.id ids)
          (lease_row worker_id (now + lease_seconds lease))
          s.events in
      (es ≡ map row_to_event (keep (λ r. mem r.event.id ids) rows))
      × (s' ≡ record s { events = rows })
unfolding claim
claim-eq-ok locked now w batch lease s e = (ground arith, ground arith)
