-- ===== src/AuditStore.antt =====
-- The audit log of each organisation as a chain of hashes in the table `audit_events`
-- (crates/audit-store/src/lib.rs). The table is the list of its rows, the last one inserted first;
-- of the columns those are kept that the chain is read from, and the event.
pub mod Loop
pub mod Chain
pub mod Growth
pub mod Append
pub mod Binding
mod Tests
use seven_network_manager.Base.{
  Bool, List, Option, [], false, if◌then◌else◌, is_empty, leb, length, ltb, none, not, some, true,
  ℕ, ◌++◌, ◌+◌, ◌-◌, ◌==◌, ◌^◌, ◌||◌, ◌∷◌,
}
use seven_network_manager.Base.Int.{ltb_ℤ, pos}
use seven_network_manager.Base.Text.{Text, len, text_eq, trim}
use seven_network_manager.Base.Result.{Result, err, fail_if, map_err, ok, ok_or, ◌>>=◌, ◌>>◌}
use seven_network_manager.Audit.{
  AuditCodec, AuditError, AuditEventDraft, audit_domain, previous_bytes, seal, verify,
}

pub data AuditStoreError : Type 0 where
  invalid_draft invalid_stored_chain json_error : AuditStoreError
  audit : AuditError → AuditStoreError

pub record AuditRow : Type 0 where
  pub id : ℕ
  pub organization_id : ℕ
  pub event : AuditEventDraft
  pub chain_sequence : Option ℕ
  pub canonical_payload : Text
  pub previous_hash : Option Text
  pub event_hash : Text

-- The three reasons of `Broken`.
pub data BrokenReason : Type 0 where
  chain_sequence_gap previous_hash_mismatch event_hash_mismatch : BrokenReason
  canonical_payload_invalid : BrokenReason

pub data AuditVerification : Type 0 where
  valid : ℕ → AuditVerification
  broken : ℕ → ℕ → BrokenReason → AuditVerification

-- `fixed::<32>` and `optional_fixed::<32>`
abbrev pub fixed : Text → Result AuditStoreError Text
fixed value = if length value == 32 then ok value else err invalid_stored_chain

abbrev pub optional_fixed : Option Text → Result AuditStoreError (Option Text)
optional_fixed none = ok none
optional_fixed (some value) = do h ← fixed value; ok (some h)

abbrev pub optional_text_eq : Option Text → Option Text → Bool
optional_text_eq none none = true
optional_text_eq (some a) (some b) = text_eq a b
optional_text_eq _ _ = false

-- A row of a chain with its sequence number.
abbrev pub Link : Type 0
Link = ℕ × AuditRow

-- `WHERE organization_id = $1 AND chain_sequence IS NOT NULL`
unfoldable pub chain_links : ℕ → List AuditRow → List Link
chain_links org [] = []
chain_links org (r ∷ rows) =
    let rest = chain_links org rows in
    (elim r.chain_sequence [
      | none ↦ rest
      | some n ↦ if r.organization_id == org then (n, r) ∷ rest else rest
    ])

-- `ORDER BY chain_sequence`
unfoldable pub insert_link : Link → List Link → List Link
insert_link l [] = l ∷ []
insert_link l (k ∷ ks) = if ltb l.0 k.0 then l ∷ k ∷ ks else k ∷ insert_link l ks

unfoldable pub sort_links : List Link → List Link
sort_links [] = []
sort_links (l ∷ ls) = insert_link l (sort_links ls)

unfoldable pub chain_of : ℕ → List AuditRow → List Link
chain_of org rows = sort_links (chain_links org rows)

-- `ORDER BY chain_sequence DESC LIMIT 1`: the last of the ascending order.
abbrev pub last_link : List Link → Option Link
last_link [] = none
last_link (l ∷ []) = some l
last_link (l ∷ ls) = last_link ls

abbrev pub i64_max : ℕ
i64_max = 2 ^ 63 - 1

-- The `match row` of `next_chain_position`.
abbrev pub position_after : Option Link → Result AuditStoreError (ℕ × Option Text)
position_after none = ok (1, none)
position_after (some (n, r)) = do
  hash ← fixed r.event_hash
  fail_if (leb i64_max n) invalid_stored_chain
  ok (n + 1, some hash)

unfoldable pub next_chain_position : ℕ → List AuditRow → Result AuditStoreError (ℕ × Option Text)
next_chain_position org rows = position_after (last_link (chain_of org rows))

-- `value.parse::<IpAddr>().is_err()` on the source address, if there is one.
abbrev pub bad_source : (Text → Bool) → Option Text → Bool
bad_source is_ip none = false
bad_source is_ip (some s) = not (is_ip s)

-- `is_ip` is whether a text parses as an `IpAddr`.
unfoldable pub validate_draft : (Text → Bool) → AuditEventDraft → Result AuditStoreError (Unit {0})
validate_draft is_ip d = do
  fail_if
      (is_empty (trim d.request_id)
        || ltb 200 (len d.request_id)
        || is_empty (trim d.action)
        || ltb 200 (len d.action)
        || is_empty (trim d.resource_type)
        || ltb 120 (len d.resource_type)
        || ltb_ℤ d.occurred_at_unix_ms (pos 0))
      invalid_draft
  fail_if (bad_source is_ip d.source_ip) invalid_draft

module _ (x : AuditCodec) where
  unfoldable pub hash_event : Text → Option Text → Text
  hash_event canonical_payload previous_hash =
      x.sha256 (audit_domain ++ (previous_bytes previous_hash ++ canonical_payload))

  -- In a transaction that holds the lock of the organisation's chain; an error rolls it back, so
  -- the table comes back with a success only. `id` is the fresh id.
  unfoldable pub append_in_tx :
      (Text → Bool)
      → ℕ
      → AuditEventDraft
      → List AuditRow
      → Result AuditStoreError (ℕ × List AuditRow)
  append_in_tx is_ip id draft rows = do
    validate_draft is_ip draft
    position ← next_chain_position draft.organization_id rows
    sealed ← map_err audit (seal x draft position.1)
    canonical_payload ← ok_or (x.to_vec sealed.event) json_error
    ok (
      id,
      record {
        id = id;
        organization_id = sealed.event.organization_id;
        event = sealed.event;
        chain_sequence = some position.0;
        canonical_payload = canonical_payload;
        previous_hash = sealed.previous_hash;
        event_hash = sealed.event_hash;
      }
          ∷ rows,
    )

  -- The comparisons of a round, on the decoded columns: the reason for which the chain is broken
  -- here, or none, and the hash that the next row must name.
  unfoldable pub check_hashes :
      Option Text
      → AuditRow
      → Option Text
      → Text
      → Result AuditStoreError (Option BrokenReason × Text)
  check_hashes expected_previous r stored_previous event_hash =
      if not (optional_text_eq stored_previous expected_previous)
      then ok (some previous_hash_mismatch, [])
      else if not (text_eq (hash_event r.canonical_payload stored_previous) event_hash)
      then ok (some event_hash_mismatch, [])
      else (do
        event ← ok_or (x.from_slice r.canonical_payload) json_error
        verified ← map_err audit (
            verify x
              (record { event = event; previous_hash = stored_previous; event_hash = event_hash }))
        ok (if verified then none else some canonical_payload_invalid, event_hash))

  -- One round of the loop of `verify_organization_chain`.
  unfoldable pub check_link :
      Option Text → ℕ → Link → Result AuditStoreError (Option BrokenReason × Text)
  check_link expected_previous expected_sequence (sequence, r) =
      if not (sequence == expected_sequence) then ok (some chain_sequence_gap, []) else (do
        stored_previous ← optional_fixed r.previous_hash
        event_hash ← fixed r.event_hash
        check_hashes expected_previous r stored_previous event_hash)

  -- The loop from some row on.
  unfoldable pub verify_links :
      Option Text → ℕ → ℕ → List Link → Result AuditStoreError AuditVerification
  verify_links expected_previous expected_sequence checked [] = ok (valid checked)
  verify_links expected_previous expected_sequence checked ((n, r) ∷ ls) = do
    outcome ← check_link expected_previous expected_sequence (n, r)
    let rest = verify_links (some outcome.1) (expected_sequence + 1) (checked + 1) ls
    (elim outcome.0 [ none ↦ rest | some reason ↦ ok (broken checked r.id reason) ])

  unfoldable pub verify_organization_chain :
      ℕ → List AuditRow → Result AuditStoreError AuditVerification
  verify_organization_chain org rows = verify_links none 1 0 (chain_of org rows)
