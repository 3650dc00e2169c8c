-- ===== src/AuditStore/Tests.antt =====
-- A toy codec that meets the laws, and instances of the audit rules under it.

-- A login of some organisation.

use seven_network_manager.Base.{
  All, Bool, List, Option, [], false, if◌then◌else◌, is_none, length, none, refl, some, suc, true,
  zero, ℕ, ◌&&◌, ◌++◌, ◌==◌, ◌↔◌, ◌∷◌, ◌≡◌, ◌⊎◌,
}
use seven_network_manager.Base.Int.{negsuc, pos, ℤ}
use seven_network_manager.Base.Text.{Text, codes, is_whitespace, len, text_eq, trim}
use seven_network_manager.Base.Result.{err, ok}
use seven_network_manager.Governance.{Value, array, boolean, null, number, object, string}
use seven_network_manager.Audit.{
  AuditActorType, AuditCodec, AuditEventDraft, AuditStatus, SealedAuditEvent, audit_domain,
  previous_bytes, sanitize, seal, verify,
}
use seven_network_manager.Audit.Seals.{
  AuditLaws, HasCleanStates, read_back, read_back_option, seal-verify,
}
use seven_network_manager.AuditStore.{
  AuditRow, append_in_tx, broken, chain_links, chain_of, check_hashes, check_link,
  event_hash_mismatch, hash_event, insert_link, json_error, next_chain_position, sort_links, valid,
  validate_draft, verify_links, verify_organization_chain,
}
use seven_network_manager.AuditStore.Loop.{AreLinked}
use seven_network_manager.AuditStore.Growth.{IsReadable}
use seven_network_manager.AuditStore.Append.{AuditLog, appended, empty, log_verifies}
use seven_network_manager.AuditStore.Binding.{
  Collision, last_hash_binds, payloads, verify_organization_chain_iff,
}

abbrev login : ℕ → ℕ → AuditEventDraft
login org correlation = record {
  organization_id = org;
  site_id = none;
  actor_type = AuditActorType.user;
  actor_id = none;
  session_id = none;
  source_ip = none;
  request_id = codes "r";
  correlation_id = correlation;
  action = codes "auth.login";
  resource_type = codes "session";
  resource_id = none;
  provider = none;
  occurred_at_unix_ms = pos 5;
  duration_ms = none;
  status = AuditStatus.succeeded;
  reason_code = none;
  before = none;
  after = none;
  outcome = none;
}

abbrev is_user : AuditActorType → Bool
is_user AuditActorType.user = true
is_user _ = false

abbrev is_succeeded : AuditStatus → Bool
is_succeeded AuditStatus.succeeded = true
is_succeeded _ = false

abbrev is_five : ℤ → Bool
is_five (pos n) = n == 5
is_five (negsuc n) = false

abbrev has_nothing : AuditEventDraft → Bool
has_nothing d =
    is_none d.site_id
    && is_none d.actor_id
    && is_none d.session_id
    && is_none d.source_ip
    && is_none d.resource_id
    && is_none d.provider
    && is_none d.duration_ms
    && is_none d.reason_code
    && is_none d.before
    && is_none d.after
    && is_none d.outcome

abbrev is_login : AuditEventDraft → Bool
is_login d =
    is_user d.actor_type
    && is_succeeded d.status
    && is_five d.occurred_at_unix_ms
    && text_eq d.request_id (codes "r")
    && text_eq d.action (codes "auth.login")
    && text_eq d.resource_type (codes "session")

abbrev toy_to_vec : AuditEventDraft → Option Text
toy_to_vec d =
    if has_nothing (read_back d) && is_login d
    then some (d.organization_id ∷ d.correlation_id ∷ [])
    else none

abbrev toy_from_slice : Text → Option AuditEventDraft
toy_from_slice (org ∷ correlation ∷ []) = some (login org correlation)
toy_from_slice _ = none

abbrev zeros : ℕ → Text
zeros zero = []
zeros (suc n) = 0 ∷ zeros n

abbrev toy : AuditCodec
toy = record { to_vec = toy_to_vec; from_slice = toy_from_slice; sha256 = λ b. length b ∷ zeros 31 }

read_back_option_idem :
    (v : Option Value) → read_back_option (read_back_option v) ≡ read_back_option v
read_back_option_idem none = refl
read_back_option_idem (some null) = refl
read_back_option_idem (some (boolean b)) = refl
read_back_option_idem (some (number n)) = refl
read_back_option_idem (some (string t)) = refl
read_back_option_idem (some (array vs)) = refl
read_back_option_idem (some (object fs)) = refl

toy_null : (d : AuditEventDraft) → toy_to_vec (read_back d) ≡ toy_to_vec d
toy_null d =
    cc (
      read_back_option_idem d.before,
      read_back_option_idem d.after,
      read_back_option_idem d.outcome,
    )

toy_laws : AuditLaws toy
toy_laws = record { null_as_none = toy_null; hash_size = λ b. refl }

abbrev is_ip : Text → Bool
is_ip s = true

abbrev payload_of : ℕ → ℕ → Text
payload_of org correlation = org ∷ correlation ∷ []

abbrev sealed_login : ℕ → Option Text → SealedAuditEvent
sealed_login correlation previous = record {
  event = login 1 correlation;
  previous_hash = previous;
  event_hash = toy.sha256 (audit_domain ++ (previous_bytes previous ++ payload_of 1 correlation));
}

login_sealed : seal toy (login 1 8) none ≡ ok (sealed_login 8 none)
unfolding seal sanitize text_eq
login_sealed = refl

seal-verify_example :
    (verify toy (sealed_login 8 none) ≡ ok true)
    × HasCleanStates (login 1 8)
    × (login 1 8 ≡ login 1 8)
seal-verify_example = seal-verify toy (login 1 8) none (sealed_login 8 none) login_sealed

abbrev login_row : ℕ → ℕ → ℕ → Option Text → AuditRow
login_row id n correlation previous = record {
  id = id;
  organization_id = 1;
  event = login 1 correlation;
  chain_sequence = some n;
  canonical_payload = payload_of 1 correlation;
  previous_hash = previous;
  event_hash = (sealed_login correlation previous).event_hash;
}

abbrev first_row : AuditRow
first_row = login_row 100 1 8 none

abbrev second_row : AuditRow
second_row = login_row 101 2 9 (some first_row.event_hash)

first_append : append_in_tx toy is_ip 100 (login 1 8) [] ≡ ok (100, first_row ∷ [])
unfolding append_in_tx validate_draft next_chain_position chain_of chain_links sort_links seal
    sanitize text_eq trim len is_whitespace
first_append = refl

second_append :
    append_in_tx toy is_ip 101 (login 1 9) (first_row ∷ []) ≡ ok (101, second_row ∷ first_row ∷ [])
unfolding append_in_tx validate_draft next_chain_position chain_of chain_links sort_links
    insert_link seal sanitize text_eq trim len is_whitespace
second_append = refl

abbrev two_rows : List AuditRow
two_rows = second_row ∷ first_row ∷ []

two_events : AuditLog toy toy_laws is_ip two_rows
two_events =
    appended 101 (login 1 9) (first_row ∷ []) (appended 100 (login 1 8) [] empty first_append)
      second_append

two-IsReadable : All (IsReadable toy) (chain_of 1 two_rows)
unfolding chain_of chain_links sort_links insert_link
two-IsReadable = (refl, (refl, tt))

log_verifies_example :
    verify_organization_chain toy 1 two_rows ≡ ok (valid (length (chain_of 1 two_rows)))
log_verifies_example = log_verifies toy toy_laws is_ip 1 two_events two-IsReadable

verify_organization_chain_iff_example :
    (verify_organization_chain toy 1 two_rows ≡ ok (valid 2))
    ↔ (AreLinked toy none 1 (chain_of 1 two_rows) × (2 ≡ length (chain_of 1 two_rows)))
verify_organization_chain_iff_example = verify_organization_chain_iff toy 1 two_rows 2

two_valid : verify_organization_chain toy 1 two_rows ≡ ok (valid 2)
unfolding chain_of chain_links sort_links insert_link
two_valid = log_verifies_example

last_hash_binds_example :
    Collision toy ⊎ (payloads (chain_of 1 two_rows) ≡ payloads (chain_of 1 two_rows))
last_hash_binds_example = last_hash_binds toy 1 2 two_rows two_rows two_valid two_valid refl

-- A row whose payload was rewritten is found.
tampered :
    verify_organization_chain toy 1 (record first_row { canonical_payload = 1 ∷ 9 ∷ 9 ∷ [] } ∷ [])
    ≡ ok (broken 0 100 event_hash_mismatch)
unfolding verify_organization_chain verify_links check_link check_hashes hash_event chain_of
    chain_links sort_links insert_link text_eq
tampered = refl

-- A codec that writes an event and cannot read it back, as happens to a value that is nested too
-- deeply: the append is accepted, and the verification of the chain fails from then on.
abbrev forgetful : AuditCodec
forgetful = record toy { from_slice = λ b. none }

unread_append : append_in_tx forgetful is_ip 100 (login 1 8) [] ≡ ok (100, first_row ∷ [])
unfolding append_in_tx validate_draft next_chain_position chain_of chain_links sort_links seal
    sanitize text_eq trim len is_whitespace
unread_append = refl

unread_chain : verify_organization_chain forgetful 1 (first_row ∷ []) ≡ err json_error
unfolding verify_organization_chain verify_links check_link check_hashes hash_event chain_of
    chain_links sort_links insert_link text_eq
unread_chain = refl
