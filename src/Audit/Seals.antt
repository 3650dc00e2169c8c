-- ===== src/Audit/Seals.antt =====
-- Sealing and verifying one event.

use seven_network_manager.Base.{
  Option, Option-cases, ap, arith, inl, inr, length, none, refl, some, subst, sym, true, ◌++◌, ◌∙◌,
  ◌≡◌,
}
use seven_network_manager.Base.Text.{Text, text_eq_refl}
use seven_network_manager.Base.Result.{ok}
use seven_network_manager.Governance.{
  Value, array, boolean, null, number, object, sanitize_json, string,
}
use seven_network_manager.Governance.Clean.{IsClean, sanitize_json-IsClean, sanitize_json_idem}
use seven_network_manager.Audit.{
  AuditCodec, AuditEventDraft, SealedAuditEvent, audit_domain, previous_bytes, sanitize,
  sanitize_option, seal, verify,
}

sanitize_option_idem : (v : Option Value) → sanitize_option (sanitize_option v) ≡ sanitize_option v
sanitize_option_idem none = refl
sanitize_option_idem (some v) = ap some (sanitize_json_idem v)

pub sanitize_idem : (d : AuditEventDraft) → sanitize (sanitize d) ≡ sanitize d
unfolding sanitize
sanitize_idem d =
    cc (sanitize_option_idem d.before, sanitize_option_idem d.after, sanitize_option_idem d.outcome)

abbrev pub IsCleanOption : Option Value → Type 0
IsCleanOption none = Unit
IsCleanOption (some v) = IsClean v

-- No state that the event carries shows a sensitive field.
pub record HasCleanStates (d : AuditEventDraft) : Type 0 where
  pub before_clean : IsCleanOption d.before
  pub after_clean : IsCleanOption d.after
  pub outcome_clean : IsCleanOption d.outcome

option_clean : (v : Option Value) → IsCleanOption (sanitize_option v)
option_clean none = tt
option_clean (some v) = (sanitize_json-IsClean v).0

sanitize-HasCleanStates : (d : AuditEventDraft) → HasCleanStates (sanitize d)
unfolding sanitize
sanitize-HasCleanStates d = record {
  before_clean = option_clean d.before;
  after_clean = option_clean d.after;
  outcome_clean = option_clean d.outcome;
}

-- A codec that serializes is deterministic on sanitized events, so the seal of a sealed event is
-- that seal again.
pub seal-eq-ok :
    (x : AuditCodec) (d : AuditEventDraft) (p : Option Text) (s : SealedAuditEvent)
    → seal x d p ≡ ok s
    → (s.event ≡ sanitize d)
      × (s.previous_hash ≡ p)
      × ((payload : Text) × (x.to_vec s.event ≡ some payload)
          × (s.event_hash ≡ x.sha256 (audit_domain ++ (previous_bytes p ++ payload))))
unfolding seal
seal-eq-ok x d p s e = elim (Option-cases (x.to_vec (sanitize d))) [
  | inl missing ↦ absurd (ground arith)
  | inr (payload, q) ↦ (ground arith, ground arith, (payload, ground arith, ground arith))
]

-- A sealed event verifies: its hash is recomputed from what was stored. None of the three states
-- that it carries shows a sensitive field, and all else is what the draft said.
pub seal-verify :
    (x : AuditCodec) (d : AuditEventDraft) (p : Option Text) (s : SealedAuditEvent)
    → seal x d p ≡ ok s
    → (verify x s ≡ ok true)
      × HasCleanStates s.event
      × (s.event
          ≡ record d { before = s.event.before; after = s.event.after; outcome = s.event.outcome })
unfolding verify seal
seal-verify x d p s e =
    let (ev, prev, (payload, made, hashed)) = seal-eq-ok x d p s e in
    let stable : sanitize s.event ≡ s.event = rw ev (sanitize_idem d) in
    (
      rw (stable, made) (rw (prev, hashed) (ap ok (text_eq_refl _))),
      subst HasCleanStates (sym ev) (sanitize-HasCleanStates d),
      rw ev (unfold sanitize in refl),
    )

-- Reading an event back from its JSON: a state that is `null` becomes none.
abbrev pub read_back_option : Option Value → Option Value
read_back_option (some null) = none
read_back_option v = v

abbrev pub read_back : AuditEventDraft → AuditEventDraft
read_back d = record d {
  before = read_back_option d.before;
  after = read_back_option d.after;
  outcome = read_back_option d.outcome;
}

-- What is relied on of the codec and of SHA-256: none and `null` are written alike, and a hash has
-- 32 bytes. That what is written can be read back is not: a value that is nested too deeply, or a
-- floating-point number, may not come back.
pub record AuditLaws (x : AuditCodec) : Type 0 where
  pub null_as_none : (d : AuditEventDraft) → x.to_vec (read_back d) ≡ x.to_vec d
  pub hash_size : (b : Text) → length (x.sha256 b) ≡ 32

sanitize-read_back_option :
    (v : Option Value) → sanitize_option (read_back_option v) ≡ read_back_option (sanitize_option v)
unfolding sanitize_json
sanitize-read_back_option none = refl
sanitize-read_back_option (some null) = refl
sanitize-read_back_option (some (boolean b)) = refl
sanitize-read_back_option (some (number n)) = refl
sanitize-read_back_option (some (string t)) = refl
sanitize-read_back_option (some (array vs)) = refl
sanitize-read_back_option (some (object fs)) = refl

sanitize-read_back : (d : AuditEventDraft) → sanitize (read_back d) ≡ read_back (sanitize d)
unfolding sanitize
sanitize-read_back d = cc (
  sanitize-read_back_option d.before,
  sanitize-read_back_option d.after,
  sanitize-read_back_option d.outcome,
)

-- The sealed event verifies as well when it is read back from the stored payload.
pub verify-read_back :
    (x : AuditCodec) (laws : AuditLaws x) (d : AuditEventDraft) (p : Option Text)
    (s : SealedAuditEvent)
    → seal x d p ≡ ok s
    → verify x (record { event = read_back s.event; previous_hash = p; event_hash = s.event_hash })
      ≡ ok true
unfolding verify seal
verify-read_back x laws d p s e =
    let (ev, prev, (payload, made, hashed)) = seal-eq-ok x d p s e in
    let stable : sanitize s.event ≡ s.event = rw ev (sanitize_idem d) in
    let written : x.to_vec (sanitize (read_back s.event)) ≡ some payload =
      ap x.to_vec (sanitize-read_back s.event ∙ ap read_back stable)
      ∙ laws.null_as_none s.event
      ∙ made in
    rw (written, hashed) (ap ok (text_eq_refl _))
