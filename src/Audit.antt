-- ===== src/Audit.antt =====
-- Audit events and their seals (crates/security/src/audit.rs). The JSON codec and SHA-256 are
-- parameters.
pub mod Seals
use seven_network_manager.Base.{Bool, Option, [], none, some, ℕ, ◌++◌, ◌∷◌}
use seven_network_manager.Base.Int.{ℤ}
use seven_network_manager.Base.Text.{Text, codes, text_eq}
use seven_network_manager.Base.Result.{Result, ok, ok_or, ◌>>=◌, ◌>>◌}
use seven_network_manager.Governance.{Value, sanitize_json}

pub data AuditActorType : Type 0 where
  user service_account system : AuditActorType

pub data AuditStatus : Type 0 where
  succeeded failed denied partial unknown cancelled : AuditStatus

pub record AuditEventDraft : Type 0 where
  pub organization_id : ℕ
  pub site_id : Option ℕ
  pub actor_type : AuditActorType
  pub actor_id : Option ℕ
  pub session_id : Option ℕ
  pub source_ip : Option Text
  pub request_id : Text
  pub correlation_id : ℕ
  pub action : Text
  pub resource_type : Text
  pub resource_id : Option Text
  pub provider : Option Text
  pub occurred_at_unix_ms : ℤ
  pub duration_ms : Option ℕ
  pub status : AuditStatus
  pub reason_code : Option Text
  pub before : Option Value
  pub after : Option Value
  pub outcome : Option Value

pub data AuditError : Type 0 where
  serialization_failed : AuditError

abbrev pub sanitize_option : Option Value → Option Value
sanitize_option none = none
sanitize_option (some v) = some (sanitize_json v)

unfoldable pub sanitize : AuditEventDraft → AuditEventDraft
sanitize d = record d {
  before = sanitize_option d.before;
  after = sanitize_option d.after;
  outcome = sanitize_option d.outcome;
}

pub record SealedAuditEvent : Type 0 where
  pub event : AuditEventDraft
  pub previous_hash : Option Text
  pub event_hash : Text

-- The libraries that the seals are made with.
pub record AuditCodec : Type 0 where
  pub to_vec : AuditEventDraft → Option Text
  pub from_slice : Text → Option AuditEventDraft
  pub sha256 : Text → Text

-- `b"snm:audit:v1\0"`
abbrev pub audit_domain : Text
audit_domain = codes "snm:audit:v1" ++ 0 ∷ []

abbrev pub previous_bytes : Option Text → Text
previous_bytes none = []
previous_bytes (some h) = h

module _ (x : AuditCodec) where
  unfoldable pub seal : AuditEventDraft → Option Text → Result AuditError SealedAuditEvent
  seal d previous_hash = do
    let sanitized = sanitize d
    payload ← ok_or (x.to_vec sanitized) serialization_failed
    ok (record {
      event = sanitized;
      previous_hash = previous_hash;
      event_hash = x.sha256 (audit_domain ++ (previous_bytes previous_hash ++ payload));
    })

  unfoldable pub verify : SealedAuditEvent → Result AuditError Bool
  verify s = do
    recomputed ← seal s.event s.previous_hash
    ok (text_eq recomputed.event_hash s.event_hash)
