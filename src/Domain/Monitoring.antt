-- ===== src/Domain/Monitoring.antt =====
-- Health and alerts (crates/domain/src/monitoring.rs).
pub mod Keys
mod Tests
use seven_network_manager.Base.{Bool, Option, if◌then◌else◌, ltb, none, some, ℕ, ◌++◌, ◌-◌, ◌∷◌}
use seven_network_manager.Base.Int.{ℤ}
use seven_network_manager.Base.Text.{Text, codes}

pub data HealthState : Type 0 where
  up down degraded unknown stale : HealthState

pub data AlertSeverity : Type 0 where
  info warning critical : AlertSeverity

pub data AlertState : Type 0 where
  open_alert acknowledged resolved suppressed : AlertState

pub record Observation {ℓ} (A : Type ℓ) : Type ℓ where
  pub value : Option A
  pub state : HealthState
  pub observed_at_unix_ms : ℤ
  pub source : Text
  pub error_code : Option Text

unfoldable pub unknown_observation {ℓ} : {A : Type ℓ} → Text → ℤ → Text → Observation A
unknown_observation source observed_at_unix_ms error_code = record {
  value = none;
  state = unknown;
  observed_at_unix_ms = observed_at_unix_ms;
  source = source;
  error_code = some error_code;
}

pub record AlertFingerprint : Type 0 where
  pub organization : Text
  pub site : Option Text
  pub resource : Text
  pub rule : Text
  pub dimension : Option Text

-- `as_deref().unwrap_or("-")`
abbrev pub or_dash : Option Text → Text
or_dash none = codes "-"
or_dash (some value) = value

-- `b':'`
abbrev pub colon : ℕ
colon = 58

unfoldable pub stable_key : AlertFingerprint → Text
stable_key f =
    f.organization
    ++ colon
      ∷ (or_dash f.site ++ colon ∷ (f.resource ++ colon ∷ (f.rule ++ colon ∷ or_dash f.dimension)))

pub data SuppressionDecision : Type 0 where
  deliver suppress_maintenance suppress_debounce : SuppressionDecision

unfoldable pub suppression_decision : Bool → ℕ → ℕ → SuppressionDecision
suppression_decision in_maintenance stable_for_samples required_samples =
    if in_maintenance
    then suppress_maintenance
    else if ltb stable_for_samples required_samples
    then suppress_debounce
    else deliver
