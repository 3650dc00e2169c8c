-- ===== src/Domain/Trial.antt =====
-- Trial licences and what they allow (crates/domain/src/trial.rs).
pub mod Limits
mod Tests
use seven_network_manager.Base.{Bool, false, if◌then◌else◌, ltb, true, ℕ}
use seven_network_manager.Base.Int.{leb_ℤ, pos, saturate, saturating_sub, ℤ, ◌-ℤ◌}

pub data TrialState : Type 0 where
  inactive active expiring expired converted : TrialState

abbrev pub is_converted : TrialState → Bool
is_converted converted = true
is_converted _ = false

pub record TrialPolicy : Type 0 where
  pub max_devices : ℕ
  pub max_sites : ℕ
  pub max_admin_users : ℕ
  pub allow_read_capabilities : Bool
  pub allow_low_risk_mutations : Bool
  pub allow_critical_mutations : Bool

-- `impl Default for TrialPolicy`
abbrev pub default_policy : TrialPolicy
default_policy = record {
  max_devices = 100;
  max_sites = 3;
  max_admin_users = 3;
  allow_read_capabilities = true;
  allow_low_risk_mutations = false;
  allow_critical_mutations = false;
}

pub record TrialLicense : Type 0 where
  pub id : ℕ
  pub installation_id : ℕ
  pub state : TrialState
  pub starts_at_unix_ms : ℤ
  pub expires_at_unix_ms : ℤ
  pub policy : TrialPolicy

pub data TrialAction : Type 0 where
  read low_risk_mutation critical_mutation create_device create_site create_admin_user : TrialAction

pub record TrialUsage : Type 0 where
  pub devices : ℕ
  pub sites : ℕ
  pub admin_users : ℕ

pub data TrialDecision : Type 0 where
  allow deny_expired deny_policy deny_limit : TrialDecision

abbrev pub is_read : TrialAction → Bool
is_read read = true
is_read _ = false

unfoldable pub effective_state : TrialLicense → ℤ → ℤ → TrialState
unfolding saturating_sub saturate ◌-ℤ◌
effective_state license now_unix_ms expiring_window_ms =
    if is_converted license.state
    then converted
    else if leb_ℤ license.expires_at_unix_ms now_unix_ms
    then expired
    else if leb_ℤ (saturating_sub license.expires_at_unix_ms expiring_window_ms) now_unix_ms
    then expiring
    else active

-- The `match action` of `decide`.
abbrev decide_action : TrialPolicy → TrialUsage → TrialAction → TrialDecision
decide_action policy usage read = if policy.allow_read_capabilities then allow else deny_policy
decide_action policy usage low_risk_mutation =
    if policy.allow_low_risk_mutations then allow else deny_policy
decide_action policy usage critical_mutation =
    if policy.allow_critical_mutations then allow else deny_policy
decide_action policy usage create_device =
    if ltb usage.devices policy.max_devices then allow else deny_limit
decide_action policy usage create_site =
    if ltb usage.sites policy.max_sites then allow else deny_limit
decide_action policy usage create_admin_user =
    if ltb usage.admin_users policy.max_admin_users then allow else deny_limit

unfoldable pub decide : TrialLicense → TrialAction → TrialUsage → ℤ → TrialDecision
unfolding effective_state
decide license action usage now_unix_ms =
    if is_converted (effective_state license now_unix_ms (pos 0))
    then allow
    else if leb_ℤ license.expires_at_unix_ms now_unix_ms
    then (if is_read action then allow else deny_expired)
    else decide_action license.policy usage action
