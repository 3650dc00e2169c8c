-- ===== src/Domain/Change.antt =====
-- Change plans, their approvals and the outcome of a change over its targets
-- (crates/domain/src/change_control.rs).
pub mod Approvals
pub mod Summary
mod Tests
use seven_network_manager.Base.{
  Bool, List, Option, any, count, false, if◌then◌else◌, is_empty, length, not, true, ℕ, ◌&&◌, ◌==◌,
  ◌||◌,
}
use seven_network_manager.Base.Int.{ltb_ℤ, ℤ}
use seven_network_manager.Base.Text.{Text, text_eq}

pub data ChangeRisk : Type 0 where
  low medium high critical : ChangeRisk

pub data ChangeState : Type 0 where
  planned awaiting_approval approved running paused : ChangeState
  partially_succeeded succeeded failed rolled_back unknown cancelled : ChangeState

pub record ChangePlan : Type 0 where
  pub id : ℕ
  pub action : Text
  pub target_fingerprint : Text
  pub input_fingerprint : Text
  pub provider_version : Text
  pub risk : ChangeRisk
  pub dry_run : Bool
  pub rollback_supported : Bool

pub record Approval : Type 0 where
  pub plan_id : ℕ
  pub approver_id : ℕ
  pub target_fingerprint : Text
  pub input_fingerprint : Text
  pub provider_version : Text
  pub approved_at_unix_ms : ℤ
  pub expires_at_unix_ms : ℤ

pub is_valid_for : Approval → ChangePlan → ℤ → Bool
is_valid_for a plan now_unix_ms =
    a.plan_id == plan.id
    && text_eq a.target_fingerprint plan.target_fingerprint
    && text_eq a.input_fingerprint plan.input_fingerprint
    && text_eq a.provider_version plan.provider_version
    && ltb_ℤ now_unix_ms a.expires_at_unix_ms

pub data TargetOutcome : Type 0 where
  succeeded failed rolled_back unknown not_attempted : TargetOutcome

pub record TargetResult : Type 0 where
  pub target_id : Text
  pub outcome : TargetOutcome
  pub confirmed : Bool
  pub error_code : Option Text

abbrev pub is_unknown : TargetOutcome → Bool
is_unknown TargetOutcome.unknown = true
is_unknown _ = false

abbrev pub is_succeeded : TargetOutcome → Bool
is_succeeded TargetOutcome.succeeded = true
is_succeeded _ = false

abbrev pub is_failed : TargetOutcome → Bool
is_failed TargetOutcome.failed = true
is_failed _ = false

-- The closure of `any`: the outcome is unknown, or was not confirmed.
abbrev pub is_unsettled : TargetResult → Bool
is_unsettled item = is_unknown item.outcome || not item.confirmed

pub summarize_targets : List TargetResult → ChangeState
summarize_targets results =
    if is_empty results
    then ChangeState.failed
    else if any is_unsettled results
    then ChangeState.unknown
    else let succeeded_count = count (λ item. is_succeeded item.outcome) results in
      let failed_count = count (λ item. is_failed item.outcome) results in
      if succeeded_count == length results
      then ChangeState.succeeded
      else if failed_count == length results
      then ChangeState.failed
      else ChangeState.partially_succeeded
