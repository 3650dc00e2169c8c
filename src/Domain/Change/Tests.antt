-- ===== src/Domain/Change/Tests.antt =====
-- Runs and instances of the change rules.

use seven_network_manager.Base.{List, [], arith, false, none, refl, true, ◌↔◌, ◌∷◌, ◌≡◌}
use seven_network_manager.Base.Int.{pos}
use seven_network_manager.Base.Text.{codes, text_eq}
use seven_network_manager.Domain.Change.{
  Approval, ChangePlan, ChangeRisk, ChangeState, TargetOutcome, TargetResult, is_valid_for,
  summarize_targets,
}
use seven_network_manager.Domain.Change.Approvals.{approval_binds}
use seven_network_manager.Domain.Change.Summary.{Describes, summarize_targets_iff}

abbrev vlan_plan : ChangePlan
vlan_plan = record {
  id = 7;
  action = codes "vlans.write";
  target_fingerprint = codes "target-a";
  input_fingerprint = codes "input-a";
  provider_version = codes "1";
  risk = ChangeRisk.high;
  dry_run = false;
  rollback_supported = true;
}

abbrev vlan_approval : Approval
vlan_approval = record {
  plan_id = 7;
  approver_id = 3;
  target_fingerprint = codes "target-a";
  input_fingerprint = codes "input-a";
  provider_version = codes "1";
  approved_at_unix_ms = pos 100;
  expires_at_unix_ms = pos 1000;
}

-- `approval_is_invalidated_when_plan_changes`
changed_input :
    is_valid_for
      (record vlan_approval { input_fingerprint = codes "different-input" })
      vlan_plan
      (pos 200)
    ≡ false
unfolding is_valid_for text_eq
changed_input = refl

approval_binds_example :
    (vlan_plan.id ≡ (record vlan_plan { dry_run = true }).id)
    × (vlan_plan.target_fingerprint ≡ codes "target-a")
    × (vlan_plan.input_fingerprint ≡ codes "input-a")
    × (vlan_plan.provider_version ≡ codes "1")
    × (is_valid_for vlan_approval (record vlan_plan { dry_run = true }) (pos 150) ≡ true)
unfolding is_valid_for text_eq
approval_binds_example =
    approval_binds vlan_approval vlan_plan (record vlan_plan { dry_run = true }) (pos 200) (pos 900)
      (pos 150) refl refl (omega arith)

abbrev mixed : List TargetResult
mixed =
    record {
      target_id = codes "sw1";
      outcome = TargetOutcome.succeeded;
      confirmed = true;
      error_code = none;
    }
    ∷ record {
      target_id = codes "sw2";
      outcome = TargetOutcome.rolled_back;
      confirmed = true;
      error_code = none;
    }
    ∷ []

summarize_targets_iff_example :
    ((summarize_targets mixed ≡ ChangeState.succeeded) ↔ Describes ChangeState.succeeded mixed)
    × ((summarize_targets mixed ≡ ChangeState.failed) ↔ Describes ChangeState.failed mixed)
    × ((summarize_targets mixed ≡ ChangeState.unknown) ↔ Describes ChangeState.unknown mixed)
    × ((summarize_targets mixed ≡ ChangeState.partially_succeeded)
        ↔ Describes ChangeState.partially_succeeded mixed)
summarize_targets_iff_example = summarize_targets_iff mixed
