-- ===== src/Domain/Trial/Tests.antt =====
-- Runs and instances of the trial rules.

use seven_network_manager.Base.{List, [], arith, refl, ◌∷◌, ◌≡◌}
use seven_network_manager.Base.Int.{pos, ℤ}
use seven_network_manager.Domain.Trial.{
  TrialAction, TrialLicense, TrialUsage, active, create_device, create_site, decide, default_policy,
}
use seven_network_manager.Domain.Trial.Limits.{Within, run_actions, run_actions-Within}

abbrev trial : TrialLicense
trial = record {
  id = 1;
  installation_id = 2;
  state = active;
  starts_at_unix_ms = pos 0;
  expires_at_unix_ms = pos 100;
  policy = default_policy;
}

abbrev unused : TrialUsage
unused = record { devices = 0; sites = 2; admin_users = 0 }

abbrev requests : List (TrialAction × ℤ)
requests =
    (create_site, pos 10)
    ∷ (create_site, pos 20)
    ∷ (create_device, pos 30)
    ∷ (create_device, pos 100)
    ∷ []

requests_run :
    run_actions trial requests unused ≡ record { devices = 1; sites = 3; admin_users = 0 }
unfolding decide
requests_run = refl

run_actions-Within_example : Within default_policy (run_actions trial requests unused)
run_actions-Within_example = run_actions-Within trial requests unused refl (omega arith)
