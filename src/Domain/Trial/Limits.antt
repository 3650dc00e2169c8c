-- ===== src/Domain/Trial/Limits.antt =====
-- What a trial allows over its life.
use seven_network_manager.Base.{List, [], arith, false, if◌then◌else◌, refl, ◌+◌, ◌∷◌, ◌≡◌, ◌≤◌}
use seven_network_manager.Base.Int.{ℤ, ◌≤ℤ◌}
use seven_network_manager.Domain.Trial.{
  TrialAction, TrialLicense, TrialPolicy, TrialUsage, allow, create_admin_user, create_device,
  create_site, decide, deny_expired, effective_state, is_converted, is_read,
}

-- The usage after an action was carried out.
abbrev pub record_usage : TrialAction → TrialUsage → TrialUsage
record_usage create_device u = record u { devices = u.devices + 1 }
record_usage create_site u = record u { sites = u.sites + 1 }
record_usage create_admin_user u = record u { admin_users = u.admin_users + 1 }
record_usage _ u = u

pub record Within (p : TrialPolicy) (u : TrialUsage) : Type 0 where
  pub devices_within : u.devices ≤ p.max_devices
  pub sites_within : u.sites ≤ p.max_sites
  pub admins_within : u.admin_users ≤ p.max_admin_users

-- A caller that asks before every action, and carries out what is allowed.
abbrev pub run_actions : TrialLicense → List (TrialAction × ℤ) → TrialUsage → TrialUsage
run_actions l [] u = u
run_actions l ((a, now) ∷ rest) u =
    run_actions l rest (elim (decide l a u now) [ allow ↦ record_usage a u | _ ↦ u ])

decide-Within :
    (l : TrialLicense) (a : TrialAction) (u : TrialUsage) (now : ℤ)
    → is_converted l.state ≡ false
    → Within l.policy u
    → Within l.policy (elim (decide l a u now) [ allow ↦ record_usage a u | _ ↦ u ])
unfolding decide
decide-Within l a u now c w = ground arith

-- While a licence is not converted, no sequence of requests takes the usage past its limits.
pub run_actions-Within :
    (l : TrialLicense) (steps : List (TrialAction × ℤ)) (u : TrialUsage)
    → is_converted l.state ≡ false
    → Within l.policy u
    → Within l.policy (run_actions l steps u)
run_actions-Within l [] u c w = w
run_actions-Within l ((a, now) ∷ rest) u c w =
    run_actions-Within l rest _ c (decide-Within l a u now c w)

-- From its expiry on a licence that was not converted allows reading, whatever its policy, and
-- denies everything else as expired; a converted licence allows everything at all times.
pub decide_expired :
    (l : TrialLicense) (a : TrialAction) (u : TrialUsage) (now : ℤ)
    → l.expires_at_unix_ms ≤ℤ now
    → decide l a u now
      ≡ (if is_converted l.state then allow else if is_read a then allow else deny_expired)
unfolding decide
decide_expired l a u now h = ground arith

-- The effective state takes no account of whether a trial was ever started: two licences with the
-- same expiry, neither of them converted, have the same effective state at all times, so an
-- inactive one counts as active, and one whose stored state is expired does so until its expiry.
pub inactive_counts_as_active :
    (l m : TrialLicense) (now window : ℤ)
    → is_converted l.state ≡ false
    → is_converted m.state ≡ false
    → l.expires_at_unix_ms ≡ m.expires_at_unix_ms
    → effective_state l now window ≡ effective_state m now window
unfolding effective_state
inactive_counts_as_active l m now window cl cm e = rw (cl, cm, e) refl
