-- ===== src/Domain/Change/Approvals.antt =====
-- What an approval binds (`Approval::is_valid_for`).
use seven_network_manager.Base.{arith, true, ◌≡◌}
use seven_network_manager.Base.Int.{ltb_ℤ, ℤ, ◌≤ℤ◌}
use seven_network_manager.Base.Text.{text_eq_iff}
use seven_network_manager.Domain.Change.{Approval, ChangePlan, is_valid_for}

-- The plan is the one that was approved, in every respect that an approval records.
pub record Binds (a : Approval) (plan : ChangePlan) : Type 0 where
  pub same_id : a.plan_id ≡ plan.id
  pub same_target : a.target_fingerprint ≡ plan.target_fingerprint
  pub same_input : a.input_fingerprint ≡ plan.input_fingerprint
  pub same_version : a.provider_version ≡ plan.provider_version

pub is_valid_for-Binds :
    (a : Approval) (plan : ChangePlan) (now : ℤ) → is_valid_for a plan now ≡ true → Binds a plan
unfolding is_valid_for
is_valid_for-Binds a plan now h = ground (
  arith,
  text_eq_iff a.target_fingerprint plan.target_fingerprint,
  text_eq_iff a.input_fingerprint plan.input_fingerprint,
  text_eq_iff a.provider_version plan.provider_version,
)

pub is_valid_for-live :
    (a : Approval) (plan : ChangePlan) (now : ℤ)
    → Binds a plan
    → is_valid_for a plan now ≡ ltb_ℤ now a.expires_at_unix_ms
unfolding is_valid_for
is_valid_for-live a plan now h = ground (
  arith,
  text_eq_iff a.target_fingerprint plan.target_fingerprint,
  text_eq_iff a.input_fingerprint plan.input_fingerprint,
  text_eq_iff a.provider_version plan.provider_version,
)

-- One approval that is valid for two plans, at whatever times, was given for one plan: the two
-- agree in their id, target, input and provider version. Validity is never regained: an approval
-- that is valid for the first plan at `now` was valid for the second at every earlier time.
pub approval_binds :
    (a : Approval) (p q : ChangePlan) (now then_ earlier : ℤ)
    → is_valid_for a p now ≡ true
    → is_valid_for a q then_ ≡ true
    → earlier ≤ℤ now
    → (p.id ≡ q.id)
      × (p.target_fingerprint ≡ q.target_fingerprint)
      × (p.input_fingerprint ≡ q.input_fingerprint)
      × (p.provider_version ≡ q.provider_version)
      × (is_valid_for a q earlier ≡ true)
approval_binds a p q now then_ earlier hp hq le = ground (
  arith,
  is_valid_for-Binds a p now hp,
  is_valid_for-Binds a q then_ hq,
  is_valid_for-live a p now (is_valid_for-Binds a p now hp),
  is_valid_for-live a q earlier (is_valid_for-Binds a q then_ hq),
)
