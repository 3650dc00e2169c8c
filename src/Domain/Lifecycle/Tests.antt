-- ===== src/Domain/Lifecycle/Tests.antt =====
-- Runs and instances of the lifecycle rules.

use seven_network_manager.Base.{false, refl, true, ◌≡◌}
use seven_network_manager.Domain.Lifecycle.{
  allows_normal_mutation, can_transition_to, discovered, managed, pending_review, retired,
}
use seven_network_manager.Domain.Lifecycle.Review.{Course, Visits, here, next, retired_needs_review}

-- `discovery_cannot_skip_review_and_become_managed`
onboarding :
    (can_transition_to discovered managed ≡ false)
    × (can_transition_to discovered pending_review ≡ true)
    × (can_transition_to pending_review managed ≡ true)
unfolding can_transition_to
onboarding = (refl, refl, refl)

abbrev revival : Course retired managed
unfolding can_transition_to
revival = next managed (next pending_review here refl) refl

retired_needs_review_example : Visits pending_review revival
unfolding can_transition_to
retired_needs_review_example =
    retired_needs_review (next managed (next pending_review here refl) refl)
      (unfold allows_normal_mutation in refl)
