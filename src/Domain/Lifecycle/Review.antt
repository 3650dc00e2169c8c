-- ===== src/Domain/Lifecycle/Review.antt =====
-- What a sequence of permitted transitions can and cannot do.
use seven_network_manager.Base.{Bool, arith, false, inl, inr, refl, subst, true, ◌≡◌, ◌⊎◌}
use seven_network_manager.Domain.Lifecycle.{
  DeviceLifecycle, allows_normal_mutation, archived, can_transition_to, discovered, maintenance,
  managed, pending_review, retired, unmanaged,
}

-- The states that a device passes through, each step permitted: from the first to the last.
pub data Course (s : DeviceLifecycle) : DeviceLifecycle → Type 0 where
  here : Course s s
  next :
      {t : DeviceLifecycle} (u : DeviceLifecycle)
      → Course s t
      → can_transition_to t u ≡ true
      → Course s u

-- The course enters `x` at some step, or begins there.
abbrev pub Visits : {s t : DeviceLifecycle} → DeviceLifecycle → Course s t → Type 0
Visits {s} x here = s ≡ x
Visits x (next u c h) = (u ≡ x) ⊎ Visits x c

-- Where a device that was retired can be before it has been reviewed.
abbrev dormant : DeviceLifecycle → Bool
dormant retired = true
dormant archived = true
dormant _ = false

dormant_step :
    (t u : DeviceLifecycle)
    → dormant t ≡ true
    → can_transition_to t u ≡ true
    → (dormant u ≡ true) ⊎ (u ≡ pending_review)
unfolding can_transition_to
dormant_step t u d h = ground arith

retired_course :
    {t : DeviceLifecycle} (c : Course retired t) → (dormant t ≡ true) ⊎ Visits pending_review c
retired_course here = inl refl
retired_course (next {t} u c h) = elim (retired_course c) [
  | inl d ↦ elim (dormant_step t u d h) [ inl e ↦ inl e | inr e ↦ inr (inl e) ]
  | inr v ↦ inr (inr v)
]

-- A retired device accepts normal mutations again only by way of a review: every permitted course
-- from retired to a state that allows them passes through pending review.
pub retired_needs_review :
    {t : DeviceLifecycle} (c : Course retired t)
    → allows_normal_mutation t ≡ true
    → Visits pending_review c
unfolding allows_normal_mutation
retired_needs_review {t} c h = elim (retired_course c) [ inl d ↦ absurd (clash t d h) | inr v ↦ v ]
  where
    clash : (t : DeviceLifecycle) → dormant t ≡ true → allows_normal_mutation t ≡ true → ⊥
    clash t d m = ground arith

archived_step : (u : DeviceLifecycle) → can_transition_to archived u ≡ true → u ≡ archived
unfolding can_transition_to
archived_step u h = ground arith

-- Archiving is final: every permitted course from archived stays there.
pub archived_final : {t : DeviceLifecycle} → Course archived t → t ≡ archived
archived_final here = refl
archived_final (next {t} u c h) =
    archived_step u (subst (λ s. can_transition_to s u ≡ true) (archived_final c) h)

abbrev is_archived : DeviceLifecycle → Bool
is_archived archived = true
is_archived _ = false

course_to_archived : (s : DeviceLifecycle) → Course s archived
unfolding can_transition_to
course_to_archived archived = here
course_to_archived managed = next archived (next retired here refl) refl
course_to_archived maintenance = next archived (next retired here refl) refl
course_to_archived s = next archived here refl

-- Where a permitted course from archived ends, there is archived, and a permitted course leads to
-- archived from every state.
pub archived_reachable :
    (s : DeviceLifecycle) {t : DeviceLifecycle}
    → Course archived t
    → Course s archived × (t ≡ archived)
archived_reachable s c = (course_to_archived s, archived_final c)

-- The course from discovered to managed by way of unmanaged.
pub unreviewed_course : Course discovered managed
unfolding can_transition_to
unreviewed_course = next managed (next unmanaged here refl) refl

-- A discovered device cannot become managed in one step, and yet it can with no review at all: a
-- permitted course leads from discovered to managed that never enters pending review.
pub discovered_skips_review :
    (can_transition_to discovered managed ≡ false)
    × (c : Course discovered managed) × (¬ Visits pending_review c)
unfolding can_transition_to unreviewed_course
discovered_skips_review = (refl, unreviewed_course, λ v. ground arith)
