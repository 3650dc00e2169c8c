-- ===== src/Domain/Change/Summary.antt =====
-- `summarize_targets` against a description of the outcome by its targets.
use seven_network_manager.Base.{
  ==_iff, All, Bool, Bool-cases, List, [], all, any, arith, count, count-le-length, false,
  if◌then◌else◌, inl, inr, length, refl, subst, true, ℕ, ◌==◌, ◌↔◌, ◌∷◌, ◌≡◌, ◌≢◌,
}
use seven_network_manager.Domain.Change.{
  ChangeState, TargetOutcome, TargetResult, is_failed, is_succeeded, is_unknown, is_unsettled,
  summarize_targets,
}

abbrev pub Settled : TargetResult → Type 0
Settled r = (r.confirmed ≡ true) × (r.outcome ≢ TargetOutcome.unknown)

-- The outcome of a change, said of its targets.
abbrev pub Describes : ChangeState → List TargetResult → Type 0
Describes ChangeState.succeeded rs =
    (rs ≢ []) × All (λ r. (r.confirmed ≡ true) × (r.outcome ≡ TargetOutcome.succeeded)) rs
Describes ChangeState.failed rs =
    All (λ r. (r.confirmed ≡ true) × (r.outcome ≡ TargetOutcome.failed)) rs
Describes ChangeState.unknown rs = ¬ All Settled rs
Describes ChangeState.partially_succeeded rs =
    All Settled rs
    × (¬ All (λ r. r.outcome ≡ TargetOutcome.succeeded) rs)
    × (¬ All (λ r. r.outcome ≡ TargetOutcome.failed) rs)
Describes _ rs = ⊥

any_unsettled : (rs : List TargetResult) → any is_unsettled rs ≡ true → ¬ All Settled rs
any_unsettled [] h all = cc
any_unsettled (r ∷ rs) h all = ground (arith, any_unsettled rs, all.0.1)

none_unsettled : (rs : List TargetResult) → any is_unsettled rs ≡ false → All Settled rs
none_unsettled [] h = tt
none_unsettled (r ∷ rs) h = ground (arith, none_unsettled rs)

count_all :
    (p : TargetResult → Bool) (rs : List TargetResult)
    → count p rs ≡ length rs
    → All (λ r. p r ≡ true) rs
count_all p [] h = tt
count_all p (r ∷ rs) h = ground (arith, count_all p rs, count-le-length p rs)

all_count :
    (p : TargetResult → Bool) (rs : List TargetResult)
    → All (λ r. p r ≡ true) rs
    → count p rs ≡ length rs
all_count p [] h = refl
all_count p (r ∷ rs) h = ground (arith, all_count p rs)

module _ (o : TargetOutcome) (p : TargetOutcome → Bool)
    (only : (x : TargetOutcome) → p x ≡ true → x ≡ o) where
  confirm :
      (rs : List TargetResult)
      → All Settled rs
      → All (λ r. p r.outcome ≡ true) rs
      → All (λ r. (r.confirmed ≡ true) × (r.outcome ≡ o)) rs
  confirm [] s h = tt
  confirm (r ∷ rs) s h = ((s.0.0, only r.outcome h.0), confirm rs s.1 h.1)

only_succeeded : (x : TargetOutcome) → is_succeeded x ≡ true → x ≡ TargetOutcome.succeeded
only_succeeded x h = ground arith

only_failed : (x : TargetOutcome) → is_failed x ≡ true → x ≡ TargetOutcome.failed
only_failed x h = ground arith

tested :
    (o : TargetOutcome) (p : TargetOutcome → Bool)
    → p o ≡ true
    → (rs : List TargetResult) → All (λ r. r.outcome ≡ o) rs
    → All (λ r. p r.outcome ≡ true) rs
tested o p e [] h = tt
tested o p e (r ∷ rs) h = (rw h.0 e, tested o p e rs h.1)

module _ (r : TargetResult) (rs : List TargetResult) (s : All Settled (r ∷ rs)) where
  abbrev wins : ℕ
  wins = count (λ item. is_succeeded item.outcome) (r ∷ rs)

  abbrev losses : ℕ
  losses = count (λ item. is_failed item.outcome) (r ∷ rs)

  partial_lem :
      (wins == length (r ∷ rs)) ≡ false
      → (losses == length (r ∷ rs)) ≡ false
      → Describes ChangeState.partially_succeeded (r ∷ rs)
  partial_lem w l = (
    s,
    λ h. ground (
      arith,
      all_count (λ item. is_succeeded item.outcome) (r ∷ rs)
          (tested TargetOutcome.succeeded is_succeeded refl (r ∷ rs) h),
    ),
    λ h. ground (
      arith,
      all_count (λ item. is_failed item.outcome) (r ∷ rs)
          (tested TargetOutcome.failed is_failed refl (r ∷ rs) h),
    ),
  )

  counted-Describes :
      Describes
        (if wins == length (r ∷ rs)
          then ChangeState.succeeded
          else if losses == length (r ∷ rs)
          then ChangeState.failed
          else ChangeState.partially_succeeded)
        (r ∷ rs)
  counted-Describes = elim (Bool-cases (wins == length (r ∷ rs))) [
    | inl w ↦ rw w (
      λ e. cc,
      confirm TargetOutcome.succeeded is_succeeded only_succeeded (r ∷ rs) s
          (count_all (λ item. is_succeeded item.outcome) (r ∷ rs) ((==_iff _ _).0 w)),
    )
    | inr w ↦ elim (Bool-cases (losses == length (r ∷ rs))) [
      | inl l ↦
          rw (w, l)
            (confirm TargetOutcome.failed is_failed only_failed (r ∷ rs) s
              (count_all (λ item. is_failed item.outcome) (r ∷ rs) ((==_iff _ _).0 l)))
      | inr l ↦ rw (w, l) (partial_lem w l)
    ]
  ]

pub summarize_targets-Describes : (rs : List TargetResult) → Describes (summarize_targets rs) rs
unfolding summarize_targets
summarize_targets-Describes [] = tt
summarize_targets-Describes (r ∷ rs) = elim (Bool-cases (any is_unsettled (r ∷ rs))) [
  | inl u ↦ rw u (any_unsettled (r ∷ rs) u)
  | inr u ↦ rw u (counted-Describes r rs (none_unsettled (r ∷ rs) u))
]

outcome_of :
    (o : TargetOutcome) (rs : List TargetResult)
    → All (λ r. (r.confirmed ≡ true) × (r.outcome ≡ o)) rs
    → All (λ r. r.outcome ≡ o) rs
outcome_of o [] h = tt
outcome_of o (r ∷ rs) h = (h.0.1, outcome_of o rs h.1)

settled_of :
    (o : TargetOutcome) (rs : List TargetResult)
    → is_unknown o ≡ false
    → All (λ r. (r.confirmed ≡ true) × (r.outcome ≡ o)) rs
    → any is_unsettled rs ≡ false
settled_of o [] e h = refl
settled_of o (r ∷ rs) e h = rw (h.0.0, h.0.1, e, settled_of o rs e h.1) refl

all_succeeded :
    (rs : List TargetResult)
    → Describes ChangeState.succeeded rs
    → summarize_targets rs ≡ ChangeState.succeeded
unfolding summarize_targets
all_succeeded [] h = absurd (h.0 refl)
all_succeeded (r ∷ rs) h = rw (settled_of TargetOutcome.succeeded (r ∷ rs) refl h.1) (
    rw
      ((==_iff _ _).1 (
        all_count (λ item. is_succeeded item.outcome) (r ∷ rs)
          (tested TargetOutcome.succeeded is_succeeded refl (r ∷ rs)
            (outcome_of TargetOutcome.succeeded (r ∷ rs) h.1))))
      refl)

all_failed :
    (rs : List TargetResult)
    → Describes ChangeState.failed rs
    → summarize_targets rs ≡ ChangeState.failed
unfolding summarize_targets
all_failed [] h = refl
all_failed (r ∷ rs) h = rw (settled_of TargetOutcome.failed (r ∷ rs) refl h) (
    ground (
      arith,
      h.0.1,
      count-le-length (λ item. is_succeeded item.outcome) rs,
      all_count (λ item. is_failed item.outcome) rs
          (tested TargetOutcome.failed is_failed refl rs (outcome_of TargetOutcome.failed rs h.1)),
    ))

unsettled_unknown :
    (rs : List TargetResult) → (¬ All Settled rs) → summarize_targets rs ≡ ChangeState.unknown
unfolding summarize_targets
unsettled_unknown [] h = absurd (h tt)
unsettled_unknown (r ∷ rs) h = elim (Bool-cases (any is_unsettled (r ∷ rs))) [
  | inl u ↦ rw u refl
  | inr u ↦ absurd (h (none_unsettled (r ∷ rs) u))
]

settled_partial :
    (rs : List TargetResult)
    → Describes ChangeState.partially_succeeded rs
    → summarize_targets rs ≡ ChangeState.partially_succeeded
unfolding summarize_targets
settled_partial [] h = absurd (h.1 tt)
settled_partial (r ∷ rs) h = elim (Bool-cases (any is_unsettled (r ∷ rs))) [
  | inl u ↦ absurd (any_unsettled (r ∷ rs) u h.0)
  | inr u ↦ elim (Bool-cases (wins r rs h.0 == length (r ∷ rs))) [
    | inl w ↦ absurd (
        h.1 (
          outcome_of TargetOutcome.succeeded (r ∷ rs) (
            confirm TargetOutcome.succeeded is_succeeded only_succeeded (r ∷ rs) h.0
              (count_all (λ item. is_succeeded item.outcome) (r ∷ rs) ((==_iff _ _).0 w)))))
    | inr w ↦ elim (Bool-cases (losses r rs h.0 == length (r ∷ rs))) [
      | inl l ↦ absurd (
          h.2 (
            outcome_of TargetOutcome.failed (r ∷ rs) (
              confirm TargetOutcome.failed is_failed only_failed (r ∷ rs) h.0
                (count_all (λ item. is_failed item.outcome) (r ∷ rs) ((==_iff _ _).0 l)))))
      | inr l ↦ rw (u, w, l) refl
    ]
  ]
]

-- A change is reported as succeeded exactly if it has targets and each is confirmed to have
-- succeeded; as failed exactly if each of its targets is confirmed to have failed, no target at
-- all included; as unknown exactly if some target is unknown or unconfirmed. In every other case,
-- and in no other, it is reported as partially succeeded.
pub summarize_targets_iff :
    (rs : List TargetResult)
    → ((summarize_targets rs ≡ ChangeState.succeeded) ↔ Describes ChangeState.succeeded rs)
      × ((summarize_targets rs ≡ ChangeState.failed) ↔ Describes ChangeState.failed rs)
      × ((summarize_targets rs ≡ ChangeState.unknown) ↔ Describes ChangeState.unknown rs)
      × ((summarize_targets rs ≡ ChangeState.partially_succeeded)
          ↔ Describes ChangeState.partially_succeeded rs)
summarize_targets_iff rs = (
  (says ChangeState.succeeded, all_succeeded rs),
  (says ChangeState.failed, all_failed rs),
  (says ChangeState.unknown, unsettled_unknown rs),
  (says ChangeState.partially_succeeded, settled_partial rs),
)
  where
    says : (s : ChangeState) → summarize_targets rs ≡ s → Describes s rs
    says s e = subst (λ t. Describes t rs) e (summarize_targets-Describes rs)
