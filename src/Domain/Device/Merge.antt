-- ===== src/Domain/Device/Merge.antt =====
-- The merge decision: symmetric, and never across an organisation or a site.
use seven_network_manager.Base.{
  &&_iff, Bool, Bool-cases, Bool-ext, List, [], ap, arith, inl, inr, not, refl, sym, true, ◌&&◌,
  ◌↔◌, ◌∙◌, ◌∷◌, ◌≡◌, ◌≢◌,
}
use seven_network_manager.Domain.Lifecycle.{DeviceLifecycle, archived, lifecycle_eq, retired}
use seven_network_manager.Domain.Identifier.{
  DeviceIdentifier, IdentifierKind, identifier_eq, identifier_eq_iff,
}
use seven_network_manager.Domain.Device.{
  DeviceRecord, decide_merge, holds, is_stable_kind, is_weak_kind, same_resource, shares,
}

-- An identifier of a passing kind that both sets hold.
abbrev pub Shared : (IdentifierKind → Bool) → List DeviceIdentifier → List DeviceIdentifier → Type 0
Shared passes mine theirs =
    (i : DeviceIdentifier) × (passes i.kind ≡ true)
    × (holds mine i ≡ true)
    × (holds theirs i ≡ true)

identifier_eq_trans :
    (i j k : DeviceIdentifier) → identifier_eq i j ≡ true → identifier_eq i k ≡ identifier_eq j k
identifier_eq_trans i j k h =
    let (kinds, values) = (identifier_eq_iff i j).0 h in
    Bool-ext _ _
      (λ e.
        (identifier_eq_iff j k).1 (
          sym kinds ∙ ((identifier_eq_iff i k).0 e).0,
          sym values ∙ ((identifier_eq_iff i k).0 e).1,
        ))
      (λ e.
        (identifier_eq_iff i k).1
          (kinds ∙ ((identifier_eq_iff j k).0 e).0, values ∙ ((identifier_eq_iff j k).0 e).1))

holds_cong :
    (i j : DeviceIdentifier) (ids : List DeviceIdentifier)
    → identifier_eq i j ≡ true
    → holds ids i ≡ holds ids j
holds_cong i j [] h = refl
holds_cong i j (k ∷ ids) h = rw (identifier_eq_trans i j k h, holds_cong i j ids h) refl

shares-Shared :
    (passes : IdentifierKind → Bool) (mine theirs : List DeviceIdentifier)
    → shares passes mine theirs ≡ true
    → Shared passes mine theirs
unfolding shares
shares-Shared passes [] theirs h = cc
shares-Shared passes (i ∷ mine) theirs h = elim (Bool-cases (passes i.kind && holds theirs i)) [
  | inl e ↦ (
    i,
    ((&&_iff _ _).0 e).0,
    rw ((identifier_eq_iff i i).1 (refl, refl)) refl,
    ((&&_iff _ _).0 e).1,
  )
  | inr e ↦ later (shares-Shared passes mine theirs (rw e at h))
]
  where
    later : Shared passes mine theirs → Shared passes (i ∷ mine) theirs
    later (j, p, m, t) = (j, p, ground (arith, m), t)

Shared-shares :
    (passes : IdentifierKind → Bool) (mine theirs : List DeviceIdentifier)
    → Shared passes mine theirs
    → shares passes mine theirs ≡ true
unfolding shares
Shared-shares passes [] theirs (i, p, m, t) = cc
Shared-shares passes (j ∷ mine) theirs (i, p, m, t) = elim (Bool-cases (identifier_eq i j)) [
  | inl e ↦
      rw (sym (ap passes ((identifier_eq_iff i j).0 e).0) ∙ p, sym (holds_cong i j theirs e) ∙ t)
        refl
  | inr e ↦ ground (arith, Shared-shares passes mine theirs (i, p, rw e at m, t))
]

shares_comm :
    (passes : IdentifierKind → Bool) (mine theirs : List DeviceIdentifier)
    → shares passes mine theirs ≡ shares passes theirs mine
shares_comm passes mine theirs =
    Bool-ext _ _ (λ h. Shared-shares passes theirs mine (flip (shares-Shared passes mine theirs h)))
      (λ h. Shared-shares passes mine theirs (back (shares-Shared passes theirs mine h)))
  where
    flip : Shared passes mine theirs → Shared passes theirs mine
    flip (i, p, m, t) = (i, p, t, m)

    back : Shared passes theirs mine → Shared passes mine theirs
    back (i, p, m, t) = (i, p, t, m)

-- The decision does not depend on which record is on the left.
pub decide_merge_comm : (l r : DeviceRecord) → decide_merge l r ≡ decide_merge r l
unfolding decide_merge
decide_merge_comm l r = ground (
  arith,
  shares_comm is_stable_kind l.identifiers r.identifiers,
  shares_comm is_weak_kind l.identifiers r.identifiers,
)

-- Neither retired nor archived.
abbrev pub InUse : DeviceLifecycle → Type 0
InUse s = (s ≢ retired) × (s ≢ archived)

-- When two records may be merged without review.
abbrev pub Mergeable : DeviceRecord → DeviceRecord → Type 0
Mergeable l r =
    (l.organization_id ≡ r.organization_id)
    × (l.site_id ≡ r.site_id)
    × InUse l.lifecycle
    × InUse r.lifecycle
    × Shared is_stable_kind l.identifiers r.identifiers

in_use :
    (s : DeviceLifecycle)
    → (not (lifecycle_eq s retired) ≡ true)
    → (not (lifecycle_eq s archived) ≡ true)
    → InUse s
in_use s h k = (λ e. ground arith, λ e. ground arith)

InUse-test :
    (s : DeviceLifecycle)
    → InUse s
    → (not (lifecycle_eq s retired) ≡ true) × (not (lifecycle_eq s archived) ≡ true)
InUse-test s h = ground arith

-- Two records are merged without review exactly if they belong to one organisation and site, are
-- both neither retired nor archived, and share an identifier of a strong kind.
pub decide_merge_same : (l r : DeviceRecord) → (decide_merge l r ≡ same_resource) ↔ Mergeable l r
unfolding decide_merge
decide_merge_same l r = (
  λ h. (
    ground arith,
    ground arith,
    in_use l.lifecycle (ground arith) (ground arith),
    in_use r.lifecycle (ground arith) (ground arith),
    shares-Shared is_stable_kind l.identifiers r.identifiers (ground arith),
  ),
  λ m. ground (
    arith,
    m.0,
    m.1,
    InUse-test l.lifecycle m.2,
    InUse-test r.lifecycle m.3,
    Shared-shares is_stable_kind l.identifiers r.identifiers m.4,
  ),
)
