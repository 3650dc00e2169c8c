-- ===== src/ServiceAccounts/Permissions.antt =====
-- The permissions that a service token leaves of those of its account.

use seven_network_manager.Base.Text.{Text, text_eq, text_eq-eq}
use seven_network_manager.Base.{
  All, Bool, Bool-cases, List, [], any, ap, arith, false, if◌then◌else◌, inl, inr, refl, subst, sym,
  true, ◌&&◌, ◌||◌, ◌∷◌, ◌≡◌,
}
use seven_network_manager.ServiceAccounts.Inputs.{
  insert_common, insert_text, intersect_permissions, text_ltb,
}

abbrev pub has_text : Text → List Text → Bool
has_text t ts = any (text_eq t) ts

same_text : (t u : Text) → text_eq t u ≡ true → (ts : List Text) → has_text t ts ≡ has_text u ts
same_text t u e ts = ap (λ (v : Text). has_text v ts) (text_eq-eq t u e)

has_text-insert_text :
    (t u : Text) (us : List Text) → has_text t (insert_text u us) ≡ (text_eq t u || has_text t us)
unfolding insert_text
has_text-insert_text t u [] = refl
has_text-insert_text t u (v ∷ us) = elim (Bool-cases (text_eq u v)) [
  | inl e ↦ rw e (
      subst
        (λ (w : Text).
          (text_eq t v || has_text t us) ≡ (text_eq t w || (text_eq t v || has_text t us)))
        (sym (text_eq-eq u v e)) (ground arith))
  | inr e ↦ rw e (ground (arith, has_text-insert_text t u us))
]

has_text-insert_common :
    (t : Text) (rbac scopes effective : List Text)
    → has_text t (insert_common rbac scopes effective)
      ≡ ((has_text t scopes && has_text t rbac) || has_text t effective)
has_text-insert_common t rbac [] effective = refl
has_text-insert_common t rbac (s ∷ scopes) effective =
    rw
      (has_text-insert_common t rbac scopes
        (if has_text s rbac then insert_text s effective else effective))
      (ground (
        arith,
        has_text-insert_text t s effective,
        λ (k : text_eq t s ≡ true). same_text t s k rbac,
      ))

-- A permission is left exactly if it is among the token's scopes and among those that the roles give.
pub has_text-intersect_permissions :
    (t : Text) (scopes rbac : List Text)
    → has_text t (intersect_permissions scopes rbac) ≡ (has_text t scopes && has_text t rbac)
unfolding intersect_permissions
has_text-intersect_permissions t scopes rbac =
    rw (has_text-insert_common t rbac scopes []) (ground arith)

-- Strictly increasing, so without repetition.
abbrev pub IsSorted : List Text → Type 0
IsSorted [] = Unit
IsSorted (t ∷ ts) = All (λ u. text_ltb t u ≡ true) ts × IsSorted ts

text_ltb_trans : (a b c : Text) → text_ltb a b ≡ true → text_ltb b c ≡ true → text_ltb a c ≡ true
unfolding text_ltb
text_ltb_trans [] [] c h k = cc
text_ltb_trans [] (y ∷ b) [] h k = cc
text_ltb_trans [] (y ∷ b) (z ∷ c) h k = refl
text_ltb_trans (x ∷ a) [] c h k = cc
text_ltb_trans (x ∷ a) (y ∷ b) [] h k = cc
text_ltb_trans (x ∷ a) (y ∷ b) (z ∷ c) h k = ground (arith, text_ltb_trans a b c)

text_ltb_total : (a b : Text) → text_eq a b ≡ false → text_ltb a b ≡ false → text_ltb b a ≡ true
unfolding text_ltb text_eq
text_ltb_total [] [] h k = cc
text_ltb_total [] (y ∷ b) h k = cc
text_ltb_total (x ∷ a) [] h k = refl
text_ltb_total (x ∷ a) (y ∷ b) h k = ground (arith, text_ltb_total a b)

All-insert_text :
    (v t : Text) (ts : List Text)
    → text_ltb v t ≡ true
    → All (λ u. text_ltb v u ≡ true) ts
    → All (λ u. text_ltb v u ≡ true) (insert_text t ts)
unfolding insert_text
All-insert_text v t [] h k = (h, tt)
All-insert_text v t (u ∷ us) h k = elim (Bool-cases (text_eq t u)) [
  | inl e ↦ rw e k
  | inr e ↦ rw e (elim (Bool-cases (text_ltb t u)) [
    | inl l ↦ rw l (h, k)
    | inr l ↦ rw l (k.0, All-insert_text v t us h k.1)
  ])
]

above :
    (t u : Text) (us : List Text)
    → text_ltb t u ≡ true
    → All (λ w. text_ltb u w ≡ true) us
    → All (λ w. text_ltb t w ≡ true) us
above t u [] h k = tt
above t u (w ∷ us) h k = (text_ltb_trans t u w h k.0, above t u us h k.1)

insert_text-IsSorted : (t : Text) (ts : List Text) → IsSorted ts → IsSorted (insert_text t ts)
unfolding insert_text
insert_text-IsSorted t [] h = (tt, tt)
insert_text-IsSorted t (u ∷ us) h = elim (Bool-cases (text_eq t u)) [
  | inl e ↦ rw e h
  | inr e ↦ rw e (elim (Bool-cases (text_ltb t u)) [
    | inl l ↦ rw l ((l, above t u us l h.0), h)
    | inr l ↦
        rw l (All-insert_text u t us (text_ltb_total t u e l) h.0, insert_text-IsSorted t us h.1)
  ])
]

insert_common-IsSorted :
    (rbac scopes effective : List Text)
    → IsSorted effective
    → IsSorted (insert_common rbac scopes effective)
insert_common-IsSorted rbac [] effective h = h
insert_common-IsSorted rbac (s ∷ scopes) effective h =
    insert_common-IsSorted rbac scopes _ (elim (Bool-cases (has_text s rbac)) [
      | inl e ↦ rw e (insert_text-IsSorted s effective h)
      | inr e ↦ rw e h
    ])

pub intersect_permissions-IsSorted :
    (scopes rbac : List Text) → IsSorted (intersect_permissions scopes rbac)
unfolding intersect_permissions
intersect_permissions-IsSorted scopes rbac = insert_common-IsSorted rbac scopes [] tt
