-- ===== src/Base/Members.antt =====
-- The members of a list, and what searches say of them.
use mathlib.Core.Path.{◌≡◌, refl, subst, sym}
use mathlib.Core.Logic.{◌⊎◌, inl, inr}
use mathlib.Core.Bool.{Bool, true}
use mathlib.Core.Option.{some, some-injective}
use mathlib.Core.List.{List, [], ◌∷◌}
use native.Mathlib.Omega.{arith}
use seven_network_manager.Base.Tests.{Bool-cases}
use seven_network_manager.Base.Lists.{any, find, keep}

-- A row of a table.
abbrev pub Has : {A : Type 0} → A → List A → Type 0
Has a [] = ⊥
Has a (b ∷ bs) = (b ≡ a) ⊎ Has a bs

module _ {A : Type 0} (p : A → Bool) where
  pub any-Has : (xs : List A) → any p xs ≡ true → (a : A) × Has a xs × (p a ≡ true)
  any-Has [] h = cc
  any-Has (x ∷ xs) h = elim (Bool-cases (p x)) [
    | inl e ↦ (x, inl refl, e)
    | inr e ↦ let (a, m, k) = any-Has xs (ground arith) in (a, inr m, k)
  ]

  pub Has-any : (xs : List A) (a : A) → Has a xs → p a ≡ true → any p xs ≡ true
  Has-any [] a m e = absurd m
  Has-any (x ∷ xs) a (inl q) e = ground (arith, subst (λ (u : A). p u ≡ true) (sym q) e)
  Has-any (x ∷ xs) a (inr m) e = ground (arith, Has-any xs a m e)

  pub Has-keep : (xs : List A) (a : A) → Has a (keep p xs) → Has a xs × (p a ≡ true)
  Has-keep [] a m = absurd m
  Has-keep (x ∷ xs) a m = elim (Bool-cases (p x)) [
    | inl e ↦ first e (Has-keep xs a) (rw (keep, e) at m)
    | inr e ↦ let (k, t) = Has-keep xs a (rw (keep, e) at m) in (inr k, t)
  ]
    where
      first :
          p x ≡ true
          → (Has a (keep p xs) → Has a xs × (p a ≡ true))
          → (x ≡ a) ⊎ Has a (keep p xs)
          → Has a (x ∷ xs) × (p a ≡ true)
      first e rest (inl q) = (inl q, subst (λ (u : A). p u ≡ true) q e)
      first e rest (inr k) = let (k', t) = rest k in (inr k', t)

  pub find-Has : (xs : List A) (a : A) → find p xs ≡ some a → Has a xs
  find-Has [] a h = cc
  find-Has (x ∷ xs) a h = elim (Bool-cases (p x)) [
    | inl e ↦ inl (some-injective _ _ (rw (find, e) at h))
    | inr e ↦ inr (find-Has xs a (rw (find, e) at h))
  ]
