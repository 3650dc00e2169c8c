-- ===== src/Base/Split.antt =====
-- `str::split` at a character, and what it recovers.
use mathlib.Core.List.{append_assoc}
use seven_network_manager.Base.Tests.{==_iff, Bool-cases, if◌then◌else◌, ◌==◌}
use seven_network_manager.Base.Lists.{All}
use seven_network_manager.Base.Text.{Text}
use Prim.Native.Nat.{ℕ}
use mathlib.Core.Path.{◌∙◌, subst, ◌≡◌, refl, ap, sym}
use mathlib.Core.Logic.{inl, inr}
use mathlib.Core.Bool.{false}
use mathlib.Core.Option.{Option, none, some}
use mathlib.Core.List.{List, [], ◌∷◌, ◌++◌}
use native.Mathlib.Omega.{arith}

-- The first part of a list of parts, with a character put before it.
abbrev pub grow : ℕ → List Text → List Text
grow c [] = (c ∷ []) ∷ []
grow c (part ∷ parts) = (c ∷ part) ∷ parts

abbrev pub grow_first : ℕ → Option (Text × Text) → Option (Text × Text)
grow_first c none = none
grow_first c (some (before, after)) = some (c ∷ before, after)

unfoldable pub split : ℕ → Text → List Text
split sep [] = [] ∷ []
split sep (c ∷ s) = let rest = split sep s in if c == sep then [] ∷ rest else grow c rest

-- `str::split_once`
unfoldable pub split_once : ℕ → Text → Option (Text × Text)
split_once sep [] = none
split_once sep (c ∷ s) =
    let rest = split_once sep s in if c == sep then some ([], s) else grow_first c rest

-- The parts, with the separator between them.
abbrev pub join : ℕ → List Text → Text
join sep [] = []
join sep (part ∷ []) = part
join sep (part ∷ more) = part ++ sep ∷ join sep more

join-grow : (sep c : ℕ) (parts : List Text) → join sep (grow c parts) ≡ c ∷ join sep parts
join-grow sep c [] = refl
join-grow sep c (p ∷ []) = refl
join-grow sep c (p ∷ q ∷ parts) = refl

split_cons : (sep : ℕ) (s : Text) → (p : Text) × (ps : List Text) × (split sep s ≡ p ∷ ps)
unfolding split
split_cons sep [] = ([], [], refl)
split_cons sep (c ∷ s) = elim (Bool-cases (c == sep)) [
  | inl e ↦ ([], split sep s, rw e refl)
  | inr e ↦ step e (split_cons sep s)
]
  where
    step :
        (c == sep) ≡ false
        → (p : Text) × (ps : List Text) × (split sep s ≡ p ∷ ps)
        → (p : Text) × (ps : List Text) × ((if c == sep
              then [] ∷ split sep s
              else grow c (split sep s))
            ≡ p ∷ ps)
    step e (p, ps, h) = (c ∷ p, ps, rw (e, h) refl)

-- Joining the parts gives the text back.
pub join-split : (sep : ℕ) (s : Text) → join sep (split sep s) ≡ s
unfolding split
join-split sep [] = refl
join-split sep (c ∷ s) = elim (Bool-cases (c == sep)) [
  | inl e ↦ rw e (start (split_cons sep s) (join-split sep s) ((==_iff c sep).0 e))
  | inr e ↦ rw (e, join-grow sep c (split sep s)) (ap (λ t. c ∷ t) (join-split sep s))
]
  where
    start :
        (p : Text) × (ps : List Text) × (split sep s ≡ p ∷ ps)
        → join sep (split sep s) ≡ s
        → c ≡ sep
        → join sep ([] ∷ split sep s) ≡ c ∷ s
    start (p, ps, h) ih same =
        subst (λ parts. join sep ([] ∷ parts) ≡ sep ∷ join sep parts) (sym h) refl ∙ cc (ih, same)

-- The text does not hold the separator.
abbrev pub Lacks : ℕ → Text → Type 0
Lacks sep s = All (λ c. (c == sep) ≡ false) s

split_none : (sep : ℕ) (s : Text) → Lacks sep s → split sep s ≡ s ∷ []
unfolding split
split_none sep [] h = refl
split_none sep (c ∷ s) h = rw (h.0, split_none sep s h.1) refl

split_first :
    (sep : ℕ) (s rest : Text) → Lacks sep s → split sep (s ++ sep ∷ rest) ≡ s ∷ split sep rest
unfolding split
split_first sep [] rest h = ground arith
split_first sep (c ∷ s) rest h = rw (h.0, split_first sep s rest h.1) refl

pub split_three :
    (sep : ℕ) (a b c : Text)
    → Lacks sep a
    → Lacks sep b
    → Lacks sep c
    → split sep ((a ++ sep ∷ b) ++ sep ∷ c) ≡ a ∷ b ∷ c ∷ []
split_three sep a b c ha hb hc = rw (append_assoc a (sep ∷ b) (sep ∷ c)) (
    rw (split_first sep a (b ++ sep ∷ c) ha)
      (rw (split_first sep b c hb) (rw (split_none sep c hc) refl)))
