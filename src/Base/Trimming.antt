-- ===== src/Base/Trimming.antt =====
-- Laws of `trim` and of the ASCII classes.
use mathlib.Core.List.{map-append, reverse-append, reverse-reverse}
use seven_network_manager.Base.Tests.{Bool-cases}
use seven_network_manager.Base.Lists.{All}
use seven_network_manager.Base.Text.{
  Text, drop_end_while, drop_while, is_whitespace, to_ascii_lowercase, trim,
}
use Prim.Native.Nat.{ℕ}
use mathlib.Core.Path.{◌≡◌, refl, ap, ◌∙◌, sym}
use mathlib.Core.Logic.{inl, inr}
use mathlib.Core.Bool.{true, Bool, false}
use mathlib.Core.List.{[], ◌∷◌, ◌++◌, map, reverse}
use native.Mathlib.Omega.{arith}

reverse-map : (f : ℕ → ℕ) (s : Text) → reverse (map f s) ≡ map f (reverse s)
reverse-map f [] = refl
reverse-map f (c ∷ s) =
    reverse-append (f c ∷ []) (map f s)
    ∙ ap (λ t. t ++ f c ∷ []) (reverse-map f s)
    ∙ sym (map-append f (reverse s) (c ∷ []))
    ∙ ap (map f) (sym (reverse-append (c ∷ []) s))

module _ (p : ℕ → Bool) where
  drop_while_snoc :
      (s : Text) (c : ℕ) → p c ≡ false → drop_while p (s ++ c ∷ []) ≡ drop_while p s ++ c ∷ []
  unfolding drop_while
  drop_while_snoc [] c h = rw h refl
  drop_while_snoc (d ∷ s) c h = elim (Bool-cases (p d)) [
    | inl e ↦ rw e (drop_while_snoc s c h)
    | inr e ↦ rw e refl
  ]

  -- A kept first character is kept at the end too.
  drop_end_while-cons :
      (c : ℕ) (s : Text) → p c ≡ false → drop_end_while p (c ∷ s) ≡ c ∷ drop_end_while p s
  unfolding drop_end_while
  drop_end_while-cons c s h = rw (reverse-append (c ∷ []) s) (
      rw (drop_while_snoc (reverse s) c h)
        (rw (reverse-append (drop_while p (reverse s)) (c ∷ [])) refl))

  abbrev pub Starts : Text → Type 0
  Starts [] = Unit
  Starts (c ∷ s) = p c ≡ false

  pub drop_while-Starts : (s : Text) → Starts (drop_while p s)
  unfolding drop_while
  drop_while-Starts [] = tt
  drop_while-Starts (c ∷ s) = elim (Bool-cases (p c)) [
    | inl e ↦ rw e (drop_while-Starts s)
    | inr e ↦ rw e e
  ]

  drop_while_of_Starts : (s : Text) → Starts s → drop_while p s ≡ s
  unfolding drop_while
  drop_while_of_Starts [] h = refl
  drop_while_of_Starts (c ∷ s) h = rw h refl

  drop_end_while-Starts : (s : Text) → Starts s → Starts (drop_end_while p s)
  unfolding drop_end_while drop_while
  drop_end_while-Starts [] h = tt
  drop_end_while-Starts (c ∷ s) h = rw (drop_end_while-cons c s h) h

  drop_while_idem : (s : Text) → drop_while p (drop_while p s) ≡ drop_while p s
  drop_while_idem s = drop_while_of_Starts (drop_while p s) (drop_while-Starts s)

  drop_end_while_idem : (s : Text) → drop_end_while p (drop_end_while p s) ≡ drop_end_while p s
  unfolding drop_end_while
  drop_end_while_idem s =
      rw (reverse-reverse (drop_while p (reverse s))) (rw (drop_while_idem (reverse s)) refl)

  trim_both_idem :
      (s : Text)
      → drop_end_while p (drop_while p (drop_end_while p (drop_while p s)))
        ≡ drop_end_while p (drop_while p s)
  trim_both_idem s =
      rw
        (drop_while_of_Starts (drop_end_while p (drop_while p s))
          (drop_end_while-Starts (drop_while p s) (drop_while-Starts s)))
        (drop_end_while_idem (drop_while p s))

  drop_while_none : (s : Text) → All (λ c. p c ≡ false) s → drop_while p s ≡ s
  drop_while_none [] h = unfold drop_while in refl
  drop_while_none (c ∷ s) h = drop_while_of_Starts (c ∷ s) h.0

  drop_end_while_none : (s : Text) → All (λ c. p c ≡ false) s → drop_end_while p s ≡ s
  unfolding drop_end_while drop_while
  drop_end_while_none [] h = refl
  drop_end_while_none (c ∷ s) h =
      rw (drop_end_while-cons c s h.0) (rw (drop_end_while_none s h.1) refl)

  module _ (f : ℕ → ℕ) (same : (c : ℕ) → p (f c) ≡ p c) where
    drop_while-map : (s : Text) → drop_while p (map f s) ≡ map f (drop_while p s)
    unfolding drop_while
    drop_while-map [] = refl
    drop_while-map (c ∷ s) = elim (Bool-cases (p c)) [
      | inl e ↦ rw (same c, e) (drop_while-map s)
      | inr e ↦ rw (same c, e) refl
    ]

    drop_end_while-map : (s : Text) → drop_end_while p (map f s) ≡ map f (drop_end_while p s)
    unfolding drop_end_while
    drop_end_while-map s =
        rw (reverse-map f s)
          (rw (drop_while-map (reverse s)) (reverse-map f (drop_while p (reverse s))))

module _ (p : ℕ → Bool) (s : Text) (c : ℕ) where
  pub drop_end_while-kept : p c ≡ false → drop_end_while p (s ++ c ∷ []) ≡ s ++ c ∷ []
  unfolding drop_end_while drop_while
  drop_end_while-kept h =
      rw (reverse-append s (c ∷ []))
        (rw h (rw (reverse-append (c ∷ []) (reverse s)) (rw (reverse-reverse s) refl)))

  pub drop_end_while-dropped : p c ≡ true → drop_end_while p (s ++ c ∷ []) ≡ drop_end_while p s
  unfolding drop_end_while drop_while
  drop_end_while-dropped h = rw (reverse-append s (c ∷ [])) (rw h refl)

-- A text between two characters that are no whitespace is trimmed.
pub trim_kept :
    (c : ℕ) (s : Text) (d : ℕ)
    → is_whitespace c ≡ false
    → is_whitespace d ≡ false
    → trim ((c ∷ s) ++ d ∷ []) ≡ (c ∷ s) ++ d ∷ []
unfolding trim drop_while
trim_kept c s d h k = rw h (drop_end_while-kept is_whitespace (c ∷ s) d k)

-- Trimming twice is trimming once.
pub trim_idem : (s : Text) → trim (trim s) ≡ trim s
unfolding trim
trim_idem s = trim_both_idem is_whitespace s

pub trim_none : (s : Text) → All (λ c. is_whitespace c ≡ false) s → trim s ≡ s
unfolding trim
trim_none s h = rw (drop_while_none is_whitespace s h) (drop_end_while_none is_whitespace s h)

pub trim-map :
    (f : ℕ → ℕ) (s : Text)
    → ((c : ℕ) → is_whitespace (f c) ≡ is_whitespace c)
    → trim (map f s) ≡ map f (trim s)
unfolding trim
trim-map f s same =
    rw (drop_while-map is_whitespace f same s)
      (drop_end_while-map is_whitespace f same (drop_while is_whitespace s))

pub whitespace-lowercase : (c : ℕ) → is_whitespace (to_ascii_lowercase c) ≡ is_whitespace c
unfolding is_whitespace to_ascii_lowercase
whitespace-lowercase c = ground arith

pub lowercase_idem : (c : ℕ) → to_ascii_lowercase (to_ascii_lowercase c) ≡ to_ascii_lowercase c
unfolding to_ascii_lowercase
lowercase_idem c = ground arith

pub map-lowercase_idem :
    (s : Text) → map to_ascii_lowercase (map to_ascii_lowercase s) ≡ map to_ascii_lowercase s
map-lowercase_idem [] = refl
map-lowercase_idem (c ∷ s) = cc (lowercase_idem c, map-lowercase_idem s)
