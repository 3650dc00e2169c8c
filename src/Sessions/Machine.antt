-- ===== src/Sessions/Machine.antt =====
-- The abstract machine of a family of refresh tokens, and searches that an update leaves.

use seven_network_manager.Base.Text.{Text}
use seven_network_manager.Base.{
  All, Bool, Bool-cases, List, Option, [], any, ap, arith, count, false, find, inl, inr, none, refl,
  some, subst, sym, true, ℕ, ◌==◌, ◌∷◌, ◌≡◌, ◌≤◌,
}
use mathlib.Core.Option.{some-injective}
use seven_network_manager.Sessions.Tables.{RefreshTokenRow, Tables, in_family, update_rows}
use seven_network_manager.Sessions.Families.{live_in}

-- A family is not used, or one token of it can be exchanged, or none ever again.
pub data FamilyState : Type 0 where
  unused closed : FamilyState
  current : Text → FamilyState

-- What one call may do to a family.
pub data Move : FamilyState → FamilyState → Type 0 where
  opens : (h : Text) → Move unused (current h)
  exchanges : (h h' : Text) → Move (current h) (current h')
  closes : (h : Text) → Move (current h) closed
  stays : (v : FamilyState) → Move v v

-- At most one family moves.
abbrev pub SpecStep : (ℕ → FamilyState) → (ℕ → FamilyState) → Type 0
SpecStep v v' = (f : ℕ) × ((g : ℕ) → (g == f) ≡ false → v' g ≡ v g) × Move (v f) (v' f)

abbrev pub state_of : Bool → Option RefreshTokenRow → FamilyState
state_of false o = unused
state_of true none = closed
state_of true (some t) = current t.token_hash

-- The state of a family in the tables.
abbrev pub family_state : Tables → ℕ → FamilyState
family_state db f =
    state_of (any (in_family f) db.refresh_tokens) (find (live_in f) db.refresh_tokens)

module _ {ℓ} {A : Type ℓ} where
  pub find-any-none : (q : A → Bool) (rows : List A) → any q rows ≡ false → find q rows ≡ none
  find-any-none q [] h = refl
  find-any-none q (r ∷ rows) h = ground (arith, find-any-none q rows)

  -- An update of rows that the search passes over, before and after.
  pub find-update_rows-other :
      (p q : A → Bool) (f : A → A) (rows : List A)
      → All (λ r. p r ≡ true → (q r ≡ false) × (q (f r) ≡ false)) rows
      → find q (update_rows p f rows) ≡ find q rows
  unfolding update_rows
  find-update_rows-other p q f [] h = refl
  find-update_rows-other p q f (r ∷ rows) h = elim (Bool-cases (p r)) [
    | inr e ↦ rw e (ground (arith, find-update_rows-other p q f rows h.1))
    | inl e ↦
        let k = h.0 e in rw e (ground (arith, k.0, k.1, find-update_rows-other p q f rows h.1))
  ]

  pub All-from : {P : A → Type 0} (rows : List A) → ((r : A) → P r) → All P rows
  All-from [] f = tt
  All-from (r ∷ rows) f = (f r, All-from rows f)

  all_none :
      (p : A → Bool) (P : A → Type 0) (rows : List A)
      → count p rows ≡ 0
      → All (λ r. p r ≡ true → P r) rows
  all_none p P [] h = tt
  all_none p P (r ∷ rows) h = (λ e. absurd (ground arith), all_none p P rows (ground arith))

  count-found :
      (p g : A → Bool) (rows : List A) (r : A)
      → find g rows ≡ some r
      → p r ≡ true
      → 1 ≤ count p rows
  count-found p g [] r h e = cc
  count-found p g (s ∷ rows) r h e = elim (Bool-cases (g s)) [
    | inl own ↦
        let e' = subst (λ (u : A). p u ≡ true) (sym (some-injective _ _ (rw (find, own) at h))) e in
        ground arith
    | inr other ↦ ground (arith, count-found p g rows r (rw (find, other) at h) e)
  ]

  -- Where at most one row passes, what holds of it holds of all that pass.
  pub All-count :
      (p g : A → Bool) (P : A → Type 0) (rows : List A) (r : A)
      → count p rows ≤ 1
      → find g rows ≡ some r
      → p r ≡ true
      → P r
      → All (λ s. p s ≡ true → P s) rows
  All-count p g P [] r c h e k = tt
  All-count p g P (s ∷ rows) r c h e k = elim (Bool-cases (g s)) [
    | inl own ↦
        let same : s ≡ r = some-injective _ _ (rw (find, own) at h) in
        let e' = subst (λ (u : A). p u ≡ true) (sym same) e in
        (λ t. subst P (sym same) k, all_none p P rows (ground arith))
    | inr other ↦
        let h' = rw (find, other) at h in
        (
          λ t. absurd (ground (arith, count-found p g rows r h' e)),
          All-count p g P rows r (ground arith) h' e k,
        )
  ]

  -- Where at most one row passes, a row that passes is the one that a search finds.
  pub find-count :
      (q g : A → Bool) (rows : List A) (r : A)
      → count q rows ≤ 1
      → find g rows ≡ some r
      → q r ≡ true
      → find q rows ≡ some r
  find-count q g [] r c h e = cc
  find-count q g (s ∷ rows) r c h e = elim (Bool-cases (g s)) [
    | inl own ↦
        let same : s ≡ r = some-injective _ _ (rw (find, own) at h) in
        rw (find, subst (λ (u : A). q u ≡ true) (sym same) e) (ap (λ (u : A). some u) same)
    | inr other ↦
        let h' = rw (find, other) at h in
        ground (arith, count-found q g rows r h' e, find-count q g rows r (ground arith) h' e)
  ]
