-- ===== src/Sessions/Rows.antt =====
-- Searches and counts in a list of rows that an update changed, or that has a new row.

use seven_network_manager.Base.{
  Bool, Bool-cases, List, [], any, ap, arith, count, false, find, if◌then◌else◌, inl, inr, none,
  refl, some, subst, suc, sym, true, ◌∙◌, ◌∷◌, ◌≡◌, ◌≤◌,
}
use mathlib.Core.Option.{some-injective}
use seven_network_manager.Sessions.Tables.{update_rows}

module _ {ℓ} {A : Type ℓ} where
  pub find-test : (q : A → Bool) (rows : List A) (r : A) → find q rows ≡ some r → q r ≡ true
  find-test q [] r h = cc
  find-test q (s ∷ rows) r h = elim (Bool-cases (q s)) [
    | inl e ↦ subst (λ (u : A). q u ≡ true) (some-injective _ _ (rw (find, e) at h)) e
    | inr e ↦ find-test q rows r (rw (find, e) at h)
  ]

  pub find-any :
      (p q : A → Bool) (rows : List A) (r : A)
      → find q rows ≡ some r
      → any p rows ≡ false
      → p r ≡ false
  find-any p q [] r h n = cc
  find-any p q (s ∷ rows) r h n = elim (Bool-cases (q s)) [
    | inl e ↦ subst (λ (u : A). p u ≡ false) (some-injective _ _ (rw (find, e) at h)) (ground arith)
    | inr e ↦ find-any p q rows r (rw (find, e) at h) (ground arith)
  ]

  -- What an update leaves of a row.
  abbrev pub updated : (A → Bool) → (A → A) → A → A
  updated p f r = if p r then f r else r

  module _ (p q : A → Bool) (f : A → A) where
    test-updated : (s : A) → q (f s) ≡ q s → q (updated p f s) ≡ q s
    test-updated s k = ground arith

    pub find-update_rows :
        (rows : List A) (r : A)
        → ((s : A) → q (f s) ≡ q s)
        → find q rows ≡ some r
        → find q (update_rows p f rows) ≡ some (updated p f r)
    unfolding update_rows
    find-update_rows [] r k h = cc
    find-update_rows (s ∷ rows) r k h = elim (Bool-cases (q s)) [
      | inl e ↦
          rw (find, test-updated s (k s), e)
            (ap (λ (u : A). some (updated p f u)) (some-injective _ _ (rw (find, e) at h)))
      | inr e ↦ rw (find, test-updated s (k s), e) (find-update_rows rows r k (rw (find, e) at h))
    ]

    pub find-update_rows-hit :
        (rows : List A) (r : A)
        → ((s : A) → q (f s) ≡ q s)
        → find q rows ≡ some r
        → p r ≡ true
        → find q (update_rows p f rows) ≡ some (f r)
    find-update_rows-hit rows r k h own = find-update_rows rows r k h ∙ rw own refl

    pub find-update_rows-none :
        (rows : List A)
        → ((s : A) → q (f s) ≡ q s)
        → find q rows ≡ none
        → find q (update_rows p f rows) ≡ none
    unfolding update_rows
    find-update_rows-none [] k h = refl
    find-update_rows-none (s ∷ rows) k h = ground (arith, k s, find-update_rows-none rows k)

    pub any-update_rows :
        (rows : List A) → ((s : A) → q (f s) ≡ q s) → any q (update_rows p f rows) ≡ any q rows
    unfolding update_rows
    any-update_rows [] k = refl
    any-update_rows (s ∷ rows) k = ground (arith, k s, any-update_rows rows k)

    pub count-update_rows :
        (rows : List A)
        → ((s : A) → q (f s) ≡ true → q s ≡ true)
        → count q (update_rows p f rows) ≤ count q rows
    unfolding update_rows
    count-update_rows [] k = omega arith
    count-update_rows (s ∷ rows) k = ground (arith, k s, count-update_rows rows k)

    -- An update that takes the property from a row of the list lessens the count.
    pub count-update_rows-found :
        (g : A → Bool) (rows : List A) (r : A)
        → ((s : A) → q (f s) ≡ true → q s ≡ true)
        → find g rows ≡ some r
        → p r ≡ true
        → q r ≡ true
        → q (f r) ≡ false
        → suc (count q (update_rows p f rows)) ≤ count q rows
    unfolding update_rows
    count-update_rows-found g [] r k h pr qr qf = cc
    count-update_rows-found g (s ∷ rows) r k h pr qr qf = elim (Bool-cases (g s)) [
      | inl e ↦ at_head (sym (some-injective _ _ (rw (find, e) at h)))
      | inr e ↦ ground (arith, k s, count-update_rows-found g rows r k (rw (find, e) at h) pr qr qf)
    ]
      where
        at_head : r ≡ s → suc (count q (update_rows p f (s ∷ rows))) ≤ count q (s ∷ rows)
        at_head e = ground (
          arith,
          count-update_rows rows k,
          subst (λ (u : A). p u ≡ true) e pr,
          subst (λ (u : A). q u ≡ true) e qr,
          subst (λ (u : A). q (f u) ≡ false) e qf,
        )

  pub count-any :
      (p q : A → Bool) (rows : List A)
      → ((s : A) → q s ≡ true → p s ≡ true)
      → any p rows ≡ false
      → count q rows ≡ 0
  count-any p q [] k h = refl
  count-any p q (s ∷ rows) k h = ground (arith, k s, count-any p q rows k)
