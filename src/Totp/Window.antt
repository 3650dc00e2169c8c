-- ===== src/Totp/Window.antt =====
-- Which codes are accepted at a time.

use seven_network_manager.Base.Text.{Text, is_ascii_digit, len, text_eq, text_eq_iff}
use seven_network_manager.Base.Int.{ltb_ℤ, negsuc, pos, saturate, saturating_add, ℤ, ◌+ℤ◌}
use seven_network_manager.Base.Result.{ok}
use seven_network_manager.Base.{
  Bool, Bool-cases, List, [], all, ap, arith, false, if◌then◌else◌, inl, inr, leb, length, refl,
  some, subst, true, ℕ, ◌&&◌, ◌+◌, ◌-◌, ◌/◌, ◌<◌, ◌^◌, ◌||◌, ◌↔◌, ◌∙◌, ◌∷◌, ◌≡◌, ◌≤◌, ◌⊎◌,
}
use seven_network_manager.Totp.{
  TotpCrypto, code_at, six_digits, to_be_bytes, truncate, try_offsets, verify_code,
}

now_saturated : (t : ℕ) → t < 2 ^ 63 → saturating_add (pos t) (pos 0) ≡ pos t
unfolding saturating_add saturate ◌+ℤ◌
now_saturated t w = ground arith

-- A moment near another is in its step or in one of the two beside it.
step_near :
    (t u : ℕ)
    → t ≤ u + 30
    → u ≤ t + 30
    → ((30 ≤ t) × (u / 30 ≡ (t - 30) / 30)) ⊎ (u / 30 ≡ t / 30) ⊎ (u / 30 ≡ (t + 30) / 30)
step_near t u a b = omega arith

len-digits : (s : Text) → all is_ascii_digit s ≡ true → len s ≡ length s
unfolding len is_ascii_digit
len-digits [] h = refl
len-digits (c ∷ s) h = ground (arith, len-digits s)

six_digits-all : (n : ℕ) → all is_ascii_digit (six_digits n) ≡ true
unfolding six_digits is_ascii_digit
six_digits-all n = ground arith

six_digits-len : (n : ℕ) → len (six_digits n) ≡ 6
unfolding six_digits
six_digits-len n = len-digits (six_digits n) (six_digits-all n)

earlier : (t : ℕ) → 30 ≤ t → t < 2 ^ 63 → saturating_add (pos t) (negsuc 29) ≡ pos (t - 30)
unfolding saturating_add saturate ◌+ℤ◌
earlier t h w = ground arith

too_early : (t : ℕ) → t < 30 → ltb_ℤ (saturating_add (pos t) (negsuc 29)) (pos 0) ≡ true
unfolding saturating_add saturate ◌+ℤ◌
too_early t h = ground arith

later : (t d : ℕ) → t + d < 2 ^ 63 → saturating_add (pos t) (pos d) ≡ pos (t + d)
unfolding saturating_add saturate ◌+ℤ◌
later t d w = ground arith

module _ (x : TotpCrypto) (secret code : Text) where
  -- The code that is shown at a moment.
  abbrev pub IsShown : ℕ → Type 0
  IsShown u = (n : ℕ) × (code_at x secret (pos u) ≡ ok n) × (six_digits n ≡ code)

  pass :
      (t : ℤ) (offset : ℤ) (offsets : List ℤ) (u n : ℕ)
      → saturating_add t offset ≡ pos u
      → code_at x secret (pos u) ≡ ok n
      → try_offsets x secret code t (offset ∷ offsets)
        ≡ (if text_eq (six_digits n) code then ok true else try_offsets x secret code t offsets)
  unfolding try_offsets
  pass t offset offsets u n h e = rw (h, e) (ground arith)

  nothing_left : (t : ℤ) → try_offsets x secret code t [] ≡ ok false
  unfolding try_offsets
  nothing_left t = refl

  skip :
      (t : ℤ) (offset : ℤ) (offsets : List ℤ)
      → ltb_ℤ (saturating_add t offset) (pos 0) ≡ true
      → try_offsets x secret code t (offset ∷ offsets) ≡ try_offsets x secret code t offsets
  unfolding try_offsets
  skip t offset offsets h = rw h refl

  module _ (mac : Text → ℕ → ℕ) (strong : 20 ≤ length secret)
      (accepted : x.hmac_sha1 secret ≡ some mac) where
    abbrev shown : ℕ → ℕ
    shown u = truncate (mac (to_be_bytes (u / 30)))

    abbrev matches : ℕ → Bool
    matches u = text_eq (six_digits (shown u)) code

    code_at-shown : (u : ℕ) → code_at x secret (pos u) ≡ ok (shown u)
    unfolding code_at
    code_at-shown u = rw accepted (ground arith)

    last_passes :
        (t : ℕ)
        → t + 30 < 2 ^ 63
        → try_offsets x secret code (pos t) (pos 0 ∷ pos 30 ∷ [])
          ≡ ok (matches t || matches (t + 30))
    last_passes t w =
        rw
          (
            pass (pos t) (pos 0) (pos 30 ∷ []) t (shown t) (now_saturated t (omega arith))
                (code_at-shown t),
            pass (pos t) (pos 30) [] (t + 30) (shown (t + 30)) (later t 30 w)
                (code_at-shown (t + 30)),
          )
          (ground (arith, nothing_left (pos t)))

    passes :
        (t : ℕ)
        → t + 30 < 2 ^ 63
        → try_offsets x secret code (pos t) (negsuc 29 ∷ pos 0 ∷ pos 30 ∷ [])
          ≡ ok ((leb 30 t && matches (t - 30)) || matches t || matches (t + 30))
    passes t w = elim (Bool-cases (leb 30 t)) [
      | inl h ↦
          rw
            (
              pass (pos t) (negsuc 29) (pos 0 ∷ pos 30 ∷ []) (t - 30) (shown (t - 30))
                  (earlier t (ground arith) (omega arith)) (code_at-shown (t - 30)),
              last_passes t w,
            )
            (ground arith)
      | inr h ↦
          rw
            (
              skip (pos t) (negsuc 29) (pos 0 ∷ pos 30 ∷ []) (too_early t (ground arith)),
              last_passes t w,
            )
            (ground arith)
    ]

    verify_code-passes :
        (t : ℕ)
        → t + 30 < 2 ^ 63
        → (verify_code x secret code (pos t) ≡ ok true) ↔ (
            (len code ≡ 6)
            × (all is_ascii_digit code ≡ true)
            × (((leb 30 t && matches (t - 30)) || matches t || matches (t + 30)) ≡ true))
    unfolding verify_code
    verify_code-passes t w = rw (passes t w) (ground arith)

    matches-IsShown : (u : ℕ) → matches u ≡ true → IsShown u
    matches-IsShown u h = (shown u, code_at-shown u, (text_eq_iff (six_digits (shown u)) code).0 h)

    IsShown-matches : (u : ℕ) → IsShown u → matches u ≡ true
    IsShown-matches u (n, e, q) =
        (text_eq_iff (six_digits (shown u)) code).1 (ap six_digits same_number ∙ q)
      where
        same_number : shown u ≡ n
        same_number = ground (arith, code_at-shown u)

    IsShown-digits : (u : ℕ) → IsShown u → (len code ≡ 6) × (all is_ascii_digit code ≡ true)
    IsShown-digits u (n, e, q) =
        subst (λ c. (len c ≡ 6) × (all is_ascii_digit c ≡ true)) q
          (six_digits-len n, six_digits-all n)

    same_step : (u v : ℕ) → u / 30 ≡ v / 30 → matches u ≡ matches v
    same_step u v e = rw e refl

    tested :
        (t u : ℕ)
        → t ≤ u + 30
        → u ≤ t + 30
        → matches u ≡ true
        → ((leb 30 t && matches (t - 30)) || matches t || matches (t + 30)) ≡ true
    tested t u a b h = elim (step_near t u a b) [
      | inl (late, e) ↦ ground (arith, same_step u (t - 30) e)
      | inr (inl e) ↦ ground (arith, same_step u t e)
      | inr (inr e) ↦ ground (arith, same_step u (t + 30) e)
    ]

    found :
        (t : ℕ)
        → ((leb 30 t && matches (t - 30)) || matches t || matches (t + 30)) ≡ true
        → (u : ℕ) × (t ≤ u + 30) × (u ≤ t + 30) × IsShown u
    found t h = elim (Bool-cases (matches t)) [
      | inl now ↦ (t, omega arith, omega arith, matches-IsShown t now)
      | inr not_now ↦ elim (Bool-cases (matches (t + 30))) [
        | inl next ↦ (t + 30, omega arith, omega arith, matches-IsShown (t + 30) next)
        | inr not_next ↦ (t - 30, omega arith, omega arith, matches-IsShown (t - 30) (ground arith))
      ]
    ]

    -- For a secret of twenty bytes or more that the MAC accepts as its key, and a time at least
    -- thirty seconds below the greatest `i64`: a code is accepted exactly when it is the code that
    -- is shown at a moment at most thirty seconds before or after the time.
    pub verify_code_iff :
        (t : ℕ)
        → t + 30 < 2 ^ 63
        → (verify_code x secret code (pos t) ≡ ok true)
          ↔ ((u : ℕ) × (t ≤ u + 30) × (u ≤ t + 30) × IsShown u)
    verify_code_iff t w = (
      λ h. found t ((verify_code-passes t w).0 h).2,
      λ (u, a, b, s).
          (verify_code-passes t w).1
            ((IsShown-digits u s).0, (IsShown-digits u s).1, tested t u a b (IsShown-matches u s)),
    )
