-- ===== src/Domain/Identifier/Normal.antt =====
-- Normal forms: what `normalize` accepts it leaves alone from then on, but for host names.

use seven_network_manager.Base.{
  All, Bool-cases, [], arith, false, inl, inr, is_empty, keep, map, refl, sym, true, ℕ, ◌++◌, ◌∙◌,
  ◌∷◌, ◌≡◌, ◌≢◌,
}
use seven_network_manager.Base.Result.{ok}
use seven_network_manager.Base.Text.{Text, drop_end_while, is_whitespace, to_ascii_lowercase, trim}
use mathlib.Core.List.{append_assoc, map-append}
use seven_network_manager.Base.Trimming.{
  drop_end_while-dropped, drop_end_while-kept, lowercase_idem, map-lowercase_idem, trim-map,
  trim_idem, trim_kept, trim_none, whitespace-lowercase,
}
use seven_network_manager.Domain.Identifier.{
  IdentifierKind, asset_tag, hostname, is_ascii_hexdigit, is_dot, mac, normalize, normalized_of,
  provider_native_id, serial, snmp_engine_id,
}

hex_is_black : (c : ℕ) → is_ascii_hexdigit c ≡ true → is_whitespace (to_ascii_lowercase c) ≡ false
unfolding is_whitespace to_ascii_lowercase is_ascii_hexdigit
hex_is_black c h = ground arith

hex_stays : (c : ℕ) → is_ascii_hexdigit c ≡ true → is_ascii_hexdigit (to_ascii_lowercase c) ≡ true
unfolding to_ascii_lowercase is_ascii_hexdigit
hex_stays c h = ground arith

-- A text of lower-case hexadecimal digits, as `normalized_of` makes it.
abbrev hex_part : Text → Text
hex_part s = map to_ascii_lowercase (keep is_ascii_hexdigit s)

hex_part-black : (s : Text) → All (λ c. is_whitespace c ≡ false) (hex_part s)
hex_part-black [] = tt
hex_part-black (c ∷ s) = elim (Bool-cases (is_ascii_hexdigit c)) [
  | inl h ↦ rw (h, All) (hex_is_black c h, hex_part-black s)
  | inr h ↦ rw (h, All) (hex_part-black s)
]

hex_part_idem : (s : Text) → hex_part (hex_part s) ≡ hex_part s
hex_part_idem [] = refl
hex_part_idem (c ∷ s) = ground (arith, hex_stays c, lowercase_idem c, hex_part_idem s)

trim-hex_part : (s : Text) → trim (hex_part s) ≡ hex_part s
trim-hex_part s = trim_none (hex_part s) (hex_part-black s)

trim-lowercase :
    (s : Text) → trim (map to_ascii_lowercase (trim s)) ≡ map to_ascii_lowercase (trim s)
trim-lowercase s =
    rw (trim-map to_ascii_lowercase (trim s) whitespace-lowercase) (rw (trim_idem s) refl)

-- A normal form is trimmed, and its own normal form.
settled_form :
    (k : IdentifierKind) (v : Text)
    → k ≢ hostname
    → (trim (normalized_of k (trim v)) ≡ normalized_of k (trim v))
      × (normalized_of k (normalized_of k (trim v)) ≡ normalized_of k (trim v))
unfolding normalized_of
settled_form serial v h = (trim-lowercase v, map-lowercase_idem (trim v))
settled_form mac v h = (trim-hex_part (trim v), hex_part_idem (trim v))
settled_form hostname v h = absurd (h refl)
settled_form snmp_engine_id v h = (trim-hex_part (trim v), hex_part_idem (trim v))
settled_form provider_native_id v h = (trim-lowercase v, map-lowercase_idem (trim v))
settled_form asset_tag v h = (trim-lowercase v, map-lowercase_idem (trim v))

normalize-eq-ok :
    (k : IdentifierKind) (v w : Text)
    → normalize k v ≡ ok w
    → (w ≡ normalized_of k (trim v)) × (is_empty w ≡ false)
unfolding normalize
normalize-eq-ok k v w h = elim (Bool-cases (is_empty (trim v))) [
  | inl e ↦ absurd (clash₁ e)
  | inr e ↦ elim (Bool-cases (is_empty (normalized_of k (trim v)))) [
    | inl f ↦ absurd (clash₂ e f)
    | inr f ↦ (keeps e f, rw (keeps e f) f)
  ]
]
  where
    clash₁ : is_empty (trim v) ≡ true → ⊥
    clash₁ e = let h' = (rw e at h) in cc

    clash₂ : is_empty (trim v) ≡ false → is_empty (normalized_of k (trim v)) ≡ true → ⊥
    clash₂ e f = let h' = (rw (e, f) at h) in cc

    keeps :
        is_empty (trim v) ≡ false
        → is_empty (normalized_of k (trim v)) ≡ false
        → w ≡ normalized_of k (trim v)
    keeps e f = let h' = (rw (e, f) at h) in cc

-- For every kind but host names, a value that `normalize` returns is accepted again and returned
-- unchanged, and it is never empty.
normalize_idem :
    (k : IdentifierKind) (v w : Text)
    → k ≢ hostname
    → normalize k v ≡ ok w
    → (normalize k w ≡ ok w) × (is_empty w ≡ false)
unfolding normalize
normalize_idem k v w other h =
    let (shape, full) = normalize-eq-ok k v w h in
    let (trimmed, same) = settled_form k v other in
    let trimmed' : trim w ≡ w = rw shape trimmed in
    let same' : normalized_of k w ≡ w = rw shape same in
    (rw (trimmed', full) (rw (same', full) refl), full)

black_dot : is_whitespace b'.' ≡ false
unfolding is_whitespace
black_dot = refl

dot_is_dot : is_dot b'.' ≡ true
unfolding is_dot
dot_is_dot = refl

space_is_no_dot : is_dot b' ' ≡ false
unfolding is_dot
space_is_no_dot = refl

lowercase_space : to_ascii_lowercase b' ' ≡ b' '
unfolding to_ascii_lowercase
lowercase_space = refl

-- A host name that ends in a space and a dot loses the dot and keeps the space: its normal form is
-- not trimmed, and `normalize` would change it again.
pub normalize-hostname_keeps_space :
    (c : ℕ) (s : Text)
    → is_whitespace c ≡ false
    → normalize hostname ((c ∷ s) ++ b' ' ∷ b'.' ∷ [])
      ≡ ok (map to_ascii_lowercase (c ∷ s) ++ b' ' ∷ [])
unfolding normalize normalized_of
normalize-hostname_keeps_space c s h =
    let name : Text = (c ∷ s) ++ b' ' ∷ [] in
    let whole : (c ∷ s) ++ b' ' ∷ b'.' ∷ [] ≡ name ++ b'.' ∷ [] =
      sym (append_assoc (c ∷ s) (b' ' ∷ []) (b'.' ∷ [])) in
    let trimmed : trim (name ++ b'.' ∷ []) ≡ name ++ b'.' ∷ [] =
      trim_kept c (s ++ b' ' ∷ []) b'.' h black_dot in
    let cut : drop_end_while is_dot (name ++ b'.' ∷ []) ≡ name =
      drop_end_while-dropped is_dot name b'.' dot_is_dot
      ∙ drop_end_while-kept is_dot (c ∷ s) b' ' space_is_no_dot in
    rw whole (
      rw trimmed
        (rw cut (rw (map-append to_ascii_lowercase (c ∷ s) (b' ' ∷ []), lowercase_space) refl)))
