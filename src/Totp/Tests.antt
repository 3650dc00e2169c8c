-- ===== src/Totp/Tests.antt =====
-- Runs and instances of the rules on one-time passwords.

use seven_network_manager.Base.Text.{Text, codes, is_ascii_digit, len, text_eq}
use seven_network_manager.Base.Int.{pos, saturate, saturating_add, ◌+ℤ◌}
use seven_network_manager.Base.Result.{ok}
use seven_network_manager.Base.{
  [], arith, false, if◌then◌else◌, refl, some, true, ℕ, ◌+◌, ◌==◌, ◌↔◌, ◌∷◌, ◌≡◌, ◌≤◌,
}
use seven_network_manager.Totp.{
  TotpCrypto, code_at, six_digits, to_be_bytes, truncate, try_offsets, verify_code,
}
use seven_network_manager.Totp.Window.{IsShown, verify_code_iff}

last_byte : Text → ℕ
last_byte [] = 0
last_byte (c ∷ []) = c
last_byte (c ∷ d ∷ s) = last_byte (d ∷ s)

-- A digest that is zero but for the last byte of the message at position 3.
unfoldable toy_mac : Text → ℕ → ℕ
unfolding last_byte
toy_mac message position = if position == 3 then last_byte message else 0

abbrev crypto : TotpCrypto
crypto = record { hmac_sha1 = λ key. some toy_mac; encode_base64 = λ s. s; sha256 = λ s. s }

abbrev secret : Text
secret = codes "12345678901234567890"

shown_at_60 : code_at crypto secret (pos 60) ≡ ok 2
unfolding code_at truncate to_be_bytes toy_mac
shown_at_60 = refl

accepted_at_119 : verify_code crypto secret (codes "000002") (pos 119) ≡ ok true
unfolding verify_code try_offsets code_at truncate to_be_bytes toy_mac six_digits text_eq len
    is_ascii_digit saturating_add saturate ◌+ℤ◌
accepted_at_119 = refl

refused_at_120 : verify_code crypto secret (codes "000002") (pos 120) ≡ ok false
unfolding verify_code try_offsets code_at truncate to_be_bytes toy_mac six_digits text_eq len
    is_ascii_digit saturating_add saturate ◌+ℤ◌
refused_at_120 = refl

verify_code_iff_example :
    (verify_code crypto secret (codes "000002") (pos 119) ≡ ok true)
    ↔ ((u : ℕ) × (119 ≤ u + 30) × (u ≤ 119 + 30) × IsShown crypto secret (codes "000002") u)
verify_code_iff_example =
    verify_code_iff crypto secret (codes "000002") toy_mac (omega arith) refl 119 (omega arith)
