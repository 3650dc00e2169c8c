-- ===== src/Totp.antt =====
-- One-time passwords and recovery codes (crates/security/src/totp.rs). The libraries are
-- parameters; bytes and times are numbers, and `random` is what the generator filled in. A digest
-- has twenty bytes and is read at positions 0 to 19 only, so it is a function of the position.
pub mod Window
mod Tests
use seven_network_manager.Base.Text.{Text, is_ascii_digit, len, text_eq}
use seven_network_manager.Base.Int.{ltb_ℤ, negsuc, pos, pos_part, saturating_add, ℤ}
use seven_network_manager.Base.Result.{Result, err, fail_if, ok, ok_or, ◌>>=◌, ◌>>◌}
use seven_network_manager.Base.{
  Bool, List, Option, [], all, false, if◌then◌else◌, leb, length, ltb, map, not, true, ℕ, ◌%◌, ◌&&◌,
  ◌*◌, ◌+◌, ◌/◌, ◌==◌, ◌^◌, ◌||◌, ◌∷◌,
}

abbrev totp_step_seconds : ℕ
totp_step_seconds = 30

abbrev totp_digits : ℕ
totp_digits = 6

pub data TotpError : Type 0 where
  weak_secret invalid_time invalid_recovery_code_count : TotpError

-- The libraries. A key is accepted or not whatever the message is.
pub record TotpCrypto : Type 0 where
  pub hmac_sha1 : Text → Option (Text → ℕ → ℕ)
  pub encode_base64 : Text → Text
  pub sha256 : Text → Text

-- `u64::to_be_bytes`
unfoldable pub to_be_bytes : ℕ → Text
to_be_bytes n =
    n / 2 ^ 56 % 256
    ∷ n / 2 ^ 48 % 256
    ∷ n / 2 ^ 40 % 256
    ∷ n / 2 ^ 32 % 256
    ∷ n / 2 ^ 24 % 256
    ∷ n / 2 ^ 16 % 256
    ∷ n / 2 ^ 8 % 256
    ∷ n % 256
    ∷ []

-- Dynamic truncation. The four bytes are shifted to disjoint positions, so `|` adds them.
unfoldable pub truncate : (ℕ → ℕ) → ℕ
truncate digest =
    let offset = digest 19 % 16 in
    (digest offset % 128 * 2 ^ 24
      + digest (offset + 1) * 2 ^ 16
      + digest (offset + 2) * 2 ^ 8
      + digest (offset + 3))
    % 10 ^ totp_digits

-- `format!("{:06}")` of a number below a million
last_digit : ℕ → ℕ
last_digit n = b'0' + n % 10

unfoldable pub six_digits : ℕ → Text
unfolding last_digit
six_digits n = map last_digit (n / 100_000 ∷ n / 10_000 ∷ n / 1_000 ∷ n / 100 ∷ n / 10 ∷ n ∷ [])

record RecoveryCodeSet : Type 0 where
  pub codes : List Text
  pub hashes : List Text

module _ (x : TotpCrypto) where
  unfoldable pub code_at : Text → ℤ → Result TotpError ℕ
  code_at secret unix_seconds = do
    fail_if (ltb (length secret) 20) weak_secret
    fail_if (ltb_ℤ unix_seconds (pos 0)) invalid_time
    mac ← ok_or (x.hmac_sha1 secret) weak_secret
    ok (truncate (mac (to_be_bytes (pos_part unix_seconds / totp_step_seconds))))

  -- The loop over the offsets.
  unfoldable pub try_offsets : Text → Text → ℤ → List ℤ → Result TotpError Bool
  try_offsets secret code unix_seconds [] = ok false
  try_offsets secret code unix_seconds (offset ∷ offsets) =
      let candidate_time = saturating_add unix_seconds offset in
      let rest = try_offsets secret code unix_seconds offsets in
      if ltb_ℤ candidate_time (pos 0)
      then rest
      else (code_at secret candidate_time >>= λ expected.
          if text_eq (six_digits expected) code then ok true else rest)

  unfoldable pub verify_code : Text → Text → ℤ → Result TotpError Bool
  verify_code secret code unix_seconds =
      if not (len code == totp_digits) || not (all is_ascii_digit code)
      then ok false
      else try_offsets secret code unix_seconds (negsuc 29 ∷ pos 0 ∷ pos 30 ∷ [])

  -- The loop that draws the codes.
  unfoldable draw_codes : List Text → RecoveryCodeSet
  draw_codes [] = record { codes = []; hashes = [] }
  draw_codes (random ∷ randoms) =
      let rest = draw_codes randoms in
      let code = x.encode_base64 random in
      record { codes = code ∷ rest.codes; hashes = x.sha256 code ∷ rest.hashes }

  -- One draw for each code: `count` is the length of `randoms`.
  unfoldable issue_recovery_codes : List Text → Result TotpError RecoveryCodeSet
  issue_recovery_codes randoms =
      if not (leb 4 (length randoms) && leb (length randoms) 20)
      then err invalid_recovery_code_count
      else ok (draw_codes randoms)

  unfoldable recovery_code_matches : Text → Text → Bool
  recovery_code_matches code expected_hash = text_eq (x.sha256 code) expected_hash
