-- ===== src/Passwords.antt =====
-- Passwords (crates/security/src/password.rs). Argon2 and the PHC string format are parameters; a
-- password is its bytes, and `random` is what the generator filled in for the salt.

use seven_network_manager.Base.Text.{Text, codes, text_eq}
use seven_network_manager.Base.Result.{Result, fail_if, ok, ok_or, ◌>>=◌, ◌>>◌}
use seven_network_manager.Base.{
  Bool, Option, length, ltb, none, not, option_eq, some, ℕ, ◌==◌, ◌||◌,
}

pub record PasswordPolicy : Type 0 where
  pub memory_kib : ℕ
  pub iterations : ℕ
  pub parallelism : ℕ

abbrev pub default_policy : PasswordPolicy
default_policy = record { memory_kib = 65_536; iterations = 3; parallelism = 1 }

pub data PasswordError : Type 0 where
  invalid_length invalid_policy hash_failed malformed_hash : PasswordError

-- What the code reads of a parsed PHC string.
pub record PasswordHash : Type 0 where
  pub algorithm : Text
  pub version : Option ℕ
  pub get_decimal : Text → Option ℕ
  pub encoded : Text

-- The libraries.
pub record PasswordCrypto : Type 0 where
  pub params_accepted : PasswordPolicy → Bool
  pub encode_salt : Text → Option Text
  pub argon2_hash : PasswordPolicy → Text → Text → Option Text
  pub parse_hash : Text → Option PasswordHash
  pub argon2_verify : Text → PasswordHash → Bool

abbrev pub or_zero : Option ℕ → ℕ
or_zero none = 0
or_zero (some n) = n

module _ (x : PasswordCrypto) where
  unfoldable pub hash_password : Text → Text → PasswordPolicy → Result PasswordError Text
  hash_password random password policy = do
    fail_if (ltb (length password) 12 || ltb 1024 (length password)) invalid_length
    salt ← ok_or (x.encode_salt random) hash_failed
    fail_if (not (x.params_accepted policy)) invalid_policy
    ok_or (x.argon2_hash policy password salt) hash_failed

  unfoldable pub verify_password : Text → Text → Result PasswordError Bool
  verify_password password encoded = do
    parsed ← ok_or (x.parse_hash encoded) malformed_hash
    ok (x.argon2_verify password parsed)

  unfoldable pub needs_rehash : Text → PasswordPolicy → Result PasswordError Bool
  needs_rehash encoded policy = do
    parsed ← ok_or (x.parse_hash encoded) malformed_hash
    ok (
        not (text_eq parsed.algorithm (codes "argon2id"))
        || not (option_eq parsed.version (some 19))
        || not (or_zero (parsed.get_decimal (codes "m")) == policy.memory_kib)
        || not (or_zero (parsed.get_decimal (codes "t")) == policy.iterations)
        || not (or_zero (parsed.get_decimal (codes "p")) == policy.parallelism))
