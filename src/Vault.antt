-- ===== src/Vault.antt =====
-- Envelope encryption and the ring of master keys (crates/security/src/vault.rs). AES-256-GCM and
-- SHA-256 are parameters, and so are the random bytes of a call.
pub mod RoundTrip
use seven_network_manager.Base.{Bool, Option, if◌then◌else◌, not, some, ℕ, ◌++◌, ◌==◌}
use seven_network_manager.Base.Text.{Text, codes, text_eq}
use seven_network_manager.Base.Result.{Result, fail_if, ok, ok_or, ◌>>=◌, ◌>>◌}
use seven_network_manager.Base.Dict.{Dict, insert, lookup}

pub record MasterKey : Type 0 where
  pub version : ℕ
  pub key : Text

pub data VaultError : Type 0 where
  invalid_key_version invalid_master_key invalid_data_key no_current_master_key : VaultError
  missing_master_key : ℕ → VaultError
  associated_data_mismatch encryption_failed decryption_failed : VaultError

unfoldable pub new_master_key : ℕ → Text → Result VaultError MasterKey
new_master_key version key = do
  fail_if (version == 0) invalid_key_version
  ok (record { version = version; key = key })

pub record KeyRing : Type 0 where
  pub keys : Dict MasterKey
  pub current_version : Option ℕ

unfoldable pub insert_key : MasterKey → Bool → KeyRing → KeyRing
insert_key key make_current ring = record {
  keys = insert key.version key ring.keys;
  current_version = if make_current then some key.version else ring.current_version;
}

unfoldable pub get_key : ℕ → KeyRing → Result VaultError MasterKey
get_key version ring = ok_or (lookup version ring.keys) (missing_master_key version)

unfoldable pub current_key : KeyRing → Result VaultError MasterKey
current_key ring = do
  version ← ok_or ring.current_version no_current_master_key
  get_key version ring

pub record EncryptedSecret : Type 0 where
  pub key_version : ℕ
  pub wrapped_dek_nonce : Text
  pub wrapped_dek : Text
  pub data_nonce : Text
  pub ciphertext : Text
  pub aad_hash : Text

-- The libraries. A key of another size is not accepted; `encrypt` and `decrypt` take the key, the
-- nonce, the associated data and the text.
pub record VaultCrypto : Type 0 where
  pub key_accepted : Text → Bool
  pub aead_encrypt : Text → Text → Text → Text → Option Text
  pub aead_decrypt : Text → Text → Text → Text → Option Text
  pub sha256 : Text → Text

-- What a call draws from `OsRng`.
pub record Entropy : Type 0 where
  pub dek : Text
  pub data_nonce : Text
  pub wrapped_dek_nonce : Text

unfoldable pub wrapping_aad : Text → Text
wrapping_aad aad = codes "snm:vault:dek:" ++ aad

module _ (x : VaultCrypto) where
  -- `new_from_slice`
  abbrev pub cipher : Text → VaultError → Result VaultError (Unit {0})
  cipher key e = fail_if (not (x.key_accepted key)) e

  unfoldable pub encrypt : Entropy → Text → Text → MasterKey → Result VaultError EncryptedSecret
  encrypt rng plaintext aad key = do
    cipher rng.dek invalid_data_key
    ciphertext ← ok_or (x.aead_encrypt rng.dek rng.data_nonce aad plaintext) encryption_failed
    cipher key.key invalid_master_key
    wrapped_dek ←
        ok_or (x.aead_encrypt key.key rng.wrapped_dek_nonce (wrapping_aad aad) rng.dek)
          encryption_failed
    ok (record {
      key_version = key.version;
      wrapped_dek_nonce = rng.wrapped_dek_nonce;
      wrapped_dek = wrapped_dek;
      data_nonce = rng.data_nonce;
      ciphertext = ciphertext;
      aad_hash = x.sha256 aad;
    })

  unfoldable pub decrypt : EncryptedSecret → Text → KeyRing → Result VaultError Text
  decrypt s aad ring = do
    fail_if (not (text_eq s.aad_hash (x.sha256 aad))) associated_data_mismatch
    master ← get_key s.key_version ring
    cipher master.key invalid_master_key
    dek ←
        ok_or (x.aead_decrypt master.key s.wrapped_dek_nonce (wrapping_aad aad) s.wrapped_dek)
          decryption_failed
    cipher dek invalid_data_key
    ok_or (x.aead_decrypt dek s.data_nonce aad s.ciphertext) decryption_failed

  unfoldable pub rotate :
      Entropy → EncryptedSecret → Text → KeyRing → Result VaultError EncryptedSecret
  rotate rng s aad ring = do
    plaintext ← decrypt s aad ring
    key ← current_key ring
    encrypt rng plaintext aad key
