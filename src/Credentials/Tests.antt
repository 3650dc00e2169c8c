-- ===== src/Credentials/Tests.antt =====
-- A toy vault that meets the laws, and runs and instances of the credential rules under it.

-- The toy cipher stores the text as it is, and its hash is the identity.

use seven_network_manager.Base.{[], arith, none, refl, some, sym, true, ℕ, ◌++◌, ◌∷◌, ◌≡◌, ◌≢◌, ◌⊎◌}
use seven_network_manager.Base.Text.{Text, codes, is_whitespace, len, text_eq, trim}
use seven_network_manager.Base.Result.{err, ok}
use seven_network_manager.Base.Dict.{insert, lookup}
use seven_network_manager.Governance.{Value}
use seven_network_manager.Vault.{
  EncryptedSecret, Entropy, KeyRing, MasterKey, VaultCrypto, associated_data_mismatch, current_key,
  decrypt, encrypt, get_key, insert_key, rotate,
}
use seven_network_manager.Vault.RoundTrip.{IsRing, VaultLaws, decrypt-rotate, insert_key-IsRing}
use seven_network_manager.Credentials.{
  CredentialProfileSummary, CredentialTables, NewCredentialProfile, ProfileRow, create, find_secret,
  insert_ciphertext, not_found, profile_aad, replace_secret, resolve_secret, rotate_profile_key,
  update_ciphertext_tx, validate_profile_input, vault,
}
use seven_network_manager.Credentials.Secrets.{resolve_secret-create}
use seven_network_manager.Credentials.Rotation.{resolve_secret-rotate}
use seven_network_manager.Credentials.Padded.{HasCollision, resolve_secret-padded_kind}

abbrev toy : VaultCrypto
toy = record {
  key_accepted = λ k. true;
  aead_encrypt = λ key nonce aad msg. some msg;
  aead_decrypt = λ key nonce aad c. some c;
  sha256 = λ b. b;
}

toy_laws : VaultLaws toy
toy_laws = record { aead_round_trip = λ key nonce aad msg c e. sym e }

abbrev first_key : MasterKey
first_key = record { version = 1; key = codes "one" }

abbrev second_key : MasterKey
second_key = record { version = 2; key = codes "two" }

abbrev one_key : KeyRing
one_key = insert_key first_key true (record { keys = []; current_version = none })

abbrev two_keys : KeyRing
two_keys = insert_key second_key true one_key

two_keys-IsRing : IsRing two_keys
two_keys-IsRing =
    insert_key-IsRing second_key true one_key
      (insert_key-IsRing first_key true (record { keys = []; current_version = none }) no_keys)
  where
    no_keys : IsRing (record { keys = []; current_version = none })
    no_keys v k e = absurd (unfold lookup in ground arith)

one_key-IsRing : IsRing one_key
one_key-IsRing =
    insert_key-IsRing first_key true (record { keys = []; current_version = none }) no_keys
  where
    no_keys : IsRing (record { keys = []; current_version = none })
    no_keys v k e = absurd (unfold lookup in ground arith)

abbrev rng : Entropy
rng = record { dek = codes "d"; data_nonce = codes "n"; wrapped_dek_nonce = codes "w" }

abbrev uuid_text : ℕ → Text
uuid_text id = id ∷ []

abbrev snmp : Text → NewCredentialProfile
snmp kind = record {
  organization_id = 1;
  name = codes "core";
  kind = kind;
  username = none;
  metadata = Value.null;
  secret = codes "s3cret";
}

abbrev no_profiles : CredentialTables
no_profiles = record { profiles = []; ciphertexts = [] }

abbrev stored_aad : Text → Text
stored_aad kind = 1 ∷ codes ":" ++ 7 ∷ codes ":" ++ kind

abbrev snmp_secret : Text → EncryptedSecret
snmp_secret kind = record {
  key_version = 1;
  wrapped_dek_nonce = codes "w";
  wrapped_dek = codes "d";
  data_nonce = codes "n";
  ciphertext = codes "s3cret";
  aad_hash = profile_aad toy uuid_text one_key 1 7 kind;
}

abbrev snmp_stored : Text → CredentialTables
snmp_stored kind = record {
  profiles =
      record {
        id = 7;
        organization_id = 1;
        name = codes "core";
        kind = codes "snmp_v3";
        username = none;
        metadata = Value.null;
        active = true;
      }
      ∷ [];
  ciphertexts = (7, snmp_secret kind) ∷ [];
}

abbrev snmp_summary : CredentialProfileSummary
snmp_summary = record {
  id = 7;
  organization_id = 1;
  name = codes "core";
  kind = codes "snmp_v3";
  username = none;
  metadata = Value.null;
  active = true;
  key_version = some 1;
}

snmp_created :
    create toy uuid_text one_key rng 7 (snmp (codes "snmp_v3")) no_profiles
    ≡ ok (snmp_summary, snmp_stored (codes "snmp_v3"))
unfolding create validate_profile_input insert_ciphertext encrypt current_key get_key insert_key
    lookup insert trim is_whitespace len
snmp_created = refl

resolve_secret-create_example :
    resolve_secret toy uuid_text one_key 1 7 (snmp_stored (codes "snmp_v3")) ≡ ok (codes "s3cret")
unfolding trim is_whitespace
resolve_secret-create_example =
    resolve_secret-create toy uuid_text one_key toy_laws one_key-IsRing rng 7
      (snmp (codes "snmp_v3")) no_profiles (snmp_stored (codes "snmp_v3")) snmp_summary refl
      snmp_created

padded_created :
    create toy uuid_text one_key rng 7 (snmp (codes "snmp_v3 ")) no_profiles
    ≡ ok (snmp_summary, snmp_stored (codes "snmp_v3 "))
unfolding create validate_profile_input insert_ciphertext encrypt current_key get_key insert_key
    lookup insert trim is_whitespace len
padded_created = refl

padded : trim (codes "snmp_v3 ") ≢ codes "snmp_v3 "
unfolding trim is_whitespace
padded e = cc

resolve_secret-padded_kind_example :
    HasCollision toy.sha256
    ⊎ ((resolve_secret toy uuid_text two_keys 1 7 (snmp_stored (codes "snmp_v3 "))
          ≡ err (vault associated_data_mismatch))
        × (rotate_profile_key toy uuid_text two_keys rng 1 7 (snmp_stored (codes "snmp_v3 "))
            ≢ ok (true, no_profiles)))
resolve_secret-padded_kind_example =
    resolve_secret-padded_kind toy uuid_text one_key two_keys rng rng 7 (snmp (codes "snmp_v3 "))
      no_profiles (snmp_stored (codes "snmp_v3 ")) no_profiles snmp_summary padded_created padded

padded_unresolved :
    resolve_secret toy uuid_text two_keys 1 7 (snmp_stored (codes "snmp_v3 "))
    ≡ err (vault associated_data_mismatch)
unfolding resolve_secret find_secret decrypt profile_aad text_eq lookup
padded_unresolved = refl

-- `organization_scope_prevents_cross_tenant_secret_resolution`
other_organization :
    resolve_secret toy uuid_text one_key 2 7 (snmp_stored (codes "snmp_v3")) ≡ err not_found
unfolding resolve_secret find_secret
other_organization = refl

abbrev rotated_secret : EncryptedSecret
rotated_secret = record (snmp_secret (codes "snmp_v3")) { key_version = 2 }

secret_rotated :
    rotate toy rng
      (snmp_secret (codes "snmp_v3"))
      (profile_aad toy uuid_text one_key 1 7 (codes "snmp_v3"))
      two_keys
    ≡ ok rotated_secret
unfolding rotate encrypt decrypt current_key get_key insert_key lookup insert profile_aad text_eq
secret_rotated = refl

decrypt-rotate_example :
    (plaintext : Text) × (key : MasterKey) × (decrypt toy
        (snmp_secret (codes "snmp_v3"))
        (profile_aad toy uuid_text one_key 1 7 (codes "snmp_v3"))
        two_keys
      ≡ ok plaintext)
    × (decrypt toy rotated_secret (profile_aad toy uuid_text one_key 1 7 (codes "snmp_v3")) two_keys
        ≡ ok plaintext)
    × (current_key two_keys ≡ ok key)
    × (rotated_secret.key_version ≡ key.version)
decrypt-rotate_example =
    decrypt-rotate toy toy_laws rng (snmp_secret (codes "snmp_v3")) rotated_secret
      (profile_aad toy uuid_text one_key 1 7 (codes "snmp_v3")) two_keys two_keys-IsRing
      secret_rotated

abbrev rotated_tables : CredentialTables
rotated_tables = record (snmp_stored (codes "snmp_v3")) { ciphertexts = (7, rotated_secret) ∷ [] }

profile_rotated :
    rotate_profile_key toy uuid_text two_keys rng 1 7 (snmp_stored (codes "snmp_v3"))
    ≡ ok (true, rotated_tables)
unfolding rotate_profile_key find_secret update_ciphertext_tx rotate encrypt decrypt current_key
    get_key insert_key lookup insert profile_aad text_eq
profile_rotated = refl

resolve_secret-rotate_example :
    (resolve_secret toy uuid_text two_keys 1 7 rotated_tables
      ≡ resolve_secret toy uuid_text two_keys 1 7 (snmp_stored (codes "snmp_v3")))
    × ((key : MasterKey) × (row : ProfileRow) × (s : EncryptedSecret) × (current_key two_keys
          ≡ ok key)
        × (find_secret 1 7 rotated_tables ≡ ok (row, s))
        × (s.key_version ≡ key.version))
resolve_secret-rotate_example =
    resolve_secret-rotate toy uuid_text two_keys toy_laws two_keys-IsRing rng 1 7
      (snmp_stored (codes "snmp_v3")) rotated_tables true profile_rotated

abbrev replaced_tables : CredentialTables
replaced_tables = record (snmp_stored (codes "snmp_v3")) {
  ciphertexts =
      (7, record (snmp_secret (codes "snmp_v3")) { key_version = 2; ciphertext = codes "n3w" })
      ∷ [];
}

secret_replaced :
    replace_secret toy uuid_text two_keys rng 1 7 (codes "n3w") (snmp_stored (codes "snmp_v3"))
    ≡ ok replaced_tables
unfolding replace_secret update_ciphertext_tx encrypt current_key get_key insert_key lookup insert
    profile_aad
secret_replaced = refl
