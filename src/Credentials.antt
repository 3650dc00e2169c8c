-- ===== src/Credentials.antt =====
-- Credential profiles and their encrypted secrets (crates/security-store/src/lib.rs). The state is
-- the two tables. The vault's libraries and the printing of a UUID are parameters, and so are the
-- fresh id and the random bytes of a call.
pub mod Secrets
pub mod Rotation
pub mod Replacement
pub mod Padded
mod Tests
use seven_network_manager.Base.{
  Bool, List, Option, [], any, clamp, count, false, find, if◌then◌else◌, is_empty, is_none, is_some,
  keep, leb, length, ltb, map, none, not, some, suc, take, true, zero, ℕ, ◌&&◌, ◌*◌, ◌++◌, ◌==◌,
  ◌^◌, ◌||◌, ◌∷◌,
}
use seven_network_manager.Base.Int.{pos_part, ℤ}
use seven_network_manager.Base.Text.{Text, codes, len, text_eq, trim}
use seven_network_manager.Base.Result.{Result, fail_if, map_err, ok, ok_or, ◌>>=◌, ◌>>◌}
use seven_network_manager.Base.Dict.{Dict, insert, lookup}
use seven_network_manager.Governance.{Value}
use seven_network_manager.Vault.{
  EncryptedSecret, Entropy, KeyRing, VaultCrypto, VaultError, current_key, decrypt, encrypt, rotate,
}

pub data CredentialStoreError : Type 0 where
  invalid_metadata invalid_secret not_found inactive invalid_stored_ciphertext :
      CredentialStoreError
  database : CredentialStoreError
  vault : VaultError → CredentialStoreError

pub record CredentialProfileSummary : Type 0 where
  pub id : ℕ
  pub organization_id : ℕ
  pub name : Text
  pub kind : Text
  pub username : Option Text
  pub metadata : Value
  pub active : Bool
  pub key_version : Option ℕ

pub record NewCredentialProfile : Type 0 where
  pub organization_id : ℕ
  pub name : Text
  pub kind : Text
  pub username : Option Text
  pub metadata : Value
  pub secret : Text

-- A row of `credential_profiles`.
pub record ProfileRow : Type 0 where
  pub id : ℕ
  pub organization_id : ℕ
  pub name : Text
  pub kind : Text
  pub username : Option Text
  pub metadata : Value
  pub active : Bool

-- `credential_profiles`, the newest row first, and `credential_ciphertexts` by the profile's id.
pub record CredentialTables : Type 0 where
  pub profiles : List ProfileRow
  pub ciphertexts : Dict EncryptedSecret

abbrev pub secret_limit : ℕ
secret_limit = 64 * 1024

abbrev pub bad_username : Option Text → Bool
bad_username none = false
bad_username (some value) = is_empty (trim value) || ltb 320 (len value)

-- A secret is a sequence of bytes, so its length is that of the list.
unfoldable pub validate_profile_input :
    NewCredentialProfile → Result CredentialStoreError (Unit {0})
validate_profile_input input = do
  fail_if
      (is_empty (trim input.name)
        || ltb 200 (len input.name)
        || is_empty (trim input.kind)
        || ltb 100 (len input.kind))
      invalid_metadata
  fail_if (is_empty input.secret || ltb secret_limit (length input.secret)) invalid_secret
  fail_if (bad_username input.username) invalid_metadata

abbrev pub trim_option : Option Text → Option Text
trim_option none = none
trim_option (some value) = some (trim value)

-- `WHERE p.id = $1 AND p.organization_id = $2`
abbrev pub is_profile : ℕ → ℕ → ProfileRow → Bool
is_profile organization_id profile_id p = p.id == profile_id && p.organization_id == organization_id

abbrev pub version_of : Option EncryptedSecret → Option ℕ
version_of none = none
version_of (some s) = some s.key_version

abbrev pub row_to_summary : CredentialTables → ProfileRow → CredentialProfileSummary
row_to_summary t p = record {
  id = p.id;
  organization_id = p.organization_id;
  name = p.name;
  kind = p.kind;
  username = p.username;
  metadata = p.metadata;
  active = p.active;
  key_version = version_of (lookup p.id t.ciphertexts);
}

unfoldable pub get_summary : ℕ → ℕ → CredentialTables → Option CredentialProfileSummary
get_summary organization_id profile_id t =
    elim (find (is_profile organization_id profile_id) t.profiles) [
      | none ↦ none
      | some p ↦ some (row_to_summary t p)
    ]

abbrev pub skip {ℓ} : {A : Type ℓ} → ℕ → List A → List A
skip zero xs = xs
skip (suc n) [] = []
skip (suc n) (x ∷ xs) = skip n xs

unfoldable pub list_summaries : ℕ → ℤ → ℤ → CredentialTables → List CredentialProfileSummary
list_summaries organization_id limit offset t = map (row_to_summary t) (
    take (clamp (pos_part limit) 1 250) (
      skip (pos_part offset)
        (keep (λ (p : ProfileRow). p.organization_id == organization_id) t.profiles)))

-- `i32::try_from(key_version)`
abbrev pub i32_version : ℕ → Result CredentialStoreError (Unit {0})
i32_version v = fail_if (leb (2 ^ 31) v) invalid_stored_ciphertext

unfoldable pub insert_ciphertext :
    ℕ → EncryptedSecret → CredentialTables → Result CredentialStoreError CredentialTables
insert_ciphertext profile_id s t = do
  i32_version s.key_version
  fail_if (is_some (lookup profile_id t.ciphertexts)) database
  ok (record t { ciphertexts = insert profile_id s t.ciphertexts })

unfoldable pub update_ciphertext_tx :
    ℕ → EncryptedSecret → CredentialTables → Result CredentialStoreError CredentialTables
update_ciphertext_tx profile_id s t = do
  i32_version s.key_version
  fail_if (is_none (lookup profile_id t.ciphertexts)) not_found
  ok (record t { ciphertexts = insert profile_id s t.ciphertexts })

-- The row, if it and its ciphertext are there (`JOIN`). The schema checks the sizes that
-- `row_to_ciphertext` tests.
unfoldable pub find_secret :
    ℕ → ℕ → CredentialTables → Result CredentialStoreError (ProfileRow × EncryptedSecret)
find_secret organization_id profile_id t = do
  p ← ok_or (find (is_profile organization_id profile_id) t.profiles) not_found
  s ← ok_or (lookup profile_id t.ciphertexts) not_found
  ok (p, s)

unfoldable pub deactivate : ℕ → ℕ → CredentialTables → Bool × CredentialTables
deactivate organization_id profile_id t =
    let is_target = λ (p : ProfileRow). is_profile organization_id profile_id p && p.active in
    (
      count is_target t.profiles == 1,
      record t {
        profiles = map (λ p. if is_target p then record p { active = false } else p) t.profiles;
      },
    )

module _ (x : VaultCrypto) (uuid_text : ℕ → Text) (ring : KeyRing) where
  -- `format!("snm:credential:v1:{organization_id}:{profile_id}:{kind}")`
  unfoldable pub profile_aad : ℕ → ℕ → Text → Text
  profile_aad organization_id profile_id kind =
      codes "snm:credential:v1:"
      ++ (uuid_text organization_id ++ (codes ":" ++ (uuid_text profile_id ++ (codes ":" ++ kind))))

  -- The names of an organisation are unique, and ids are the primary key.
  unfoldable pub create :
      Entropy
      → ℕ
      → NewCredentialProfile
      → CredentialTables
      → Result CredentialStoreError (CredentialProfileSummary × CredentialTables)
  create rng profile_id input t = do
    validate_profile_input input
    let aad = profile_aad input.organization_id profile_id input.kind
    key ← map_err vault (current_key ring)
    encrypted ← map_err vault (encrypt x rng input.secret aad key)
    fail_if
        (any
          (λ (p : ProfileRow).
            p.id == profile_id
            || p.organization_id == input.organization_id && text_eq p.name (trim input.name))
          t.profiles)
        database
    let p : ProfileRow = record {
      id = profile_id;
      organization_id = input.organization_id;
      name = trim input.name;
      kind = trim input.kind;
      username = trim_option input.username;
      metadata = input.metadata;
      active = true;
    }
    stored ← insert_ciphertext profile_id encrypted (record t { profiles = p ∷ t.profiles })
    i32_version encrypted.key_version
    ok (
      record {
        id = profile_id;
        organization_id = input.organization_id;
        name = trim input.name;
        kind = trim input.kind;
        username = trim_option input.username;
        metadata = input.metadata;
        active = true;
        key_version = some encrypted.key_version;
      },
      stored,
    )

  unfoldable pub resolve_secret : ℕ → ℕ → CredentialTables → Result CredentialStoreError Text
  resolve_secret organization_id profile_id t = do
    row ← find_secret organization_id profile_id t
    fail_if (not row.0.active) inactive
    map_err vault (decrypt x row.1 (profile_aad organization_id profile_id row.0.kind) ring)

  unfoldable pub replace_secret :
      Entropy → ℕ → ℕ → Text → CredentialTables → Result CredentialStoreError CredentialTables
  replace_secret rng organization_id profile_id new_secret t = do
    fail_if (is_empty new_secret || ltb secret_limit (length new_secret)) invalid_secret
    p ← ok_or (find (λ p. is_profile organization_id profile_id p && p.active) t.profiles) not_found
    key ← map_err vault (current_key ring)
    encrypted ←
        map_err vault (encrypt x rng new_secret (profile_aad organization_id profile_id p.kind) key)
    update_ciphertext_tx profile_id encrypted t

  unfoldable pub rotate_profile_key :
      Entropy → ℕ → ℕ → CredentialTables → Result CredentialStoreError (Bool × CredentialTables)
  rotate_profile_key rng organization_id profile_id t = do
    current ← map_err vault (current_key ring)
    row ← find_secret organization_id profile_id t
    i32_version current.version
    if row.1.key_version == current.version then ok (false, t) else (do
      rotated ←
          map_err vault
            (rotate x rng row.1 (profile_aad organization_id profile_id row.0.kind) ring)
      stored ← update_ciphertext_tx profile_id rotated t
      ok (true, stored))
