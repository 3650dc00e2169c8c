-- ===== src/Credentials/Rotation.antt =====
-- What a rotation of the key leaves.

use seven_network_manager.Base.{
  ==_iff, Bool, Bool-cases, Option-cases, ap, arith, false, find, if◌then◌else◌, inl, inr, refl,
  subst, sym, true, ℕ, ◌==◌, ◌∙◌, ◌≡◌,
}
use seven_network_manager.Base.Text.{Text}
use seven_network_manager.Base.Result.{>>=-eq-ok, Result, map_err, map_err-eq-ok, ok, ◌>>=◌}
use seven_network_manager.Base.Dict.{insert, lookup-insert}
use seven_network_manager.Vault.{
  EncryptedSecret, Entropy, KeyRing, MasterKey, VaultCrypto, VaultError, current_key, rotate,
}
use seven_network_manager.Vault.RoundTrip.{IsRing, VaultLaws, decrypt-rotate}
use seven_network_manager.Credentials.{
  CredentialStoreError, CredentialTables, ProfileRow, find_secret, i32_version, is_profile,
  profile_aad, resolve_secret, rotate_profile_key, update_ciphertext_tx, vault,
}

module _ (x : VaultCrypto) (uuid_text : ℕ → Text) (ring : KeyRing) where
  module _ (laws : VaultLaws x) (well_formed : IsRing ring) where
    pub updated_secret :
        (org id : ℕ) (p : ProfileRow) (s s' : EncryptedSecret) (t t' : CredentialTables)
        → find_secret org id t ≡ ok (p, s)
        → update_ciphertext_tx id s' t ≡ ok t'
        → find_secret org id t' ≡ ok (p, s')
    unfolding update_ciphertext_tx find_secret
    updated_secret org id p s s' t t' f h =
        elim (Option-cases (find (is_profile org id) t.profiles)) [
          | inl missing ↦ absurd (ground arith)
          | inr (q, g) ↦
              (let made : t' ≡ record t { ciphertexts = insert id s' t.ciphertexts } =
                  ground arith in
                let same : q ≡ p = ground arith in
                rw made (rw g (ground (arith, lookup-insert id id s' t.ciphertexts, same))))
        ]

    abbrev store_rotated :
        ℕ
        → CredentialTables
        → EncryptedSecret
        → Result CredentialStoreError (Bool × CredentialTables)
    store_rotated id t rotated = do stored ← update_ciphertext_tx id rotated t; ok (true, stored)

    -- A key and a secret that `rotate_profile_key` has read.
    rotated_outcome :
        (rng : Entropy) (org id : ℕ) (t t' : CredentialTables) (done : Bool) (key : MasterKey)
        (p : ProfileRow) (s : EncryptedSecret)
        → current_key ring ≡ ok key
        → find_secret org id t ≡ ok (p, s)
        → (map_err vault (rotate x rng s (profile_aad x uuid_text ring org id p.kind) ring)
            >>= store_rotated id t)
          ≡ ok (done, t')
        → (resolve_secret x uuid_text ring org id t' ≡ resolve_secret x uuid_text ring org id t)
          × ((s' : EncryptedSecret) × (find_secret org id t' ≡ ok (p, s'))
              × (s'.key_version ≡ key.version))
    unfolding resolve_secret
    rotated_outcome rng org id t t' done key p s current found e =
        let aad = profile_aad x uuid_text ring org id p.kind in
        let (s', rotated, e1) = >>=-eq-ok (map_err vault (rotate x rng s aad ring)) _ e in
        let (stored, updated, e2) = >>=-eq-ok (update_ciphertext_tx id s' t) _ e1 in
        let same : stored ≡ t' = ground arith in
        let found' = updated_secret org id p s s' t t' found (updated ∙ ap ok same) in
        let (plaintext, key', opened, opened', current', version) =
          decrypt-rotate x laws rng s s' aad ring well_formed
            (map_err-eq-ok vault (rotate x rng s aad ring) rotated) in
        let one_key : key' ≡ key = ok_injective key' key (sym current' ∙ current) in
        (
          rw (found, found', opened, opened') refl,
          (s', found', version ∙ ap (λ (k : MasterKey). k.version) one_key),
        )
      where
        ok_injective : (a b : MasterKey) → Path (Result VaultError MasterKey) (ok a) (ok b) → a ≡ b
        ok_injective a b h = cc

    -- With a ring that has each key under its own version: a rotation that succeeds, whether it
    -- was needed or not, does not change what the profile is resolved to, and the profile's
    -- ciphertext is then under the version of the current key.
    pub resolve_secret-rotate :
        (rng : Entropy) (org id : ℕ) (t t' : CredentialTables) (done : Bool)
        → rotate_profile_key x uuid_text ring rng org id t ≡ ok (done, t')
        → (resolve_secret x uuid_text ring org id t' ≡ resolve_secret x uuid_text ring org id t)
          × ((key : MasterKey) × (row : ProfileRow) × (s : EncryptedSecret) × (current_key ring
                ≡ ok key)
              × (find_secret org id t' ≡ ok (row, s))
              × (s.key_version ≡ key.version))
    unfolding rotate_profile_key
    resolve_secret-rotate rng org id t t' done e =
        let (key, current, e1) = >>=-eq-ok (map_err vault (current_key ring)) _ e in
        let (row, found, e2) = >>=-eq-ok (find_secret org id t) _ e1 in
        let (_, _, e3) = >>=-eq-ok (i32_version key.version) _ e2 in
        let reads = map_err-eq-ok vault (current_key ring) current in
        elim (Bool-cases (row.1.key_version == key.version)) [
          | inl up_to_date ↦ unneeded key row.0 row.1 reads found up_to_date _ e3
          | inr older ↦
              (let (kept, (s', found', version)) =
                  rotated_outcome rng org id t t' done key row.0 row.1 reads found
                    (skip_test _ _ row.1 key older e3) in
                (kept, (key, row.0, s', reads, found', version)))
        ]
      where
        skip_test :
            {A : Type 0} (a b : A) {c : A} (s : EncryptedSecret) (key : MasterKey)
            → (s.key_version == key.version) ≡ false
            → (if s.key_version == key.version then a else b) ≡ c
            → b ≡ c
        skip_test a b s key h e = rw h at e

        take_test :
            {A : Type 0} (a b : A) {c : A} (s : EncryptedSecret) (key : MasterKey)
            → (s.key_version == key.version) ≡ true
            → (if s.key_version == key.version then a else b) ≡ c
            → a ≡ c
        take_test a b s key h e = rw h at e

        unneeded :
            (key : MasterKey) (p : ProfileRow) (s : EncryptedSecret)
            → current_key ring ≡ ok key
            → find_secret org id t ≡ ok (p, s)
            → (s.key_version == key.version) ≡ true
            → (r : Result CredentialStoreError (Bool × CredentialTables))
            → (if s.key_version == key.version then ok (false, t) else r) ≡ ok (done, t')
            → (resolve_secret x uuid_text ring org id t' ≡ resolve_secret x uuid_text ring org id t)
              × ((key : MasterKey) × (row : ProfileRow) × (s : EncryptedSecret) × (current_key ring
                    ≡ ok key)
                  × (find_secret org id t' ≡ ok (row, s))
                  × (s.key_version ≡ key.version))
        unneeded key p s reads found h r e =
            let same : t ≡ t' = pair_second (take_test _ _ s key h e) in
            (
              ap (resolve_secret x uuid_text ring org id) (sym same),
              (
                key,
                p,
                s,
                reads,
                subst (λ u. find_secret org id u ≡ ok (p, s)) same found,
                (==_iff _ _).0 h,
              ),
            )
          where
            pair_second :
                Path
                  (Result CredentialStoreError (Bool × CredentialTables))
                  (ok (false, t))
                  (ok (done, t'))
                → t ≡ t'
            pair_second e = ground arith
