-- ===== src/Credentials/Secrets.antt =====
-- What a stored secret is resolved to.
use seven_network_manager.Base.{any, ap, arith, refl, true, ℕ, ◌&&◌, ◌==◌, ◌||◌, ◌∙◌, ◌∷◌, ◌≡◌}
use seven_network_manager.Base.Text.{Text, text_eq, trim}
use seven_network_manager.Base.Result.{>>=-eq-ok, fail_if, map_err, map_err-eq-ok, ok}
use seven_network_manager.Base.Dict.{insert, lookup-insert}
use seven_network_manager.Vault.{
  EncryptedSecret, Entropy, KeyRing, MasterKey, VaultCrypto, current_key, encrypt,
}
use seven_network_manager.Vault.RoundTrip.{IsRing, VaultLaws, current_key-get_key, decrypt-encrypt}
use seven_network_manager.Credentials.{
  CredentialProfileSummary, CredentialTables, NewCredentialProfile, ProfileRow, create, database,
  find_secret, i32_version, insert_ciphertext, profile_aad, resolve_secret, trim_option,
  validate_profile_input, vault,
}

module _ (x : VaultCrypto) (uuid_text : ℕ → Text) (ring : KeyRing) where
  -- The row and the ciphertext that a creation leaves for its profile.
  pub record Created (rng : Entropy) (id : ℕ) (input : NewCredentialProfile) (t' : CredentialTables)
      : Type 0 where
    pub row : ProfileRow
    pub stored : EncryptedSecret
    pub key : MasterKey
    pub current : current_key ring ≡ ok key
    pub made :
        encrypt x rng input.secret
          (profile_aad x uuid_text ring input.organization_id id input.kind)
          key
        ≡ ok stored
    pub found : find_secret input.organization_id id t' ≡ ok (row, stored)
    pub is_active : row.active ≡ true
    pub kind_trimmed : row.kind ≡ trim input.kind

  stored_secret :
      (id : ℕ) (p : ProfileRow) (s : EncryptedSecret) (t t' : CredentialTables)
      → p.id ≡ id
      → insert_ciphertext id s (record t { profiles = p ∷ t.profiles }) ≡ ok t'
      → find_secret p.organization_id id t' ≡ ok (p, s)
  unfolding insert_ciphertext find_secret
  stored_secret id p s t t' e h =
      let made : t'
          ≡ record { profiles = p ∷ t.profiles; ciphertexts = insert id s t.ciphertexts } =
        ground arith in
      rw made (ground (arith, lookup-insert id id s t.ciphertexts, e))

  pub create-Created :
      (rng : Entropy) (id : ℕ) (input : NewCredentialProfile) (t t' : CredentialTables)
      (summary : CredentialProfileSummary)
      → create x uuid_text ring rng id input t ≡ ok (summary, t')
      → Created rng id input t'
  unfolding create
  create-Created rng id input t t' summary e =
      let aad = profile_aad x uuid_text ring input.organization_id id input.kind in
      let (_, _, e1) = >>=-eq-ok (validate_profile_input input) _ e in
      let (key, current, e2) = >>=-eq-ok (map_err vault (current_key ring)) _ e1 in
      let (s, made, e3) = >>=-eq-ok (map_err vault (encrypt x rng input.secret aad key)) _ e2 in
      let taken =
        any
          (λ (p : ProfileRow).
            p.id == id
            || p.organization_id == input.organization_id && text_eq p.name (trim input.name))
          t.profiles in
      let (_, _, e4) = >>=-eq-ok (fail_if taken database) _ e3 in
      let (stored, inserted, e5) = >>=-eq-ok (insert_ciphertext id s _) _ e4 in
      let (_, _, e6) = >>=-eq-ok (i32_version s.key_version) _ e5 in
      let same : stored ≡ t' = ground arith in
      let p : ProfileRow = record {
        id = id;
        organization_id = input.organization_id;
        name = trim input.name;
        kind = trim input.kind;
        username = trim_option input.username;
        metadata = input.metadata;
        active = true;
      } in
      record {
        row = p;
        stored = s;
        key = key;
        current = map_err-eq-ok vault (current_key ring) current;
        made = map_err-eq-ok vault (encrypt x rng input.secret aad key) made;
        found = stored_secret id p s t t' refl (inserted ∙ ap ok same);
        is_active = refl;
        kind_trimmed = refl;
      }

  module _ (laws : VaultLaws x) (well_formed : IsRing ring) where
    -- With a ring that has each key under its own version: a secret that was created with a kind
    -- without outer whitespace is resolved, for its organisation and id, to what was given.
    pub resolve_secret-create :
        (rng : Entropy) (id : ℕ) (input : NewCredentialProfile) (t t' : CredentialTables)
        (summary : CredentialProfileSummary)
        → trim input.kind ≡ input.kind
        → create x uuid_text ring rng id input t ≡ ok (summary, t')
        → resolve_secret x uuid_text ring input.organization_id id t' ≡ ok input.secret
    unfolding resolve_secret
    resolve_secret-create rng id input t t' summary k e =
        let c = create-Created rng id input t t' summary e in
        let opened =
          (decrypt-encrypt x laws rng input.secret
            (profile_aad x uuid_text ring input.organization_id id input.kind) c.key ring c.stored
            c.made (current_key-get_key ring c.key well_formed c.current)).0 in
        rw (c.found, c.is_active, c.kind_trimmed, k) (ap (map_err vault) opened)
