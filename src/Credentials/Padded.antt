-- ===== src/Credentials/Padded.antt =====
-- Kinds with outer whitespace.

-- Two texts with the same hash.

use seven_network_manager.Base.{
  Bool-cases, [], ap, arith, inl, inr, refl, sym, true, ℕ, ◌++◌, ◌∙◌, ◌∷◌, ◌≡◌, ◌≢◌, ◌⊎◌,
}
use seven_network_manager.Base.Text.{Text, codes, text_eq, text_eq-eq, trim}
use seven_network_manager.Base.Result.{err, map_err, ok}
use seven_network_manager.Vault.{
  EncryptedSecret, Entropy, KeyRing, MasterKey, VaultCrypto, associated_data_mismatch, decrypt,
  encrypt, rotate,
}
use seven_network_manager.Credentials.{
  CredentialProfileSummary, CredentialTables, NewCredentialProfile, ProfileRow, create, find_secret,
  profile_aad, resolve_secret, rotate_profile_key, vault,
}
use seven_network_manager.Credentials.Secrets.{create-Created}

pub record HasCollision (hash : Text → Text) : Type 0 where
  pub first : Text
  pub second : Text
  pub differ : first ≢ second
  pub same_hash : hash first ≡ hash second

append_cancel : (p a b : Text) → p ++ a ≡ p ++ b → a ≡ b
append_cancel [] a b e = e
append_cancel (c ∷ p) a b e = append_cancel p a b (cc)

module _ (x : VaultCrypto) (uuid_text : ℕ → Text) (ring : KeyRing) where
  profile_aad-injective :
      (later : KeyRing) (org id : ℕ) (k l : Text)
      → profile_aad x uuid_text ring org id k ≡ profile_aad x uuid_text later org id l
      → k ≡ l
  unfolding profile_aad
  profile_aad-injective later org id k l e = append_cancel (codes ":") k l (
      append_cancel (uuid_text id) _ _ (
        append_cancel (codes ":") _ _
          (append_cancel (uuid_text org) _ _ (append_cancel (codes "snm:credential:v1:") _ _ e))))

  mismatched :
      (rng : Entropy) (later : KeyRing) (plaintext aad aad' : Text) (key : MasterKey)
      (s : EncryptedSecret)
      → encrypt x rng plaintext aad key ≡ ok s
      → aad ≢ aad'
      → HasCollision x.sha256 ⊎ (decrypt x s aad' later ≡ err associated_data_mismatch)
  unfolding encrypt decrypt
  mismatched rng later plaintext aad aad' key s e d =
      let hash : s.aad_hash ≡ x.sha256 aad = ground arith in
      elim (Bool-cases (text_eq (x.sha256 aad) (x.sha256 aad'))) [
        | inl h ↦
            inl (record { first = aad; second = aad'; differ = d; same_hash = text_eq-eq _ _ h })
        | inr h ↦ inr (rw hash (rw h refl))
      ]

  rotate-mismatch :
      (rng : Entropy) (s : EncryptedSecret) (aad : Text)
      → decrypt x s aad ring ≡ err associated_data_mismatch
      → rotate x rng s aad ring ≡ err associated_data_mismatch
  unfolding rotate
  rotate-mismatch rng s aad h = rw h refl

  never_rotated :
      (rng : Entropy) (org id : ℕ) (p : ProfileRow) (s : EncryptedSecret) (t t' : CredentialTables)
      → find_secret org id t ≡ ok (p, s)
      → rotate x rng s (profile_aad x uuid_text ring org id p.kind) ring
        ≡ err associated_data_mismatch
      → rotate_profile_key x uuid_text ring rng org id t ≢ ok (true, t')
  unfolding rotate_profile_key
  never_rotated rng org id p s t t' found failed h = ground arith

-- For a profile that is created with a kind that has outer white space: in the tables that the
-- creation leaves, resolving its secret fails with a mismatch of the associated data, and no
-- rotation moves it to another key, with whatever ring of keys these are tried; or else two texts
-- with the same hash are found.
pub resolve_secret-padded_kind :
    (x : VaultCrypto) (uuid_text : ℕ → Text) (ring later : KeyRing) (rng rng' : Entropy) (id : ℕ)
    (input : NewCredentialProfile) (t t' t'' : CredentialTables)
    (summary : CredentialProfileSummary)
    → create x uuid_text ring rng id input t ≡ ok (summary, t')
    → trim input.kind ≢ input.kind
    → HasCollision x.sha256
      ⊎ ((resolve_secret x uuid_text later input.organization_id id t'
            ≡ err (vault associated_data_mismatch))
          × (rotate_profile_key x uuid_text later rng' input.organization_id id t'
              ≢ ok (true, t'')))
unfolding resolve_secret
resolve_secret-padded_kind x uuid_text ring later rng rng' id input t t' t'' summary e d =
    let c = create-Created x uuid_text ring rng id input t t' summary e in
    let org = input.organization_id in
    let padded = profile_aad x uuid_text ring org id input.kind in
    let stored = profile_aad x uuid_text later org id c.row.kind in
    let other : padded ≢ stored = λ q. d (
      sym (
        profile_aad-injective x uuid_text ring later org id input.kind c.row.kind q
        ∙ c.kind_trimmed)) in
    elim (mismatched x uuid_text ring rng later input.secret padded stored c.key c.stored c.made
      other) [
        | inl found ↦ inl found
        | inr failed ↦ inr (
          rw (c.found, c.is_active) (ap (map_err vault) failed),
          never_rotated x uuid_text later rng' org id c.row c.stored t' t'' c.found
              (rotate-mismatch x uuid_text later rng' c.stored _ failed),
        )
      ]
