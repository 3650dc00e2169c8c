-- ===== src/Credentials/Replacement.antt =====
-- What a replacement of the secret leaves.
use seven_network_manager.Base.{
  Bool-cases, List, [], ap, arith, find, inl, inr, is_empty, length, ltb, some, true, ℕ, ◌&&◌, ◌||◌,
  ◌∙◌, ◌∷◌, ◌≡◌,
}
use seven_network_manager.Base.Text.{Text}
use seven_network_manager.Base.Result.{>>=-eq-ok, fail_if, map_err, map_err-eq-ok, ok}
use seven_network_manager.Vault.{
  EncryptedSecret, Entropy, KeyRing, VaultCrypto, current_key, encrypt,
}
use seven_network_manager.Vault.RoundTrip.{IsRing, VaultLaws, current_key-get_key, decrypt-encrypt}
use seven_network_manager.Credentials.{
  CredentialTables, ProfileRow, find_secret, invalid_secret, is_profile, profile_aad,
  replace_secret, resolve_secret, secret_limit, vault,
}
use seven_network_manager.Credentials.Rotation.{updated_secret}

find_active :
    (org id : ℕ) (p : ProfileRow) (rows : List ProfileRow)
    → find (is_profile org id) rows ≡ some p
    → p.active ≡ true
    → find (λ q. is_profile org id q && q.active) rows ≡ some p
find_active org id p [] f a = cc
find_active org id p (q ∷ rows) f a = elim (Bool-cases (is_profile org id q)) [
  | inl here ↦ head here
  | inr later ↦ ground (arith, find_active org id p rows, later)
]
  where
    head :
        is_profile org id q ≡ true → find (λ q. is_profile org id q && q.active) (q ∷ rows) ≡ some p
    head here =
        let same : q ≡ p = ground arith in
        let on : q.active ≡ true = ap (λ (r : ProfileRow). r.active) same ∙ a in ground arith

module _ (x : VaultCrypto) (uuid_text : ℕ → Text) (ring : KeyRing) where
  found_profile :
      (org id : ℕ) (p : ProfileRow) (s : EncryptedSecret) (t : CredentialTables)
      → find_secret org id t ≡ ok (p, s)
      → find (is_profile org id) t.profiles ≡ some p
  unfolding find_secret
  found_profile org id p s t f = ground arith

  -- With a ring that has each key under its own version: the secret of an active profile of the
  -- organisation, once it is replaced, is resolved to the new one.
  pub resolve_secret-replace_secret :
      VaultLaws x
      → IsRing ring
      → (rng : Entropy) (org id : ℕ) (new_secret : Text) (t t' : CredentialTables) (p : ProfileRow)
        (s : EncryptedSecret)
      → find_secret org id t ≡ ok (p, s)
      → p.active ≡ true
      → replace_secret x uuid_text ring rng org id new_secret t ≡ ok t'
      → resolve_secret x uuid_text ring org id t' ≡ ok new_secret
  unfolding replace_secret resolve_secret
  resolve_secret-replace_secret laws well_formed rng org id new_secret t t' p s found active e =
      let aad = profile_aad x uuid_text ring org id p.kind in
      let (_, _, e1) =
        >>=-eq-ok
          (fail_if (is_empty new_secret || ltb secret_limit (length new_secret)) invalid_secret) _
          e in
      let chosen = find_active org id p t.profiles (found_profile org id p s t found) active in
      let (key, current, e2) = >>=-eq-ok (map_err vault (current_key ring)) _ (rw chosen at e1) in
      let (s', made, e3) = >>=-eq-ok (map_err vault (encrypt x rng new_secret aad key)) _ e2 in
      let found' = updated_secret x uuid_text ring laws well_formed org id p s s' t t' found e3 in
      let reads = map_err-eq-ok vault (current_key ring) current in
      let opened =
        (decrypt-encrypt x laws rng new_secret aad key ring s'
          (map_err-eq-ok vault (encrypt x rng new_secret aad key) made)
          (current_key-get_key ring key well_formed reads)).0 in
      rw (found', active) (ap (map_err vault) opened)
