-- ===== src/Vault/RoundTrip.antt =====
-- What is encrypted is decrypted again, before and after a rotation of the keys.

use seven_network_manager.Base.{
  Bool, Option-cases, ap, arith, inl, inr, some, subst, sym, ℕ, ◌∙◌, ◌≡◌,
}
use seven_network_manager.Base.Text.{Text, text_eq_refl}
use seven_network_manager.Base.Result.{>>=-eq-ok, ok}
use seven_network_manager.Base.Dict.{lookup, lookup-insert}
use seven_network_manager.Vault.{
  EncryptedSecret, Entropy, KeyRing, MasterKey, VaultCrypto, current_key, decrypt, encrypt, get_key,
  insert_key, rotate, wrapping_aad,
}

-- AES-256-GCM decrypts what it encrypted under the same key, nonce and associated data.
pub record VaultLaws (x : VaultCrypto) : Type 0 where
  pub aead_round_trip :
      (key nonce aad msg c : Text)
      → x.aead_encrypt key nonce aad msg ≡ some c
      → x.aead_decrypt key nonce aad c ≡ some msg

-- Every key stands under its own version.
abbrev pub IsRing : KeyRing → Type 0
IsRing ring = (v : ℕ) (k : MasterKey) → lookup v ring.keys ≡ some k → k.version ≡ v

pub insert_key-IsRing :
    (key : MasterKey) (make_current : Bool) (ring : KeyRing)
    → IsRing ring
    → IsRing (insert_key key make_current ring)
unfolding insert_key
insert_key-IsRing key c ring h v k e =
    ground (arith, lookup-insert key.version v key ring.keys, h v k)

pub current_key-get_key :
    (ring : KeyRing) (k : MasterKey)
    → IsRing ring
    → current_key ring ≡ ok k
    → get_key k.version ring ≡ ok k
unfolding current_key get_key
current_key-get_key ring k h e = elim (Option-cases ring.current_version) [
  | inl missing ↦ absurd (ground arith)
  | inr (v, c) ↦ elim (Option-cases (lookup v ring.keys)) [
    | inl missing ↦ absurd (ground arith)
    | inr (found, f) ↦
        (let same : found ≡ k = ground arith in
          let at : k.version ≡ v = h v k (f ∙ ap some same) in
          subst (λ w. get_key w ring ≡ ok k) (sym at) (unfold get_key in rw f (ap ok same)))
  ]
]

module _ (x : VaultCrypto) (laws : VaultLaws x) where
  -- A secret that was encrypted under a key is decrypted by every ring that has that key under its
  -- version, for the same associated data; its record names the key's version and the data's hash.
  pub decrypt-encrypt :
      (rng : Entropy) (plaintext aad : Text) (key : MasterKey) (ring : KeyRing)
      (s : EncryptedSecret)
      → encrypt x rng plaintext aad key ≡ ok s
      → get_key key.version ring ≡ ok key
      → (decrypt x s aad ring ≡ ok plaintext)
        × (s.key_version ≡ key.version)
        × (s.aad_hash ≡ x.sha256 aad)
  unfolding encrypt decrypt
  decrypt-encrypt rng plaintext aad key ring s e g =
      elim (Option-cases (x.aead_encrypt rng.dek rng.data_nonce aad plaintext)) [
        | inl failed ↦ absurd (ground arith)
        | inr (c, sealed) ↦
            elim (Option-cases
              (x.aead_encrypt key.key rng.wrapped_dek_nonce (wrapping_aad aad) rng.dek)) [
                | inl failed ↦ absurd (ground arith)
                | inr (w, wrapped) ↦
                    (let opened = laws.aead_round_trip _ _ _ _ _ sealed in
                      let unwrapped = laws.aead_round_trip _ _ _ _ _ wrapped in
                      (
                        ground (arith, opened, unwrapped, g, text_eq_refl (x.sha256 aad)),
                        ground arith,
                        ground arith,
                      ))
              ]
      ]

  -- A rotation succeeds only on a secret that the ring decrypts; the new record is under the
  -- ring's current key and decrypts to the same secret.
  pub decrypt-rotate :
      (rng : Entropy) (s s' : EncryptedSecret) (aad : Text) (ring : KeyRing)
      → IsRing ring
      → rotate x rng s aad ring ≡ ok s'
      → (plaintext : Text) × (key : MasterKey) × (decrypt x s aad ring ≡ ok plaintext)
        × (decrypt x s' aad ring ≡ ok plaintext)
        × (current_key ring ≡ ok key)
        × (s'.key_version ≡ key.version)
  unfolding rotate
  decrypt-rotate rng s s' aad ring h e =
      let (plaintext, opened, rest) = >>=-eq-ok (decrypt x s aad ring) _ e in
      let (key, current, made) = >>=-eq-ok (current_key ring) _ rest in
      let (back, version, _) =
        decrypt-encrypt rng plaintext aad key ring s' made
          (current_key-get_key ring key h current) in
      (plaintext, key, opened, back, current, version)
