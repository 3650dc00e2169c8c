-- ===== src/Token/Opaque.antt =====
-- Opaque tokens: what is issued, and what matches its hash.

use seven_network_manager.Base.{
  [], all, ap, arith, length, refl, sym, take, true, ℕ, ◌++◌, ◌+◌, ◌↔◌, ◌∷◌, ◌≡◌, ◌≢◌, ◌≤◌,
}
use seven_network_manager.Base.Text.{
  Text, codes, is_ascii_digit, is_ascii_lowercase, len, text_eq-eq, text_eq_refl,
}
use seven_network_manager.Base.Result.{ok}
use native.Mathlib.Nat.{zero-add, suc-add}
use seven_network_manager.Token.{
  IssuedOpaqueToken, TokenCrypto, hash_opaque_token, is_prefix_byte, issue_opaque_token,
  opaque_token_matches,
}

len_ascii : (s : Text) → all is_prefix_byte s ≡ true → len s ≡ length s
unfolding len is_ascii_lowercase is_ascii_digit
len_ascii [] h = refl
len_ascii (c ∷ s) h = ground (arith, len_ascii s)

take-append : (p s : Text) (k : ℕ) → take (length p + k) (p ++ s) ≡ p ++ take k s
take-append [] s k = rw zero-add refl
take-append (c ∷ p) s k = rw suc-add (ap (λ t. c ∷ t) (take-append p s k))

-- The shape of an issued token.
pub record IsIssued (x : TokenCrypto) (random prefix : Text) (t : IssuedOpaqueToken) : Type 0 where
  pub prefix_short : len prefix ≤ 16
  pub prefix_filled : prefix ≢ []
  pub secret_made : t.secret ≡ prefix ++ b'_' ∷ x.encode_base64 random
  pub visible : t.prefix ≡ prefix ++ b'_' ∷ take 8 (x.encode_base64 random)
  pub matches : opaque_token_matches x t.secret t.hash ≡ true

visible_part :
    (prefix encoded : Text)
    → all is_prefix_byte prefix ≡ true
    → take (len prefix + 9) (prefix ++ b'_' ∷ encoded) ≡ prefix ++ b'_' ∷ take 8 encoded
visible_part prefix encoded h = rw (len_ascii prefix h) (take-append prefix (b'_' ∷ encoded) 9)

-- A token is issued only for a prefix of at most sixteen lower-case letters, digits and
-- underscores, and at least one. Its secret is the prefix and the encoded random bytes, its visible part ends
-- after eight characters of these, and the secret matches the hash that is stored.
pub issue_opaque_token-IsIssued :
    (x : TokenCrypto) (random prefix : Text) (t : IssuedOpaqueToken)
    → issue_opaque_token x random prefix ≡ ok t
    → IsIssued x random prefix t × (all is_prefix_byte prefix ≡ true)
unfolding issue_opaque_token opaque_token_matches
issue_opaque_token-IsIssued x random prefix t e =
    let ascii : all is_prefix_byte prefix ≡ true = ground arith in
    (
      record {
        prefix_short = ground arith;
        prefix_filled = λ h. ground arith;
        secret_made = ground arith;
        visible = ground (arith, visible_part prefix (x.encode_base64 random) ascii);
        matches = ground (arith, text_eq_refl (x.hmac (codes "snm-token-hash-compare") t.hash));
      },
      ascii,
    )

-- Where the codes of two hashes are equal only if the hashes are, a token matches a hash exactly
-- if it has that hash.
pub opaque_token_matches_iff :
    (x : TokenCrypto)
    → ((key a b : Text) → x.hmac key a ≡ x.hmac key b → a ≡ b)
    → (token expected : Text)
    → (opaque_token_matches x token expected ≡ true) ↔ (hash_opaque_token x token ≡ expected)
unfolding opaque_token_matches
opaque_token_matches_iff x injective token expected =
    (λ h. sym (injective _ _ _ (text_eq-eq _ _ h)), λ h. rw h (text_eq_refl _))
