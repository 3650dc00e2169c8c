-- ===== src/Token/RoundTrip.antt =====
-- Encoding and decoding access tokens.

use seven_network_manager.Base.{
  Bool-cases, Option-cases, arith, if◌then◌else◌, inl, inr, ltb, not, refl, some, true, ℕ, ◌++◌,
  ◌||◌, ◌∷◌, ◌≡◌,
}
use seven_network_manager.Base.Int.{ℤ}
use seven_network_manager.Base.Text.{Text, codes, len, text_eq, text_eq_refl}
use seven_network_manager.Base.Result.{Result, err, ok}
use seven_network_manager.Base.Split.{Lacks, split, split_three}
use seven_network_manager.Token.{
  AccessClaims, JwtHeader, TokenCrypto, TokenError, decode_access_token, decode_parts, dot,
  encode_access_token, expired_or_not_yet_valid, invalid_context, jwt_header, malformed_token,
  outside_window, three_parts, validate_claim_lifetime,
}

-- What the tokens rely on of base64 and of the JSON codec.
pub record TokenLaws (x : TokenCrypto) : Type 0 where
  pub base64_round_trip : (b : Text) → x.decode_base64 (x.encode_base64 b) ≡ some b
  pub base64_no_dot : (b : Text) → Lacks dot (x.encode_base64 b)
  pub header_round_trip :
      (h : JwtHeader) (b : Text) → x.header_to_vec h ≡ some b → x.header_from_slice b ≡ some h
  pub claims_round_trip :
      (c : AccessClaims) (b : Text) → x.claims_to_vec c ≡ some b → x.claims_from_slice b ≡ some c

-- What becomes of a token with these claims and this many bytes.
abbrev pub verdict : AccessClaims → ℕ → ℤ → Text → Text → Result TokenError AccessClaims
verdict c size now issuer audience =
    if ltb 16_384 size
    then err malformed_token
    else if not (text_eq c.iss issuer) || not (text_eq c.aud audience)
    then err invalid_context
    else if outside_window c now
    then err expired_or_not_yet_valid
    else ok c

module _ (x : TokenCrypto) (laws : TokenLaws x) (key : Text) where
  -- What encoding did.
  record Encoded (c : AccessClaims) (t : Text) : Type 0 where
    header : Text
    body : Text
    header_made : x.header_to_vec jwt_header ≡ some header
    body_made : x.claims_to_vec c ≡ some body
    lifetime_tested : validate_claim_lifetime c ≡ ok tt
    accepted : x.key_accepted key ≡ true
    made :
        t
        ≡ (x.encode_base64 header ++ dot ∷ x.encode_base64 body)
          ++ dot
            ∷ x.encode_base64 (x.hmac key (x.encode_base64 header ++ dot ∷ x.encode_base64 body))

  encode-Encoded : (c : AccessClaims) (t : Text) → encode_access_token x c key ≡ ok t → Encoded c t
  unfolding encode_access_token
  encode-Encoded c t e = elim (Option-cases (x.header_to_vec jwt_header)) [
    | inl missing ↦ absurd (ground arith)
    | inr (header, h) ↦ elim (Option-cases (x.claims_to_vec c)) [
      | inl missing ↦ absurd (ground arith)
      | inr (body, b) ↦ record {
        header = header;
        body = body;
        header_made = h;
        body_made = b;
        lifetime_tested = ground arith;
        accepted = ground arith;
        made = ground arith;
      }
    ]
  ]

  -- The signing input and the signature of an encoded token, and the verdict on its parts.
  module _ (c : AccessClaims) (t : Text) (v : Encoded c t) (now : ℤ) (issuer audience : Text) where
    abbrev input : Text
    input = x.encode_base64 v.header ++ dot ∷ x.encode_base64 v.body

    abbrev parts : Text × Text × Text
    parts = (x.encode_base64 v.header, x.encode_base64 v.body, x.encode_base64 (x.hmac key input))

    decode_parts-Encoded : decode_parts x parts key now issuer audience ≡ (
        if not (text_eq c.iss issuer) || not (text_eq c.aud audience)
        then err invalid_context
        else if outside_window c now
        then err expired_or_not_yet_valid
        else ok c)
    unfolding decode_parts
    decode_parts-Encoded = ground (
      arith,
      laws.base64_round_trip v.header,
      laws.base64_round_trip v.body,
      laws.base64_round_trip (x.hmac key input),
      laws.header_round_trip jwt_header v.header v.header_made,
      laws.claims_round_trip c v.body v.body_made,
      text_eq_refl (x.hmac key input),
      text_eq_refl (codes "HS256"),
      text_eq_refl (codes "JWT"),
    )

    split-Encoded : three_parts x (split dot t) ≡ ok parts
    split-Encoded = rw v.made (
        rw
          (split_three dot (x.encode_base64 v.header) (x.encode_base64 v.body)
            (x.encode_base64 (x.hmac key input)) (laws.base64_no_dot _) (laws.base64_no_dot _)
            (laws.base64_no_dot _))
          refl)

    decode-Encoded :
        decode_access_token x t key now issuer audience ≡ verdict c (len t) now issuer audience
    unfolding decode_access_token
    decode-Encoded = elim (Bool-cases (ltb 16_384 (len t))) [
      | inl long ↦ rw long refl
      | inr short ↦ rw (short, split-Encoded) decode_parts-Encoded
    ]

  -- A token that was encoded from some claims is decoded under the same key to those claims, if it
  -- has at most 16384 bytes, issuer and audience are the expected ones, and the time is in the
  -- window of the token; otherwise it is refused for the first of these that fails.
  pub decode-encode_access_token :
      (c : AccessClaims) (t : Text) (now : ℤ) (issuer audience : Text)
      → encode_access_token x c key ≡ ok t
      → decode_access_token x t key now issuer audience ≡ verdict c (len t) now issuer audience
  decode-encode_access_token c t now issuer audience e =
      decode-Encoded c t (encode-Encoded c t e) now issuer audience
