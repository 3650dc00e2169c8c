-- ===== src/Token.antt =====
-- Access tokens and opaque tokens (crates/security/src/token.rs). base64, JSON, HMAC-SHA256,
-- SHA-256 and the random generator are parameters: a text stands for its bytes.
pub mod Access
pub mod RoundTrip
pub mod Opaque
pub mod Toy
mod Tests
use seven_network_manager.Base.{
  Bool, List, Option, [], all, if◌then◌else◌, is_empty, length, ltb, not, take, ℕ, ◌++◌, ◌+◌, ◌==◌,
  ◌||◌, ◌∷◌,
}
use seven_network_manager.Base.Int.{leb_ℤ, ltb_ℤ, pos, saturating_add, saturating_sub, ℤ}
use seven_network_manager.Base.Result.{Result, err, fail_if, ok, ok_or, ◌>>=◌, ◌>>◌}
use seven_network_manager.Base.Split.{split}
use seven_network_manager.Base.Text.{Text, codes, is_ascii_digit, is_ascii_lowercase, len, text_eq}

pub data TokenError : Type 0 where
  weak_signing_key invalid_signing_key invalid_lifetime serialization_failed : TokenError
  malformed_token invalid_signature unsupported_token_algorithm invalid_context : TokenError
  expired_or_not_yet_valid invalid_prefix : TokenError

pub record AccessClaims : Type 0 where
  pub iss : Text
  pub aud : Text
  pub sub : ℕ
  pub org : ℕ
  pub sid : ℕ
  pub jti : ℕ
  pub scopes : List Text
  pub iat : ℤ
  pub nbf : ℤ
  pub exp : ℤ

pub record JwtHeader : Type 0 where
  pub alg : Text
  pub typ : Text

-- The libraries that the tokens are made with.
pub record TokenCrypto : Type 0 where
  pub encode_base64 : Text → Text
  pub decode_base64 : Text → Option Text
  pub header_to_vec : JwtHeader → Option Text
  pub header_from_slice : Text → Option JwtHeader
  pub claims_to_vec : AccessClaims → Option Text
  pub claims_from_slice : Text → Option AccessClaims
  pub key_accepted : Text → Bool
  pub hmac : Text → Text → Text
  pub sha256 : Text → Text

abbrev pub clock_skew_seconds : ℤ
clock_skew_seconds = pos 60

abbrev pub max_lifetime_seconds : ℤ
max_lifetime_seconds = pos 900

-- `AccessTokenKey::new`
unfoldable pub new_key : Text → Result TokenError Text
new_key secret = if ltb (length secret) 32 then err weak_signing_key else ok secret

unfoldable pub validate_claim_lifetime : AccessClaims → Result TokenError (Unit {0})
validate_claim_lifetime c =
    fail_if
      (ltb_ℤ c.iat (pos 0)
        || ltb_ℤ c.nbf (saturating_sub c.iat clock_skew_seconds)
        || leb_ℤ c.exp c.nbf
        || leb_ℤ c.exp c.iat
        || ltb_ℤ max_lifetime_seconds (saturating_sub c.exp c.iat))
      invalid_lifetime

abbrev pub dot : ℕ
dot = b'.'

abbrev pub jwt_header : JwtHeader
jwt_header = record { alg = codes "HS256"; typ = codes "JWT" }

-- The time window of a token, at the time `now`.
abbrev pub outside_window : AccessClaims → ℤ → Bool
outside_window c now =
    leb_ℤ c.exp now
    || ltb_ℤ (saturating_add now clock_skew_seconds) c.nbf
    || ltb_ℤ (saturating_add now clock_skew_seconds) c.iat

module _ (x : TokenCrypto) where
  -- `AccessTokenKey::mac`, then `update` and `finalize`.
  abbrev pub mac : Text → Text → Result TokenError Text
  mac key input = if x.key_accepted key then ok (x.hmac key input) else err invalid_signing_key

  unfoldable pub encode_access_token : AccessClaims → Text → Result TokenError Text
  encode_access_token claims key = do
    validate_claim_lifetime claims
    header ← ok_or (x.header_to_vec jwt_header) serialization_failed
    body ← ok_or (x.claims_to_vec claims) serialization_failed
    let signing_input = x.encode_base64 header ++ dot ∷ x.encode_base64 body
    signature ← mac key signing_input
    ok (signing_input ++ dot ∷ x.encode_base64 signature)

  -- The three parts of the token; too few and too many are refused alike.
  abbrev pub three_parts : List Text → Result TokenError (Text × Text × Text)
  three_parts (h ∷ c ∷ s ∷ []) = ok (h, c, s)
  three_parts _ = err malformed_token

  -- From the split parts on.
  unfoldable pub decode_parts :
      Text × Text × Text → Text → ℤ → Text → Text → Result TokenError AccessClaims
  decode_parts (header_part, claims_part, signature_part) key now issuer audience = do
    signature ← ok_or (x.decode_base64 signature_part) malformed_token
    expected ← mac key (header_part ++ dot ∷ claims_part)
    fail_if (not (text_eq expected signature)) invalid_signature
    header_bytes ← ok_or (x.decode_base64 header_part) malformed_token
    header ← ok_or (x.header_from_slice header_bytes) malformed_token
    fail_if (not (text_eq header.alg (codes "HS256")) || not (text_eq header.typ (codes "JWT")))
        unsupported_token_algorithm
    claims_bytes ← ok_or (x.decode_base64 claims_part) malformed_token
    claims ← ok_or (x.claims_from_slice claims_bytes) malformed_token
    fail_if (not (text_eq claims.iss issuer) || not (text_eq claims.aud audience)) invalid_context
    validate_claim_lifetime claims
    fail_if (outside_window claims now) expired_or_not_yet_valid
    ok claims

  unfoldable pub decode_access_token :
      Text → Text → ℤ → Text → Text → Result TokenError AccessClaims
  decode_access_token token key now issuer audience = do
    fail_if (ltb 16_384 (len token)) malformed_token
    parts ← three_parts (split dot token)
    decode_parts parts key now issuer audience

  abbrev pub hash_opaque_token : Text → Text
  hash_opaque_token = x.sha256

  -- The comparison of two hashes by their codes under a constant key.
  unfoldable pub opaque_token_matches : Text → Text → Bool
  opaque_token_matches token expected_hash =
      let key = codes "snm-token-hash-compare" in
      text_eq (x.hmac key expected_hash) (x.hmac key (hash_opaque_token token))

pub record IssuedOpaqueToken : Type 0 where
  pub secret : Text
  pub prefix : Text
  pub hash : Text

abbrev pub is_prefix_byte : ℕ → Bool
is_prefix_byte c = is_ascii_lowercase c || is_ascii_digit c || c == b'_'

module _ (x : TokenCrypto) where
  -- `random` is what the generator filled in.
  unfoldable pub issue_opaque_token : Text → Text → Result TokenError IssuedOpaqueToken
  issue_opaque_token random prefix =
      if is_empty prefix || ltb 16 (len prefix) || not (all is_prefix_byte prefix)
      then err invalid_prefix
      else let secret = prefix ++ b'_' ∷ x.encode_base64 random in
        ok (record {
          secret = secret;
          prefix = take (len prefix + 9) secret;
          hash = hash_opaque_token x secret;
        })
