-- ===== src/Token/Tests.antt =====
-- Runs and instances of the token rules under the toy codec.

use seven_network_manager.Base.Int.{pos, saturate, saturating_add, saturating_sub, ◌+ℤ◌, ◌-ℤ◌}
use seven_network_manager.Base.Text.{Text, codes, is_ascii_digit, is_ascii_lowercase, len, text_eq}
use seven_network_manager.Base.Result.{err, ok}
use seven_network_manager.Base.{[], arith, refl, ◌++◌, ◌∷◌, ◌≡◌}
use seven_network_manager.Base.Split.{split}
use seven_network_manager.Token.{
  AccessClaims, IssuedOpaqueToken, decode_access_token, decode_parts, dot, encode_access_token,
  expired_or_not_yet_valid, issue_opaque_token, validate_claim_lifetime,
}
use seven_network_manager.Token.Access.{HasLifetime, IsAuthentic, decode_access_token-IsAuthentic}
use seven_network_manager.Token.RoundTrip.{decode-encode_access_token}
use seven_network_manager.Token.Toy.{shift, toy, toy_laws}

abbrev sample : AccessClaims
sample = record {
  iss = codes "snm";
  aud = codes "snm-api";
  sub = 1;
  org = 2;
  sid = 3;
  jti = 4;
  scopes = [];
  iat = pos 1000;
  nbf = pos 1000;
  exp = pos 1600;
}

abbrev sample_input : Text
sample_input = dot ∷ shift (1 ∷ 2 ∷ 3 ∷ 4 ∷ 1000 ∷ 0 ∷ 1000 ∷ 0 ∷ 1600 ∷ 0 ∷ [])

abbrev sample_token : Text
sample_token = sample_input ++ dot ∷ shift sample_input

sample_encoded : encode_access_token toy sample (codes "k") ≡ ok sample_token
unfolding encode_access_token validate_claim_lifetime saturating_sub saturate ◌-ℤ◌ text_eq
sample_encoded = refl

decode-encode_access_token_example :
    decode_access_token toy sample_token (codes "k") (pos 1100) (codes "snm") (codes "snm-api")
    ≡ ok sample
unfolding text_eq len saturating_add saturate ◌+ℤ◌
decode-encode_access_token_example =
    decode-encode_access_token toy toy_laws (codes "k") sample sample_token (pos 1100) (codes "snm")
      (codes "snm-api") sample_encoded

decode_access_token-IsAuthentic_example :
    (h : Text) × (p : Text) × (s : Text) × (sample_token ≡ (h ++ dot ∷ p) ++ dot ∷ s)
    × IsAuthentic toy (codes "k") (pos 1100) (codes "snm") (codes "snm-api") h p s sample
    × HasLifetime sample
decode_access_token-IsAuthentic_example =
    decode_access_token-IsAuthentic toy (codes "k") (pos 1100) (codes "snm") (codes "snm-api")
      sample_token sample (omega arith) decode-encode_access_token_example

-- `token_is_rejected_before_nbf`
early :
    decode_access_token toy sample_token (codes "k") (pos 900) (codes "snm") (codes "snm-api")
    ≡ err expired_or_not_yet_valid
unfolding decode_access_token decode_parts validate_claim_lifetime saturating_add saturating_sub
    saturate ◌+ℤ◌ ◌-ℤ◌ text_eq len split
early = refl

abbrev sample_opaque : IssuedOpaqueToken
sample_opaque = record {
  secret = codes "csrf_" ++ shift (1 ∷ 2 ∷ 3 ∷ []);
  prefix = codes "csrf_" ++ shift (1 ∷ 2 ∷ 3 ∷ []);
  hash = codes "csrf_" ++ shift (1 ∷ 2 ∷ 3 ∷ []);
}

sample_issued : issue_opaque_token toy (1 ∷ 2 ∷ 3 ∷ []) (codes "csrf") ≡ ok sample_opaque
unfolding issue_opaque_token len is_ascii_lowercase is_ascii_digit
sample_issued = refl
