-- ===== src/Token/Access.antt =====
-- What a decoded access token guarantees, and which tokens come back.

use seven_network_manager.Base.Text.{Text, len, text_eq_iff}
use seven_network_manager.Base.{
  List, Option-cases, [], arith, false, inl, inr, ltb, some, sym, ◌++◌, ◌∙◌, ◌∷◌, ◌≡◌,
}
use seven_network_manager.Base.Int.{
  IsI64, ltb_ℤ, pos, saturate, saturating_add, saturating_sub, ℤ, ◌+ℤ◌, ◌-ℤ◌, ◌≤ℤ◌,
}
use seven_network_manager.Base.Result.{>>=-eq-ok, fail_if, ok}
use mathlib.Core.List.{append_assoc}
use seven_network_manager.Base.Split.{join, join-split, split}
use seven_network_manager.Token.{
  AccessClaims, TokenCrypto, decode_access_token, decode_parts, dot, malformed_token, three_parts,
  validate_claim_lifetime,
}

-- A lifetime that begins at or after the epoch, is at most fifteen minutes long, and is usable at
-- the earliest a minute before it was issued.
pub record HasLifetime (c : AccessClaims) : Type 0 where
  pub issued_after_epoch : pos 0 ≤ℤ c.iat
  pub ends_after_issue : ¬ (c.exp ≤ℤ c.iat)
  pub ends_after_start : ¬ (c.exp ≤ℤ c.nbf)
  pub at_most_fifteen_minutes : c.exp ≤ℤ c.iat +ℤ pos 900
  pub starts_near_issue : c.iat ≤ℤ c.nbf +ℤ pos 60

sub_at_most : (a b : ℤ) → ltb_ℤ (pos 900) (saturating_sub a b) ≡ false → a ≤ℤ b +ℤ pos 900
unfolding saturating_sub saturate ◌+ℤ◌ ◌-ℤ◌
sub_at_most a b h = ground arith

sub_skew_at_most :
    (n i : ℤ)
    → pos 0 ≤ℤ i
    → IsI64 i
    → ltb_ℤ n (saturating_sub i (pos 60)) ≡ false
    → i ≤ℤ n +ℤ pos 60
unfolding saturating_sub saturate ◌+ℤ◌ ◌-ℤ◌
sub_skew_at_most n i p w h = ground arith

pub validate-HasLifetime :
    (c : AccessClaims) → IsI64 c.iat → validate_claim_lifetime c ≡ ok tt → HasLifetime c
unfolding validate_claim_lifetime
validate-HasLifetime c w h = record {
  issued_after_epoch = ground arith;
  ends_after_issue = ground arith;
  ends_after_start = ground arith;
  at_most_fifteen_minutes = sub_at_most c.exp c.iat (ground arith);
  starts_near_issue = sub_skew_at_most c.nbf c.iat (ground arith) w (ground arith);
}

module _ (x : TokenCrypto) (key : Text) (now : ℤ) (issuer audience : Text) where
  -- What the three parts of an accepted token guarantee.
  pub record IsAuthentic (h p s : Text) (c : AccessClaims) : Type 0 where
    pub signed : x.decode_base64 s ≡ some (x.hmac key (h ++ dot ∷ p))
    pub from_issuer : c.iss ≡ issuer
    pub for_audience : c.aud ≡ audience
    pub lifetime_tested : validate_claim_lifetime c ≡ ok tt
    pub not_expired : ¬ (c.exp ≤ℤ now)
    pub started : c.nbf ≤ℤ saturating_add now (pos 60)
    pub issued : c.iat ≤ℤ saturating_add now (pos 60)

  decode_parts-IsAuthentic :
      (h p s : Text) (c : AccessClaims)
      → decode_parts x (h, p, s) key now issuer audience ≡ ok c
      → IsAuthentic h p s c
  unfolding decode_parts
  decode_parts-IsAuthentic h p s c e = record {
    signed = elim (Option-cases (x.decode_base64 s)) [
      | inl missing ↦ ground arith
      | inr (signature, q) ↦ ground (arith, text_eq_iff (x.hmac key (h ++ dot ∷ p)) signature)
    ];
    from_issuer = ground (arith, text_eq_iff c.iss issuer, text_eq_iff c.aud audience);
    for_audience = ground (arith, text_eq_iff c.iss issuer, text_eq_iff c.aud audience);
    lifetime_tested = ground (arith, text_eq_iff c.iss issuer, text_eq_iff c.aud audience);
    not_expired = ground (arith, text_eq_iff c.iss issuer, text_eq_iff c.aud audience);
    started = ground (arith, text_eq_iff c.iss issuer, text_eq_iff c.aud audience);
    issued = ground (arith, text_eq_iff c.iss issuer, text_eq_iff c.aud audience);
  }

  three_parts-eq-ok :
      (parts : List Text) (h p s : Text)
      → three_parts x parts ≡ ok (h, p, s)
      → join dot parts ≡ (h ++ dot ∷ p) ++ dot ∷ s
  three_parts-eq-ok [] h p s e = cc
  three_parts-eq-ok (a ∷ []) h p s e = cc
  three_parts-eq-ok (a ∷ b ∷ []) h p s e = cc
  three_parts-eq-ok (a ∷ b ∷ c ∷ []) h p s e =
      let (ea, eb, es) = triple e in rw (ea, eb, es) (sym (append_assoc h (dot ∷ p) (dot ∷ s)))
    where
      triple : three_parts x (a ∷ b ∷ c ∷ []) ≡ ok (h, p, s) → (a ≡ h) × (b ≡ p) × (c ≡ s)
      triple e = ground arith
  three_parts-eq-ok (a ∷ b ∷ c ∷ d ∷ more) h p s e = cc

  -- An access token is accepted only if it consists of a header, claims and a signature separated
  -- by dots, and the signature is the code of the first two under the key. Its claims are then of
  -- the expected issuer and audience, have not expired, start and were issued at most a minute
  -- from now, and last at most fifteen minutes.
  pub decode_access_token-IsAuthentic :
      (token : Text) (c : AccessClaims)
      → IsI64 c.iat
      → decode_access_token x token key now issuer audience ≡ ok c
      → (h : Text) × (p : Text) × (s : Text) × (token ≡ (h ++ dot ∷ p) ++ dot ∷ s)
        × IsAuthentic h p s c
        × HasLifetime c
  unfolding decode_access_token
  decode_access_token-IsAuthentic token c w e =
      let (_, _, e₁) = >>=-eq-ok (fail_if (ltb 16_384 (len token)) malformed_token) _ e in
      let ((h, p, s), parts, e₂) = >>=-eq-ok (three_parts x (split dot token)) _ e₁ in
      let sound : IsAuthentic h p s c = decode_parts-IsAuthentic h p s c e₂ in
      (
        h,
        p,
        s,
        sym (join-split dot token) ∙ three_parts-eq-ok (split dot token) h p s parts,
        sound,
        validate-HasLifetime c w sound.lifetime_tested,
      )
