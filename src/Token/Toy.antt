-- ===== src/Token/Toy.antt =====
-- A toy codec that meets the laws of tokens, for the runs and instances.
use seven_network_manager.Base.Int.{neg_part, pos_part, sub_ℕ, ℤ}
use seven_network_manager.Base.Text.{Text, codes, text_eq, text_eq_iff}
use seven_network_manager.Base.{
  List, Option, [], ap, arith, if◌then◌else◌, is_empty, map, none, refl, some, true, ℕ, ◌&&◌, ◌+◌,
  ◌-◌, ◌∷◌, ◌≡◌,
}
use seven_network_manager.Base.Split.{Lacks}
use seven_network_manager.Token.{AccessClaims, JwtHeader, TokenCrypto, dot, jwt_header}
use seven_network_manager.Token.RoundTrip.{TokenLaws}

-- Every character is moved past the dot.
abbrev pub shift : Text → Text
shift s = map (λ c. c + 47) s

abbrev unshift : Text → Text
unshift s = map (λ c. c - 47) s

abbrev toy_claims_to_vec : AccessClaims → Option Text
toy_claims_to_vec c =
    if text_eq c.iss (codes "snm") && text_eq c.aud (codes "snm-api") && is_empty c.scopes
    then some (
        c.sub
        ∷ c.org
        ∷ c.sid
        ∷ c.jti
        ∷ pos_part c.iat
        ∷ neg_part c.iat
        ∷ pos_part c.nbf
        ∷ neg_part c.nbf
        ∷ pos_part c.exp
        ∷ neg_part c.exp
        ∷ [])
    else none

abbrev toy_claims_from_slice : Text → Option AccessClaims
toy_claims_from_slice (sub ∷ org ∷ sid ∷ jti ∷ ip ∷ im ∷ np ∷ nm ∷ ep ∷ em ∷ []) = some (record {
  iss = codes "snm";
  aud = codes "snm-api";
  sub = sub;
  org = org;
  sid = sid;
  jti = jti;
  scopes = [];
  iat = sub_ℕ ip im;
  nbf = sub_ℕ np nm;
  exp = sub_ℕ ep em;
})
toy_claims_from_slice _ = none

abbrev pub toy : TokenCrypto
toy = record {
  encode_base64 = shift;
  decode_base64 = λ s. some (unshift s);
  header_to_vec =
      λ h. if text_eq h.alg (codes "HS256") && text_eq h.typ (codes "JWT") then some [] else none;
  header_from_slice = λ b. some jwt_header;
  claims_to_vec = toy_claims_to_vec;
  claims_from_slice = toy_claims_from_slice;
  key_accepted = λ k. true;
  hmac = λ k b. b;
  sha256 = λ b. b;
}

shift_round_trip : (b : Text) → unshift (shift b) ≡ b
shift_round_trip [] = refl
shift_round_trip (c ∷ b) = cc (add_back c, shift_round_trip b)
  where
    add_back : (c : ℕ) → c + 47 - 47 ≡ c
    add_back c = omega arith

shift_no_dot : (b : Text) → Lacks dot (shift b)
shift_no_dot [] = tt
shift_no_dot (c ∷ b) = (ground arith, shift_no_dot b)

parts_round_trip : (a : ℤ) → sub_ℕ (pos_part a) (neg_part a) ≡ a
parts_round_trip a = ground arith

toy_header : (h : JwtHeader) (b : Text) → toy.header_to_vec h ≡ some b → some jwt_header ≡ some h
toy_header h b e =
    ground (arith, text_eq_iff h.alg (codes "HS256"), text_eq_iff h.typ (codes "JWT"))

no_scopes : (s : List Text) → is_empty s ≡ true → s ≡ []
no_scopes s h = ground arith

toy_claims :
    (c : AccessClaims) (b : Text) → toy_claims_to_vec c ≡ some b → toy_claims_from_slice b ≡ some c
toy_claims c b e = ground (
  arith,
  text_eq_iff c.iss (codes "snm"),
  text_eq_iff c.aud (codes "snm-api"),
  no_scopes c.scopes,
  parts_round_trip c.iat,
  parts_round_trip c.nbf,
  parts_round_trip c.exp,
)

pub toy_laws : TokenLaws toy
toy_laws = record {
  base64_round_trip = λ b. ap some (shift_round_trip b);
  base64_no_dot = shift_no_dot;
  header_round_trip = toy_header;
  claims_round_trip = toy_claims;
}
