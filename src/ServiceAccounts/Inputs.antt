-- ===== src/ServiceAccounts/Inputs.antt =====
-- What the store accepts of scopes and networks, and the permissions that a token leaves
-- (crates/identity-store/src/lib.rs). The parser of addresses is a parameter.

use seven_network_manager.Base.Text.{Text, contains_char, len, text_eq}
use seven_network_manager.Base.Result.{Result, fail_if, ok, ok_or, ◌>>=◌, ◌>>◌}
use seven_network_manager.Base.{
  Bool, List, Option, [], all, any, false, if◌then◌else◌, is_empty, leb, length, ltb, none, not,
  some, true, ℕ, ◌&&◌, ◌*◌, ◌+◌, ◌-◌, ◌==◌, ◌||◌, ◌∷◌,
}
use seven_network_manager.Base.Split.{split_once}
use seven_network_manager.Rbac.{is_identifier_byte}

pub data IdentityStoreError : Type 0 where
  invalid_input not_found_or_disabled invalid_token invalid_stored_credential : IdentityStoreError
  token_generation database : IdentityStoreError

-- `IpAddr`, as far as the code tells one from another.
pub data IpVersion : Type 0 where
  ipv4 ipv6 : IpVersion

abbrev pub bad_scope : Text → Bool
bad_scope scope =
    is_empty scope
    || ltb 128 (len scope)
    || not (contains_char scope b'.')
    || not (all is_identifier_byte scope)

unfoldable pub validate_scopes : List Text → Result IdentityStoreError (Unit {0})
validate_scopes scopes = do
  fail_if (is_empty scopes || ltb 128 (length scopes)) invalid_input
  fail_if (any bad_scope scopes) invalid_input

-- The value of decimal digits after `acc`, none at another character.
abbrev pub digits_from : ℕ → Text → Option ℕ
digits_from acc [] = some acc
digits_from acc (c ∷ s) =
    let rest = digits_from (acc * 10 + (c - b'0')) s in
    if leb b'0' c && leb c b'9' then rest else none

abbrev pub filled_digits : Text → Option ℕ
filled_digits [] = none
filled_digits (c ∷ s) = digits_from 0 (c ∷ s)

-- A sign may stand before the digits.
abbrev pub without_plus : Text → Text
without_plus [] = []
without_plus (c ∷ s) = if c == b'+' then s else c ∷ s

abbrev pub below_256 : Option ℕ → Option ℕ
below_256 none = none
below_256 (some n) = if ltb n 256 then some n else none

-- `str::parse::<u8>`
unfoldable pub parse_u8 : Text → Option ℕ
parse_u8 s = below_256 (filled_digits (without_plus s))

abbrev pub prefix_fits : IpVersion → ℕ → Bool
prefix_fits IpVersion.ipv4 prefix = leb prefix 32
prefix_fits IpVersion.ipv6 prefix = leb prefix 128

module _ (parse_address : Text → Option IpVersion) where
  -- One round of the loop of `validate_cidrs`.
  unfoldable pub validate_cidr : Text → Result IdentityStoreError (Unit {0})
  unfolding split_once parse_u8
  validate_cidr cidr = do
    parts ← ok_or (split_once b'/' cidr) invalid_input
    address ← ok_or (parse_address parts.0) invalid_input
    prefix ← ok_or (parse_u8 parts.1) invalid_input
    fail_if (not (prefix_fits address prefix)) invalid_input

  abbrev pub validate_each : List Text → Result IdentityStoreError (Unit {0})
  validate_each [] = ok tt
  validate_each (cidr ∷ cidrs) = validate_cidr cidr >> validate_each cidrs

  unfoldable pub validate_cidrs : List Text → Result IdentityStoreError (Unit {0})
  unfolding validate_cidr
  validate_cidrs cidrs = fail_if (ltb 128 (length cidrs)) invalid_input >> validate_each cidrs

-- The order of texts by their code points, which is that of their bytes.
unfoldable pub text_ltb : Text → Text → Bool
text_ltb [] [] = false
text_ltb [] (d ∷ t) = true
text_ltb (c ∷ s) [] = false
text_ltb (c ∷ s) (d ∷ t) = ltb c d || (c == d && text_ltb s t)

-- `BTreeSet::insert`
unfoldable pub insert_text : Text → List Text → List Text
unfolding text_ltb
insert_text t [] = t ∷ []
insert_text t (u ∷ us) =
    let rest = insert_text t us in
    if text_eq t u then u ∷ us else if text_ltb t u then t ∷ u ∷ us else u ∷ rest

-- The loop of `intersect_permissions`.
abbrev pub insert_common : List Text → List Text → List Text → List Text
insert_common rbac [] effective = effective
insert_common rbac (scope ∷ scopes) effective =
    insert_common rbac scopes
      (if any (text_eq scope) rbac then insert_text scope effective else effective)

unfoldable pub intersect_permissions : List Text → List Text → List Text
unfolding insert_text
intersect_permissions token_scopes rbac_permissions = insert_common rbac_permissions token_scopes []
