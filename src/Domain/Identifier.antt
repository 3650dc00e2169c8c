-- ===== src/Domain/Identifier.antt =====
-- The identifiers of a device and their normal form (`IdentifierKind` and `DeviceIdentifier` in
-- crates/domain/src/inventory.rs).
pub mod Normal
mod Tests
use seven_network_manager.Base.{
  Bool, arith, if◌then◌else◌, is_empty, keep, leb, map, true, ℕ, ◌&&◌, ◌==◌, ◌||◌, ◌↔◌, ◌≡◌,
}
use seven_network_manager.Base.Result.{Result, err, ok}
use seven_network_manager.Base.Text.{
  Text, drop_end_while, text_eq, text_eq_iff, to_ascii_lowercase, trim,
}

pub data IdentifierStrength : Type 0 where
  strong weak : IdentifierStrength

pub data IdentifierKind : Type 0 where
  serial mac hostname snmp_engine_id provider_native_id asset_tag : IdentifierKind

unfoldable pub strength : IdentifierKind → IdentifierStrength
strength serial = strong
strength mac = strong
strength snmp_engine_id = strong
strength provider_native_id = strong
strength hostname = weak
strength asset_tag = weak

-- `char::is_ascii_hexdigit`
unfoldable pub is_ascii_hexdigit : ℕ → Bool
is_ascii_hexdigit c =
    (leb b'0' c && leb c b'9') || (leb b'A' c && leb c b'F') || (leb b'a' c && leb c b'f')

-- The two messages of `normalize`.
pub data IdentifierError : Type 0 where
  value_required invalid_after_normalization : IdentifierError

unfoldable pub is_dot : ℕ → Bool
is_dot c = c == b'.'

-- The `match self` of `normalize`, on the trimmed value.
unfoldable pub normalized_of : IdentifierKind → Text → Text
normalized_of mac value = map to_ascii_lowercase (keep is_ascii_hexdigit value)
normalized_of snmp_engine_id value = map to_ascii_lowercase (keep is_ascii_hexdigit value)
normalized_of hostname value = map to_ascii_lowercase (drop_end_while is_dot value)
normalized_of serial value = map to_ascii_lowercase value
normalized_of provider_native_id value = map to_ascii_lowercase value
normalized_of asset_tag value = map to_ascii_lowercase value

unfoldable pub normalize : IdentifierKind → Text → Result IdentifierError Text
normalize kind value =
    let value = trim value in
    if is_empty value
    then err value_required
    else let normalized = normalized_of kind value in
      if is_empty normalized then err invalid_after_normalization else ok normalized

pub record DeviceIdentifier : Type 0 where
  pub kind : IdentifierKind
  pub value : Text

abbrev pub kind_rank : IdentifierKind → ℕ
kind_rank serial = 0
kind_rank mac = 1
kind_rank hostname = 2
kind_rank snmp_engine_id = 3
kind_rank provider_native_id = 4
kind_rank asset_tag = 5

-- The derived `PartialEq`s.
abbrev pub kind_eq : IdentifierKind → IdentifierKind → Bool
kind_eq a b = kind_rank a == kind_rank b

unfoldable pub identifier_eq : DeviceIdentifier → DeviceIdentifier → Bool
identifier_eq a b = kind_eq a.kind b.kind && text_eq a.value b.value

pub identifier_eq_iff :
    (a b : DeviceIdentifier)
    → (identifier_eq a b ≡ true) ↔ ((a.kind ≡ b.kind) × (a.value ≡ b.value))
unfolding identifier_eq
identifier_eq_iff a b = ground (arith, text_eq_iff a.value b.value)
