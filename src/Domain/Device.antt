-- ===== src/Domain/Device.antt =====
-- Whether two device records describe one device (`DeviceRecord` and `decide_merge` in
-- crates/domain/src/inventory.rs). The set of identifiers is a list that is only searched. The
-- fields `vendor` and `model`, with their floating-point confidence, are left out: nothing here
-- reads them.
pub mod Merge
mod Tests
use seven_network_manager.Base.{
  Bool, List, Option, any, false, if◌then◌else◌, not, true, ℕ, ◌&&◌, ◌==◌, ◌||◌,
}
use seven_network_manager.Base.Text.{Text}
use seven_network_manager.Domain.Lifecycle.{DeviceLifecycle, archived, lifecycle_eq, retired}
use seven_network_manager.Domain.Identifier.{
  DeviceIdentifier, IdentifierKind, asset_tag, hostname, identifier_eq, mac, provider_native_id,
  serial, snmp_engine_id,
}

pub record DeviceRecord : Type 0 where
  pub id : ℕ
  pub organization_id : ℕ
  pub site_id : ℕ
  pub routing_domain_id : Option ℕ
  pub lifecycle : DeviceLifecycle
  pub display_name : Option Text
  pub identifiers : List DeviceIdentifier
  pub version : ℕ

-- `BTreeSet::contains`
abbrev pub holds : List DeviceIdentifier → DeviceIdentifier → Bool
holds ids i = any (λ j. identifier_eq i j) ids

-- The `matches!` on the four strong kinds, and that on the two weak ones.
abbrev pub is_stable_kind : IdentifierKind → Bool
is_stable_kind serial = true
is_stable_kind mac = true
is_stable_kind snmp_engine_id = true
is_stable_kind provider_native_id = true
is_stable_kind _ = false

abbrev pub is_weak_kind : IdentifierKind → Bool
is_weak_kind hostname = true
is_weak_kind asset_tag = true
is_weak_kind _ = false

-- Some identifier of the first set, of a kind that passes, is in the second.
unfoldable pub shares :
    (IdentifierKind → Bool) → List DeviceIdentifier → List DeviceIdentifier → Bool
shares passes mine theirs = any (λ i. passes i.kind && holds theirs i) mine

unfoldable pub has_stable_match_with : DeviceRecord → DeviceRecord → Bool
has_stable_match_with self other =
    if not (self.organization_id == other.organization_id) || not (self.site_id == other.site_id)
    then false
    else shares is_stable_kind self.identifiers other.identifiers

unfoldable pub can_auto_merge_with : DeviceRecord → DeviceRecord → Bool
unfolding has_stable_match_with
can_auto_merge_with self other =
    has_stable_match_with self other
    && not (lifecycle_eq self.lifecycle retired)
    && not (lifecycle_eq other.lifecycle retired)
    && not (lifecycle_eq self.lifecycle archived)
    && not (lifecycle_eq other.lifecycle archived)

pub data MergeDecision : Type 0 where
  same_resource requires_review different_resource : MergeDecision

unfoldable pub decide_merge : DeviceRecord → DeviceRecord → MergeDecision
unfolding can_auto_merge_with
decide_merge left right =
    if can_auto_merge_with left right
    then same_resource
    else if left.organization_id == right.organization_id && left.site_id == right.site_id
    then (if shares is_weak_kind left.identifiers right.identifiers
        then requires_review
        else different_resource)
    else different_resource
