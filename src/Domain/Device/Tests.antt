-- ===== src/Domain/Device/Tests.antt =====
-- Runs of the merge decision.

use seven_network_manager.Base.{[], false, none, refl, ◌↔◌, ◌∷◌, ◌≡◌}
use seven_network_manager.Base.Text.{codes, text_eq}
use seven_network_manager.Domain.Lifecycle.{discovered, retired}
use seven_network_manager.Domain.Identifier.{identifier_eq, serial}
use seven_network_manager.Domain.Device.{
  DeviceRecord, can_auto_merge_with, decide_merge, different_resource, same_resource, shares,
}
use seven_network_manager.Domain.Device.Merge.{Mergeable, decide_merge_same}

abbrev switch_record : DeviceRecord
switch_record = record {
  id = 1;
  organization_id = 10;
  site_id = 20;
  routing_domain_id = none;
  lifecycle = discovered;
  display_name = none;
  identifiers = record { kind = serial; value = codes "A-1" } ∷ [];
  version = 1;
}

-- `retired_device_cannot_be_auto_merged`, `same_identifier_does_not_cross_organization_boundary`
merges :
    (decide_merge switch_record (record switch_record { id = 2 }) ≡ same_resource)
    × (can_auto_merge_with (record switch_record { lifecycle = retired }) switch_record ≡ false)
    × (decide_merge switch_record (record switch_record { organization_id = 11 })
        ≡ different_resource)
unfolding decide_merge shares identifier_eq text_eq
merges = (refl, refl, refl)

decide_merge_same_example :
    (decide_merge switch_record (record switch_record { id = 2 }) ≡ same_resource)
    ↔ Mergeable switch_record (record switch_record { id = 2 })
decide_merge_same_example = decide_merge_same switch_record (record switch_record { id = 2 })
