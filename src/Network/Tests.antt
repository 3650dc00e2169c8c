-- ===== src/Network/Tests.antt =====
-- Runs and instances of the network policies.

use seven_network_manager.Base.{false, refl, true, ◌*◌, ◌+◌, ◌^◌, ◌↔◌, ◌≡◌}
use seven_network_manager.Network.{
  allows, is_link_local, is_loopback, is_private, is_unicast_link_local, is_unique_local, v4, v6,
}
use seven_network_manager.Network.Classes.{IsLocal, allows_iff_IsLocal}

-- 8.8.8.8, 10.0.0.1 and fd00::1 (`default_policy_rejects_public_targets`)
default_targets :
    (allows (record { allow_public_targets = false }) (v4 0x08080808) ≡ false)
    × (allows (record { allow_public_targets = false }) (v4 0x0A000001) ≡ true)
    × (allows (record { allow_public_targets = false }) (v6 (0xFD00 * 2 ^ 112 + 1)) ≡ true)
unfolding allows is_private is_loopback is_link_local is_unicast_link_local is_unique_local
default_targets = (refl, refl, refl)

allows_iff_IsLocal_example :
    (allows (record { allow_public_targets = false }) (v4 0x0A000001) ≡ true)
    ↔ IsLocal (v4 0x0A000001)
allows_iff_IsLocal_example =
    allows_iff_IsLocal (record { allow_public_targets = false }) (v4 0x0A000001) refl
