-- ===== src/Domain/Identifier/Tests.antt =====
-- Runs and instances of the identifier rules.

use seven_network_manager.Base.{refl, ◌≡◌}
use seven_network_manager.Base.Result.{ok}
use seven_network_manager.Base.Text.{codes, is_whitespace, to_ascii_lowercase, trim}
use seven_network_manager.Domain.Identifier.{
  hostname, is_ascii_hexdigit, is_dot, mac, normalize, normalized_of,
}

-- `identifier_normalization_is_stable_across_common_formats`
mac_forms :
    (normalize mac (codes "AA:BB:CC:00:11:22") ≡ ok (codes "aabbcc001122"))
    × (normalize mac (codes "aa-bb-cc-00-11-22") ≡ ok (codes "aabbcc001122"))
    × (normalize hostname (codes "SW-CORE.EXAMPLE.") ≡ ok (codes "sw-core.example"))
unfolding normalize normalized_of trim is_whitespace to_ascii_lowercase is_ascii_hexdigit is_dot
mac_forms = (refl, refl, refl)
