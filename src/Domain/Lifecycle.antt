-- ===== src/Domain/Lifecycle.antt =====
-- The lifecycle of a device (`DeviceLifecycle` in crates/domain/src/inventory.rs).
pub mod Review
mod Tests
use seven_network_manager.Base.{Bool, false, if◌then◌else◌, true, ℕ, ◌==◌}

pub data DeviceLifecycle : Type 0 where
  discovered pending_review managed unmanaged maintenance retired archived : DeviceLifecycle

-- The derived `PartialEq`.
abbrev pub lifecycle_rank : DeviceLifecycle → ℕ
lifecycle_rank discovered = 0
lifecycle_rank pending_review = 1
lifecycle_rank managed = 2
lifecycle_rank unmanaged = 3
lifecycle_rank maintenance = 4
lifecycle_rank retired = 5
lifecycle_rank archived = 6

abbrev pub lifecycle_eq : DeviceLifecycle → DeviceLifecycle → Bool
lifecycle_eq a b = lifecycle_rank a == lifecycle_rank b

unfoldable pub allows_normal_mutation : DeviceLifecycle → Bool
allows_normal_mutation managed = true
allows_normal_mutation maintenance = true
allows_normal_mutation _ = false

-- The `matches!` over pairs.
abbrev allowed_pair : DeviceLifecycle → DeviceLifecycle → Bool
allowed_pair discovered pending_review = true
allowed_pair discovered unmanaged = true
allowed_pair discovered archived = true
allowed_pair pending_review managed = true
allowed_pair pending_review unmanaged = true
allowed_pair pending_review archived = true
allowed_pair managed maintenance = true
allowed_pair managed unmanaged = true
allowed_pair managed retired = true
allowed_pair unmanaged pending_review = true
allowed_pair unmanaged managed = true
allowed_pair unmanaged retired = true
allowed_pair unmanaged archived = true
allowed_pair maintenance managed = true
allowed_pair maintenance retired = true
allowed_pair retired pending_review = true
allowed_pair retired archived = true
allowed_pair _ _ = false

unfoldable pub can_transition_to : DeviceLifecycle → DeviceLifecycle → Bool
can_transition_to self next = if lifecycle_eq self next then true else allowed_pair self next
