-- ===== src/Domain.antt =====
-- The pure domain rules of crates/domain.
pub mod Change
pub mod Lifecycle
pub mod Trial
pub mod Identifier
pub mod Device
pub mod Monitoring
