-- ===== src/Outbox.antt =====
-- The transactional outbox (crates/platform-events/src/lib.rs): events that are written beside a
-- mutation, claimed by workers under a lease and delivered at least once.
pub mod Table
pub mod Claim
pub mod Marks
pub mod Dispatch
pub mod Rows
pub mod History
pub mod Safety
pub mod Delivery
pub mod Leases
pub mod Exclusion
pub mod Backoff
mod Tests
