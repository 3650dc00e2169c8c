-- ===== src/ServiceAccounts.antt =====
-- Service accounts and their credentials (crates/identity-store/src/lib.rs).
pub mod Inputs
pub mod Store
pub mod Tokens
pub mod Permissions
pub mod Admission
pub mod Disabled
pub mod Shut
mod Tests
