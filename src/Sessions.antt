-- ===== src/Sessions.antt =====
-- Sessions of the backend's users (apps/backend/src/auth.rs).
pub mod Tables
pub mod Service
pub mod Login
pub mod Refresh
pub mod Bootstrap
pub mod Families
pub mod Rows
pub mod Outcomes
pub mod Live
pub mod Replay
pub mod Access
pub mod Rotation
pub mod Refusal
pub mod Cookies
pub mod Http
pub mod RoundTrip
pub mod Csrf
pub mod Machine
pub mod Refinement
pub mod Verified
mod Sample
mod Tests
