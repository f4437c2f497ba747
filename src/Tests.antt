-- ===== src/Tests.antt =====
-- Runs of the model at concrete inputs, and an instance of each theorem at such inputs.
pub mod Store
pub mod Manage
pub mod Assets
pub mod Revisions
pub mod Scripts
pub mod Stores
pub mod Loads
pub mod Logins
pub mod Flows
