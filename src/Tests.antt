-- ===== src/Tests.antt =====
-- Theorems applied at concrete worlds, services and stores.
pub mod Coding
pub mod Fixtures
pub mod Sessions
pub mod Accounts
pub mod Stores
pub mod Servers
pub mod Databases
