-- ===== src/Platform.antt =====
-- server/internal/platform: the service and its handlers.
pub mod World
pub mod State
pub mod Permissions
pub mod Wire
pub mod Proof
pub mod Session
pub mod Auth
pub mod Devices
pub mod Admission
pub mod Ice
pub mod Lists
pub mod Signalling
pub mod Server
pub mod Moves
pub mod Step
