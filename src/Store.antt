-- ===== src/Store.antt =====
-- PlatformStorage/PlatformPersistence: the control plane's state, held in memory.
pub mod Records
pub mod Payloads
pub mod State
pub mod Jobs
pub mod Containers
pub mod Registry
pub mod Publications
pub mod Calls
pub mod JobLog
pub mod Claims
pub mod Isolation
pub mod Bindings
pub mod JobIds
pub mod RegistryLaws
mod Examples
