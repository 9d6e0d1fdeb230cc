-- ===== src/Vault.antt =====
-- `Vault` of src/vault/facade.rs. The definitions stand in the first modules below, the theorems in
-- the others.
pub mod Keys
pub mod Secrets
pub mod Remove
pub mod Export
pub mod Session
pub mod Store
pub mod Disk
pub mod Stored
pub mod Retrieve
pub mod Failing
pub mod Exported
pub mod Reopen
pub mod Invariant
pub mod Atomic
pub mod Reload
pub mod Rekeyed
pub mod Keeps
pub mod Reached
pub mod Total
pub mod Denied
pub mod Produces
pub mod Represents
pub mod Reading
pub mod Shows
pub mod Fresh
pub mod Callback
pub mod Changed
pub mod Refilled
pub mod Spec
pub mod Simulates
pub mod Refines
pub mod Upgraded
pub mod Typed
pub mod Lock
pub mod Opens
pub mod Sessions
pub mod Reopened
pub mod Rekeys
pub mod Changes
pub mod Counters
pub mod Live
pub mod Sizes
