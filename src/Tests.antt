-- ===== src/Tests.antt =====
-- A small platform, and the theorems at concrete inputs.
pub mod Toy
pub mod Samples
pub mod Codec
pub mod Index
pub mod Vault
pub mod Session
pub mod Files
pub mod Upgrade
pub mod Reached
pub mod Denied
pub mod Live
pub mod Refine
pub mod Version1
pub mod Cells
pub mod Memory
pub mod Sessions
pub mod Reopened
