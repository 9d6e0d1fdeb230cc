-- ===== src/Codec.antt =====
-- src/vault/index_codec.rs: the entry-key hex form, the binary index and the JSON index of format
-- version 1, each in a module below.
pub mod Hex
pub mod Encode
pub mod Reader
pub mod Decode
pub mod Layout
pub mod Sizes
pub mod RoundTrip
pub mod ReadBack
pub mod Canonical
pub mod Failures
pub mod Legacy
pub mod Upgrade
