-- ===== src/Crypto.antt =====
-- src/crypto: randomness from the operating system, and the AEAD with associated data.
pub mod Random
pub mod Aead
