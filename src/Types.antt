-- ===== src/Types.antt =====
-- The structs that the components share: `IndexEntry` and `VaultIndex` (src/vault/vault_index.rs),
-- `LockedSecret` (src/mem/locked_secret.rs), `VaultHeader` (src/vault/vault_header.rs), `IndexData`
-- (src/vault/index_codec.rs) and `Vault` (src/vault/facade.rs).
use memseal.Prelude.{ℕ}
use memseal.Bytes.{Bytes}
use memseal.HashMap.{HashMap}

pub record IndexEntry : Type 0 where
  pub data_counter : ℕ
  pub encrypted_name : Bytes
  pub encrypted_data : Bytes

-- The bytes of the locked region. Memory has the pointer, the lock and the release.
pub record LockedSecret : Type 0 where
  pub region : Bytes

pub record VaultIndex : Type 0 where
  pub nonce : Bytes
  pub nonce_counter : ℕ
  pub data_nonce_counter : ℕ
  pub files : HashMap IndexEntry
  pub enc_key : LockedSecret
  pub hmac_key : LockedSecret

pub record IndexData : Type 0 where
  pub nonce_counter : ℕ
  pub data_nonce_counter : ℕ
  pub files : HashMap IndexEntry

pub record VaultHeader : Type 0 where
  pub version : ℕ
  pub kdf_salt : Bytes
  pub kdf_iterations : ℕ
  pub kdf_memory_cost : ℕ
  pub key_length : ℕ

pub record Vault : Type 0 where
  pub header : VaultHeader
  pub index : VaultIndex
