-- ===== src/Header.antt =====
-- `VaultHeader::new`, `to_aad_bytes` and `generate` of src/vault/vault_header.rs, and
-- `validate_header` of src/vault/facade.rs.
use memseal.Prelude.{ℕ, Bool, false, not, ◌||◌, List, [], ◌∷◌, ltb, ◌==◌, if◌then◌else◌}
use memseal.Constants.{
  vault_version, supported_vault_versions, iterations, memory_cost, key_len, salt_len,
  max_kdf_memory, min_kdf_memory, max_kdf_iterations, min_kdf_iterations,
}
use memseal.Bytes.{Bytes}
use memseal.Errors.{
  Result, VaultError, corrupted_data, crypto_error, from_random_error, header_aad_failed,
  unsupported_vault_version, memory_cost_out_of_range, iterations_out_of_range, invalid_key_length,
  Message, ok, err,
}
use memseal.Exec.{Exec, ◌>>=◌, map_err, pure}
use memseal.Platform.{Platform, Os}
use memseal.Types.{VaultHeader}
use memseal.Crypto.Random.{secure_bytes_fill, ok_or}

abbrev pub new : Bytes → ℕ → ℕ → ℕ → VaultHeader
new kdf_salt kdf_iterations kdf_memory_cost key_length = record {
  version = vault_version;
  kdf_salt = kdf_salt;
  kdf_iterations = kdf_iterations;
  kdf_memory_cost = kdf_memory_cost;
  key_length = key_length;
}

module _ (p : Platform) where
  unfoldable pub to_aad_bytes : VaultHeader → Result VaultError Bytes
  to_aad_bytes header = ok_or (p.header_to_json header) (crypto_error header_aad_failed)

  unfoldable pub generate : Exec Os VaultError VaultHeader
  generate = do
    kdf_salt ← map_err from_random_error (secure_bytes_fill p salt_len)
    pure (new kdf_salt iterations memory_cost key_len)

-- `if test { return Err(CorruptedData(…)) }` before the rest.
abbrev check : Bool → Message → Result VaultError (Unit {0}) → Result VaultError (Unit {0})
check test message rest = if test then err (corrupted_data message) else rest

abbrev contains : ℕ → List ℕ → Bool
contains v [] = false
contains v (x ∷ xs) = v == x || contains v xs

unfoldable pub validate_header : VaultHeader → Result VaultError (Unit {0})
validate_header header =
    check (not (contains header.version supported_vault_versions))
      (unsupported_vault_version header.version)
      (check
        (ltb max_kdf_memory header.kdf_memory_cost || ltb header.kdf_memory_cost min_kdf_memory)
        (memory_cost_out_of_range header.kdf_memory_cost)
        (check
          (ltb max_kdf_iterations header.kdf_iterations
            || ltb header.kdf_iterations min_kdf_iterations)
          (iterations_out_of_range header.kdf_iterations)
          (check (not (header.key_length == key_len)) (invalid_key_length header.key_length)
            (ok tt))))
