-- ===== src/Envelope/Bounds.antt =====
-- What `validate_header` of src/vault/facade.rs accepts.
use memseal.Prelude.{◌≤◌, ◌≡◌, ◌⊎◌, ◌↔◌, arith}
use memseal.Constants.{
  max_kdf_memory, min_kdf_memory, max_kdf_iterations, min_kdf_iterations, key_len, vault_version,
  legacy_vault_version_1,
}
use memseal.Errors.{ok}
use memseal.Types.{VaultHeader}
use memseal.Header.{validate_header}

-- A header of a known format version, with KDF parameters in the accepted ranges and 32-byte keys.
pub record IsAccepted (h : VaultHeader) : Type 0 where
  pub version : (h.version ≡ legacy_vault_version_1) ⊎ (h.version ≡ vault_version)
  pub memory_lo : min_kdf_memory ≤ h.kdf_memory_cost
  pub memory_hi : h.kdf_memory_cost ≤ max_kdf_memory
  pub iterations_lo : min_kdf_iterations ≤ h.kdf_iterations
  pub iterations_hi : h.kdf_iterations ≤ max_kdf_iterations
  pub key : h.key_length ≡ key_len

-- `validate_header` accepts a header if and only if its version is 1 or 2, its memory cost and
-- iterations are in the accepted ranges and its key length is 32.
pub validate_header-IsAccepted : (h : VaultHeader) → (validate_header h ≡ ok tt) ↔ IsAccepted h
unfolding validate_header
validate_header-IsAccepted h = (there, back)
  where
    there : validate_header h ≡ ok tt → IsAccepted h
    there e = ground arith

    back : IsAccepted h → validate_header h ≡ ok tt
    back a =
        ground (arith, a.version, a.memory_lo, a.memory_hi, a.iterations_lo, a.iterations_hi, a.key)
