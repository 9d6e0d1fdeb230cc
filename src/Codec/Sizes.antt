-- ===== src/Codec/Sizes.antt =====
-- The size limits of a stored entry, and `check_entry_sizes` of src/vault/index_codec.rs.
use memseal.Prelude.{ℕ, ◌≤◌, ◌≡◌, false, length, arith}
use memseal.Constants.{u64_max, min_encrypted_len, max_encrypted_name_len, max_encrypted_data_len}
use memseal.Errors.{
  Result, ◌>>◌, fail_if, VaultError, corrupted_data, name_ciphertext_outside,
  data_ciphertext_outside,
}
use memseal.Types.{IndexEntry}
use memseal.Codec.Decode.{outside}

unfoldable pub check_entry_sizes : IndexEntry → Result VaultError (Unit {0})
check_entry_sizes entry = do
  let name_len = length entry.encrypted_name
  fail_if (outside min_encrypted_len max_encrypted_name_len name_len)
      (corrupted_data (name_ciphertext_outside name_len))
  let data_len = length entry.encrypted_data
  fail_if (outside min_encrypted_len max_encrypted_data_len data_len)
      (corrupted_data (data_ciphertext_outside data_len))

-- Both ciphertexts have a length that `store` can produce.
pub record HasValidSizes (e : IndexEntry) : Type 0 where
  pub name_lo : min_encrypted_len ≤ length e.encrypted_name
  pub name_hi : length e.encrypted_name ≤ max_encrypted_name_len
  pub data_lo : min_encrypted_len ≤ length e.encrypted_data
  pub data_hi : length e.encrypted_data ≤ max_encrypted_data_len

-- An entry that the binary format can hold: its sizes are valid and its counter is a `u64`.
pub record IsStorable (e : IndexEntry) : Type 0 where
  pub counter : e.data_counter ≤ u64_max
  pub sizes : HasValidSizes e

pub inside : (lo hi n : ℕ) → lo ≤ n → n ≤ hi → outside lo hi n ≡ false
inside lo hi n h k = ground arith

pub inside-inv : (lo hi n : ℕ) → outside lo hi n ≡ false → (lo ≤ n) × (n ≤ hi)
inside-inv lo hi n h = ground arith
