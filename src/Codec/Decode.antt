-- ===== src/Codec/Decode.antt =====
-- `decode_index` of src/vault/index_codec.rs.
use memseal.Prelude.{
  ℕ, zero, suc, ◌*◌, Bool, true, false, ◌&&◌, not, Option, none, some, [], ltb, leb, ◌==◌,
}
use memseal.Constants.{
  vault_index_version, max_index_entries, entry_key_len, min_encrypted_len, max_encrypted_name_len,
  max_encrypted_data_len, min_entry_len,
}
use memseal.Bytes.{Bytes}
use memseal.Errors.{
  Result, ok, ◌>>=◌, ◌>>◌, fail_if, What, VaultError, corrupted_data, unsupported_index_version,
  entry_count_exceeds, index_declares, name_ciphertext_outside, data_ciphertext_outside,
  duplicate_entry_key, trailing_bytes,
}
use memseal.HashMap.{HashMap, get, insert}
use memseal.Types.{IndexEntry, IndexData}
use memseal.Codec.Hex.{key_to_hex}
use memseal.Codec.Reader.{Reader, Read, remaining, take, u16, u32, u64}

-- `!(lo..=hi).contains(&n)`
abbrev pub outside : ℕ → ℕ → ℕ → Bool
outside lo hi n = not (leb lo n && leb n hi)

-- `Option::is_some`
abbrev pub is_some {ℓ} : {A : Type ℓ} → Option A → Bool
is_some none = false
is_some (some a) = true

-- The body of the loop, up to the insertion.
unfoldable pub read_entry : Reader → Read (Bytes × IndexEntry)
read_entry r0 = do
  (key, r1) ← take entry_key_len What.entry_key r0
  (data_counter, r2) ← u64 What.entry_data_counter r1
  (name_len, r3) ← u32 What.entry_name_length r2
  fail_if (outside min_encrypted_len max_encrypted_name_len name_len)
      (corrupted_data (name_ciphertext_outside name_len))
  (encrypted_name, r4) ← take name_len What.entry_name_ciphertext r3
  (data_len, r5) ← u32 What.entry_data_length r4
  fail_if (outside min_encrypted_len max_encrypted_data_len data_len)
      (corrupted_data (data_ciphertext_outside data_len))
  (encrypted_data, r6) ← take data_len What.entry_data_ciphertext r5
  let entry : IndexEntry = record {
    data_counter = data_counter;
    encrypted_name = encrypted_name;
    encrypted_data = encrypted_data;
  }
  ok ((key, entry), r6)

-- `for _ in 0..entry_count`
unfoldable pub read_entries : ℕ → HashMap IndexEntry → Reader → Read (HashMap IndexEntry)
read_entries zero files r = ok (files, r)
read_entries (suc n) files r = do
  ((key, entry), r') ← read_entry r
  fail_if (is_some (get (key_to_hex key) files)) (corrupted_data duplicate_entry_key)
  read_entries n (insert (key_to_hex key) entry files) r'

unfoldable pub decode_index : Bytes → Result VaultError IndexData
decode_index bytes = do
  let r0 : Reader = record { buf = bytes; pos = 0 }
  (version, r1) ← u16 What.version r0
  fail_if (not (version == vault_index_version))
      (corrupted_data (unsupported_index_version version))
  (nonce_counter, r2) ← u64 What.nonce_counter r1
  (data_nonce_counter, r3) ← u64 What.data_nonce_counter r2
  (entry_count, r4) ← u32 What.entry_count r3
  fail_if (ltb max_index_entries entry_count)
      (corrupted_data (entry_count_exceeds entry_count max_index_entries))
  fail_if (ltb (remaining r4) (entry_count * min_entry_len))
      (corrupted_data (index_declares entry_count (remaining r4)))
  (files, r5) ← read_entries entry_count [] r4
  fail_if (not (remaining r5 == 0)) (corrupted_data (trailing_bytes (remaining r5)))
  ok (record {
    nonce_counter = nonce_counter;
    data_nonce_counter = data_nonce_counter;
    files = files;
  })
