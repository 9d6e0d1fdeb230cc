-- ===== src/Codec/Encode.antt =====
-- `encode_index` of src/vault/index_codec.rs.
use memseal.Prelude.{ℕ, ◌+◌, Option, none, some, [], ◌∷◌, ◌++◌, length, ltb, if◌then◌else◌}
use memseal.Constants.{u32_max, vault_index_version, index_preamble_len, entry_fixed_len}
use memseal.Bytes.{Bytes, to_le_bytes}
use memseal.Errors.{
  Result, ok, err, ◌>>=◌, Message, VaultError, serialization_error, too_many_entries,
  entry_key_not_hex, entry_name_too_long, entry_data_too_long,
}
use memseal.HashMap.{HashMap}
use memseal.Types.{IndexEntry, VaultIndex}
use memseal.Codec.Hex.{hex_to_key}

-- `u32::try_from(n)` with its `map_err`.
unfoldable pub u32_try_from : ℕ → Message → Result VaultError ℕ
u32_try_from n message = if ltb u32_max n then err (serialization_error message) else ok n

-- `ok_or_else`
abbrev pub ok_or {ℓ} : {A : Type ℓ} → Option A → VaultError → Result VaultError A
ok_or none e = err e
ok_or (some a) e = ok a

-- What the body of the loop appends for one entry.
abbrev pub entry_bytes : Bytes → IndexEntry → Bytes
entry_bytes key e =
    key
    ++ (to_le_bytes 8 e.data_counter
        ++ (to_le_bytes 4 (length e.encrypted_name)
            ++ (e.encrypted_name ++ (to_le_bytes 4 (length e.encrypted_data) ++ e.encrypted_data))))

-- One round of the loop: the checks, then the six writes to `out`.
unfoldable pub encode_entry : Bytes → IndexEntry → Bytes → Result VaultError Bytes
encode_entry hex_key e out = do
  key ← ok_or (hex_to_key hex_key) (serialization_error entry_key_not_hex)
  name_len ← u32_try_from (length e.encrypted_name) entry_name_too_long
  data_len ← u32_try_from (length e.encrypted_data) entry_data_too_long
  let out1 = out ++ key
  let out2 = out1 ++ to_le_bytes 8 e.data_counter
  let out3 = out2 ++ to_le_bytes 4 name_len
  let out4 = out3 ++ e.encrypted_name
  let out5 = out4 ++ to_le_bytes 4 data_len
  ok (out5 ++ e.encrypted_data)

unfoldable pub encode_entries : HashMap IndexEntry → Bytes → Result VaultError Bytes
encode_entries [] out = ok out
encode_entries ((hex_key, e) ∷ files) out = do
  out' ← encode_entry hex_key e out
  encode_entries files out'

unfoldable pub encode_index : VaultIndex → Result VaultError Bytes
encode_index index = do
  entry_count ← u32_try_from (length index.files) too_many_entries
  let out1 = to_le_bytes 2 vault_index_version
  let out2 = out1 ++ to_le_bytes 8 index.nonce_counter
  let out3 = out2 ++ to_le_bytes 8 index.data_nonce_counter
  let out4 = out3 ++ to_le_bytes 4 entry_count
  encode_entries index.files out4

-- The `total` that `encode_index` computes up front.
abbrev pub entries_total : HashMap IndexEntry → ℕ
entries_total [] = 0
entries_total ((_, e) ∷ files) =
    entry_fixed_len + length e.encrypted_name + length e.encrypted_data + entries_total files

unfoldable pub encoded_total : VaultIndex → ℕ
encoded_total index = index_preamble_len + entries_total index.files
