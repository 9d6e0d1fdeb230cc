-- ===== src/Codec/Legacy.antt =====
-- `decode_index_v1` of src/vault/index_codec.rs: the JSON index of format version 1. `serde_json`
-- parses the text, so the definition takes its `from_slice`.
use memseal.Prelude.{ℕ, Bool, true, false, not, Option, none, some, [], ◌∷◌, length, ltb, ◌==◌}
use memseal.Constants.{legacy_index_version_1, max_index_entries}
use memseal.Bytes.{Bytes}
use memseal.Errors.{
  Result, ok, ◌>>=◌, ◌>>◌, fail_if, VaultError, corrupted_data, invalid_index_json,
  unsupported_index_version, entry_count_exceeds, entry_key_not_hex_hmac, entry_missing_ciphertext,
}
use memseal.HashMap.{HashMap, insert}
use memseal.Types.{IndexEntry, IndexData}
use memseal.Codec.Hex.{hex_to_key}
use memseal.Codec.Encode.{ok_or}
use memseal.Codec.Decode.{is_some}
use memseal.Codec.Sizes.{check_entry_sizes}

-- The local `struct Meta` and `struct Index`, without the fields that are ignored.
pub record Meta : Type 0 where
  pub is_dummy : Bool
  pub encrypted_data : Option Bytes
  pub encrypted_name : Option Bytes
  pub data_counter : ℕ

pub record LegacyIndex : Type 0 where
  pub version : ℕ
  pub nonce_counter : ℕ
  pub data_nonce_counter : ℕ
  pub files : HashMap Meta

-- The `let (Some(_), Some(_)) = … else` of the loop, and the entry that it builds.
abbrev pub payload : ℕ → Option Bytes → Option Bytes → Option IndexEntry
payload counter (some name) (some content) =
    some (record { data_counter = counter; encrypted_name = name; encrypted_data = content })
payload counter _ _ = none

-- One entry that is no dummy.
unfoldable pub legacy_entry : Bytes → Meta → Result VaultError IndexEntry
legacy_entry key meta = do
  fail_if (not (is_some (hex_to_key key))) (corrupted_data entry_key_not_hex_hmac)
  entry ←
      ok_or (payload meta.data_counter meta.encrypted_name meta.encrypted_data)
        (corrupted_data entry_missing_ciphertext)
  check_entry_sizes entry
  ok entry

-- The loop; the map it fills is `files`.
unfoldable pub legacy_entries :
    HashMap Meta → HashMap IndexEntry → Result VaultError (HashMap IndexEntry)
legacy_entries [] files = ok files
legacy_entries ((key, meta) ∷ metas) files = elim meta.is_dummy [
  | true ↦ legacy_entries metas files
  | false ↦ (do entry ← legacy_entry key meta; legacy_entries metas (insert key entry files))
]

-- `from_slice` is that of `serde_json`, at the type of the JSON index.
unfoldable pub decode_index_v1 : (Bytes → Option LegacyIndex) → Bytes → Result VaultError IndexData
decode_index_v1 from_slice json = do
  index ← ok_or (from_slice json) (corrupted_data invalid_index_json)
  fail_if (not (index.version == legacy_index_version_1))
      (corrupted_data (unsupported_index_version index.version))
  fail_if (ltb max_index_entries (length index.files))
      (corrupted_data (entry_count_exceeds (length index.files) max_index_entries))
  files ← legacy_entries index.files []
  ok (record {
    nonce_counter = index.nonce_counter;
    data_nonce_counter = index.data_nonce_counter;
    files = files;
  })
