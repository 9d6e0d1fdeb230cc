-- ===== src/Envelope.antt =====
-- `struct Envelope` and `parse_envelope` of src/vault/facade.rs: the part of `open` that runs before
-- any key derivation.
pub mod Bounds
pub mod RoundTrip
pub mod Canonical
use memseal.Prelude.{ℕ, ◌+◌, Bool, ◌&&◌, not, length, take, drop, ltb, ◌==◌, if◌then◌else◌}
use memseal.Constants.{
  legacy_vault_version_1, max_vault_file_size, max_header_json_len, xchacha20_nonce_len,
}
use memseal.Bytes.{Bytes, from_le_bytes, bytes_eq}
use memseal.Errors.{
  Result, ok, err, ◌>>=◌, ◌>>◌, fail_if, VaultError, corrupted_data, vault_data_exceeds,
  data_too_short, header_length_exceeds, data_too_short_for_header, invalid_header_json,
  header_not_canonical, data_too_short_for_legacy_counter,
}
use memseal.Platform.{Platform}
use memseal.Types.{VaultHeader}
use memseal.Crypto.Random.{ok_or}
use memseal.Header.{validate_header, to_aad_bytes}

pub record Envelope : Type 0 where
  pub header : VaultHeader
  pub nonce : Bytes
  pub encrypted_index : Bytes

-- `data[from..to]`
abbrev pub slice : ℕ → ℕ → Bytes → Bytes
slice from to bytes = drop from (take to bytes)

-- `index_start`, with the 8 bytes that format version 1 has behind the nonce.
abbrev pub index_start : VaultHeader → ℕ → ℕ
index_start header after_header =
    if header.version == legacy_vault_version_1
    then after_header + xchacha20_nonce_len + 8
    else after_header + xchacha20_nonce_len

module _ (p : Platform) where
  unfoldable pub parse_envelope : Bytes → Result VaultError Envelope
  parse_envelope bytes = do
    fail_if (ltb max_vault_file_size (length bytes)) (corrupted_data vault_data_exceeds)
    fail_if (ltb (length bytes) 4) (corrupted_data data_too_short)
    let header_len = from_le_bytes (take 4 bytes)
    fail_if (ltb max_header_json_len header_len) (corrupted_data (header_length_exceeds header_len))
    let after_header = 4 + header_len
    fail_if (ltb (length bytes) (after_header + xchacha20_nonce_len))
        (corrupted_data data_too_short_for_header)
    let header_bytes = slice 4 after_header bytes
    header ← ok_or (p.header_from_json header_bytes) (corrupted_data invalid_header_json)
    validate_header header
    canonical ← to_aad_bytes p header
    fail_if (not (bytes_eq header_bytes canonical)) (corrupted_data header_not_canonical)
    let nonce = slice after_header (after_header + xchacha20_nonce_len) bytes
    let start = index_start header after_header
    fail_if (header.version == legacy_vault_version_1 && ltb (length bytes) start)
        (corrupted_data data_too_short_for_legacy_counter)
    ok (record { header = header; nonce = nonce; encrypted_index = drop start bytes })
