-- ===== src/Vault/Export.antt =====
-- `Vault::export` of src/vault/facade.rs.
use memseal.Prelude.{◌++◌, ◌%◌, ◌^◌, length}
use memseal.Bytes.{Bytes, to_le_bytes}
use memseal.Errors.{
  VaultError, serialization_error, header_json_failed, from_index_error, from_aead_error,
  map_err as map_err_result,
}
use memseal.Exec.{Exec, ◌>>=◌, ◌>>◌, lift, gets, map_err, pure}
use memseal.Platform.{Platform}
use memseal.Types.{Vault}
use memseal.Owned.{Owned, on_index}
use memseal.Codec.Encode.{encode_index}
use memseal.Crypto.Random.{ok_or}
use memseal.Crypto.Aead.{seal_with_aad}
use memseal.Header.{to_aad_bytes}
use memseal.Index.{advance_nonce}
use memseal.Vault.Keys.{extract_enc_key, validate_export_size}

-- `(len as u32).to_le_bytes()`, the header, the nonce and the sealed index.
abbrev pub envelope_bytes : Bytes → Bytes → Bytes → Bytes
envelope_bytes header_json nonce encrypted_index =
    to_le_bytes 4 (length header_json % 2 ^ 32) ++ (header_json ++ (nonce ++ encrypted_index))

module _ (p : Platform) where
  unfoldable pub export : Exec (Owned Vault) VaultError Bytes
  export = do
    map_err from_index_error (on_index (advance_nonce p))
    vault ← gets (λ s. s.self)
    header_json ←
        lift (ok_or (p.header_to_json vault.header) (serialization_error header_json_failed))
    index_bytes ← lift (encode_index vault.index)
    enc_key_bytes ← lift (extract_enc_key vault.index.enc_key)
    aad ← lift (to_aad_bytes p vault.header)
    encrypted_index ← lift (
        map_err_result from_aead_error
          (seal_with_aad p enc_key_bytes vault.index.nonce index_bytes aad))
    let output = envelope_bytes header_json vault.index.nonce encrypted_index
    lift (validate_export_size (length output))
    pure output
