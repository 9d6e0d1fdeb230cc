-- ===== src/Vault/Session.antt =====
-- `Vault::create`, `open`, `rekey` and `change_password` of src/vault/facade.rs.
use memseal.Prelude.{[], ◌∷◌, ◌==◌, if◌then◌else◌}
use memseal.Constants.{legacy_vault_version_1}
use memseal.Bytes.{Bytes}
use memseal.Errors.{
  Result, ok, err, VaultError, invalid_password, from_index_error, map_err as map_err_result,
}
use memseal.Exec.{Exec, ◌>>=◌, ◌>>◌, lift, gets, modify, map_err, pure}
use memseal.HashMap.{HashMap}
use memseal.Platform.{Platform, Os}
use memseal.Types.{IndexEntry, IndexData, VaultHeader, Vault}
use memseal.Owned.{Owned, on_os}
use memseal.Codec.Decode.{decode_index}
use memseal.Codec.Legacy.{decode_index_v1}
use memseal.Crypto.Aead.{open_with_aad}
use memseal.Header.{generate, to_aad_bytes}
use memseal.Envelope.{parse_envelope}
use memseal.Index.{from_master_key, from_subkeys_and_data}
use memseal.Index.Keys.{derive_subkeys}
use memseal.Vault.Keys.{validate_password, derive_master_key, verify_password, extract_enc_key}
use memseal.Vault.Secrets.{old_plaintexts}
use memseal.Vault.Store.{store}

-- `Ok(value)` where the step succeeded.
abbrev pub map_ok : {A : Type 0} → Result VaultError (Unit {0}) → A → Result VaultError A
map_ok (ok u) a = ok a
map_ok (err e) a = err e

module _ (p : Platform) where
  -- `VaultHeader::generate`, the master key and the empty index of a new vault.
  unfoldable pub fresh_vault : Bytes → Exec Os VaultError Vault
  fresh_vault password = do
    header ← generate p
    master_key ← lift (derive_master_key p password header)
    index ← map_err from_index_error (from_master_key p master_key header.kdf_salt)
    pure (record { header = header; index = index })

  unfoldable pub create : Bytes → Exec Os VaultError Vault
  create password = do lift (validate_password password); fresh_vault password

  -- The loop of `rekey`; the state is `new_vault`.
  unfoldable pub rekey_entries :
      Bytes → HashMap IndexEntry → Exec (Owned Vault) VaultError (Unit {0})
  rekey_entries old_enc_key [] = pure tt
  rekey_entries old_enc_key ((old_hmac_key, entry) ∷ files) = do
    (name, plaintext) ← lift (old_plaintexts p old_enc_key old_hmac_key entry)
    store p name plaintext
    rekey_entries old_enc_key files

  -- `self` is replaced by `new_vault` only if every entry has been re-encrypted.
  unfoldable pub rekey : Bytes → Exec (Owned Vault) VaultError (Unit {0})
  rekey password = do
    new_vault ← on_os (fresh_vault password)
    old ← gets (λ s. s.self)
    old_enc_key ← lift (extract_enc_key old.index.enc_key)
    rekeyed ← on_os (λ os.
        let (r, s) =
          rekey_entries old_enc_key old.index.files (record { self = new_vault; os = os }) in
        (map_ok r s.self, s.os))
    modify (λ s. record s { self = rekeyed })

  unfoldable pub change_password : Bytes → Bytes → Exec (Owned Vault) VaultError (Unit {0})
  change_password current_password new_password = do
    lift (validate_password new_password)
    vault ← gets (λ s. s.self)
    lift (verify_password p vault current_password)
    rekey new_password

  -- The choice of the decoder by the format version.
  unfoldable pub decode_for : VaultHeader → Bytes → Result VaultError IndexData
  decode_for header index_bytes =
      if header.version == legacy_vault_version_1
      then decode_index_v1 p.index_from_json index_bytes
      else decode_index index_bytes

  -- The vault that a file holds, before a version 1 vault is re-keyed.
  unfoldable pub open_envelope : Bytes → Bytes → Exec Os VaultError Vault
  open_envelope password bytes = do
    envelope ← lift (parse_envelope p bytes)
    let header = envelope.header
    master_key ← lift (derive_master_key p password header)
    (enc_sub, hmac_sub) ←
        lift (map_err_result from_index_error (derive_subkeys p master_key header.kdf_salt))
    aad ← lift (to_aad_bytes p header)
    index_bytes ← lift (
        map_err_result (λ _. invalid_password)
          (open_with_aad p enc_sub envelope.nonce envelope.encrypted_index aad))
    idx_data ← lift (decode_for header index_bytes)
    index ← map_err from_index_error (
        from_subkeys_and_data p enc_sub hmac_sub envelope.nonce idx_data.nonce_counter
          idx_data.data_nonce_counter idx_data.files)
    pure (record { header = header; index = index })

  unfoldable pub open_vault : Bytes → Bytes → Exec Os VaultError Vault
  open_vault password bytes = do
    vault ← open_envelope password bytes
    if vault.header.version == legacy_vault_version_1
        then (λ os.
            let (r, s) = rekey password (record { self = vault; os = os }) in
            (map_ok r s.self, s.os))
        else pure vault
