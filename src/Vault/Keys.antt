-- ===== src/Vault/Keys.antt =====
-- The private helpers of src/vault/facade.rs: the input checks, nonce prefixes, associated data and
-- keys.
use memseal.Prelude.{ℕ, not, ◌++◌, length, take, drop, ltb, ◌==◌, if◌then◌else◌}
use memseal.Constants.{
  legacy_vault_version_1, min_password_len, max_vault_file_size, xchacha20_nonce_len, key_len,
}
use memseal.Bytes.{Bytes, to_le_bytes}
use memseal.Errors.{
  Result, ok, err, ◌>>=◌, ◌>>◌, fail_if, VaultError, invalid_input, corrupted_data, crypto_error,
  serialization_error, invalid_password, password_too_short, export_too_large,
  entry_too_short_for_nonce, subkey_length, argon2i_failed, argon2id_parameters, argon2id_failed,
  map_err, from_index_error,
}
use memseal.Platform.{Platform}
use memseal.Types.{LockedSecret, VaultHeader, Vault}
use memseal.Crypto.Random.{ok_or}
use memseal.Secret.{with_bytes}
use memseal.Index.Keys.{derive_subkeys}

unfoldable pub validate_password : Bytes → Result VaultError (Unit {0})
validate_password password =
    if ltb (length password) min_password_len then err (invalid_input password_too_short) else ok tt

unfoldable pub validate_export_size : ℕ → Result VaultError (Unit {0})
validate_export_size len =
    if ltb max_vault_file_size len then err (serialization_error (export_too_large len)) else ok tt

-- The nonce prefix and the ciphertext.
unfoldable pub split_nonce : Bytes → Result VaultError (Bytes × Bytes)
split_nonce blob =
    if ltb (length blob) xchacha20_nonce_len
    then err (corrupted_data entry_too_short_for_nonce)
    else ok (take xchacha20_nonce_len blob, drop xchacha20_nonce_len blob)

unfoldable pub build_entry_aad : Bytes → ℕ → Bytes
build_entry_aad hmac_key counter = hmac_key ++ to_le_bytes 8 counter

unfoldable pub extract_enc_key : LockedSecret → Result VaultError Bytes
extract_enc_key enc_secret = with_bytes enc_secret λ bytes.
    if not (length bytes == 32) then err (crypto_error (subkey_length (length bytes))) else ok bytes

module _ (p : Platform) where
  unfoldable pub derive_master_key : Bytes → VaultHeader → Result VaultError Bytes
  derive_master_key password header =
      if header.version == legacy_vault_version_1
      then ok_or
          (p.argon2i password header.kdf_salt header.kdf_iterations header.kdf_memory_cost key_len)
          (crypto_error argon2i_failed)
      else (do
        fail_if (not (p.argon2_params header.kdf_memory_cost header.kdf_iterations 1 key_len))
            (crypto_error argon2id_parameters)
        ok_or
            (p.argon2id password header.kdf_salt header.kdf_memory_cost header.kdf_iterations 1
              key_len)
            (crypto_error argon2id_failed))

  unfoldable pub verify_password : Vault → Bytes → Result VaultError (Unit {0})
  verify_password vault password = do
    master_key ← derive_master_key password vault.header
    (enc_sub, hmac_sub) ←
        map_err from_index_error (derive_subkeys p master_key vault.header.kdf_salt)
    with_bytes vault.index.enc_key
        λ stored. if p.secure_cmp stored enc_sub then ok tt else err invalid_password
