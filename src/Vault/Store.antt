-- ===== src/Vault/Store.antt =====
-- `Vault::store` of src/vault/facade.rs. A name is a `str`, by its UTF-8 bytes.
use memseal.Prelude.{◌++◌, length, ltb}
use memseal.Constants.{max_entry_name_len, max_entry_data_size, xchacha20_nonce_len}
use memseal.Bytes.{Bytes}
use memseal.Errors.{
  VaultError, invalid_input, name_too_long, data_too_large, from_index_error, from_aead_error,
  from_random_error, map_err as map_err_result,
}
use memseal.Exec.{Exec, ◌>>=◌, ◌>>◌, fail_if, lift, gets, map_err}
use memseal.Platform.{Platform}
use memseal.Types.{IndexEntry, Vault}
use memseal.Owned.{Owned, on_os, on_self, on_index}
use memseal.Crypto.Random.{secure_bytes_fill}
use memseal.Crypto.Aead.{seal_with_aad}
use memseal.Index.{next_data_nonce_counter, insert_by_key}
use memseal.Index.Keys.{hmac_key_for_name}
use memseal.Vault.Keys.{build_entry_aad, extract_enc_key}

module _ (p : Platform) where
  unfoldable pub store : Bytes → Bytes → Exec (Owned Vault) VaultError (Unit {0})
  store name plaintext = do
    fail_if (ltb max_entry_name_len (length name)) (invalid_input (name_too_long (length name)))
    fail_if (ltb max_entry_data_size (length plaintext))
        (invalid_input (data_too_large (length plaintext)))
    vault ← gets (λ s. s.self)
    hmac_key ← lift (map_err_result from_index_error (hmac_key_for_name p vault.index name))
    data_counter ← map_err from_index_error (on_index (on_self next_data_nonce_counter))
    data_nonce ← map_err from_random_error (on_os (secure_bytes_fill p xchacha20_nonce_len))
    name_nonce ← map_err from_random_error (on_os (secure_bytes_fill p xchacha20_nonce_len))
    let entry_aad = build_entry_aad hmac_key data_counter
    enc_key_bytes ← lift (extract_enc_key vault.index.enc_key)
    ciphertext ← lift (
        map_err_result from_aead_error
          (seal_with_aad p enc_key_bytes data_nonce plaintext entry_aad))
    encrypted_name_ct ←
        lift
          (map_err_result from_aead_error (seal_with_aad p enc_key_bytes name_nonce name entry_aad))
    let entry : IndexEntry = record {
      data_counter = data_counter;
      encrypted_name = name_nonce ++ encrypted_name_ct;
      encrypted_data = data_nonce ++ ciphertext;
    }
    map_err from_index_error (on_index (on_self (insert_by_key hmac_key entry)))
