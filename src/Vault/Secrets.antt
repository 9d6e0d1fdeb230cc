-- ===== src/Vault/Secrets.antt =====
-- `decrypt_secret`, `retrieve`, `with_secret` and the reading half of `rekey` of src/vault/facade.rs.
use memseal.Prelude.{Option, none, some}
use memseal.Bytes.{Bytes}
use memseal.Errors.{
  Result, ok, ◌>>=◌, VaultError, corrupted_data, invalid_entry_name, from_index_error,
  from_aead_error, map_err,
}
use memseal.Platform.{Platform}
use memseal.Types.{IndexEntry, Vault}
use memseal.Utf8.{from_utf8}
use memseal.Crypto.Random.{ok_or}
use memseal.Crypto.Aead.{open_with_aad}
use memseal.Index.{lookup_by_key}
use memseal.Index.Keys.{hmac_key_for_name}
use memseal.Vault.Keys.{split_nonce, build_entry_aad, extract_enc_key}

module _ (p : Platform) where
  -- The body behind the lookup, for the entry that it found.
  unfoldable pub decrypt_entry : Vault → Bytes → IndexEntry → Result VaultError (Option Bytes)
  decrypt_entry vault hmac_key entry = do
    (nonce, ciphertext) ← split_nonce entry.encrypted_data
    let entry_aad = build_entry_aad hmac_key entry.data_counter
    enc_key_bytes ← extract_enc_key vault.index.enc_key
    plaintext ← map_err from_aead_error (open_with_aad p enc_key_bytes nonce ciphertext entry_aad)
    ok (some plaintext)

  -- The `match` on the lookup.
  abbrev pub decrypt_looked_up :
      Vault → Bytes → Option IndexEntry → Result VaultError (Option Bytes)
  decrypt_looked_up vault hmac_key none = ok none
  decrypt_looked_up vault hmac_key (some entry) = decrypt_entry vault hmac_key entry

  unfoldable pub decrypt_secret : Vault → Bytes → Result VaultError (Option Bytes)
  decrypt_secret vault name = do
    hmac_key ← map_err from_index_error (hmac_key_for_name p vault.index name)
    decrypt_looked_up vault hmac_key (lookup_by_key vault.index hmac_key)

  unfoldable pub retrieve : Vault → Bytes → Result VaultError (Option Bytes)
  unfolding decrypt_secret
  retrieve vault name = decrypt_secret vault name

  unfoldable pub with_secret :
      {R : Type 0} → Vault → Bytes → (Bytes → R) → Result VaultError (Option R)
  with_secret vault name f = do
    found ← decrypt_secret vault name
    elim found [ some plaintext ↦ ok (some (f plaintext)) | none ↦ ok none ]

  -- The part of the loop of `rekey` that reads one entry: its name and data under the old key.
  unfoldable pub old_plaintexts : Bytes → Bytes → IndexEntry → Result VaultError (Bytes × Bytes)
  old_plaintexts old_enc_key old_hmac_key entry = do
    let old_aad = build_entry_aad old_hmac_key entry.data_counter
    (name_nonce, name_ct) ← split_nonce entry.encrypted_name
    name_bytes ← map_err from_aead_error (open_with_aad p old_enc_key name_nonce name_ct old_aad)
    plaintext_name ← ok_or (from_utf8 name_bytes) (corrupted_data invalid_entry_name)
    (data_nonce, data_ct) ← split_nonce entry.encrypted_data
    plaintext ← map_err from_aead_error (open_with_aad p old_enc_key data_nonce data_ct old_aad)
    ok (plaintext_name, plaintext)
