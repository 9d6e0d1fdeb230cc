-- ===== src/Tests/Version1.antt =====
-- A file of format version 1, opened.
use memseal.Prelude.{◌≡◌, refl, false, some, [], ◌∷◌, ◌++◌, replicate}
use memseal.Bytes.{Bytes, bytes_eq, from_le_bytes, to_le_bytes}
use memseal.Errors.{Result, ok, err, VaultError}
use memseal.HashMap.{get, insert}
use memseal.Platform.{Platform, IsSound}
use memseal.Types.{Vault}
use memseal.Utf8.{from_utf8, is_utf8, scan, after, lead}
use memseal.Codec.Hex.{hex_char, key_to_hex, hex_digit, hex_pairs, hex_to_key}
use memseal.Codec.Sizes.{check_entry_sizes}
use memseal.Codec.Legacy.{LegacyIndex, legacy_entry, legacy_entries, decode_index_v1}
use memseal.Crypto.Random.{secure_bytes_fill}
use memseal.Crypto.Aead.{seal_with_aad, open_with_aad}
use memseal.Secret.{region_new, secret_new}
use memseal.Header.{generate, validate_header, to_aad_bytes}
use memseal.Envelope.{parse_envelope}
use memseal.Index.{
  next_data_nonce_counter, insert_by_key, check_counters, max_counter, from_master_key,
  from_subkeys_and_data,
}
use memseal.Index.Keys.{hmac_key_for_name, derive_subkeys}
use memseal.Index.Valid.{IsValid}
use memseal.Vault.Keys.{split_nonce, build_entry_aad, extract_enc_key, derive_master_key}
use memseal.Vault.Secrets.{old_plaintexts}
use memseal.Vault.Store.{store}
use memseal.Vault.Session.{fresh_vault, rekey_entries, rekey, decode_for, open_envelope, open_vault}
use memseal.Vault.Opens.{Opens}
use memseal.Vault.Rekeyed.{Reads, Holds}
use memseal.Vault.Upgraded.{open_vault-Holds}
use memseal.Tests.Toy.{toy, toy-IsSound}
use memseal.Tests.Samples.{password, mail, first_secret, new_vault, world}

abbrev one_entry : LegacyIndex
one_entry = record {
  version = 1;
  nonce_counter = 4;
  data_nonce_counter = 2;
  files =
      (
        key_to_hex (mail ++ replicate 28 0),
        record {
          is_dummy = false;
          encrypted_data = some (replicate 24 5 ++ (first_secret ++ replicate 16 33));
          encrypted_name = some (replicate 24 6 ++ (mail ++ replicate 16 33));
          data_counter = 1;
        },
      )
      ∷ [];
}

-- The platform of the runs, on which every JSON text is this index.
abbrev json_toy : Platform
json_toy = record toy { index_from_json = λ json. some one_entry }

json_toy-IsSound : IsSound json_toy
json_toy-IsSound = record {
  fill_length = toy-IsSound.fill_length;
  fill_bytes = toy-IsSound.fill_bytes;
  secret_key = toy-IsSound.secret_key;
  nonce = toy-IsSound.nonce;
  seal_length = toy-IsSound.seal_length;
  seal_bytes = toy-IsSound.seal_bytes;
  open_seal = toy-IsSound.open_seal;
  open_length = toy-IsSound.open_length;
  hmac_length = toy-IsSound.hmac_length;
  hmac_bytes = toy-IsSound.hmac_bytes;
  hkdf_length = toy-IsSound.hkdf_length;
  hkdf_bytes = toy-IsSound.hkdf_bytes;
  json_round_trip = toy-IsSound.json_round_trip;
  cmp_refl = toy-IsSound.cmp_refl;
  cmp_eq = toy-IsSound.cmp_eq;
}

-- Header length, header, nonce, the 8 bytes of version 1, and the sealed index.
abbrev file_v1 : Bytes
file_v1 =
    22 ∷ 0 ∷ 0 ∷ 0 ∷ 1 ∷ 3 ∷ 0 ∷ 0 ∷ 1 ∷ 32 ∷ replicate 16 7
    ++ (replicate 24 9 ++ (replicate 8 0 ++ replicate 16 33))

abbrev vault_of : Result VaultError Vault → Vault
vault_of (ok v) = v
vault_of (err e) = new_vault

abbrev old_vault : Vault
old_vault = vault_of (open_envelope json_toy password file_v1 world).0

abbrev upgraded_vault : Vault
upgraded_vault = vault_of (open_vault json_toy password file_v1 world).0

opened_envelope :
    open_envelope json_toy password file_v1 world
    ≡ (ok old_vault, (open_envelope json_toy password file_v1 world).1)
unfolding open_envelope parse_envelope validate_header to_aad_bytes derive_master_key derive_subkeys
    open_with_aad decode_for decode_index_v1 legacy_entries legacy_entry check_entry_sizes
    hex_to_key hex_pairs hex_digit key_to_hex hex_char insert from_subkeys_and_data check_counters
    max_counter secret_new region_new from_le_bytes bytes_eq
opened_envelope = refl

opened_vault :
    open_vault json_toy password file_v1 world
    ≡ (ok upgraded_vault, (open_vault json_toy password file_v1 world).1)
unfolding open_vault rekey rekey_entries fresh_vault generate from_master_key secure_bytes_fill
    open_envelope parse_envelope validate_header to_aad_bytes derive_master_key derive_subkeys
    open_with_aad decode_for decode_index_v1 legacy_entries legacy_entry check_entry_sizes
    hex_to_key hex_pairs hex_digit key_to_hex hex_char insert from_subkeys_and_data check_counters
    max_counter secret_new region_new from_le_bytes bytes_eq old_plaintexts split_nonce
    build_entry_aad to_le_bytes from_utf8 is_utf8 scan after lead store hmac_key_for_name
    next_data_nonce_counter extract_enc_key seal_with_aad insert_by_key get
opened_vault = refl

old_version : old_vault.header.version ≡ 1
unfolding open_envelope parse_envelope validate_header to_aad_bytes derive_master_key derive_subkeys
    open_with_aad decode_for decode_index_v1 legacy_entries legacy_entry check_entry_sizes
    hex_to_key hex_pairs hex_digit key_to_hex hex_char insert from_subkeys_and_data check_counters
    max_counter secret_new region_new from_le_bytes bytes_eq
old_version = refl

old_key : extract_enc_key old_vault.index.enc_key ≡ ok (replicate 32 33)
unfolding open_envelope parse_envelope validate_header to_aad_bytes derive_master_key derive_subkeys
    open_with_aad decode_for decode_index_v1 legacy_entries legacy_entry check_entry_sizes
    hex_to_key hex_pairs hex_digit key_to_hex hex_char insert from_subkeys_and_data check_counters
    max_counter secret_new region_new from_le_bytes bytes_eq extract_enc_key
old_key = refl

old_entries : Reads json_toy (replicate 32 33) old_vault.index.files ((mail, first_secret) ∷ [])
unfolding open_envelope parse_envelope validate_header to_aad_bytes derive_master_key derive_subkeys
    open_with_aad decode_for decode_index_v1 legacy_entries legacy_entry check_entry_sizes
    hex_to_key hex_pairs hex_digit key_to_hex hex_char insert from_subkeys_and_data check_counters
    max_counter secret_new region_new from_le_bytes bytes_eq old_plaintexts split_nonce
    build_entry_aad to_le_bytes from_utf8 is_utf8 scan after lead
old_entries = (refl, tt)

open_vault-Holds_example :
    Opens json_toy password upgraded_vault
    × IsValid upgraded_vault.index
    × Holds json_toy upgraded_vault ((mail, first_secret) ∷ [])
open_vault-Holds_example =
    open_vault-Holds json_toy json_toy-IsSound password file_v1 (replicate 32 33)
      ((mail, first_secret) ∷ []) old_vault upgraded_vault world
      (open_envelope json_toy password file_v1 world).1
      (open_vault json_toy password file_v1 world).1 opened_envelope old_version old_key old_entries
      (tt, tt) opened_vault
