-- ===== src/Tests/Sessions.antt =====
-- A session with a change of the password, and its file opened with the new one.
use memseal.Prelude.{◌≤◌, ◌≡◌, refl, ap, subst, some, [], ◌∷◌, ◌++◌, length, replicate, arith}
use memseal.Constants.{max_header_json_len, max_index_entries}
use memseal.Bytes.{Bytes, bytes_eq, from_le_bytes, to_le_bytes}
use memseal.Errors.{Result, ok, err, VaultError}
use memseal.HashMap.{get, insert, remove as remove_key}
use memseal.Types.{Vault}
use memseal.Owned.{Owned}
use memseal.Utf8.{from_utf8, is_utf8, scan, after, lead}
use memseal.Codec.Hex.{hex_char, key_to_hex, hex_digit, hex_pairs, hex_to_key}
use memseal.Codec.Encode.{u32_try_from, encode_entry, encode_entries, encode_index}
use memseal.Crypto.Random.{secure_bytes_fill}
use memseal.Crypto.Aead.{seal_with_aad, open_with_aad}
use memseal.Secret.{region_new, secret_new}
use memseal.Header.{generate, to_aad_bytes}
use memseal.Index.{next_data_nonce_counter, insert_by_key, advance_nonce, from_master_key}
use memseal.Index.Keys.{hmac_key_for_name, derive_subkeys}
use memseal.Vault.Keys.{
  split_nonce, build_entry_aad, extract_enc_key, validate_password, verify_password,
  derive_master_key, validate_export_size,
}
use memseal.Vault.Secrets.{old_plaintexts}
use memseal.Vault.Store.{store}
use memseal.Vault.Export.{export}
use memseal.Vault.Session.{fresh_vault, rekey_entries, rekey, change_password, open_vault}
use memseal.Vault.Spec.{Call, done, storing, changing_password, perform}
use memseal.Vault.Sessions.{
  Session, opened, continued, Session-Opens, current_password, open_vault-Session, load-Session,
}
use memseal.Vault.Opens.{Opens}
use memseal.Vault.Rekeyed.{Reads}
use memseal.Vault.Rekeys.{Derives, Fits}
use memseal.Vault.Changes.{change_password-total}
use memseal.Vault.Disk.{
  save, load, write_file_atomically, create_new, write_and_sync, rename, place, join, dir_of,
  remove_file,
}
use memseal.Tests.Files.{target, not_temporary}
use memseal.Vault.Typed.{IsTyped, Reached-IsTyped}
use memseal.Vault.Reached.{created, stored, then}
use memseal.Tests.Toy.{toy, toy-IsSound, toy-Works, some-injective}
use memseal.Tests.Samples.{password, mail, first_secret, world}
use memseal.Tests.Reached.{made, made_world, made_by_create, made_state, after_store}
use memseal.Tests.Session.{toy-HasMemory}

abbrev pub new_password : Bytes
new_password = password ++ b'5' ∷ []

abbrev changing : Call
changing = changing_password password new_password

abbrev pub after_change : Owned Vault
after_change = (perform toy changing after_store).1

pub changed_password : (perform toy changing after_store).0 ≡ done
unfolding change_password rekey rekey_entries fresh_vault generate from_master_key secure_bytes_fill
    derive_master_key derive_subkeys verify_password validate_password secret_new region_new
    from_le_bytes bytes_eq old_plaintexts split_nonce build_entry_aad to_le_bytes from_utf8 is_utf8
    scan after lead store hmac_key_for_name hex_char key_to_hex next_data_nonce_counter
    extract_enc_key seal_with_aad open_with_aad insert_by_key get insert
changed_password = refl

pub after_change-Session : Session toy new_password after_change
after_change-Session =
    subst (λ reply. Session toy (current_password changing reply password) after_change)
      changed_password
      (continued password after_store changing (
        continued password made_state (storing mail first_secret)
          (opened password made world made_world made_by_create)))

abbrev bytes_of : Result VaultError Bytes → Bytes
bytes_of (ok b) = b
bytes_of (err e) = []

abbrev pub file : Bytes
file = bytes_of (export toy after_change).0

pub exported_file : export toy after_change ≡ (ok file, (export toy after_change).1)
unfolding export advance_nonce encode_index encode_entries encode_entry u32_try_from hex_to_key
    hex_pairs hex_digit to_aad_bytes validate_export_size change_password rekey rekey_entries
    fresh_vault generate from_master_key secure_bytes_fill derive_master_key derive_subkeys
    verify_password validate_password secret_new region_new from_le_bytes bytes_eq old_plaintexts
    split_nonce build_entry_aad to_le_bytes from_utf8 is_utf8 scan after lead store
    hmac_key_for_name hex_char key_to_hex next_data_nonce_counter extract_enc_key seal_with_aad
    open_with_aad insert_by_key get insert
exported_file = refl

salt_length : length after_change.self.header.kdf_salt ≡ 16
unfolding change_password rekey rekey_entries fresh_vault generate from_master_key secure_bytes_fill
    derive_master_key derive_subkeys verify_password validate_password secret_new region_new
    from_le_bytes bytes_eq old_plaintexts split_nonce build_entry_aad to_le_bytes from_utf8 is_utf8
    scan after lead store hmac_key_for_name hex_char key_to_hex next_data_nonce_counter
    extract_enc_key seal_with_aad open_with_aad insert_by_key get insert
salt_length = refl

pub short_header :
    (json : Bytes)
    → toy.header_to_json after_change.self.header ≡ some json
    → length json ≤ max_header_json_len
short_header json h = omega (arith, ap length (some-injective h), salt_length)

open_vault-Session_example :
    (open_vault toy new_password file world).0 ≡ ok (export toy after_change).1.self
open_vault-Session_example =
    open_vault-Session toy toy-IsSound toy-HasMemory new_password file after_change
      (export toy after_change).1 world after_change-Session short_header exported_file

pub open_vault-file :
    (open_vault toy new_password file world).0 ≡ ok (export toy after_change).1.self
open_vault-file =
    open_vault-Session toy toy-IsSound toy-HasMemory new_password file after_change
      (export toy after_change).1 world after_change-Session short_header exported_file

Reached-IsTyped_example : IsTyped after_store.self.index
Reached-IsTyped_example = Reached-IsTyped toy toy-IsSound after_store (
    then made_state after_store (created password made world made_world made_by_create)
      (stored mail first_secret made_state))

after_store-Opens : Opens toy password after_store.self
after_store-Opens = Session-Opens toy password after_store before
  where
    before : Session toy password after_store
    before =
        continued password made_state (storing mail first_secret)
          (opened password made world made_world made_by_create)

key_after_store : extract_enc_key after_store.self.index.enc_key ≡ ok (replicate 32 33)
unfolding store hmac_key_for_name hex_char key_to_hex next_data_nonce_counter secure_bytes_fill
    build_entry_aad extract_enc_key seal_with_aad insert_by_key get insert to_le_bytes bytes_eq
key_after_store = refl

pub entries_after_store :
    Reads toy (replicate 32 33) after_store.self.index.files ((mail, first_secret) ∷ [])
unfolding store hmac_key_for_name hex_char key_to_hex next_data_nonce_counter secure_bytes_fill
    build_entry_aad extract_enc_key seal_with_aad insert_by_key get insert to_le_bytes bytes_eq
    old_plaintexts split_nonce open_with_aad from_utf8 is_utf8 scan after lead
entries_after_store = (refl, tt)

few_after_store : length after_store.self.index.files ≤ max_index_entries
unfolding store hmac_key_for_name hex_char key_to_hex next_data_nonce_counter secure_bytes_fill
    build_entry_aad extract_enc_key seal_with_aad insert_by_key get insert to_le_bytes bytes_eq
few_after_store = omega arith

toy-Derives : Derives toy
toy-Derives = record {
  params = refl;
  master = λ password salt. (replicate 32 (length password), refl);
  subkey = λ s m i. (_, refl);
}

change_password-total_example :
    (s' : Owned Vault) × ((change_password toy password new_password after_store ≡ (ok tt, s'))
      × Opens toy new_password s'.self)
change_password-total_example =
    change_password-total toy toy-IsSound toy-Works toy-HasMemory toy-Derives password new_password
      (replicate 32 33) ((mail, first_secret) ∷ []) after_store after_store-Opens (omega arith)
      key_after_store entries_after_store (fits, tt) few_after_store
  where
    fits : Fits (mail, first_secret)
    fits = (search (arith) depth 10, search (arith) depth 10, omega arith, omega arith)

saved_file : save toy target after_change ≡ (ok tt, (save toy target after_change).1)
unfolding save write_file_atomically create_new write_and_sync rename place join dir_of remove_file
    remove_key export advance_nonce encode_index encode_entries encode_entry u32_try_from hex_to_key
    hex_pairs hex_digit to_aad_bytes validate_export_size change_password rekey rekey_entries
    fresh_vault generate from_master_key secure_bytes_fill derive_master_key derive_subkeys
    verify_password validate_password secret_new region_new from_le_bytes bytes_eq old_plaintexts
    split_nonce build_entry_aad to_le_bytes from_utf8 is_utf8 scan after lead store
    hmac_key_for_name hex_char key_to_hex next_data_nonce_counter extract_enc_key seal_with_aad
    open_with_aad insert_by_key get insert
saved_file = refl

load-Session_example :
    (load toy target new_password (save toy target after_change).1.os).0
    ≡ ok (save toy target after_change).1.self
load-Session_example =
    load-Session toy toy-IsSound toy-HasMemory target new_password after_change
      (save toy target after_change).1 (λ i. refl) not_temporary after_change-Session short_header
      saved_file
