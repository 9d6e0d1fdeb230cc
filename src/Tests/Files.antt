-- ===== src/Tests/Files.antt =====
-- Files, envelopes and the change of the password at concrete inputs.
use memseal.Prelude.{
  ◌≡◌, ◌≢◌, refl, ap, List, [], ◌∷◌, ◌++◌, replicate, Bool, false, false≢true, some, arith, ◌&&◌,
  if◌then◌else◌,
}
use memseal.Bytes.{Bytes, AreBytes, to_le_bytes, from_le_bytes, bytes_eq}
use memseal.Errors.{Result, ok, err}
use memseal.HashMap.{get, insert}
use memseal.Types.{Vault}
use memseal.Owned.{Owned}
use memseal.Utf8.{lead, after, scan, is_utf8, from_utf8}
use memseal.Codec.Hex.{hex_char, key_to_hex}
use memseal.Crypto.Random.{secure_bytes_fill}
use memseal.Crypto.Aead.{seal_with_aad, open_with_aad}
use memseal.Secret.{region_new, secret_new}
use memseal.Header.{validate_header, to_aad_bytes, generate}
use memseal.Envelope.{parse_envelope}
use memseal.Envelope.Canonical.{IsFile, parse_envelope-IsFile}
use memseal.Index.{next_data_nonce_counter, insert_by_key, from_master_key}
use memseal.Index.Keys.{hmac_key_for_name, derive_subkeys}
use memseal.Vault.Keys.{
  build_entry_aad, extract_enc_key, validate_password, verify_password, derive_master_key,
  split_nonce,
}
use memseal.Vault.Store.{store}
use memseal.Vault.Secrets.{old_plaintexts}
use memseal.Vault.Session.{fresh_vault, rekey_entries, rekey, change_password}
use memseal.Vault.Rekeyed.{Reads, AllApart, Holds, change_password-Holds}
use memseal.Vault.Disk.{FilePath, dir_of, join, place, write_file_atomically}
use memseal.Vault.Atomic.{tmp_path, get-write_file_atomically}
use memseal.Fuzzing.{is_ok}
use memseal.Tests.Toy.{toy, toy-IsSound}
use memseal.Tests.Samples.{
  password, mail, bank, first_secret, second_secret, sample_header, with_both, world,
}

abbrev pub target : FilePath
target = record { parent = some []; file_name = b'v' ∷ [] }

pub not_temporary : (suffix : Bytes) → tmp_path target suffix ≢ place target
unfolding join place dir_of bytes_eq
not_temporary suffix h = false≢true (ap second h)
  where
    second : Bytes → Bool
    second (a ∷ b ∷ c ∷ xs) = bytes_eq (c ∷ []) (b'v' ∷ [])
    second _ = false

get-write_file_atomically_example :
    let (r, after) = write_file_atomically toy target first_secret world in
    get (place target) after.disk ≡ (
      if is_ok r && bytes_eq (place target) (place target)
      then some first_secret
      else get (place target) world.disk)
get-write_file_atomically_example =
    get-write_file_atomically toy target first_secret (place target) world not_temporary

-- The change of the password of the vault with two secrets.
abbrev plain : List (Bytes × Bytes)
plain = (mail, first_secret) ∷ (bank, second_secret) ∷ []

abbrev changed : Owned Vault
changed = (change_password toy password (password ++ password) with_both).1

changed_both : change_password toy password (password ++ password) with_both ≡ (ok tt, changed)
unfolding change_password validate_password verify_password derive_master_key derive_subkeys
    from_le_bytes rekey fresh_vault generate from_master_key secret_new region_new rekey_entries
    old_plaintexts split_nonce open_with_aad from_utf8 is_utf8 scan after lead store
    hmac_key_for_name hex_char key_to_hex next_data_nonce_counter secure_bytes_fill build_entry_aad
    extract_enc_key seal_with_aad insert_by_key get insert to_le_bytes bytes_eq
changed_both = refl

old_key_both : extract_enc_key with_both.self.index.enc_key ≡ ok (replicate 32 33)
unfolding store hmac_key_for_name hex_char key_to_hex next_data_nonce_counter secure_bytes_fill
    build_entry_aad extract_enc_key seal_with_aad insert_by_key get insert to_le_bytes bytes_eq
old_key_both = refl

Reads-both : Reads toy (replicate 32 33) with_both.self.index.files plain
unfolding old_plaintexts split_nonce open_with_aad from_utf8 is_utf8 scan after lead store
    hmac_key_for_name hex_char key_to_hex next_data_nonce_counter secure_bytes_fill build_entry_aad
    extract_enc_key seal_with_aad insert_by_key get insert to_le_bytes bytes_eq
Reads-both = (refl, (refl, tt))

changed-AllApart : AllApart toy changed.self.index plain
unfolding change_password validate_password verify_password derive_master_key derive_subkeys
    from_le_bytes rekey fresh_vault generate from_master_key secret_new region_new rekey_entries
    old_plaintexts split_nonce open_with_aad from_utf8 is_utf8 scan after lead store
    hmac_key_for_name hex_char key_to_hex next_data_nonce_counter secure_bytes_fill build_entry_aad
    extract_enc_key seal_with_aad insert_by_key get insert to_le_bytes bytes_eq
changed-AllApart = (((λ h. false≢true (ap is_mail h)), tt), (tt, tt))
  where
    is_mail : {E : Type 0} → Result E Bytes → Bool
    is_mail (ok k) = bytes_eq k (key_to_hex (mail ++ replicate 28 0))
    is_mail (err e) = false

change_password-Holds_example :
    (verify_password toy with_both.self password ≡ ok tt) × Holds toy changed.self plain
change_password-Holds_example =
    change_password-Holds toy toy-IsSound password (password ++ password) (replicate 32 33) plain
      with_both changed old_key_both Reads-both changed-AllApart changed_both

abbrev pub small_file : Bytes
small_file =
    (22 ∷ 0 ∷ 0 ∷ 0 ∷ 2 ∷ 3 ∷ 0 ∷ 0 ∷ 1 ∷ 32 ∷ replicate 16 7) ++ (replicate 24 9 ++ first_secret)

small_file-AreBytes : AreBytes small_file
small_file-AreBytes = search (arith) depth 100

pub parsed_small :
    parse_envelope toy small_file
    ≡ ok (record { header = sample_header; nonce = replicate 24 9; encrypted_index = first_secret })
unfolding parse_envelope validate_header to_aad_bytes from_le_bytes bytes_eq
parsed_small = refl

parse_envelope-IsFile_example :
    IsFile toy small_file
      (record { header = sample_header; nonce = replicate 24 9; encrypted_index = first_secret })
parse_envelope-IsFile_example =
    parse_envelope-IsFile toy small_file
      (record { header = sample_header; nonce = replicate 24 9; encrypted_index = first_secret })
      small_file-AreBytes parsed_small
