-- ===== src/Tests/Denied.antt =====
-- Wrong passwords at concrete inputs.
use memseal.Prelude.{
  ℕ, ◌-◌, ◌≡◌, ◌≢◌, refl, ap, ◌∙◌, subst, false, false≢true, none, some, ◌++◌, length, take, drop,
  replicate, if◌then◌else◌, arith, length-append, drop-append,
}
use memseal.Bytes.{Bytes, from_le_bytes, to_le_bytes, bytes_eq}
use memseal.Errors.{err, invalid_password, ok}
use memseal.HashMap.{get, insert}
use memseal.Utf8.{from_utf8, is_utf8, scan, after, lead}
use memseal.Codec.Hex.{hex_char, key_to_hex}
use memseal.Crypto.Random.{secure_bytes_fill}
use memseal.Crypto.Aead.{seal_with_aad, open_with_aad}
use memseal.Secret.{region_new, secret_new}
use memseal.Header.{generate}
use memseal.Index.{next_data_nonce_counter, insert_by_key, from_master_key}
use memseal.Index.Keys.{hmac_key_for_name, derive_subkeys}
use memseal.Vault.Keys.{
  split_nonce, build_entry_aad, extract_enc_key, validate_password, verify_password,
  derive_master_key,
}
use memseal.Vault.Secrets.{old_plaintexts}
use memseal.Vault.Store.{store}
use memseal.Vault.Export.{export}
use memseal.Vault.Session.{fresh_vault, rekey_entries, rekey, change_password, open_vault}
use memseal.Vault.Denied.{change_password-invalid_password, open_vault-Session_denied}
use memseal.Tests.Toy.{toy, toy-IsSound, padded, toy_open, checked-eq, length-padded}
use memseal.Tests.Samples.{password, mail, sample_header, at_start, world}
use memseal.Tests.Sessions.{
  new_password, after_change, after_change-Session, file, exported_file, short_header,
}

derived_mail : derive_master_key toy mail sample_header ≡ ok (replicate 32 4)
unfolding derive_master_key
derived_mail = refl

subkeys_mail :
    derive_subkeys toy (replicate 32 4) sample_header.kdf_salt
    ≡ ok (replicate 32 25, replicate 32 26)
unfolding derive_subkeys from_le_bytes
subkeys_mail = refl

other_key : ◌≢◌ {A = Bytes} (replicate 32 33) (replicate 32 25)
unfolding bytes_eq
other_key h = false≢true (ap (λ k. bytes_eq k (replicate 32 25)) h)

change_password-invalid_password_example :
    change_password toy mail password at_start ≡ (err invalid_password, at_start)
change_password-invalid_password_example =
    change_password-invalid_password toy toy-IsSound mail password (replicate 32 4)
      (replicate 32 25) (replicate 32 26) at_start (omega arith) derived_mail subkeys_mail other_key

-- The keys of the old password under the new header, and the new key of the vault.
old_keys :
    (derive_master_key toy password after_change.self.header ≡ ok (replicate 32 12))
    × (derive_subkeys toy (replicate 32 12) after_change.self.header.kdf_salt
        ≡ ok (replicate 32 33, replicate 32 34))
    × (after_change.self.index.enc_key.region ≡ replicate 32 34)
unfolding change_password rekey rekey_entries fresh_vault generate from_master_key secure_bytes_fill
    derive_master_key derive_subkeys verify_password validate_password secret_new region_new
    from_le_bytes bytes_eq old_plaintexts split_nonce build_entry_aad to_le_bytes from_utf8 is_utf8
    scan after lead store hmac_key_for_name hex_char key_to_hex next_data_nonce_counter
    extract_enc_key seal_with_aad open_with_aad insert_by_key get insert
old_keys = (refl, refl, refl)

-- A tag made of one key is refused under a key with another tag.
toy_open-other :
    (key other t : Bytes)
    → bytes_eq (padded 16 key) (padded 16 other) ≡ false
    → toy_open other (t ++ padded 16 key) ≡ none
toy_open-other key other t apart =
    refused (length (t ++ padded 16 key) - 16)
      (omega (arith, length-append t (padded 16 key), length-padded 16 key))
  where
    refused :
        (n : ℕ)
        → n ≡ length t
        → (if bytes_eq (drop n (t ++ padded 16 key)) (padded 16 other)
            then some (take n (t ++ padded 16 key))
            else none)
          ≡ none
    refused n same =
        rw (ap (λ m. drop m (t ++ padded 16 key)) same ∙ drop-append t (padded 16 key), apart) refl

refused_tag : bytes_eq (padded 16 (replicate 32 34)) (padded 16 (replicate 32 33)) ≡ false
unfolding bytes_eq
refused_tag = refl

refused_after_change :
    (n t a c : Bytes)
    → toy.aead_seal after_change.self.index.enc_key.region n t a ≡ some c
    → toy.aead_open (replicate 32 33) n c a ≡ none
refused_after_change n t a c sealed =
    let same : toy.aead_seal (replicate 32 34) n t a ≡ some c =
      subst (λ k. toy.aead_seal k n t a ≡ some c) old_keys.2 sealed in
    ap (toy_open (replicate 32 33)) {y = t ++ padded 16 (replicate 32 34)}
      (checked-eq (t ++ padded 16 (replicate 32 34)) c same).0
    ∙ toy_open-other (replicate 32 34) (replicate 32 33) t refused_tag

open_vault-Session_denied_example :
    open_vault toy password file world ≡ (err invalid_password, world)
open_vault-Session_denied_example =
    open_vault-Session_denied toy toy-IsSound new_password password file (replicate 32 12)
      (replicate 32 33) (replicate 32 34) after_change (export toy after_change).1 world
      after_change-Session short_header exported_file old_keys.0 old_keys.1 refused_after_change
