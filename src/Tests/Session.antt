-- ===== src/Tests/Session.antt =====
-- The theorems of `export`, `open` and failing calls at concrete inputs.
use memseal.Prelude.{
  ◌≤◌, ◌≡◌, refl, sym, [], ◌∷◌, length, replicate, length-append, ◌++◌, ◌∙◌, ◌↔◌, none, some, arith,
  ap,
}
use memseal.Bytes.{Bytes, to_le_bytes, from_le_bytes, bytes_eq}
use memseal.Errors.{
  Result, ok, err, VaultError, invalid_password, crypto_error, of_random, fill_failed,
}
use memseal.Constants.{max_header_json_len}
use memseal.Bytes.LittleEndian.{length-to_le_bytes}
use memseal.HashMap.{get, insert}
use memseal.Platform.{Platform}
use memseal.Types.{Vault, VaultHeader}
use memseal.Owned.{Owned}
use memseal.Codec.Hex.{hex_char, key_to_hex, hex_digit, hex_pairs, hex_to_key}
use memseal.Codec.Encode.{u32_try_from, encode_entry, encode_entries, encode_index}
use memseal.Crypto.Random.{secure_bytes_fill}
use memseal.Crypto.Aead.{seal_with_aad}
use memseal.Header.{validate_header, to_aad_bytes}
use memseal.Envelope.{parse_envelope}
use memseal.Envelope.Bounds.{IsAccepted, validate_header-IsAccepted}
use memseal.Envelope.RoundTrip.{parse_envelope-envelope_bytes}
use memseal.Index.{next_data_nonce_counter, insert_by_key, advance_nonce}
use memseal.Index.Keys.{hmac_key_for_name, derive_subkeys}
use memseal.Vault.Keys.{
  build_entry_aad, extract_enc_key, validate_password, verify_password, derive_master_key,
  validate_export_size,
}
use memseal.Vault.Store.{store}
use memseal.Vault.Export.{export, envelope_bytes}
use memseal.Vault.Session.{open_vault, change_password}
use memseal.Vault.Failing.{IsSpared, store_failing, change_password_failing}
use memseal.Vault.Reopen.{HasMemory, Unlocks, open_vault-export}
use memseal.Tests.Toy.{some-injective, toy, toy-IsSound}
use memseal.Tests.Samples.{
  password, mail, first_secret, sample_header, new_vault, at_start, with_both, world,
}
use memseal.Tests.Vault.{with_both-IsValid}

abbrev bytes_of : Result VaultError Bytes → Bytes
bytes_of (ok b) = b
bytes_of (err e) = []

abbrev exported_bytes : Bytes
exported_bytes = bytes_of (export toy with_both).0

abbrev exported_state : Owned Vault
exported_state = (export toy with_both).1

exported_both : export toy with_both ≡ (ok exported_bytes, exported_state)
unfolding export advance_nonce encode_index encode_entries encode_entry u32_try_from hex_to_key
    hex_pairs hex_digit to_aad_bytes validate_export_size store hmac_key_for_name hex_char
    key_to_hex next_data_nonce_counter secure_bytes_fill build_entry_aad extract_enc_key
    seal_with_aad insert_by_key get insert to_le_bytes bytes_eq
exported_both = refl

pub toy-HasMemory : HasMemory toy
toy-HasMemory = record { allocates = λ i n. refl; locks = λ i n. refl }

Unlocks-both : Unlocks toy password with_both.self
unfolding derive_master_key derive_subkeys store hmac_key_for_name hex_char key_to_hex
    next_data_nonce_counter secure_bytes_fill build_entry_aad extract_enc_key seal_with_aad
    insert_by_key get insert to_le_bytes bytes_eq from_le_bytes
Unlocks-both = record { master_key = replicate 32 12; derived = refl; subkeys = refl }

header_both : with_both.self.header ≡ sample_header
unfolding store hmac_key_for_name hex_char key_to_hex next_data_nonce_counter secure_bytes_fill
    build_entry_aad extract_enc_key seal_with_aad insert_by_key get insert to_le_bytes bytes_eq
header_both = refl

pub accepted : validate_header sample_header ≡ ok tt
unfolding validate_header
accepted = refl

short_json :
    (json : Bytes)
    → toy.header_to_json with_both.self.header ≡ some json
    → length json ≤ max_header_json_len
short_json json h = omega (arith, same)
  where
    same : length json ≡ 22
    same = ap length (some-injective (ap toy.header_to_json (sym header_both) ∙ h))

open_vault-export_example :
    (open_vault toy password exported_bytes world).0 ≡ ok exported_state.self
open_vault-export_example =
    open_vault-export toy toy-IsSound toy-HasMemory password exported_bytes with_both exported_state
      world with_both-IsValid (ap (λ (h : VaultHeader). h.version) header_both)
      (ap validate_header header_both ∙ accepted) short_json Unlocks-both exported_both

-- A platform without random bytes, for a `store` that fails behind its first counter.
abbrev no_random : Platform
no_random = record toy { try_fill_bytes = λ i n. none }

store_without_random :
    store no_random mail first_secret at_start
    ≡ (err (crypto_error (of_random fill_failed)), (store no_random mail first_secret at_start).1)
unfolding store hmac_key_for_name hex_char key_to_hex next_data_nonce_counter secure_bytes_fill
    build_entry_aad extract_enc_key seal_with_aad insert_by_key get insert to_le_bytes bytes_eq
store_without_random = refl

store_failing_example : IsSpared new_vault (store no_random mail first_secret at_start).1.self
store_failing_example =
    store_failing no_random mail first_secret (crypto_error (of_random fill_failed)) at_start
      (store no_random mail first_secret at_start).1 store_without_random

wrong_password :
    change_password toy mail password with_both
    ≡ (err invalid_password, (change_password toy mail password with_both).1)
unfolding change_password validate_password verify_password derive_master_key derive_subkeys
    from_le_bytes store hmac_key_for_name hex_char key_to_hex next_data_nonce_counter
    secure_bytes_fill build_entry_aad extract_enc_key seal_with_aad insert_by_key get insert
    to_le_bytes bytes_eq
wrong_password = refl

change_password_failing_example :
    (change_password toy mail password with_both).1.self ≡ with_both.self
change_password_failing_example =
    change_password_failing toy mail password invalid_password with_both
      (change_password toy mail password with_both).1 wrong_password

validate_header-IsAccepted_example :
    (validate_header sample_header ≡ ok tt) ↔ IsAccepted sample_header
validate_header-IsAccepted_example = validate_header-IsAccepted sample_header

parse_envelope-envelope_bytes_example :
    parse_envelope toy
      (envelope_bytes (2 ∷ 3 ∷ 0 ∷ 0 ∷ 1 ∷ 32 ∷ replicate 16 7) (replicate 24 9) first_secret)
    ≡ ok (record { header = sample_header; nonce = replicate 24 9; encrypted_index = first_secret })
parse_envelope-envelope_bytes_example =
    parse_envelope-envelope_bytes toy toy-IsSound sample_header
      (2 ∷ 3 ∷ 0 ∷ 0 ∷ 1 ∷ 32 ∷ replicate 16 7) (replicate 24 9) first_secret refl accepted refl
      (omega arith) refl small
  where
    small :
        length
          (envelope_bytes (2 ∷ 3 ∷ 0 ∷ 0 ∷ 1 ∷ 32 ∷ replicate 16 7) (replicate 24 9) first_secret)
        ≤ 268435456
    small = omega (
      arith,
      length-append (to_le_bytes 4 22)
          ((2 ∷ 3 ∷ 0 ∷ 0 ∷ 1 ∷ 32 ∷ replicate 16 7) ++ (replicate 24 9 ++ first_secret)),
      length-to_le_bytes 4 22,
    )
