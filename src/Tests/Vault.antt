-- ===== src/Tests/Vault.antt =====
-- The theorems of the vault at concrete inputs.
use memseal.Prelude.{◌≡◌, ◌++◌, replicate, refl, length, true, none, some, if◌then◌else◌, arith}
use memseal.Bytes.{Bytes, to_le_bytes, bytes_eq}
use memseal.Errors.{ok}
use memseal.HashMap.{get, insert}
use memseal.Codec.Hex.{hex_char, key_to_hex}
use memseal.Codec.Decode.{is_some}
use memseal.Crypto.Random.{secure_bytes_fill}
use memseal.Crypto.Aead.{seal_with_aad}
use memseal.Index.{next_data_nonce_counter, insert_by_key}
use memseal.Index.Keys.{hmac_key_for_name}
use memseal.Index.Valid.{IsValid}
use memseal.Vault.Keys.{build_entry_aad, extract_enc_key}
use memseal.Vault.Store.{store}
use memseal.Vault.Secrets.{retrieve, with_secret}
use memseal.Vault.Remove.{remove}
use memseal.Vault.Callback.{with_secret-store}
use memseal.Vault.Retrieve.{retrieve-store, retrieve-remove}
use memseal.Vault.Invariant.{store-IsValid}
use memseal.Tests.Toy.{toy, toy-IsSound}
use memseal.Tests.Samples.{
  mail, bank, first_secret, second_secret, new_vault, at_start, with_mail, with_both,
}

new_vault-IsValid : IsValid new_vault.index
new_vault-IsValid = record {
  encodable = record {
    nonce_counter_fits = omega arith;
    data_nonce_counter_fits = omega arith;
    count = omega arith;
    distinct = tt;
    storable = tt;
  };
  keyed = tt;
  below = tt;
}

stored_mail : store toy mail first_secret at_start ≡ (ok tt, with_mail)
unfolding store hmac_key_for_name hex_char key_to_hex next_data_nonce_counter secure_bytes_fill
    build_entry_aad extract_enc_key seal_with_aad insert_by_key get insert to_le_bytes bytes_eq
stored_mail = refl

stored_bank : store toy bank second_secret with_mail ≡ (ok tt, with_both)
unfolding store hmac_key_for_name hex_char key_to_hex next_data_nonce_counter secure_bytes_fill
    build_entry_aad extract_enc_key seal_with_aad insert_by_key get insert to_le_bytes bytes_eq
stored_bank = refl

pub with_both-IsValid : IsValid with_both.self.index
with_both-IsValid =
    store-IsValid toy toy-IsSound bank second_secret with_mail
      (store-IsValid toy toy-IsSound mail first_secret at_start new_vault-IsValid)

store-IsValid_example : IsValid with_mail.self.index
store-IsValid_example = store-IsValid toy toy-IsSound mail first_secret at_start new_vault-IsValid

retrieve-store_example : retrieve toy with_mail.self mail ≡ ok (some first_secret)
retrieve-store_example =
    retrieve-store toy toy-IsSound mail first_secret at_start with_mail stored_mail

abbrev mail_key : Bytes
mail_key = key_to_hex (mail ++ replicate 28 0)

abbrev bank_key : Bytes
bank_key = key_to_hex (bank ++ replicate 28 0)

keyed_both :
    (hmac_key_for_name toy with_both.self.index mail ≡ ok mail_key)
    × (hmac_key_for_name toy with_both.self.index bank ≡ ok bank_key)
unfolding store hmac_key_for_name hex_char key_to_hex next_data_nonce_counter secure_bytes_fill
    build_entry_aad extract_enc_key seal_with_aad insert_by_key get insert to_le_bytes bytes_eq
keyed_both = (refl, refl)

retrieve-remove_example :
    let (removed, after) = remove toy mail with_both.self in
    (removed ≡ ok (is_some (get mail_key with_both.self.index.files)))
    × (retrieve toy after bank
        ≡ (if bytes_eq mail_key bank_key then ok none else retrieve toy with_both.self bank))
retrieve-remove_example =
    retrieve-remove toy mail bank with_both.self mail_key bank_key
      with_both-IsValid.encodable.distinct keyed_both.0 keyed_both.1

with_secret-store_example :
    let (removed, after) = remove toy mail with_mail.self in
    (with_secret toy with_mail.self mail length ≡ ok (some 3))
    × (removed ≡ ok true)
    × (with_secret toy after mail length ≡ ok none)
with_secret-store_example =
    with_secret-store toy toy-IsSound mail first_secret length at_start with_mail new_vault-IsValid
      stored_mail
