-- ===== src/Tests/Live.antt =====
-- Calls that must succeed on a vault that `create` returned.
use memseal.Prelude.{[], ◌<◌, ◌≡◌, refl, ◌∷◌, replicate, some, arith}
use memseal.Bytes.{Bytes, bytes_eq, to_le_bytes}
use memseal.Constants.{u64_max}
use memseal.Errors.{ok}
use memseal.HashMap.{get, insert}
use memseal.Codec.Hex.{hex_char, key_to_hex}
use memseal.Crypto.Random.{secure_bytes_fill}
use memseal.Crypto.Aead.{seal_with_aad}
use memseal.Index.{next_data_nonce_counter, insert_by_key}
use memseal.Index.Keys.{hmac_key_for_name}
use memseal.Vault.Keys.{build_entry_aad, extract_enc_key}
use memseal.Vault.Secrets.{retrieve}
use memseal.Vault.Store.{store}
use memseal.Vault.Export.{export}
use memseal.Vault.Reached.{Reached, created, stored, then}
use memseal.Vault.Live.{store-Reached}
use memseal.Vault.Sizes.{export-stored_size}
use memseal.Tests.Toy.{toy, toy-IsSound, toy-Works}
use memseal.Tests.Samples.{password, mail, first_secret, world}
use memseal.Tests.Sessions.{entries_after_store}
use memseal.Tests.Reached.{made, made_world, made_by_create, made_state, after_store}

made-Reached : Reached toy made_state
made-Reached = created password made world made_world made_by_create

store-Reached_example :
    ((store toy mail first_secret made_state).0 ≡ ok tt)
    × (retrieve toy (store toy mail first_secret made_state).1.self mail ≡ ok (some first_secret))
store-Reached_example =
    store-Reached toy toy-IsSound toy-Works mail first_secret made_state made-Reached
      (search (arith) depth 10) (search (arith) depth 10) (omega arith) (omega arith) (omega arith)
      (λ k keyed absent. omega arith)

counter_after_store : after_store.self.index.nonce_counter < u64_max
unfolding store hmac_key_for_name hex_char key_to_hex next_data_nonce_counter secure_bytes_fill
    build_entry_aad extract_enc_key seal_with_aad insert_by_key get insert to_le_bytes bytes_eq
counter_after_store = omega arith

abbrev json : Bytes
json = 2 ∷ 4 ∷ 0 ∷ 0 ∷ 2 ∷ 32 ∷ replicate 16 5

json_after_store : toy.header_to_json after_store.self.header ≡ some json
unfolding store hmac_key_for_name hex_char key_to_hex next_data_nonce_counter secure_bytes_fill
    build_entry_aad extract_enc_key seal_with_aad insert_by_key get insert to_le_bytes bytes_eq
json_after_store = refl

export-stored_size_example : (out : Bytes) × ((export toy after_store).0 ≡ ok out)
export-stored_size_example =
    export-stored_size toy toy-IsSound toy-Works (replicate 32 33) json ((mail, first_secret) ∷ [])
      after_store (then made_state after_store made-Reached (stored mail first_secret made_state))
      entries_after_store counter_after_store json_after_store (omega arith)
