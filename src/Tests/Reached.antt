-- ===== src/Tests/Reached.antt =====
-- A vault that `create` and `store` reach.
use memseal.Prelude.{◌≡◌, refl, [], replicate}
use memseal.Bytes.{Bytes, from_le_bytes}
use memseal.Errors.{ok}
use memseal.Platform.{Os}
use memseal.Types.{Vault}
use memseal.Owned.{Owned}
use memseal.Codec.Encode.{encode_index}
use memseal.Crypto.Random.{secure_bytes_fill}
use memseal.Secret.{region_new, secret_new}
use memseal.Header.{generate}
use memseal.Index.{from_master_key}
use memseal.Index.Keys.{derive_subkeys}
use memseal.Index.Valid.{IsValid}
use memseal.Vault.Keys.{validate_password, derive_master_key}
use memseal.Vault.Store.{store}
use memseal.Vault.Session.{fresh_vault, create}
use memseal.Vault.Reached.{created, stored, then, Reached-IsValid}
use memseal.Tests.Toy.{toy, toy-IsSound}
use memseal.Tests.Samples.{password, mail, first_secret, world}

abbrev pub made : Vault
made = record {
  header = record {
    version = 2;
    kdf_salt = replicate 16 5;
    kdf_iterations = 4;
    kdf_memory_cost = 131072;
    key_length = 32;
  };
  index = record {
    nonce = replicate 24 6;
    nonce_counter = 0;
    data_nonce_counter = 0;
    files = [];
    enc_key = record { region = replicate 32 33 };
    hmac_key = record { region = replicate 32 34 };
  };
}

abbrev pub made_world : Os
made_world = record { calls = 11; disk = [] }

pub made_by_create : create toy password world ≡ (ok made, made_world)
unfolding create validate_password fresh_vault generate secure_bytes_fill derive_master_key
    from_master_key derive_subkeys secret_new region_new from_le_bytes
made_by_create = refl

abbrev pub made_state : Owned Vault
made_state = record { self = made; os = made_world }

abbrev pub after_store : Owned Vault
after_store = (store toy mail first_secret made_state).1

Reached-IsValid_example :
    IsValid after_store.self.index
    × ((out : Bytes) × (encode_index after_store.self.index ≡ ok out))
Reached-IsValid_example = Reached-IsValid toy toy-IsSound after_store (
    then made_state after_store (created password made world made_world made_by_create)
      (stored mail first_secret made_state))
