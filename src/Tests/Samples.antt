-- ===== src/Tests/Samples.antt =====
-- The values that the runs use: a new vault, and the vault after two calls of `store`.
use memseal.Prelude.{[], ◌∷◌, replicate}
use memseal.Bytes.{Bytes}
use memseal.Platform.{Os}
use memseal.Types.{VaultIndex, VaultHeader, Vault}
use memseal.Owned.{Owned}
use memseal.Vault.Store.{store}
use memseal.Tests.Toy.{toy}

abbrev pub password : Bytes
password = b'p' ∷ b'a' ∷ b's' ∷ b's' ∷ b'w' ∷ b'o' ∷ b'r' ∷ b'd' ∷ b'1' ∷ b'2' ∷ b'3' ∷ b'4' ∷ []

abbrev pub mail : Bytes
mail = b'm' ∷ b'a' ∷ b'i' ∷ b'l' ∷ []

abbrev pub bank : Bytes
bank = b'b' ∷ b'a' ∷ b'n' ∷ b'k' ∷ []

abbrev pub first_secret : Bytes
first_secret = 1 ∷ 2 ∷ 3 ∷ []

abbrev pub second_secret : Bytes
second_secret = 250 ∷ 0 ∷ []

abbrev pub sample_header : VaultHeader
sample_header = record {
  version = 2;
  kdf_salt = replicate 16 7;
  kdf_iterations = 3;
  kdf_memory_cost = 65536;
  key_length = 32;
}

abbrev new_index : VaultIndex
new_index = record {
  nonce = replicate 24 1;
  nonce_counter = 0;
  data_nonce_counter = 0;
  files = [];
  enc_key = record { region = replicate 32 33 };
  hmac_key = record { region = replicate 32 34 };
}

abbrev pub new_vault : Vault
new_vault = record { header = sample_header; index = new_index }

abbrev pub world : Os
world = record { calls = 5; disk = [] }

abbrev pub at_start : Owned Vault
at_start = record { self = new_vault; os = world }

abbrev pub with_mail : Owned Vault
with_mail = (store toy mail first_secret at_start).1

abbrev pub with_both : Owned Vault
with_both = (store toy bank second_secret with_mail).1
