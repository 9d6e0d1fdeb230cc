-- ===== src/Tests/Upgrade.antt =====
-- The decoder of version 1 and the fuzz entry points at concrete inputs.
use memseal.Prelude.{◌≡◌, ◌↔◌, refl, true, false, none, some, [], ◌∷◌, replicate, All, Option}
use memseal.Bytes.{Bytes, bytes_eq}
use memseal.Errors.{ok}
use memseal.HashMap.{get, insert, HasDistinctKeys}
use memseal.Types.{IndexData, VaultIndex}
use memseal.Codec.Hex.{hex_char, key_to_hex, hex_digit, hex_pairs, hex_to_key}
use memseal.Codec.Encode.{encode_index}
use memseal.Codec.RoundTrip.{IsEncodable, index_data}
use memseal.Codec.Sizes.{check_entry_sizes}
use memseal.Codec.Legacy.{LegacyIndex, legacy_entry, legacy_entries, decode_index_v1}
use memseal.Codec.Upgrade.{live, IsUpgraded, IsKept, decode_index_v1-live}
use memseal.Fuzzing.{decode_index as fuzz_decode_index}
use memseal.Fuzzing.Accepts.{decode_index-accepts}
use memseal.Tests.Codec.{encoded, all_bytes}

-- A JSON index with a dummy and a real entry.
abbrev legacy : LegacyIndex
legacy = record {
  version = 1;
  nonce_counter = 4;
  data_nonce_counter = 2;
  files =
      (
        key_to_hex (replicate 32 1),
        record { is_dummy = true; encrypted_data = none; encrypted_name = none; data_counter = 0 },
      )
      ∷ (
        key_to_hex (replicate 32 2),
        record {
          is_dummy = false;
          encrypted_data = some (replicate 40 5);
          encrypted_name = some (replicate 44 6);
          data_counter = 1;
        },
      )
      ∷ [];
}

abbrev from_slice : Bytes → Option LegacyIndex
from_slice json = some legacy

abbrev upgraded : IndexData
upgraded = record {
  nonce_counter = 4;
  data_nonce_counter = 2;
  files =
      (
        key_to_hex (replicate 32 2),
        record {
          data_counter = 1;
          encrypted_name = replicate 44 6;
          encrypted_data = replicate 40 5;
        },
      )
      ∷ [];
}

decoded_v1 : decode_index_v1 from_slice [] ≡ ok upgraded
unfolding decode_index_v1 legacy_entries legacy_entry check_entry_sizes hex_to_key hex_pairs
    hex_digit key_to_hex hex_char insert
decoded_v1 = refl

legacy-HasDistinctKeys : HasDistinctKeys legacy.files
unfolding get bytes_eq key_to_hex hex_char
legacy-HasDistinctKeys = (refl, (refl, tt))

decode_index_v1-live_example :
    ((k : Bytes) → get k upgraded.files ≡ live (get k legacy.files))
    × All IsKept legacy.files
    × All IsUpgraded upgraded.files
    × HasDistinctKeys upgraded.files
    × (upgraded.nonce_counter ≡ legacy.nonce_counter)
    × (upgraded.data_nonce_counter ≡ legacy.data_nonce_counter)
decode_index_v1-live_example =
    decode_index_v1-live from_slice [] legacy upgraded refl legacy-HasDistinctKeys decoded_v1

decode_index-accepts_example :
    (fuzz_decode_index encoded ≡ true)
    ↔ ((index : VaultIndex) × IsEncodable (index_data index) × (encode_index index ≡ ok encoded))
decode_index-accepts_example = decode_index-accepts encoded all_bytes
