-- ===== src/Tests/Codec.antt =====
-- The theorems of Codec at concrete inputs: an index with one entry.
use memseal.Prelude.{◌≡◌, refl, [], ◌∷◌, ◌++◌, length, replicate, take, some, arith, All-take}
use memseal.Bytes.{Bytes, IsByte, AreBytes, to_le_bytes, from_le_bytes, bytes_eq}
use memseal.Errors.{Result, ok, err, VaultError, Message, corrupted_data, trailing_bytes}
use memseal.HashMap.{get, insert}
use memseal.Types.{VaultIndex}
use memseal.Codec.Hex.{
  hex_char, key_to_hex, hex_digit, hex_pairs, hex_to_key, hex_to_key-key_to_hex,
}
use memseal.Codec.Encode.{u32_try_from, encode_entry, encode_entries, encode_index, encoded_total}
use memseal.Codec.Reader.{remaining, take as take_bytes, read_le}
use memseal.Codec.Decode.{read_entry, read_entries, decode_index}
use memseal.Codec.RoundTrip.{IsEncodable, index_data, decode_index-encode_index}
use memseal.Codec.Layout.{length-encode_index}
use memseal.Codec.Failures.{FailsCorrupted, decode_index-FailsCorrupted}
use memseal.Codec.Canonical.{
  encode_index-decode_index, decode_index_extended, decode_index_truncated,
}

abbrev raw_key : Bytes
raw_key = replicate 32 171

abbrev hex_key : Bytes
hex_key = key_to_hex raw_key

abbrev pub one_entry : VaultIndex
one_entry = record {
  nonce = replicate 24 1;
  nonce_counter = 5;
  data_nonce_counter = 300;
  files =
      (
        hex_key,
        record {
          data_counter = 299;
          encrypted_name = replicate 41 7;
          encrypted_data = replicate 40 255;
        },
      )
      ∷ [];
  enc_key = record { region = replicate 32 33 };
  hmac_key = record { region = replicate 32 34 };
}

abbrev bytes_of : Result VaultError Bytes → Bytes
bytes_of (ok b) = b
bytes_of (err e) = []

abbrev pub encoded : Bytes
encoded = bytes_of (encode_index one_entry)

encode_one : encode_index one_entry ≡ ok encoded
unfolding encode_index encode_entries encode_entry u32_try_from hex_to_key hex_pairs hex_digit
    key_to_hex hex_char to_le_bytes
encode_one = refl

pub encodable : IsEncodable (index_data one_entry)
unfolding get
encodable = record {
  nonce_counter_fits = omega arith;
  data_nonce_counter_fits = omega arith;
  count = omega arith;
  distinct = (refl, tt);
  storable = (
    record {
      counter = omega arith;
      sizes = record {
        name_lo = omega arith;
        name_hi = omega arith;
        data_lo = omega arith;
        data_hi = omega arith;
      };
    },
    tt,
  );
}

decoded_one : decode_index encoded ≡ ok (index_data one_entry)
unfolding decode_index encode_index encode_entries encode_entry u32_try_from hex_to_key hex_pairs
    hex_digit key_to_hex hex_char to_le_bytes from_le_bytes bytes_eq get insert remaining take_bytes
    read_le read_entry read_entries
decoded_one = refl

decode_index-encode_index_example : decode_index encoded ≡ ok (index_data one_entry)
decode_index-encode_index_example = decode_index-encode_index one_entry encoded encodable encode_one

pub all_bytes : AreBytes encoded
unfolding encode_index encode_entries encode_entry u32_try_from hex_to_key hex_pairs hex_digit
    key_to_hex hex_char to_le_bytes
all_bytes = search (arith) depth 200

encode_index-decode_index_example : encode_index one_entry ≡ ok encoded
encode_index-decode_index_example =
    encode_index-decode_index encoded one_entry all_bytes decoded_one

decode_index_extended_example :
    decode_index (encoded ++ 9 ∷ 1 ∷ []) ≡ err (corrupted_data (trailing_bytes 2))
decode_index_extended_example =
    decode_index_extended encoded 9 (1 ∷ []) (index_data one_entry) all_bytes decoded_one

-- The encoding without its last three bytes.
abbrev front : Bytes
front = take 148 encoded

front_bytes : AreBytes front
front_bytes = All-take IsByte 148 encoded all_bytes

whole : encode_index one_entry ≡ ok (front ++ 255 ∷ 255 ∷ 255 ∷ [])
unfolding encode_index encode_entries encode_entry u32_try_from hex_to_key hex_pairs hex_digit
    key_to_hex hex_char to_le_bytes
whole = refl

decode_index_truncated_example : (m : Message) × (decode_index front ≡ err (corrupted_data m))
decode_index_truncated_example =
    decode_index_truncated one_entry front 255 (255 ∷ 255 ∷ []) front_bytes encodable whole

decode_index-FailsCorrupted_example : FailsCorrupted (decode_index front)
decode_index-FailsCorrupted_example = decode_index-FailsCorrupted front

length-encode_index_example : length encoded ≡ encoded_total one_entry
length-encode_index_example = length-encode_index one_entry encoded encode_one

hex_to_key-key_to_hex_example : hex_to_key (key_to_hex raw_key) ≡ some raw_key
hex_to_key-key_to_hex_example = hex_to_key-key_to_hex raw_key raw_bytes refl
  where
    raw_bytes : AreBytes raw_key
    raw_bytes = search (arith) depth 40

decoded_hex : hex_to_key hex_key ≡ some raw_key
unfolding hex_to_key hex_pairs hex_digit key_to_hex hex_char
decoded_hex = refl
