-- ===== src/Fuzzing/Accepts.antt =====
-- Which inputs the current index decoder accepts.
use memseal.Prelude.{◌≡◌, ◌↔◌, refl, ap, true, []}
use memseal.Bytes.{Bytes, AreBytes}
use memseal.Errors.{Result, ok, err, VaultError}
use memseal.Types.{IndexData, VaultIndex}
use memseal.Codec.Decode.{decode_index as decode}
use memseal.Codec.Encode.{encode_index}
use memseal.Codec.RoundTrip.{IsEncodable, index_data, decode_index-encode_index}
use memseal.Codec.Canonical.{encode_index-decode_index, decode_index-IsEncodable}
use memseal.Fuzzing.{is_ok, decode_index}

is_ok-inv : {A : Type 0} (r : Result VaultError A) → is_ok r ≡ true → (a : A) × (r ≡ ok a)
is_ok-inv (ok a) h = (a, refl)
is_ok-inv (err e) h = cc

-- An index with the contents, for an encoder that reads nothing else.
abbrev with_contents : IndexData → VaultIndex
with_contents d = record {
  nonce = [];
  nonce_counter = d.nonce_counter;
  data_nonce_counter = d.data_nonce_counter;
  files = d.files;
  enc_key = record { region = [] };
  hmac_key = record { region = [] };
}

-- The index decoder accepts bytes if and only if they are what `encode_index` writes for some index
-- with at most 1024 entries under distinct keys, valid ciphertext lengths and `u64` counters.
pub decode_index-accepts :
    (bytes : Bytes)
    → AreBytes bytes
    → (decode_index bytes ≡ true)
      ↔ ((index : VaultIndex) × IsEncodable (index_data index) × (encode_index index ≡ ok bytes))
unfolding decode_index
decode_index-accepts bytes are = (there, back)
  where
    there :
        is_ok (decode bytes) ≡ true
        → (index : VaultIndex) × IsEncodable (index_data index) × (encode_index index ≡ ok bytes)
    there h =
        let (d, run) = is_ok-inv (decode bytes) h in
        (
          with_contents d,
          decode_index-IsEncodable bytes d are run,
          encode_index-decode_index bytes (with_contents d) are run,
        )

    back :
        ((index : VaultIndex) × IsEncodable (index_data index) × (encode_index index ≡ ok bytes))
        → is_ok (decode bytes) ≡ true
    back (index, v, h) = ap is_ok (decode_index-encode_index index bytes v h)
