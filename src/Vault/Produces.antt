-- ===== src/Vault/Produces.antt =====
-- `export` succeeds on a valid vault that is small enough, when the platform does.
use memseal.Prelude.{
  ℕ, ◌+◌, ◌≤◌, ◌<◌, ◌%◌, ◌^◌, ◌≡◌, refl, sym, subst, false, some, [], ◌∷◌, ◌++◌, length, leb, arith,
  All, All-append, length-append,
}
use memseal.Constants.{u64_max, max_vault_file_size}
use memseal.Bytes.{Bytes, IsByte, AreBytes, to_le_bytes}
use memseal.Bytes.LittleEndian.{length-to_le_bytes, to_le_bytes-AreBytes}
use memseal.Errors.{ok}
use memseal.HashMap.{HashMap}
use memseal.Platform.{Platform, IsSound, Os, called}
use memseal.Types.{IndexEntry, VaultIndex, Vault}
use memseal.Owned.{Owned}
use memseal.Codec.Hex.{key_to_hex-hex_to_key}
use memseal.Codec.Encode.{encode_index, encoded_total, entry_bytes}
use memseal.Codec.Layout.{EncodesAs, encode_index-inv, length-encode_index}
use memseal.Crypto.Random.{secure_bytes_fill}
use memseal.Crypto.Aead.{seal_with_aad, length-seal_with_aad}
use memseal.Header.{to_aad_bytes}
use memseal.Index.{advance_nonce}
use memseal.Index.Valid.{IsValid, encode_index-total}
use memseal.Vault.Keys.{extract_enc_key, validate_export_size}
use memseal.Vault.Export.{export, envelope_bytes}
use memseal.Vault.Exported.{renewed}
use memseal.Vault.Keeps.{counter-IsValid, nonce-IsValid}
use memseal.Vault.Total.{Works, fill_runs, extract_runs}

-- The ciphertexts of an entry consist of bytes.
abbrev pub HasBytes : Bytes × IndexEntry → Type 0
HasBytes q = AreBytes q.1.encrypted_name × AreBytes q.1.encrypted_data

both : (a b : Bytes) → AreBytes a → AreBytes b → AreBytes (a ++ b)
both a b h k = All-append IsByte a b h k

EncodesAs-AreBytes :
    (files : HashMap IndexEntry) (bs : Bytes)
    → All HasBytes files
    → EncodesAs files bs
    → AreBytes bs
EncodesAs-AreBytes [] bs h enc = subst AreBytes (sym enc) tt
EncodesAs-AreBytes ((hex_key, e) ∷ files) bs h (key, tail, hk, hn, hd, split, more) =
    let (form, bytes, len) = key_to_hex-hex_to_key hex_key key hk in
    let entry : AreBytes (entry_bytes key e) = both _ _ bytes (
      both _ _ (to_le_bytes-AreBytes 8 e.data_counter) (
        both _ _ (to_le_bytes-AreBytes 4 (length e.encrypted_name))
          (both _ _ h.0.0 (both _ _ (to_le_bytes-AreBytes 4 (length e.encrypted_data)) h.0.1)))) in
    subst AreBytes (sym split) (both _ _ entry (EncodesAs-AreBytes files tail h.1 more))

encode_index-AreBytes :
    (index : VaultIndex) (out : Bytes)
    → All HasBytes index.files
    → encode_index index ≡ ok out
    → AreBytes out
encode_index-AreBytes index out h enc =
    let (bs, n, more, same) = encode_index-inv index out enc in
    subst AreBytes (sym same) (
      both _ _ (to_le_bytes-AreBytes 2 2) (
        both _ _ (to_le_bytes-AreBytes 8 index.nonce_counter) (
          both _ _ (to_le_bytes-AreBytes 8 index.data_nonce_counter) (
            both _ _ (to_le_bytes-AreBytes 4 (length index.files))
              (EncodesAs-AreBytes index.files bs h more)))))

module _ (p : Platform) where
  advance_runs :
      (v : Vault) (os : Os) (nonce : Bytes)
      → v.index.nonce_counter < u64_max
      → secure_bytes_fill p 24 os ≡ (ok nonce, called os)
      → advance_nonce p (record { self = v.index; os = os })
        ≡ (ok tt, record { self = (renewed v nonce).index; os = called os })
  unfolding advance_nonce
  advance_runs v os nonce h fill =
      let below : leb u64_max v.index.nonce_counter ≡ false = ground arith in rw (below, fill) refl

  size_runs : (n : ℕ) → n ≤ max_vault_file_size → validate_export_size n ≡ ok tt
  unfolding validate_export_size
  size_runs n h = ground arith

  export_runs :
      {nonce json bytes sealed : Bytes} (s : Owned Vault)
      → advance_nonce p (record { self = s.self.index; os = s.os })
        ≡ (ok tt, record { self = (renewed s.self nonce).index; os = called s.os })
      → p.header_to_json s.self.header ≡ some json
      → encode_index (renewed s.self nonce).index ≡ ok bytes
      → extract_enc_key s.self.index.enc_key ≡ ok s.self.index.enc_key.region
      → seal_with_aad p s.self.index.enc_key.region nonce bytes json ≡ ok sealed
      → validate_export_size (length (envelope_bytes json nonce sealed)) ≡ ok tt
      → (export p s).0 ≡ ok (envelope_bytes json nonce sealed)
  unfolding export to_aad_bytes
  export_runs s adv j enc ek seal size = rw (adv, j, enc, ek, seal, size) refl

  -- On a platform that keeps the laws of `IsSound` and works: `export` of a valid vault succeeds when
  -- its nonce counter is below the largest `u64`, its ciphertexts and its encryption key consist of
  -- bytes, the key has 32 of them, the header encodes, and the header, the index and 44 bytes more are
  -- within 256 MiB.
  pub export-total :
      (sound : IsSound p) (works : Works p) (json : Bytes) (s : Owned Vault)
      → IsValid s.self.index
      → s.self.index.nonce_counter < u64_max
      → All HasBytes s.self.index.files
      → AreBytes s.self.index.enc_key.region
      → length s.self.index.enc_key.region ≡ 32
      → p.header_to_json s.self.header ≡ some json
      → length json + encoded_total s.self.index + 44 ≤ max_vault_file_size
      → (out : Bytes) × ((export p s).0 ≡ ok out)
  unfolding encoded_total
  export-total sound works json s valid below bytes_files bytes_key k32 j fits =
      let v = s.self in
      let key = v.index.enc_key.region in
      let (nonce, d, fill) = fill_runs p works s.os in
      let n24 = sound.fill_length _ 24 nonce d in
      let after = (renewed v nonce).index in
      let after_valid : IsValid after =
        counter-IsValid (record v.index { nonce = nonce }) (v.index.nonce_counter + 1) (omega arith)
          (nonce-IsValid v.index nonce valid) in
      let (bytes, enc) = encode_index-total after after_valid in
      let len = length-encode_index after bytes enc in
      let (sealed, seal) =
        works.seals key nonce bytes json bytes_key
          (encode_index-AreBytes after bytes bytes_files enc) k32 n24 (omega (arith, len, fits)) in
      let sealed_len = length-seal_with_aad p sound key nonce bytes json sealed seal in
      let prefix = to_le_bytes 4 (length json % 2 ^ 32) in
      let total : length (envelope_bytes json nonce sealed) ≤ max_vault_file_size = omega (
        arith,
        length-append prefix (json ++ (nonce ++ sealed)),
        length-append json (nonce ++ sealed),
        length-append nonce sealed,
        length-to_le_bytes 4 (length json % 2 ^ 32),
        n24,
        sealed_len,
        len,
        fits,
      ) in
      (
        envelope_bytes json nonce sealed,
        export_runs s (advance_runs v s.os nonce below fill) j enc (extract_runs p v k32) seal
            (size_runs _ total),
      )
