-- ===== src/Envelope/RoundTrip.antt =====
-- `parse_envelope` reads the parts that `export` wrote.
use memseal.Prelude.{
  ℕ, ◌+◌, ◌≤◌, ◌%◌, ◌^◌, ◌≡◌, refl, sym, ap, ◌∙◌, false, ◌++◌, length, take, drop, take-append,
  drop-append, length-append, append_assoc, some, ltb, arith,
}
use memseal.Constants.{max_header_json_len, max_vault_file_size, vault_version}
use memseal.Bytes.{Bytes, to_le_bytes, from_le_bytes}
use memseal.Bytes.Equality.{bytes_eq_refl}
use memseal.Bytes.LittleEndian.{length-to_le_bytes, from_le_bytes-to_le_bytes}
use memseal.Errors.{ok}
use memseal.Platform.{Platform, IsSound}
use memseal.Types.{VaultHeader}
use memseal.Header.{validate_header, to_aad_bytes}
use memseal.Envelope.{slice, parse_envelope}
use memseal.Vault.Export.{envelope_bytes}

take_front : (n : ℕ) (a b : Bytes) → length a ≡ n → take n (a ++ b) ≡ a
take_front n a b h = ap (λ m. take m (a ++ b)) (sym h) ∙ take-append a b

drop_front : (n : ℕ) (a b : Bytes) → length a ≡ n → drop n (a ++ b) ≡ b
drop_front n a b h = ap (λ m. drop m (a ++ b)) (sym h) ∙ drop-append a b

slice-append :
    (from to : ℕ) (a b c : Bytes)
    → length a ≡ from
    → length b + from ≡ to
    → slice from to (a ++ (b ++ c)) ≡ b
slice-append from to a b c ha hb =
    let ends : length (a ++ b) ≡ to = omega (arith, length-append a b) in
    ap (drop from) (ap (take to) (sym (append_assoc a b c)) ∙ take_front to (a ++ b) c ends)
    ∙ drop_front from a b ha

module _ (p : Platform) where
  -- What the tests and slices of `parse_envelope` come to, for an envelope of the current version.
  parse_envelope_by :
      (header : VaultHeader) (bytes json nonce index : Bytes)
      → header.version ≡ vault_version
      → validate_header header ≡ ok tt
      → p.header_to_json header ≡ some json
      → p.header_from_json json ≡ some header
      → ltb max_vault_file_size (length bytes) ≡ false
      → ltb (length bytes) 4 ≡ false
      → from_le_bytes (take 4 bytes) ≡ length json
      → ltb max_header_json_len (length json) ≡ false
      → ltb (length bytes) (4 + length json + 24) ≡ false
      → slice 4 (4 + length json) bytes ≡ json
      → slice (4 + length json) (4 + length json + 24) bytes ≡ nonce
      → drop (4 + length json + 24) bytes ≡ index
      → parse_envelope p bytes
        ≡ ok (record { header = header; nonce = nonce; encrypted_index = index })
  unfolding parse_envelope to_aad_bytes
  parse_envelope_by header bytes json nonce index current valid encodes decodes t1 t2 len t3 t4 part
        after rest =
      rw
        (
          t1,
          t2,
          len,
          t3,
          t4,
          part,
          decodes,
          valid,
          encodes,
          bytes_eq_refl json,
          current,
          after,
          rest,
        )
        refl

  -- On a platform that keeps the laws of `IsSound`: the header, the nonce and the sealed index
  -- come back from an envelope of version 2 when `validate_header` accepts the header and it
  -- encodes to the header bytes, these are at most 4096, the nonce has 24 bytes, and the whole is
  -- within 256 MiB.
  pub parse_envelope-envelope_bytes :
      (sound : IsSound p) (header : VaultHeader) (json nonce encrypted_index : Bytes)
      → header.version ≡ vault_version
      → validate_header header ≡ ok tt
      → p.header_to_json header ≡ some json
      → length json ≤ max_header_json_len
      → length nonce ≡ 24
      → length (envelope_bytes json nonce encrypted_index) ≤ max_vault_file_size
      → parse_envelope p (envelope_bytes json nonce encrypted_index)
        ≡ ok (record { header = header; nonce = nonce; encrypted_index = encrypted_index })
  parse_envelope-envelope_bytes sound header json nonce index current valid encodes short n24 fits =
      let n = length json in
      let le = to_le_bytes 4 (n % 2 ^ 32) in
      let four = length-to_le_bytes 4 (n % 2 ^ 32) in
      let all = envelope_bytes json nonce index in
      let total : length all ≡ 4 + n + 24 + length index = omega (
        arith,
        length-append le (json ++ (nonce ++ index)),
        length-append json (nonce ++ index),
        length-append nonce index,
      ) in
      let t1 : ltb max_vault_file_size (length all) ≡ false = ground arith in
      let t2 : ltb (length all) 4 ≡ false = ground arith in
      let len : from_le_bytes (take 4 all) ≡ n =
        ap from_le_bytes (take_front 4 le (json ++ (nonce ++ index)) four)
        ∙ (from_le_bytes-to_le_bytes 4 (n % 2 ^ 32) (omega arith) ∙ omega arith) in
      let t3 : ltb max_header_json_len n ≡ false = ground arith in
      let t4 : ltb (length all) (4 + n + 24) ≡ false = ground arith in
      let back =
        ap (λ (b : Bytes). le ++ b) (sym (append_assoc json nonce index))
        ∙ sym (append_assoc le (json ++ nonce) index) in
      parse_envelope_by header all json nonce index current valid encodes
        (sound.json_round_trip header json encodes) t1 t2 len t3 t4
        (slice-append 4 (4 + n) le json (nonce ++ index) four (omega arith))
        (ap (slice (4 + n) (4 + n + 24)) (sym (append_assoc le json (nonce ++ index)))
          ∙ slice-append (4 + n) (4 + n + 24) (le ++ json) nonce index
              (omega (arith, length-append le json)) (omega arith))
        (ap (drop (4 + n + 24)) back
          ∙ drop_front (4 + n + 24) (le ++ (json ++ nonce)) index
              (omega (arith, length-append le (json ++ nonce), length-append json nonce)))
