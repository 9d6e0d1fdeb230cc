-- ===== src/Envelope/Canonical.antt =====
-- The bytes of a file that `parse_envelope` accepts.
use memseal.Prelude.{
  ℕ, zero, suc, ◌+◌, ◌-◌, ◌≤◌, ◌≡◌, refl, sym, ap, ap₂, ◌∙◌, subst, false, not, ◌&&◌, List, [], ◌∷◌,
  ◌++◌, length, take, drop, take-append-drop, length-take, length-drop, All-take, some, ltb, ◌==◌,
  arith, if◌then◌else◌,
}
use memseal.Constants.{max_header_json_len, max_vault_file_size, legacy_vault_version_1}
use memseal.Bytes.{Bytes, IsByte, AreBytes, to_le_bytes, from_le_bytes, bytes_eq}
use memseal.Bytes.Equality.{bytes_eq→eq}
use memseal.Bytes.LittleEndian.{to_le_bytes-from_le_bytes}
use memseal.Errors.{ok, >>=-eq-ok, fail_if, fail_if-eq-ok, ok-injective}
use memseal.Platform.{Platform}
use memseal.Types.{VaultHeader}
use memseal.Crypto.Random.{ok_or}
use memseal.Crypto.Aead.{ok_or-eq-ok}
use memseal.Header.{validate_header, to_aad_bytes}
use memseal.Envelope.{Envelope, slice, index_start, parse_envelope}

-- A file is a length, the header in its one encoding, a nonce, eight bytes in format version 1 only,
-- and the sealed index.
pub record IsFile (p : Platform) (bytes : Bytes) (e : Envelope) : Type 0 where
  pub json : Bytes
  pub legacy : Bytes
  pub whole :
      bytes ≡ to_le_bytes 4 (length json) ++ (json ++ (e.nonce ++ (legacy ++ e.encrypted_index)))
  pub encodes : p.header_to_json e.header ≡ some json
  pub accepted : validate_header e.header ≡ ok tt
  pub json_size : length json ≤ max_header_json_len
  pub nonce_size : length e.nonce ≡ 24
  pub legacy_size : length legacy ≡ (if e.header.version == legacy_vault_version_1 then 8 else 0)
  pub size : length bytes ≤ max_vault_file_size

module _ {ℓ} {A : Type ℓ} where
  drop-take : (a b : ℕ) (xs : List A) → a ≤ b → drop a xs ≡ drop a (take b xs) ++ drop b xs
  drop-take zero b xs h = sym (take-append-drop b xs)
  drop-take (suc a) zero xs h = absurd (omega (arith, h))
  drop-take (suc a) (suc b) [] h = refl
  drop-take (suc a) (suc b) (x ∷ xs) h = drop-take a b xs (omega (arith, h))

  length-slice : (a b : ℕ) (xs : List A) → b ≤ length xs → length (drop a (take b xs)) ≡ b - a
  length-slice a b xs h = omega (arith, length-drop a (take b xs), length-take b xs)

-- The cuts of the parser cover the whole file.
cuts :
    (n c : ℕ) (bytes : Bytes)
    → 4 + n + 24 ≤ c
    → bytes
      ≡ take 4 bytes
        ++ (slice 4 (4 + n) bytes
            ++ (slice (4 + n) (4 + n + 24) bytes ++ (slice (4 + n + 24) c bytes ++ drop c bytes)))
cuts n c bytes h =
    sym (take-append-drop 4 bytes)
    ∙ ap (λ (b : Bytes). take 4 bytes ++ b)
        (drop-take 4 (4 + n) bytes (omega arith)
          ∙ ap (λ (b : Bytes). slice 4 (4 + n) bytes ++ b)
              (drop-take (4 + n) (4 + n + 24) bytes (omega arith)
                ∙ ap (λ (b : Bytes). slice (4 + n) (4 + n + 24) bytes ++ b)
                    (drop-take (4 + n + 24) c bytes h)))

start_at :
    (h : VaultHeader) (n len : ℕ)
    → (h.version == legacy_vault_version_1 && ltb len (index_start h (4 + n))) ≡ false
    → ltb len (4 + n + 24) ≡ false
    → let c = index_start h (4 + n) in
      (4 + n + 24 ≤ c)
      × (c ≤ len)
      × (c - (4 + n + 24) ≡ (if h.version == legacy_vault_version_1 then 8 else 0))
start_at h n len t1 t2 = ground arith

module _ (p : Platform) where
  -- The results of the tests and calls of `parse_envelope`, put together.
  is_file :
      {header : VaultHeader} {canonical : Bytes} (bytes : Bytes)
      → let n = from_le_bytes (take 4 bytes) in
        AreBytes bytes
        → ltb max_vault_file_size (length bytes) ≡ false
        → ltb (length bytes) 4 ≡ false
        → ltb max_header_json_len n ≡ false
        → ltb (length bytes) (4 + n + 24) ≡ false
        → validate_header header ≡ ok tt
        → p.header_to_json header ≡ some canonical
        → not (bytes_eq (slice 4 (4 + n) bytes) canonical) ≡ false
        → (header.version == legacy_vault_version_1
            && ltb (length bytes) (index_start header (4 + n)))
          ≡ false
        → IsFile p bytes (record {
          header = header;
          nonce = slice (4 + n) (4 + n + 24) bytes;
          encrypted_index = drop (index_start header (4 + n)) bytes;
        })
  is_file {header} {canonical} bytes are t1 t2 t3 t4 valid encodes same t5 =
      let n = from_le_bytes (take 4 bytes) in
      let c = index_start header (4 + n) in
      let json = slice 4 (4 + n) bytes in
      let (low, high, extra) = start_at header n (length bytes) t5 t4 in
      let json_len : length json ≡ n =
        length-slice 4 (4 + n) bytes (ground (arith, t4)) ∙ omega arith in
      let tail =
        json
        ++ (slice (4 + n) (4 + n + 24) bytes ++ (slice (4 + n + 24) c bytes ++ drop c bytes)) in
      let four : length (take 4 bytes) ≡ 4 = ground (arith, length-take 4 bytes, t2) in
      let front : take 4 bytes ≡ to_le_bytes 4 (length json) =
        sym (to_le_bytes-from_le_bytes (take 4 bytes) (All-take IsByte 4 bytes are))
        ∙ ap₂ to_le_bytes four (sym json_len) in
      record {
        json = json;
        legacy = slice (4 + n + 24) c bytes;
        whole = cuts n c bytes low ∙ ap (λ (b : Bytes). b ++ tail) front;
        encodes = encodes ∙ ap some (sym (bytes_eq→eq json canonical (ground arith)));
        accepted = valid;
        json_size = ground (arith, json_len, t3);
        nonce_size = length-slice (4 + n) (4 + n + 24) bytes (ground (arith, t4)) ∙ omega arith;
        legacy_size = length-slice (4 + n + 24) c bytes high ∙ extra;
        size = ground (arith, t1);
      }

  -- Bytes (each below 256) that `parse_envelope` accepts are a file in the canonical form: the
  -- length of the header, the header in its one encoding, the nonce, eight bytes in version 1
  -- only, and the sealed index, with the parts that it returns, within the size limits, and with a
  -- header that `validate_header` accepts.
  pub parse_envelope-IsFile :
      (bytes : Bytes) (e : Envelope)
      → AreBytes bytes
      → parse_envelope p bytes ≡ ok e
      → IsFile p bytes e
  unfolding parse_envelope to_aad_bytes
  parse_envelope-IsFile bytes e are h =
      let n = from_le_bytes (take 4 bytes) in
      let (u1, o1, q1) = >>=-eq-ok (fail_if (ltb max_vault_file_size (length bytes)) _) _ h in
      let (u2, o2, q2) = >>=-eq-ok (fail_if (ltb (length bytes) 4) _) _ q1 in
      let (u3, o3, q3) = >>=-eq-ok (fail_if (ltb max_header_json_len n) _) _ q2 in
      let (u4, o4, q4) = >>=-eq-ok (fail_if (ltb (length bytes) (4 + n + 24)) _) _ q3 in
      let (header, o5, q5) =
        >>=-eq-ok (ok_or (p.header_from_json (slice 4 (4 + n) bytes)) _) _ q4 in
      let (u6, o6, q6) = >>=-eq-ok (validate_header header) _ q5 in
      let (canonical, o7, q7) = >>=-eq-ok (ok_or (p.header_to_json header) _) _ q6 in
      let (u8, o8, q8) =
        >>=-eq-ok (fail_if (not (bytes_eq (slice 4 (4 + n) bytes) canonical)) _) _ q7 in
      let (u9, o9, q9) =
        >>=-eq-ok
          (fail_if
            (header.version == legacy_vault_version_1
              && ltb (length bytes) (index_start header (4 + n)))
            _)
          _ q8 in
      subst (IsFile p bytes) (ok-injective q9) (
        is_file bytes are (fail_if-eq-ok _ _ o1) (fail_if-eq-ok _ _ o2) (fail_if-eq-ok _ _ o3)
          (fail_if-eq-ok _ _ o4) o6 (ok_or-eq-ok _ _ canonical o7) (fail_if-eq-ok _ _ o8)
          (fail_if-eq-ok _ _ o9))
