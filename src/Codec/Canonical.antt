-- ===== src/Codec/Canonical.antt =====
-- What `decode_index` accepts: exactly the bytes that `encode_index` writes.
use memseal.Prelude.{
  ℕ, suc, ◌*◌, ◌≡◌, refl, sym, ap, ◌∙◌, subst, false, [], ◌∷◌, ◌++◌, length, All, append-nil,
  append_assoc, arith, ltb, not, ◌==◌,
}
use memseal.Constants.{max_index_entries, min_entry_len}
use memseal.Bytes.{Bytes, AreBytes}
use memseal.Errors.{
  Message, Result, ok, err, ◌>>◌, fail_if, VaultError, What, corrupted_data, trailing_bytes,
  >>=-eq-ok, fail_if-eq-ok, ok-injective,
}
use memseal.HashMap.{HashMap}
use memseal.Types.{IndexEntry, IndexData, VaultIndex}
use memseal.Codec.Encode.{encode_index}
use memseal.Codec.Reader.{Reader, rest, read_le, remaining, remaining-rest, read_le-ReadInt}
use memseal.Codec.Decode.{read_entries, decode_index}
use memseal.Codec.Layout.{EncodesAs, index_bytes, encode_index-eq}
use memseal.Codec.RoundTrip.{
  IsStorableAt, IsEncodable, index_data, decode_index_ahead, decode_index-encode_index,
}
use memseal.Codec.Failures.{FailsCorrupted, corrupted, decode_index-FailsCorrupted}
use memseal.Codec.ReadBack.{read_entries-inv}

-- The bytes that were accepted, and the index data that they stand for.
pub record Accepted (bytes : Bytes) (index : IndexData) : Type 0 where
  pub encodable : IsEncodable index
  pub bs : Bytes
  pub encoded : EncodesAs index.files bs
  pub whole :
      bytes ≡ index_bytes index.nonce_counter index.data_nonce_counter (length index.files) bs

no_bytes : (b : Bytes) → length b ≡ 0 → b ≡ []
no_bytes [] h = refl
no_bytes (x ∷ b) h = absurd (omega arith)

is_version : (v : ℕ) → not (v == 2) ≡ false → v ≡ 2
is_version v h = ground arith

is_zero : (n : ℕ) → not (n == 0) ≡ false → n ≡ 0
is_zero n h = ground arith

-- The reads of a successful run, put together.
accept :
    {v c d k : ℕ} {m : HashMap IndexEntry} {r1 r2 r3 r4 r5 : Reader} (bytes : Bytes)
    → AreBytes bytes
    → read_le 2 What.version (record { buf = bytes; pos = 0 }) ≡ ok (v, r1)
    → not (v == 2) ≡ false
    → read_le 8 What.nonce_counter r1 ≡ ok (c, r2)
    → read_le 8 What.data_nonce_counter r2 ≡ ok (d, r3)
    → read_le 4 What.entry_count r3 ≡ ok (k, r4)
    → ltb max_index_entries k ≡ false
    → read_entries k [] r4 ≡ ok (m, r5)
    → not (remaining r5 == 0) ≡ false
    → Accepted bytes (record { nonce_counter = c; data_nonce_counter = d; files = m })
accept {v} {c} {d} {k} {m} {r1} {r2} {r3} {r4} {r5} bytes h t1 is2 t2 t3 t4 within t5 none_left =
    let (k1, h1) = read_le-ReadInt 2 What.version _ r1 v h t1 in
    let (k2, h2) = read_le-ReadInt 8 What.nonce_counter r1 r2 c h1 t2 in
    let (k3, h3) = read_le-ReadInt 8 What.data_nonce_counter r2 r3 d h2 t3 in
    let (k4, h4) = read_le-ReadInt 4 What.entry_count r3 r4 k h3 t4 in
    let e = read_entries-inv k [] m r4 r5 h4 tt t5 in
    let end : rest r5 ≡ [] = no_bytes _ (omega (arith, remaining-rest r5, is_zero _ none_left)) in
    let n : k ≡ length m = sym (ap length e.whole ∙ e.count) in
    record {
      encodable = record {
        nonce_counter_fits = omega (arith, k2.fits);
        data_nonce_counter_fits = omega (arith, k3.fits);
        count = ground arith;
        distinct = e.distinct;
        storable = subst (λ m. All IsStorableAt m) (sym e.whole) e.storable;
      };
      bs = e.bs;
      encoded = subst (λ m. EncodesAs m e.bs) (sym e.whole) e.encoded;
      whole = cc (
        k1.split,
        is_version v is2,
        k2.split,
        k3.split,
        k4.split,
        n,
        e.split,
        end,
        append-nil e.bs,
      );
    }

-- A successful run of the decoder, read backwards.
decode_index-Accepted :
    (bytes : Bytes) (index : IndexData)
    → AreBytes bytes
    → decode_index bytes ≡ ok index
    → Accepted bytes index
unfolding decode_index
decode_index-Accepted bytes index h eq =
    let r0 : Reader = record { buf = bytes; pos = 0 } in
    let (p1, t1, q1) = >>=-eq-ok (read_le 2 What.version r0) _ eq in
    let (u, o1, q2) = >>=-eq-ok (fail_if (not (p1.0 == 2)) _) _ q1 in
    let (p2, t2, q3) = >>=-eq-ok (read_le 8 What.nonce_counter p1.1) _ q2 in
    let (p3, t3, q4) = >>=-eq-ok (read_le 8 What.data_nonce_counter p2.1) _ q3 in
    let (p4, t4, q5) = >>=-eq-ok (read_le 4 What.entry_count p3.1) _ q4 in
    let (v, o2, q6) = >>=-eq-ok (fail_if (ltb max_index_entries p4.0) _) _ q5 in
    let (w, o3, q7) = >>=-eq-ok (fail_if (ltb (remaining p4.1) (p4.0 * min_entry_len)) _) _ q6 in
    let (p5, t5, q8) = >>=-eq-ok (read_entries p4.0 [] p4.1) _ q7 in
    let (x, o4, q9) = >>=-eq-ok (fail_if (not (remaining p5.1 == 0)) _) _ q8 in
    subst (Accepted bytes) (ok-injective q9) (
      accept bytes h t1 (fail_if-eq-ok _ _ o1) t2 t3 t4 (fail_if-eq-ok _ _ o2) t5
        (fail_if-eq-ok _ _ o4))

-- What `decode_index` returns for bytes (each below 256) has `u64` counters and at most 1024
-- entries under distinct keys, with `u64` counters and valid ciphertext lengths.
pub decode_index-IsEncodable :
    (bytes : Bytes) (index : IndexData)
    → AreBytes bytes
    → decode_index bytes ≡ ok index
    → IsEncodable index
decode_index-IsEncodable bytes index h eq = (decode_index-Accepted bytes index h eq).encodable

-- Bytes (each below 256) that `decode_index` accepts are the ones that `encode_index` writes for
-- any index with the decoded counters and entries: there is one encoding of an index, for its
-- iteration order.
pub encode_index-decode_index :
    (bytes : Bytes) (index : VaultIndex)
    → AreBytes bytes
    → decode_index bytes ≡ ok (index_data index)
    → encode_index index ≡ ok bytes
encode_index-decode_index bytes index h eq =
    let a = decode_index-Accepted bytes (index_data index) h eq in
    encode_index-eq index a.bs (omega (arith, a.encodable.count)) a.encoded ∙ ap ok (sym a.whole)

left_over :
    (n : ℕ) (e : VaultError) (k : Result VaultError IndexData)
    → (fail_if (not (suc n == 0)) e >> k) ≡ err e
left_over n e k = ground arith

-- When `decode_index` accepts bytes (each below 256), it rejects them with one or more added
-- behind them, for that number of trailing bytes.
pub decode_index_extended :
    (bytes : Bytes) (x : ℕ) (more : Bytes) (index : IndexData)
    → AreBytes bytes
    → decode_index bytes ≡ ok index
    → decode_index (bytes ++ x ∷ more) ≡ err (corrupted_data (trailing_bytes (suc (length more))))
decode_index_extended bytes x more index h eq =
    let a = decode_index-Accepted bytes index h eq in
    let whole : VaultIndex = record {
      nonce = [];
      nonce_counter = index.nonce_counter;
      data_nonce_counter = index.data_nonce_counter;
      files = index.files;
      enc_key = record { region = [] };
      hmac_key = record { region = [] };
    } in
    ap decode_index (ap (λ b. b ++ x ∷ more) a.whole ∙ (simp append_assoc))
    ∙ (decode_index_ahead whole a.bs (x ∷ more) a.encodable a.encoded ∙ left_over (length more) _ _)

-- Every proper prefix (of bytes below 256) of the encoding of an encodable index is rejected as
-- corrupted data.
pub decode_index_truncated :
    (index : VaultIndex) (front : Bytes) (x : ℕ) (back : Bytes)
    → AreBytes front
    → IsEncodable (index_data index)
    → encode_index index ≡ ok (front ++ x ∷ back)
    → (m : Message) × (decode_index front ≡ err (corrupted_data m))
decode_index_truncated index front x back h v eq =
    split (decode_index front) refl (decode_index-FailsCorrupted front)
  where
    split :
        (r : Result VaultError IndexData)
        → decode_index front ≡ r
        → FailsCorrupted r
        → (m : Message) × (decode_index front ≡ err (corrupted_data m))
    split (ok d) e f =
        absurd
          (cc (decode_index-encode_index index _ v eq, decode_index_extended front x back d h e))
    split (err _) e (corrupted m) = (m, e)
