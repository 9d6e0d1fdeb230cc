-- ===== src/Codec/RoundTrip.antt =====
-- `decode_index` reads back what `encode_index` wrote.
use memseal.Prelude.{
  ℕ, ◌*◌, ◌≤◌, ◌≡◌, refl, sym, ap, ◌∙◌, subst, false, none, [], ◌∷◌, ◌++◌, length, All, append-nil,
  append_assoc, length-append, arith, ltb, not, ◌==◌,
}
use memseal.Constants.{u64_max, max_index_entries, min_entry_len}
use memseal.Bytes.{Bytes, to_le_bytes}
use memseal.Bytes.Equality.{bytes_eq_iff, bytes_eq_refl}
use memseal.Errors.{ok, ◌>>◌, fail_if, What, corrupted_data, trailing_bytes}
use memseal.HashMap.{HashMap, get, HasDistinctKeys}
use memseal.HashMap.Laws.{insert_new}
use memseal.Types.{IndexEntry, IndexData, VaultIndex}
use memseal.Codec.Hex.{key_to_hex-hex_to_key}
use memseal.Codec.Encode.{entry_bytes, encode_index, entries_total}
use memseal.Codec.Reader.{
  Reader, rest, advance, remaining, remaining-rest, take_ahead, read_le_ahead,
}
use memseal.Codec.Decode.{read_entry, read_entries, decode_index}
use memseal.Codec.Layout.{EncodesAs, EncodesAs-length, index_bytes, encode_index-inv}
use memseal.Codec.Sizes.{IsStorable, inside}

abbrev pub IsStorableAt : Bytes × IndexEntry → Type 0
IsStorableAt p = IsStorable p.1

-- One entry that lies ahead is read whole.
read_entry_ahead :
    (key : Bytes) (e : IndexEntry) (ys : Bytes) (r : Reader)
    → length key ≡ 32
    → IsStorable e
    → rest r ≡ entry_bytes key e ++ ys
    → (r' : Reader) × (read_entry r ≡ ok ((key, e), r')) × (rest r' ≡ ys)
unfolding read_entry
read_entry_ahead key e ys r h s ahead =
    let n = length e.encrypted_name in
    let d = length e.encrypted_data in
    let r1 = advance r 32 in
    let r2 = advance r1 8 in
    let r3 = advance r2 4 in
    let r4 = advance r3 n in
    let r5 = advance r4 4 in
    let (s1, a1) = take_ahead What.entry_key r 32 key _ h (ahead ∙ append_assoc key _ ys) in
    let (s2, a2) =
      read_le_ahead 8 What.entry_data_counter r1 e.data_counter _ (omega arith)
        (a1 ∙ append_assoc (to_le_bytes 8 e.data_counter) _ ys) in
    let (s3, a3) =
      read_le_ahead 4 What.entry_name_length r2 n _ (omega arith)
        (a2 ∙ append_assoc (to_le_bytes 4 n) _ ys) in
    let (s4, a4) =
      take_ahead What.entry_name_ciphertext r3 n e.encrypted_name _ refl
        (a3 ∙ append_assoc e.encrypted_name _ ys) in
    let (s5, a5) =
      read_le_ahead 4 What.entry_data_length r4 d _ (omega arith)
        (a4 ∙ append_assoc (to_le_bytes 4 d) _ ys) in
    let (s6, a6) = take_ahead What.entry_data_ciphertext r5 d e.encrypted_data ys refl a5 in
    let name_fits = inside 40 295 n (omega arith) (omega arith) in
    let data_fits = inside 40 67108904 d (omega arith) (omega arith) in
    (advance r5 d, rw (s1, s2, s3, name_fits, s4, s5, data_fits, s6), a6)

module _ {ℓ} {V : Type ℓ} where
  get-append_self : (k : Bytes) (v : V) (xs ys : HashMap V) → get k (xs ++ (k, v) ∷ ys) ≡ none → ⊥
  unfolding get
  get-append_self k v [] ys h = ground (arith, bytes_eq_refl k)
  get-append_self k v ((j, w) ∷ xs) ys h = ground (arith, get-append_self k v xs ys)

  -- In a map with distinct keys no key stands in the part before it.
  fresh_before :
      (k : Bytes) (v : V) (xs ys : HashMap V)
      → HasDistinctKeys (xs ++ (k, v) ∷ ys)
      → get k xs ≡ none
  unfolding get
  fresh_before k v [] ys h = refl
  fresh_before k v ((j, w) ∷ xs) ys h =
      ground (arith, fresh_before k v xs ys h.1, get-append_self k v xs ys, bytes_eq_iff j k)

-- The loop reads the entries one after the other, behind those that it already has.
read_entries_ahead :
    (files acc : HashMap IndexEntry) (bs ys : Bytes) (r : Reader)
    → HasDistinctKeys (acc ++ files)
    → All IsStorableAt files
    → EncodesAs files bs
    → rest r ≡ bs ++ ys
    → (r' : Reader) × (read_entries (length files) acc r ≡ ok (acc ++ files, r')) × (rest r' ≡ ys)
unfolding read_entries
read_entries_ahead [] acc bs ys r nd st enc ahead =
    (r, rw append-nil, ahead ∙ ap (λ (b : Bytes). b ++ ys) enc)
read_entries_ahead ((hex_key, e) ∷ files) acc bs ys r nd st (key, tail, hk, hn, hd, split, more)
      ahead =
    let (form, bytes, len) = key_to_hex-hex_to_key hex_key key hk in
    let (r1, step, a1) =
      read_entry_ahead key e (tail ++ ys) r len st.0
        (ahead ∙ (ap (λ (b : Bytes). b ++ ys) split ∙ append_assoc (entry_bytes key e) tail ys)) in
    let fresh = fresh_before hex_key e acc files nd in
    let joined = append_assoc acc ((hex_key, e) ∷ []) files in
    let (r2, rest_steps, a2) =
      read_entries_ahead files (acc ++ (hex_key, e) ∷ []) tail ys r1
        (subst HasDistinctKeys (sym joined) nd) st.1 more a1 in
    (
      r2,
      rw (step, form, fresh, insert_new hex_key e acc fresh)
          (rest_steps ∙ ap (λ (m : HashMap IndexEntry). ok (m, r2)) joined),
      a2,
    )

-- Every entry takes at least `min_entry_len` bytes, so the plausibility test passes.
EncodesAs-min :
    (files : HashMap IndexEntry) (bs : Bytes)
    → All IsStorableAt files
    → EncodesAs files bs
    → length files * min_entry_len ≤ length bs
EncodesAs-min files bs st enc = rw (EncodesAs-length files bs enc) (total files st)
  where
    total :
        (m : HashMap IndexEntry) → All IsStorableAt m → length m * min_entry_len ≤ entries_total m
    total [] h = omega arith
    total ((k, e) ∷ m) h = omega (arith, total m h.1)

-- The contents of an index that `encode_index` can write and `decode_index` accepts: at most 1024
-- entries under distinct keys, each storable, and counters that are `u64`s.
pub record IsEncodable (index : IndexData) : Type 0 where
  pub nonce_counter_fits : index.nonce_counter ≤ u64_max
  pub data_nonce_counter_fits : index.data_nonce_counter ≤ u64_max
  pub count : length index.files ≤ max_index_entries
  pub distinct : HasDistinctKeys index.files
  pub storable : All IsStorableAt index.files

abbrev pub index_data : VaultIndex → IndexData
index_data index = record {
  nonce_counter = index.nonce_counter;
  data_nonce_counter = index.data_nonce_counter;
  files = index.files;
}

-- The bytes of an encodable index with anything behind them: the entries are read, and what is
-- left over decides.
pub decode_index_ahead :
    (index : VaultIndex) (bs ys : Bytes)
    → IsEncodable (index_data index)
    → EncodesAs index.files bs
    → decode_index
        (index_bytes index.nonce_counter index.data_nonce_counter (length index.files) (bs ++ ys))
      ≡ (fail_if (not (length ys == 0)) (corrupted_data (trailing_bytes (length ys)))
          >> ok (index_data index))
unfolding decode_index
decode_index_ahead index bs ys v enc =
    let c = index.nonce_counter in
    let d = index.data_nonce_counter in
    let k = length index.files in
    let r0 : Reader = record { buf = index_bytes c d k (bs ++ ys); pos = 0 } in
    let r1 = advance r0 2 in
    let r2 = advance r1 8 in
    let r3 = advance r2 8 in
    let r4 = advance r3 4 in
    let (s1, a1) = read_le_ahead 2 What.version r0 2 _ (omega arith) refl in
    let (s2, a2) = read_le_ahead 8 What.nonce_counter r1 c _ (omega arith) a1 in
    let (s3, a3) = read_le_ahead 8 What.data_nonce_counter r2 d _ (omega arith) a2 in
    let (s4, a4) = read_le_ahead 4 What.entry_count r3 k _ (omega arith) a3 in
    let (r5, s5, a5) = read_entries_ahead index.files [] bs ys r4 v.distinct v.storable enc a4 in
    let left = remaining-rest r4 ∙ (ap (length {A = ℕ}) a4 ∙ length-append bs ys) in
    let left_over = remaining-rest r5 ∙ ap (length {A = ℕ}) a5 in
    let within : ltb max_index_entries k ≡ false = ground arith in
    let plausible : ltb (remaining r4) (k * min_entry_len) ≡ false =
      ground (arith, EncodesAs-min index.files bs v.storable enc) in
    rw (s1, s2, s3, s4, within, plausible, s5, left_over)

-- For an index with at most 1024 entries under distinct keys, valid ciphertext lengths and `u64`
-- counters: if `encode_index` succeeds, `decode_index` returns the same counters and entries.
pub decode_index-encode_index :
    (index : VaultIndex) (out : Bytes)
    → IsEncodable (index_data index)
    → encode_index index ≡ ok out
    → decode_index out ≡ ok (index_data index)
decode_index-encode_index index out v h =
    let (bs, n, enc, same) = encode_index-inv index out h in
    let all = index_bytes index.nonce_counter index.data_nonce_counter (length index.files) in
    ap decode_index (same ∙ ap all (sym (append-nil bs))) ∙ decode_index_ahead index bs [] v enc
