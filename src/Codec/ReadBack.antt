-- ===== src/Codec/ReadBack.antt =====
-- What a successful run of `read_entry` and `read_entries` has read.
use memseal.Prelude.{
  ℕ, zero, suc, ◌≡◌, refl, sym, ap, ◌∙◌, subst, false, Option, none, some, [], ◌∷◌, ◌++◌, length,
  All, append-nil, append_assoc, arith,
}
use memseal.Bytes.{Bytes, AreBytes}
use memseal.Errors.{ok, fail_if, What, >>=-eq-ok, fail_if-eq-ok, ok-injective}
use memseal.HashMap.{HashMap, get, insert, HasDistinctKeys}
use memseal.HashMap.Laws.{insert_new, insert-HasDistinctKeys}
use memseal.Types.{IndexEntry}
use memseal.Codec.Hex.{key_to_hex, hex_to_key-key_to_hex}
use memseal.Codec.Encode.{entry_bytes}
use memseal.Codec.Reader.{Reader, rest, take, read_le, take-Took, read_le-ReadInt, AreBytes-split}
use memseal.Codec.Decode.{read_entry, read_entries, is_some, outside}
use memseal.Codec.Layout.{EncodesAs}
use memseal.Codec.Sizes.{IsStorable, inside-inv}
use memseal.Codec.RoundTrip.{IsStorableAt}

-- What one successful round has read.
pub record ReadEntry (r : Reader) (key : Bytes) (e : IndexEntry) (r' : Reader) : Type 0 where
  pub split : rest r ≡ entry_bytes key e ++ rest r'
  pub key_length : length key ≡ 32
  pub key_bytes : AreBytes key
  pub storable : IsStorable e
  pub left : AreBytes (rest r')

-- The six reads of a round, put together.
reads_entry :
    {key name content : Bytes} {c n d : ℕ} {r1 r2 r3 r4 r5 r6 : Reader} (r : Reader)
    → AreBytes (rest r)
    → take 32 What.entry_key r ≡ ok (key, r1)
    → read_le 8 What.entry_data_counter r1 ≡ ok (c, r2)
    → read_le 4 What.entry_name_length r2 ≡ ok (n, r3)
    → outside 40 295 n ≡ false
    → take n What.entry_name_ciphertext r3 ≡ ok (name, r4)
    → read_le 4 What.entry_data_length r4 ≡ ok (d, r5)
    → outside 40 67108904 d ≡ false
    → take d What.entry_data_ciphertext r5 ≡ ok (content, r6)
    → ReadEntry r key
        (record { data_counter = c; encrypted_name = name; encrypted_data = content })
        r6
reads_entry {key} {name} {content} {c} {n} {d} {r1} {r2} {r3} {r4} {r5} {r6} r h t1 t2 t3 o1 t4 t5
      o2 t6 =
    let k1 = take-Took 32 What.entry_key r r1 key t1 in
    let (kb, h1) = AreBytes-split key (rest r1) (rest r) k1.split h in
    let (k2, h2) = read_le-ReadInt 8 What.entry_data_counter r1 r2 c h1 t2 in
    let (k3, h3) = read_le-ReadInt 4 What.entry_name_length r2 r3 n h2 t3 in
    let k4 = take-Took n What.entry_name_ciphertext r3 r4 name t4 in
    let h4 = (AreBytes-split name (rest r4) (rest r3) k4.split h3).1 in
    let (k5, h5) = read_le-ReadInt 4 What.entry_data_length r4 r5 d h4 t5 in
    let k6 = take-Took d What.entry_data_ciphertext r5 r6 content t6 in
    let h6 = (AreBytes-split content (rest r6) (rest r5) k6.split h5).1 in
    let name_fits = inside-inv 40 295 n o1 in
    let data_fits = inside-inv 40 67108904 d o2 in
    record {
      split =
          rw (k1.split, k2.split, k3.split, k4.split, k5.split, k6.split, k4.taken, k6.taken)
            (simp append_assoc);
      key_length = k1.taken;
      key_bytes = kb;
      storable = record {
        counter = omega (arith, k2.fits);
        sizes = record {
          name_lo = omega (arith, k4.taken, name_fits.0);
          name_hi = omega (arith, k4.taken, name_fits.1);
          data_lo = omega (arith, k6.taken, data_fits.0);
          data_hi = omega (arith, k6.taken, data_fits.1);
        };
      };
      left = h6;
    }

read_entry-ReadEntry :
    (r r' : Reader) (key : Bytes) (e : IndexEntry)
    → AreBytes (rest r)
    → read_entry r ≡ ok ((key, e), r')
    → ReadEntry r key e r'
unfolding read_entry
read_entry-ReadEntry r r' key e h eq =
    let (p1, t1, q1) = >>=-eq-ok (take 32 What.entry_key r) _ eq in
    let (p2, t2, q2) = >>=-eq-ok (read_le 8 What.entry_data_counter p1.1) _ q1 in
    let (p3, t3, q3) = >>=-eq-ok (read_le 4 What.entry_name_length p2.1) _ q2 in
    let (u, o1, q4) = >>=-eq-ok (fail_if (outside 40 295 p3.0) _) _ q3 in
    let (p4, t4, q5) = >>=-eq-ok (take p3.0 What.entry_name_ciphertext p3.1) _ q4 in
    let (p5, t5, q6) = >>=-eq-ok (read_le 4 What.entry_data_length p4.1) _ q5 in
    let (v, o2, q7) = >>=-eq-ok (fail_if (outside 40 67108904 p5.0) _) _ q6 in
    let (p6, t6, q8) = >>=-eq-ok (take p5.0 What.entry_data_ciphertext p5.1) _ q7 in
    subst (λ p. ReadEntry r p.0.0 p.0.1 p.1) (ok-injective q8)
      (reads_entry r h t1 t2 t3 (fail_if-eq-ok _ _ o1) t4 t5 (fail_if-eq-ok _ _ o2) t6)

-- What the loop has read behind `acc`.
pub record ReadEntries (n : ℕ) (acc : HashMap IndexEntry) (r : Reader) (m : HashMap IndexEntry)
    (r' : Reader) : Type 0 where
  pub files : HashMap IndexEntry
  pub bs : Bytes
  pub whole : m ≡ acc ++ files
  pub count : length files ≡ n
  pub split : rest r ≡ bs ++ rest r'
  pub encoded : EncodesAs files bs
  pub storable : All IsStorableAt files
  pub distinct : HasDistinctKeys m

is_some-false {ℓ} : {A : Type ℓ} (o : Option A) → is_some o ≡ false → o ≡ none
is_some-false none h = refl
is_some-false (some a) h = cc

pub read_entries-inv :
    (n : ℕ) (acc m : HashMap IndexEntry) (r r' : Reader)
    → AreBytes (rest r)
    → HasDistinctKeys acc
    → read_entries n acc r ≡ ok (m, r')
    → ReadEntries n acc r m r'
unfolding read_entries
read_entries-inv zero acc m r r' h nd eq = record {
  files = [];
  bs = [];
  whole = cc (ok-injective eq, append-nil acc);
  count = refl;
  split = cc (ok-injective eq);
  encoded = refl;
  storable = tt;
  distinct = subst (λ p. HasDistinctKeys p.0) (ok-injective eq) nd;
}
read_entries-inv (suc n) acc m r r' h nd eq =
    let (p, t1, q1) = >>=-eq-ok (read_entry r) _ eq in
    let (u, t2, q2) = >>=-eq-ok (fail_if (is_some (get (key_to_hex p.0.0) acc)) _) _ q1 in
    more p.0.0 p.0.1 p.1 (read_entry-ReadEntry r p.1 p.0.0 p.0.1 h t1)
      (is_some-false _ (fail_if-eq-ok _ _ t2))
      (λ hr.
        read_entries-inv n _ m p.1 r' hr (insert-HasDistinctKeys (key_to_hex p.0.0) p.0.1 acc nd)
          q2)
  where
    more :
        (key : Bytes) (e : IndexEntry) (r1 : Reader)
        → ReadEntry r key e r1
        → get (key_to_hex key) acc ≡ none
        → (AreBytes (rest r1) → ReadEntries n (insert (key_to_hex key) e acc) r1 m r')
        → ReadEntries (suc n) acc r m r'
    more key e r1 one fresh ih =
        let tail = ih one.left in
        let fits = one.storable.sizes in
        record {
          files = (key_to_hex key, e) ∷ tail.files;
          bs = entry_bytes key e ++ tail.bs;
          whole =
              tail.whole
              ∙ (ap (λ a. a ++ tail.files) (insert_new (key_to_hex key) e acc fresh)
                  ∙ append_assoc acc ((key_to_hex key, e) ∷ []) tail.files);
          count = ap suc tail.count;
          split =
              one.split
              ∙ (ap (λ b. entry_bytes key e ++ b) tail.split
                  ∙ sym (append_assoc (entry_bytes key e) tail.bs (rest r')));
          encoded = (
            key,
            tail.bs,
            hex_to_key-key_to_hex key one.key_bytes one.key_length,
            omega arith,
            omega arith,
            refl,
            tail.encoded,
          );
          storable = (one.storable, tail.storable);
          distinct = tail.distinct;
        }
