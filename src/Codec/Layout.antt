-- ===== src/Codec/Layout.antt =====
-- What the bytes of a list of entries look like, apart from how they are written or read; and
-- `encode_index` against it.
use memseal.Prelude.{
  ℕ, ◌+◌, ◌≤◌, ◌≡◌, refl, sym, ap, ◌∙◌, Option, none, some, [], ◌∷◌, ◌++◌, length, append-nil,
  append_assoc, length-append, arith,
}
use memseal.Constants.{u32_max, vault_index_version}
use memseal.Bytes.{Bytes, to_le_bytes}
use memseal.Bytes.LittleEndian.{length-to_le_bytes}
use memseal.Errors.{ok, VaultError, Message, >>=-eq-ok}
use memseal.HashMap.{HashMap}
use memseal.Types.{IndexEntry, VaultIndex}
use memseal.Codec.Hex.{hex_to_key, key_to_hex-hex_to_key}
use memseal.Codec.Encode.{
  ok_or, u32_try_from, entry_bytes, encode_entry, encode_entries, encode_index, entries_total,
  encoded_total,
}

-- `bs` is the entries one after the other, each under its raw key, and the lengths fit `u32`.
abbrev pub EncodesAs : HashMap IndexEntry → Bytes → Type 0
EncodesAs [] bs = bs ≡ []
EncodesAs ((hex_key, e) ∷ files) bs =
    (key : Bytes) × (tail : Bytes) × (hex_to_key hex_key ≡ some key)
    × (length e.encrypted_name ≤ u32_max)
    × (length e.encrypted_data ≤ u32_max)
    × (bs ≡ entry_bytes key e ++ tail)
    × EncodesAs files tail

u32_try_from-eq : (n : ℕ) (m : Message) → n ≤ u32_max → u32_try_from n m ≡ ok n
unfolding u32_try_from
u32_try_from-eq n m h = ground arith

u32_try_from-le : (n k : ℕ) (m : Message) → u32_try_from n m ≡ ok k → (n ≤ u32_max) × (k ≡ n)
unfolding u32_try_from
u32_try_from-le n k m h = ground arith

encode_entry-eq :
    (hex_key key out : Bytes) (e : IndexEntry)
    → hex_to_key hex_key ≡ some key
    → length e.encrypted_name ≤ u32_max
    → length e.encrypted_data ≤ u32_max
    → encode_entry hex_key e out ≡ ok (out ++ entry_bytes key e)
unfolding encode_entry
encode_entry-eq hex_key key out e h n d =
    simp (h, u32_try_from-eq _ _ n, u32_try_from-eq _ _ d, append_assoc)

encode_entries-eq :
    (files : HashMap IndexEntry) (out bs : Bytes)
    → EncodesAs files bs
    → encode_entries files out ≡ ok (out ++ bs)
unfolding encode_entries
encode_entries-eq [] out bs h = rw (h, append-nil)
encode_entries-eq ((hex_key, e) ∷ files) out bs (key, tail, hk, hn, hd, split, more) =
    rw (encode_entry-eq hex_key key out e hk hn hd) (
      encode_entries-eq files (out ++ entry_bytes key e) tail more
      ∙ ap ok
          (append_assoc out (entry_bytes key e) tail ∙ ap (λ (b : Bytes). out ++ b) (sym split)))

ok_or-eq-ok {ℓ} :
    {A : Type ℓ} (o : Option A) (e : VaultError) (a : A) → ok_or o e ≡ ok a → o ≡ some a
ok_or-eq-ok none e a h = cc
ok_or-eq-ok (some b) e a h = cc

-- What a successful round has checked and written.
encode_entry-inv :
    (hex_key out out' : Bytes) (e : IndexEntry)
    → encode_entry hex_key e out ≡ ok out'
    → (key : Bytes) × (hex_to_key hex_key ≡ some key)
      × (length e.encrypted_name ≤ u32_max)
      × (length e.encrypted_data ≤ u32_max)
      × (out' ≡ out ++ entry_bytes key e)
unfolding encode_entry
encode_entry-inv hex_key out out' e h =
    let (key, k1, h1) = >>=-eq-ok _ _ h in
    let (n, k2, h2) = >>=-eq-ok _ _ h1 in
    let (d, k3, h3) = >>=-eq-ok _ _ h2 in
    let hk = ok_or-eq-ok (hex_to_key hex_key) _ key k1 in
    let hn = (u32_try_from-le _ n _ k2).0 in
    let hd = (u32_try_from-le _ d _ k3).0 in
    (key, hk, hn, hd, cc (h, encode_entry-eq hex_key key out e hk hn hd))

encode_entries-inv :
    (files : HashMap IndexEntry) (out out' : Bytes)
    → encode_entries files out ≡ ok out'
    → (bs : Bytes) × (out' ≡ out ++ bs) × EncodesAs files bs
unfolding encode_entries
encode_entries-inv [] out out' h = ([], cc (h, append-nil out), refl)
encode_entries-inv ((hex_key, e) ∷ files) out out' h =
    let (mid, k1, h1) = >>=-eq-ok _ _ h in
    let (key, hk, hn, hd, written) = encode_entry-inv hex_key out mid e k1 in
    let (tail, same, more) = encode_entries-inv files mid out' h1 in
    (
      entry_bytes key e ++ tail,
      same ∙ (ap (λ (b : Bytes). b ++ tail) written ∙ append_assoc out (entry_bytes key e) tail),
      (key, tail, hk, hn, hd, refl, more),
    )

-- The preamble and what follows it.
abbrev pub index_bytes : ℕ → ℕ → ℕ → Bytes → Bytes
index_bytes nonce_counter data_nonce_counter count bs =
    to_le_bytes 2 vault_index_version
    ++ (to_le_bytes 8 nonce_counter
        ++ (to_le_bytes 8 data_nonce_counter ++ (to_le_bytes 4 count ++ bs)))

pub encode_index-eq :
    (index : VaultIndex) (bs : Bytes)
    → length index.files ≤ u32_max
    → EncodesAs index.files bs
    → encode_index index
      ≡ ok (index_bytes index.nonce_counter index.data_nonce_counter (length index.files) bs)
unfolding encode_index
encode_index-eq index bs n h =
    rw (u32_try_from-eq _ _ n, encode_entries-eq _ _ bs h) (simp append_assoc)

pub encode_index-inv :
    (index : VaultIndex) (out : Bytes)
    → encode_index index ≡ ok out
    → (bs : Bytes) × (length index.files ≤ u32_max)
      × EncodesAs index.files bs
      × (out ≡ index_bytes index.nonce_counter index.data_nonce_counter (length index.files) bs)
unfolding encode_index
encode_index-inv index out h =
    let (count, k1, h1) = >>=-eq-ok _ _ h in
    let (n, same) = u32_try_from-le _ count _ k1 in
    let (bs, written, more) = encode_entries-inv index.files _ out h1 in
    (bs, n, more, cc (h, encode_index-eq index bs n more))

length-entry_bytes :
    (key : Bytes) (e : IndexEntry)
    → length (entry_bytes key e)
      ≡ length key + 16 + length e.encrypted_name + length e.encrypted_data
length-entry_bytes key e = simp (length-append, length-to_le_bytes) (omega arith)

pub EncodesAs-length :
    (files : HashMap IndexEntry) (bs : Bytes) → EncodesAs files bs → length bs ≡ entries_total files
EncodesAs-length [] bs h = rw h
EncodesAs-length ((hex_key, e) ∷ files) bs (key, tail, hk, hn, hd, split, more) =
    let (form, bytes, len) = key_to_hex-hex_to_key hex_key key hk in
    rw split (
      omega (
        arith,
        EncodesAs-length files tail more,
        length-entry_bytes key e,
        length-append (entry_bytes key e) tail,
        len,
      ))

-- What `encode_index` writes has the length that it computed for the buffer, which its
-- `debug_assert_eq!` tests.
pub length-encode_index :
    (index : VaultIndex) (out : Bytes)
    → encode_index index ≡ ok out
    → length out ≡ encoded_total index
unfolding encoded_total
length-encode_index index out h =
    let (bs, n, more, same) = encode_index-inv index out h in
    rw same (
      simp (length-append, length-to_le_bytes)
        (omega (arith, EncodesAs-length index.files bs more)))
