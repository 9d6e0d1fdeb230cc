-- ===== src/Index/Valid.antt =====
-- The invariant of an index: what the encoder needs and what `open` checks.
use Prim.Native.Nat.{max}
use memseal.Prelude.{
  ℕ, ◌+◌, ◌≤◌, ◌<◌, ◌≡◌, ◌↔◌, refl, sym, subst, Option-cases, inl, inr, Option, none, some, [], ◌∷◌,
  ◌++◌, length, All, arith, leb, if◌then◌else◌,
}
use memseal.Constants.{max_index_entries, u64_max}
use memseal.Bytes.{Bytes}
use memseal.Bytes.Equality.{bytes_eq→eq}
use memseal.Errors.{Result, ok, err, IndexError, inconsistent}
use memseal.HashMap.{HashMap, get, insert, remove}
use memseal.HashMap.Laws.{
  insert-All, remove-All, insert-HasDistinctKeys, remove-HasDistinctKeys, length-insert_new,
  length-insert_old, length-remove,
}
use memseal.Types.{IndexEntry, VaultIndex}
use memseal.Codec.Hex.{hex_to_key}
use memseal.Codec.Sizes.{IsStorable}
use memseal.Codec.RoundTrip.{IsEncodable, IsStorableAt, index_data}
use memseal.Codec.Layout.{EncodesAs, encode_index-eq}
use memseal.Codec.Encode.{entry_bytes, encode_index}
use memseal.Index.{check_counters, max_counter, remove_by_key}

-- The key of an entry is the hexadecimal form of 32 bytes.
pub record IsHexKey (hex_key : Bytes) : Type 0 where
  pub key : Bytes
  pub decoded : hex_to_key hex_key ≡ some key

abbrev IsKeyed : Bytes × IndexEntry → Type 0
IsKeyed p = IsHexKey p.0

-- The counter of an entry was handed out before.
abbrev pub IsBelow : ℕ → Bytes × IndexEntry → Type 0
IsBelow n p = p.1.data_counter < n

pub record IsValid (index : VaultIndex) : Type 0 where
  pub encodable : IsEncodable (index_data index)
  pub keyed : All IsKeyed index.files
  pub below : All (IsBelow index.data_nonce_counter) index.files

abbrev IsTopBelow : ℕ → Option ℕ → Type 0
IsTopBelow n none = Unit {0}
IsTopBelow n (some top) = top < n

top_with :
    (n c : ℕ) (o : Option ℕ)
    → IsTopBelow n (elim o [ none ↦ some c | some m ↦ some (max c m) ]) ↔ ((c < n) × IsTopBelow n o)
top_with n c none = ((λ h. (h, tt)), (λ h. h.0))
top_with n c (some m) = ((λ h. (omega arith, omega arith)), (λ h. omega (arith, h.0, h.1)))

max_counter-IsBelow :
    (n : ℕ) (files : HashMap IndexEntry) → IsTopBelow n (max_counter files) ↔ All (IsBelow n) files
unfolding max_counter
max_counter-IsBelow n [] = ((λ h. tt), (λ h. tt))
max_counter-IsBelow n ((k, e) ∷ files) =
    let (there, back) = max_counter-IsBelow n files in
    let (down, up) = top_with n e.data_counter (max_counter files) in
    ((λ h. ((down h).0, there (down h).1)), (λ h. up (h.0, back h.1)))

check_top :
    (n : ℕ) (o : Option ℕ)
    → ◌≡◌ {A = Result IndexError (Unit {0})}
        (elim o [ none ↦ ok tt | some top ↦ if leb n top then err (inconsistent n top) else ok tt ])
        (ok tt)
      ↔ IsTopBelow n o
check_top n none = ((λ h. tt), (λ h. refl))
check_top n (some top) = ((λ h. ground arith), (λ h. ground arith))

-- The counter test of `from_subkeys_and_data` accepts if and only if every entry has a counter
-- below the one that comes next.
pub check_counters-IsBelow :
    (n : ℕ) (files : HashMap IndexEntry) → (check_counters n files ≡ ok tt) ↔ All (IsBelow n) files
unfolding check_counters
check_counters-IsBelow n files =
    let (there, back) = max_counter-IsBelow n files in
    let (down, up) = check_top n (max_counter files) in ((λ h. there (down h)), (λ h. up (back h)))

EncodesAs-total :
    (files : HashMap IndexEntry)
    → All IsKeyed files
    → All IsStorableAt files
    → (bs : Bytes) × EncodesAs files bs
EncodesAs-total [] h k = ([], refl)
EncodesAs-total ((hex_key, e) ∷ files) h k =
    let (tail, more) = EncodesAs-total files h.1 k.1 in
    let sizes = k.0.sizes in
    (
      entry_bytes h.0.key e ++ tail,
      (
        h.0.key,
        tail,
        h.0.decoded,
        omega (arith, sizes.name_hi),
        omega (arith, sizes.data_hi),
        refl,
        more,
      ),
    )

-- `encode_index` succeeds on every valid index.
pub encode_index-total :
    (index : VaultIndex) → IsValid index → (out : Bytes) × (encode_index index ≡ ok out)
encode_index-total index v =
    let (bs, enc) = EncodesAs-total index.files v.keyed v.encodable.storable in
    (_, encode_index-eq index bs (omega (arith, v.encodable.count)) enc)

pub AllBelow-weaken :
    (n : ℕ) (files : HashMap IndexEntry) → All (IsBelow n) files → All (IsBelow (n + 1)) files
AllBelow-weaken n [] h = tt
AllBelow-weaken n ((k, e) ∷ files) h = (omega (arith, h.0), AllBelow-weaken n files h.1)

-- Taking an entry in keeps the invariant, if the counter is the next one and there is room.
pub insert-IsValid :
    (index : VaultIndex) (k : Bytes) (e : IndexEntry)
    → IsValid index
    → IsHexKey k
    → IsStorable e
    → e.data_counter ≡ index.data_nonce_counter
    → index.data_nonce_counter < u64_max
    → (get k index.files ≡ none → length index.files < max_index_entries)
    → IsValid
        (record index { data_nonce_counter = e.data_counter + 1; files = insert k e index.files })
insert-IsValid index k e v hex st counter fits room = record {
  encodable = record {
    nonce_counter_fits = v.encodable.nonce_counter_fits;
    data_nonce_counter_fits = omega (arith, counter, fits);
    count = count;
    distinct = insert-HasDistinctKeys k e index.files v.encodable.distinct;
    storable = insert-All IsStorableAt k e index.files (λ j q. st) v.encodable.storable;
  };
  keyed =
      insert-All IsKeyed k e index.files (λ j q. subst IsHexKey (sym (bytes_eq→eq j k q)) hex)
        v.keyed;
  below =
      insert-All (IsBelow (e.data_counter + 1)) k e index.files (λ j q. omega arith)
        (subst (λ n. All (IsBelow (n + 1)) index.files) (sym counter)
          (AllBelow-weaken index.data_nonce_counter index.files v.below));
}
  where
    count : length (insert k e index.files) ≤ max_index_entries
    count = elim (Option-cases (get k index.files)) [
      | inl none_there ↦
          omega (arith, length-insert_new k e index.files none_there, room none_there)
      | inr (w, there) ↦ omega (arith, length-insert_old k e w index.files there, v.encodable.count)
    ]

-- Removing an entry keeps the invariant.
pub remove_by_key-IsValid :
    (k : Bytes) (index : VaultIndex) → IsValid index → IsValid (remove_by_key k index).1
unfolding remove_by_key
remove_by_key-IsValid k index v = kept (get k index.files)
  where
    less : IsValid (record index { files = remove k index.files })
    less = record {
      encodable = record {
        nonce_counter_fits = v.encodable.nonce_counter_fits;
        data_nonce_counter_fits = v.encodable.data_nonce_counter_fits;
        count = omega (arith, length-remove k index.files, v.encodable.count);
        distinct = remove-HasDistinctKeys k index.files v.encodable.distinct;
        storable = remove-All IsStorableAt k index.files v.encodable.storable;
      };
      keyed = remove-All IsKeyed k index.files v.keyed;
      below = remove-All (IsBelow index.data_nonce_counter) k index.files v.below;
    }

    kept :
        (found : Option IndexEntry)
        → let q : Option IndexEntry × VaultIndex = elim found [
          | none ↦ (none, index)
          | some entry ↦ (some entry, record index { files = remove k index.files })
        ] in
          IsValid q.1
    kept none = v
    kept (some e) = less
