-- ===== src/Codec/Upgrade.antt =====
-- What `decode_index_v1` keeps of a version 1 index.
use memseal.Prelude.{
  ◌≡◌, refl, sym, ap, ◌∙◌, subst, Bool, true, false, not, Option, none, some, [], ◌∷◌, length, ltb,
  ◌==◌, if◌then◌else◌, arith, All, ◌⊎◌, Bool-cases, inl, inr,
}
use memseal.Constants.{
  legacy_index_version_1, max_index_entries, min_encrypted_len, max_encrypted_name_len,
}
use memseal.Bytes.{Bytes, bytes_eq}
use memseal.Bytes.Equality.{bytes_eq→eq, bytes_eq_iff}
use memseal.Errors.{
  corrupted_data, invalid_index_json, Result, ok, ◌>>=◌, VaultError, >>=-eq-ok, fail_if,
  fail_if-eq-ok, ok-injective,
}
use memseal.HashMap.{HashMap, get, insert, HasDistinctKeys}
use memseal.HashMap.Laws.{get-insert, insert-All, insert-HasDistinctKeys}
use memseal.Types.{IndexEntry, IndexData}
use memseal.Codec.Hex.{hex_to_key}
use memseal.Codec.Encode.{ok_or}
use memseal.Codec.Decode.{is_some, outside}
use memseal.Codec.Sizes.{check_entry_sizes, HasValidSizes, inside-inv}
use memseal.Codec.Legacy.{Meta, LegacyIndex, payload, legacy_entry, legacy_entries, decode_index_v1}

-- The entry that is left of an entry of the JSON index: nothing of a dummy.
abbrev pub live : Option Meta → Option IndexEntry
live none = none
live (some meta) =
    if meta.is_dummy
    then none
    else payload meta.data_counter meta.encrypted_name meta.encrypted_data

check_entry_sizes-HasValidSizes : (e : IndexEntry) → check_entry_sizes e ≡ ok tt → HasValidSizes e
unfolding check_entry_sizes
check_entry_sizes-HasValidSizes e h =
    let (u, o1, q1) =
      >>=-eq-ok
        (fail_if (outside min_encrypted_len max_encrypted_name_len (length e.encrypted_name)) _) _
        h in
    let (a, b) = inside-inv _ _ _ (fail_if-eq-ok _ _ o1) in
    let (c, d) = inside-inv _ _ _ (fail_if-eq-ok _ _ q1) in
    record { name_lo = a; name_hi = b; data_lo = c; data_hi = d }

-- An entry of the result: its key is hexadecimal for 32 bytes, and its sizes are valid.
abbrev pub IsUpgraded : Bytes × IndexEntry → Type 0
IsUpgraded p = (is_some (hex_to_key p.0) ≡ true) × HasValidSizes p.1

-- An entry of the JSON index is a dummy, or it has both ciphertexts and makes an entry of the result.
abbrev pub IsKept : Bytes × Meta → Type 0
IsKept p =
    (p.1.is_dummy ≡ true)
    ⊎ ((e : IndexEntry) × (payload p.1.data_counter p.1.encrypted_name p.1.encrypted_data ≡ some e)
        × IsUpgraded (p.0, e))

some_or : (o : Option IndexEntry) (e : IndexEntry) (x : VaultError) → ok_or o x ≡ ok e → o ≡ some e
some_or none e x h = cc
some_or (some a) e x h = cc

legacy_entry-IsUpgraded :
    (key : Bytes) (meta : Meta) (e : IndexEntry)
    → legacy_entry key meta ≡ ok e
    → (payload meta.data_counter meta.encrypted_name meta.encrypted_data ≡ some e)
      × IsUpgraded (key, e)
unfolding legacy_entry
legacy_entry-IsUpgraded key meta e h =
    let (u, o1, q1) = >>=-eq-ok (fail_if (not (is_some (hex_to_key key))) _) _ h in
    let (entry, o2, q2) =
      >>=-eq-ok (ok_or (payload meta.data_counter meta.encrypted_name meta.encrypted_data) _) _
        q1 in
    let (v, o3, q3) = >>=-eq-ok (check_entry_sizes entry) _ q2 in
    let same = ok-injective q3 in
    (
      some_or _ entry _ o2 ∙ ap some same,
      (
        ground (arith, fail_if-eq-ok _ _ o1),
        subst HasValidSizes same (check_entry_sizes-HasValidSizes entry o3),
      ),
    )

abbrev or_else : {A : Type 0} → Option A → Option A → Option A
or_else (some a) o = some a
or_else none o = o

-- The result of the loop, for any map that it starts with.
record Upgraded (metas : HashMap Meta) (before files : HashMap IndexEntry) : Type 0 where
  looked_up : (k : Bytes) → get k files ≡ or_else (live (get k metas)) (get k before)
  kept : All IsKept metas
  all : All IsUpgraded files
  distinct : HasDistinctKeys files

-- What one more entry adds: nothing for a dummy, else its payload.
add_dummy :
    (key k : Bytes) (meta : Meta) (metas : HashMap Meta) (before : Option IndexEntry)
    → meta.is_dummy ≡ true
    → get key metas ≡ none
    → or_else (live (get k metas)) before ≡ or_else (live (get k ((key, meta) ∷ metas))) before
unfolding get
add_dummy key k meta metas before dummy fresh = ground (arith, bytes_eq_iff key k)

add_live :
    (key k : Bytes) (meta : Meta) (metas : HashMap Meta) (e : IndexEntry)
    (before : HashMap IndexEntry)
    → meta.is_dummy ≡ false
    → payload meta.data_counter meta.encrypted_name meta.encrypted_data ≡ some e
    → get key metas ≡ none
    → or_else (live (get k metas)) (get k (insert key e before))
      ≡ or_else (live (get k ((key, meta) ∷ metas))) (get k before)
unfolding get
add_live key k meta metas e before real pay fresh = elim (Bool-cases (bytes_eq key k)) [
  | inl same ↦
      let none_here = subst (λ x. get x metas ≡ none) (bytes_eq→eq key k same) fresh in
      rw (get-insert key k e before, same, none_here, real, pay) refl
  | inr other ↦ rw (get-insert key k e before, other) refl
]

legacy_entries-Upgraded :
    (metas : HashMap Meta) (before files : HashMap IndexEntry)
    → HasDistinctKeys metas
    → All IsUpgraded before
    → HasDistinctKeys before
    → legacy_entries metas before ≡ ok files
    → Upgraded metas before files
unfolding legacy_entries
legacy_entries-Upgraded [] before files nd all nb h =
    subst (Upgraded [] before) (ok-injective h)
      (record { looked_up = λ k. unfold get in refl; kept = tt; all = all; distinct = nb })
legacy_entries-Upgraded ((key, meta) ∷ metas) before files nd all nb h =
    by_dummy
      (λ start all_start nd_start run.
        legacy_entries-Upgraded metas start files nd.1 all_start nd_start run)
      meta.is_dummy refl h
  where
    by_dummy :
        ((start : HashMap IndexEntry)
          → All IsUpgraded start
          → HasDistinctKeys start
          → legacy_entries metas start ≡ ok files
          → Upgraded metas start files)
        → (b : Bool) → meta.is_dummy ≡ b
        → ◌≡◌ {A = Result VaultError (HashMap IndexEntry)}
            (elim b [
              | true ↦ legacy_entries metas before
              | false ↦ (do
                entry ← legacy_entry key meta
                legacy_entries metas (insert key entry before))
            ])
            (ok files)
        → Upgraded ((key, meta) ∷ metas) before files
    by_dummy again true dummy run =
        let rest = again before all nb run in
        record {
          looked_up = λ k. rest.looked_up k ∙ add_dummy key k meta metas (get k before) dummy nd.0;
          kept = (inl dummy, rest.kept);
          all = rest.all;
          distinct = rest.distinct;
        }
    by_dummy again false real run =
        let (e, o1, q1) = >>=-eq-ok (legacy_entry key meta) _ run in
        let (pay, upgraded) = legacy_entry-IsUpgraded key meta e o1 in
        let rest =
          again (insert key e before)
            (insert-All IsUpgraded key e before
              (λ j same. subst (λ i. IsUpgraded (i, e)) (sym (bytes_eq→eq j key same)) upgraded)
              all)
            (insert-HasDistinctKeys key e before nb) q1 in
        record {
          looked_up = λ k. rest.looked_up k ∙ add_live key k meta metas e before real pay nd.0;
          kept = (inr (e, pay, upgraded), rest.kept);
          all = rest.all;
          distinct = rest.distinct;
        }

-- When the version 1 decoder succeeds on a JSON index with distinct keys, every entry that is no dummy
-- has both ciphertexts, a key that is hexadecimal for 32 bytes and valid ciphertext lengths: none is
-- skipped. The result holds exactly these entries, each with its counter and ciphertexts, under
-- distinct keys, and the counters of the index.
pub decode_index_v1-live :
    (from_slice : Bytes → Option LegacyIndex) (json : Bytes) (index : LegacyIndex) (d : IndexData)
    → from_slice json ≡ some index
    → HasDistinctKeys index.files
    → decode_index_v1 from_slice json ≡ ok d
    → ((k : Bytes) → get k d.files ≡ live (get k index.files))
      × All IsKept index.files
      × All IsUpgraded d.files
      × HasDistinctKeys d.files
      × (d.nonce_counter ≡ index.nonce_counter)
      × (d.data_nonce_counter ≡ index.data_nonce_counter)
unfolding decode_index_v1 get
decode_index_v1-live from_slice json index d parsed nd h =
    let (read, o1, q1) = >>=-eq-ok (ok_or (from_slice json) _) _ h in
    let (u2, o2, q2) = >>=-eq-ok (fail_if (not (read.version == legacy_index_version_1)) _) _ q1 in
    let (u3, o3, q3) = >>=-eq-ok (fail_if (ltb max_index_entries (length read.files)) _) _ q2 in
    let (files, o4, q4) = >>=-eq-ok (legacy_entries read.files []) _ q3 in
    let same : read ≡ index =
      ok-injective (sym o1 ∙ ap (λ o. ok_or o (corrupted_data invalid_index_json)) parsed) in
    let up =
      legacy_entries-Upgraded index.files [] files nd tt tt
        (ap (λ (i : LegacyIndex). legacy_entries i.files []) (sym same) ∙ o4) in
    let result = ok-injective q4 in
    (
      (λ k.
          ap (λ (x : IndexData). get k x.files) (sym result)
          ∙ (up.looked_up k ∙ or_nothing (live (get k index.files)))),
      up.kept,
      subst (λ (x : IndexData). All IsUpgraded x.files) result up.all,
      subst (λ (x : IndexData). HasDistinctKeys x.files) result up.distinct,
      ap (λ (x : IndexData). x.nonce_counter) (sym result)
          ∙ ap (λ (i : LegacyIndex). i.nonce_counter) same,
      ap (λ (x : IndexData). x.data_nonce_counter) (sym result)
          ∙ ap (λ (i : LegacyIndex). i.data_nonce_counter) same,
    )
  where
    or_nothing : (o : Option IndexEntry) → or_else o none ≡ o
    or_nothing none = refl
    or_nothing (some e) = refl
