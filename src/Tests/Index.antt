-- ===== src/Tests/Index.antt =====
-- The theorems of the index at concrete inputs.
use memseal.Prelude.{
  ◌≡◌, ◌↔◌, [], ◌∷◌, length, replicate, some, none, ltb, ◌&&◌, ◌||◌, if◌then◌else◌, All,
}
use memseal.Constants.{max_index_entries}
use memseal.Bytes.{Bytes, bytes_eq}
use memseal.Errors.{ok, err, full}
use memseal.HashMap.{insert}
use memseal.Types.{IndexEntry}
use memseal.Codec.Decode.{is_some}
use memseal.Codec.Encode.{encode_index}
use memseal.Index.{insert_by_key, lookup_by_key, remove_by_key, check_counters}
use memseal.Index.Map.{insert_by_key_lem, remove_by_key_lem}
use memseal.Index.Valid.{IsBelow, check_counters-IsBelow, encode_index-total}
use memseal.Tests.Samples.{mail, bank, with_both}
use memseal.Tests.Vault.{with_both-IsValid}

abbrev some_entry : IndexEntry
some_entry = record {
  data_counter = 2;
  encrypted_name = replicate 41 7;
  encrypted_data = replicate 40 255;
}

insert_by_key_lem_example :
    let (r, after) = insert_by_key mail some_entry with_both.self.index in
    let room =
      is_some (lookup_by_key with_both.self.index mail)
      || ltb (length with_both.self.index.files) max_index_entries in
    (r ≡ (if room then ok tt else err (full max_index_entries)))
    × (lookup_by_key after bank ≡ (
        if room && bytes_eq mail bank
        then some some_entry
        else lookup_by_key with_both.self.index bank))
    × (after ≡ (
        if room
        then record with_both.self.index {
          files = insert mail some_entry with_both.self.index.files;
        }
        else with_both.self.index))
insert_by_key_lem_example = insert_by_key_lem mail bank some_entry with_both.self.index

remove_by_key_lem_example :
    let (removed, after) = remove_by_key mail with_both.self.index in
    (removed ≡ lookup_by_key with_both.self.index mail)
    × (lookup_by_key after bank
        ≡ (if bytes_eq mail bank then none else lookup_by_key with_both.self.index bank))
    × (record after { files = with_both.self.index.files } ≡ with_both.self.index)
remove_by_key_lem_example =
    remove_by_key_lem mail bank with_both.self.index with_both-IsValid.encodable.distinct

check_counters-IsBelow_example :
    (check_counters 3 ((mail, some_entry) ∷ []) ≡ ok tt) ↔ All (IsBelow 3) ((mail, some_entry) ∷ [])
check_counters-IsBelow_example = check_counters-IsBelow 3 ((mail, some_entry) ∷ [])

encode_index-total_example : (out : Bytes) × (encode_index with_both.self.index ≡ ok out)
encode_index-total_example = encode_index-total with_both.self.index with_both-IsValid
