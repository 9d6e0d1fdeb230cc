-- ===== src/Index/Map.antt =====
-- The index as a map from hashed keys to entries: what `insert_by_key`, `lookup_by_key` and
-- `remove_by_key` do on every branch.
use memseal.Prelude.{◌≡◌, none, some, length, if◌then◌else◌, arith, ◌&&◌, ◌||◌, ltb}
use memseal.Constants.{max_index_entries}
use memseal.Bytes.{Bytes, bytes_eq}
use memseal.Bytes.Equality.{bytes_eq_iff}
use memseal.Errors.{ok, err, full}
use memseal.HashMap.{HasDistinctKeys, get, insert, remove}
use memseal.HashMap.Laws.{get-insert, get-remove, remove_absent}
use memseal.Types.{IndexEntry, VaultIndex}
use memseal.Index.{insert_by_key, lookup_by_key, remove_by_key}
use memseal.Codec.Decode.{is_some}

-- What `insert_by_key` does: an existing key, or a free place, takes the entry, any other key keeps
-- what it had, and the counters, the nonce and the subkeys stay; a new key at the cap is refused and
-- the index is the one from before.
pub insert_by_key_lem :
    (k j : Bytes) (e : IndexEntry) (index : VaultIndex)
    → let (r, after) = insert_by_key k e index in
      let room = is_some (lookup_by_key index k) || ltb (length index.files) max_index_entries in
      (r ≡ (if room then ok tt else err (full max_index_entries)))
      × (lookup_by_key after j ≡ (if room && bytes_eq k j then some e else lookup_by_key index j))
      × (after ≡ (if room then record index { files = insert k e index.files } else index))
unfolding insert_by_key lookup_by_key
insert_by_key_lem k j e index = ground (arith, get-insert k j e index.files)

-- What `remove_by_key` does on an index with distinct keys: it returns the entry of the key, which
-- is gone afterwards; any other key keeps its entry, and the counters, the nonce and the subkeys
-- stay.
pub remove_by_key_lem :
    (k j : Bytes) (index : VaultIndex)
    → HasDistinctKeys index.files
    → let (removed, after) = remove_by_key k index in
      (removed ≡ lookup_by_key index k)
      × (lookup_by_key after j ≡ (if bytes_eq k j then none else lookup_by_key index j))
      × (record after { files = index.files } ≡ index)
unfolding remove_by_key lookup_by_key
remove_by_key_lem k j index distinct =
    ground (arith, get-remove k j index.files distinct, bytes_eq_iff k j)

-- `remove_by_key` by the map operations.
pub remove_by_key-remove :
    (k : Bytes) (index : VaultIndex)
    → remove_by_key k index ≡ (get k index.files, record index { files = remove k index.files })
unfolding remove_by_key
remove_by_key-remove k index = ground (arith, remove_absent k index.files)
