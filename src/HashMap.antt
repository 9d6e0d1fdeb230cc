-- ===== src/HashMap.antt =====
-- `std::collections::HashMap<String, V>` as an association list in some iteration order: a new key
-- goes to the end, an overwrite keeps its place. Theorems hold for every list, so for every order
-- in which a hash map could be walked.
pub mod Laws
pub mod Merge
use memseal.Prelude.{Bool, true, false, Option, none, some, List, [], ◌∷◌, ◌++◌, ◌≡◌, if◌then◌else◌}
use memseal.Bytes.{Bytes, bytes_eq}

abbrev pub HashMap {ℓ} : Type ℓ → Type ℓ
HashMap V = List (Bytes × V)

module _ {ℓ} {V : Type ℓ} where
  unfoldable pub get : Bytes → HashMap V → Option V
  get k [] = none
  get k ((j, v) ∷ m) = if bytes_eq j k then some v else get k m

  -- The map after `insert`; the value that `insert` returns is `get k m`.
  unfoldable pub insert : Bytes → V → HashMap V → HashMap V
  insert k v [] = (k, v) ∷ []
  insert k v ((j, w) ∷ m) = if bytes_eq j k then (j, v) ∷ m else (j, w) ∷ insert k v m

  -- The map after `remove_entry`.
  unfoldable pub remove : Bytes → HashMap V → HashMap V
  remove k [] = []
  remove k ((j, w) ∷ m) = if bytes_eq j k then m else (j, w) ∷ remove k m

  -- No key stands twice.
  abbrev pub HasDistinctKeys : HashMap V → Type ℓ
  HasDistinctKeys [] = Unit {ℓ}
  HasDistinctKeys ((k, v) ∷ m) = (get k m ≡ none) × HasDistinctKeys m
