-- ===== src/HashMap/Laws.antt =====
-- The laws of the map operations.
use memseal.Prelude.{
  ◌+◌, ◌≤◌, true, false, none, some, [], ◌∷◌, ◌++◌, ◌≡◌, refl, length, All, if◌then◌else◌, arith,
}
use memseal.Bytes.{Bytes, bytes_eq}
use memseal.Bytes.Equality.{bytes_eq_iff, bytes_eq_refl}
use memseal.HashMap.{HashMap, get, insert, remove, HasDistinctKeys}

module _ {ℓ} {V : Type ℓ} where
  pub get-insert :
      (k j : Bytes) (v : V) (m : HashMap V)
      → get j (insert k v m) ≡ (if bytes_eq k j then some v else get j m)
  unfolding get insert
  get-insert k j v [] = refl
  get-insert k j v ((i, w) ∷ m) =
      ground (arith, bytes_eq_iff k j, bytes_eq_iff i k, bytes_eq_iff i j, get-insert k j v m)

  pub get-insert_same : (k : Bytes) (v : V) (m : HashMap V) → get k (insert k v m) ≡ some v
  get-insert_same k v m = rw (get-insert k k v m, bytes_eq_refl k) refl

  pub get-insert_other :
      (k j : Bytes) (v : V) (m : HashMap V) → bytes_eq k j ≡ false → get j (insert k v m) ≡ get j m
  get-insert_other k j v m h = rw (get-insert k j v m, h) refl

  pub get-remove :
      (k j : Bytes) (m : HashMap V)
      → HasDistinctKeys m
      → get j (remove k m) ≡ (if bytes_eq k j then none else get j m)
  unfolding get remove
  get-remove k j [] h = ground arith
  get-remove k j ((i, w) ∷ m) h =
      ground (arith, bytes_eq_iff k j, bytes_eq_iff i k, bytes_eq_iff i j, get-remove k j m h.1)

  pub get-remove_other :
      (k j : Bytes) (m : HashMap V) → bytes_eq k j ≡ false → get j (remove k m) ≡ get j m
  unfolding get remove
  get-remove_other k j [] h = refl
  get-remove_other k j ((i, w) ∷ m) h =
      ground (arith, bytes_eq_iff k j, bytes_eq_iff i k, bytes_eq_iff i j, get-remove_other k j m h)

  pub insert_new :
      (k : Bytes) (v : V) (m : HashMap V) → get k m ≡ none → insert k v m ≡ m ++ (k, v) ∷ []
  unfolding get insert
  insert_new k v [] h = refl
  insert_new k v ((i, w) ∷ m) h = ground (arith, insert_new k v m)

  pub length-insert_new :
      (k : Bytes) (v : V) (m : HashMap V) → get k m ≡ none → length (insert k v m) ≡ length m + 1
  unfolding get insert
  length-insert_new k v [] h = omega arith
  length-insert_new k v ((i, w) ∷ m) h = ground (arith, length-insert_new k v m)

  pub length-insert_old :
      (k : Bytes) (v w : V) (m : HashMap V) → get k m ≡ some w → length (insert k v m) ≡ length m
  unfolding get insert
  length-insert_old k v w [] h = cc
  length-insert_old k v w ((i, x) ∷ m) h = ground (arith, length-insert_old k v w m)

  pub length-insert : (k : Bytes) (v : V) (m : HashMap V) → length (insert k v m) ≤ length m + 1
  unfolding insert
  length-insert k v [] = omega arith
  length-insert k v ((i, x) ∷ m) = ground (arith, length-insert k v m)

  pub length-remove : (k : Bytes) (m : HashMap V) → length (remove k m) ≤ length m
  unfolding remove
  length-remove k [] = omega arith
  length-remove k ((i, x) ∷ m) = ground (arith, length-remove k m)

  pub insert-HasDistinctKeys :
      (k : Bytes) (v : V) (m : HashMap V) → HasDistinctKeys m → HasDistinctKeys (insert k v m)
  unfolding insert
  insert-HasDistinctKeys k v [] h = unfold get in (refl, tt)
  insert-HasDistinctKeys k v ((i, x) ∷ m) h = ground (
    arith,
    insert-HasDistinctKeys k v m h.1,
    get-insert k i v m,
    bytes_eq_iff i k,
    bytes_eq_iff k i,
  )

  pub remove-HasDistinctKeys :
      (k : Bytes) (m : HashMap V) → HasDistinctKeys m → HasDistinctKeys (remove k m)
  unfolding remove
  remove-HasDistinctKeys k [] h = tt
  remove-HasDistinctKeys k ((i, x) ∷ m) h = ground (
    arith,
    remove-HasDistinctKeys k m h.1,
    get-remove k i m h.1,
    bytes_eq_iff i k,
    bytes_eq_iff k i,
  )

  -- A property of every entry.
  pub insert-All {κ} :
      (P : Bytes × V → Type κ) (k : Bytes) (v : V) (m : HashMap V)
      → ((j : Bytes) → bytes_eq j k ≡ true → P (j, v))
      → All P m
      → All P (insert k v m)
  unfolding insert
  insert-All P k v [] p h = (p k (bytes_eq_refl k), tt)
  insert-All P k v ((i, x) ∷ m) p h = ground (arith, insert-All P k v m p h.1, p i)

  pub remove-All {κ} :
      (P : Bytes × V → Type κ) (k : Bytes) (m : HashMap V) → All P m → All P (remove k m)
  unfolding remove
  remove-All P k [] h = tt
  remove-All P k ((i, x) ∷ m) h = ground (arith, remove-All P k m h.1)

  pub remove_absent : (k : Bytes) (m : HashMap V) → get k m ≡ none → remove k m ≡ m
  unfolding get remove
  remove_absent k [] h = refl
  remove_absent k ((i, x) ∷ m) h = ground (arith, remove_absent k m)
