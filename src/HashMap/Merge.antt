-- ===== src/HashMap/Merge.antt =====
-- Inserting every pair of a map into another one, in the order of iteration.
use memseal.Prelude.{◌≡◌, refl, Option, none, some, [], ◌∷◌, arith}
use memseal.Bytes.{Bytes}
use memseal.Bytes.Equality.{bytes_eq_iff}
use memseal.HashMap.{HashMap, get, insert, HasDistinctKeys}
use memseal.HashMap.Laws.{get-insert}

module _ {ℓ} {V : Type ℓ} where
  abbrev pub insert_all : HashMap V → HashMap V → HashMap V
  insert_all [] into = into
  insert_all ((k, v) ∷ m) into = insert_all m (insert k v into)

  abbrev pub or_else : Option V → Option V → Option V
  or_else (some v) b = some v
  or_else none b = b

  pub get-insert_all :
      (j : Bytes) (m into : HashMap V)
      → HasDistinctKeys m
      → get j (insert_all m into) ≡ or_else (get j m) (get j into)
  unfolding get
  get-insert_all j [] into h = refl
  get-insert_all j ((k, v) ∷ m) into h =
      ground
        (arith, bytes_eq_iff k j, get-insert_all j m (insert k v into) h.1, get-insert k j v into)
