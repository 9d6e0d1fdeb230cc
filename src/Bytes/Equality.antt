-- ===== src/Bytes/Equality.antt =====
-- `==` on byte strings decides equality.
use memseal.Prelude.{◌≡◌, refl, ◌↔◌, ◌≢◌, true, false, [], ◌∷◌, arith, inl, inr, Bool-cases}
use memseal.Bytes.{Bytes, bytes_eq}

pub bytes_eq_refl : (a : Bytes) → bytes_eq a a ≡ true
unfolding bytes_eq
bytes_eq_refl [] = refl
bytes_eq_refl (x ∷ xs) = ground (arith, bytes_eq_refl xs)

pub bytes_eq→eq : (a b : Bytes) → bytes_eq a b ≡ true → a ≡ b
unfolding bytes_eq
bytes_eq→eq [] [] h = refl
bytes_eq→eq [] (y ∷ ys) h = cc
bytes_eq→eq (x ∷ xs) [] h = cc
bytes_eq→eq (x ∷ xs) (y ∷ ys) h = ground (arith, bytes_eq→eq xs ys)

pub bytes_eq_iff : (a b : Bytes) → (bytes_eq a b ≡ true) ↔ (a ≡ b)
bytes_eq_iff a b = (bytes_eq→eq a b, λ e. rw e (bytes_eq_refl b))

pub bytes_eq_ne : (a b : Bytes) → a ≢ b → bytes_eq a b ≡ false
bytes_eq_ne a b n = elim (Bool-cases (bytes_eq a b)) [
  | inl e ↦ absurd (n (bytes_eq→eq a b e))
  | inr e ↦ e
]
