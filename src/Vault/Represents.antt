-- ===== src/Vault/Represents.antt =====
-- The names and plaintexts that the entries of a vault stand for, and how `insert`, `remove` and
-- `get` on the entries act on them.
use memseal.Prelude.{◌≡◌, refl, sym, ap, ◌∙◌, Bool, true, false, [], ◌∷◌, All, if◌then◌else◌}
use memseal.Bytes.{Bytes, bytes_eq}
use memseal.Bytes.Equality.{bytes_eq→eq, bytes_eq_refl}
use memseal.Errors.{ok, ok-injective}
use memseal.HashMap.{HashMap, insert, remove}
use memseal.Platform.{Platform}
use memseal.Types.{IndexEntry, VaultIndex}
use memseal.Index.Keys.{hmac_key_for_name}
use memseal.Vault.Secrets.{old_plaintexts}

-- The names that a program uses: each is text, has an HMAC key under the index, and no two have
-- the same one.
pub record Separates (p : Platform) (U : Bytes → Type 0) (index : VaultIndex) : Type 0 where
  pub keyed : (n : Bytes) → U n → (k : Bytes) × (hmac_key_for_name p index n ≡ ok k)
  pub apart :
      (m n k : Bytes)
      → U m
      → U n
      → hmac_key_for_name p index m ≡ ok k
      → hmac_key_for_name p index n ≡ ok k
      → m ≡ n

module _ (p : Platform) where
  -- The entries hold these names and plaintexts under the encryption key, each under the HMAC key
  -- of its name.
  abbrev pub Represents : VaultIndex → Bytes → HashMap IndexEntry → HashMap Bytes → Type 0
  Represents index enc_key [] [] = Unit {0}
  Represents index enc_key ((k, e) ∷ files) ((n, t) ∷ plain) =
      (old_plaintexts p enc_key k e ≡ ok (n, t))
      × (hmac_key_for_name p index n ≡ ok k)
      × Represents index enc_key files plain
  Represents index enc_key _ _ = ⊥

  pub Represents-same :
      (index other : VaultIndex) (enc_key : Bytes) (files : HashMap IndexEntry)
      (plain : HashMap Bytes)
      → ((m : Bytes) → hmac_key_for_name p other m ≡ hmac_key_for_name p index m)
      → Represents index enc_key files plain
      → Represents other enc_key files plain
  Represents-same index other enc_key [] [] same h = tt
  Represents-same index other enc_key [] (q ∷ plain) same h = absurd h
  Represents-same index other enc_key (f ∷ files) [] same h = absurd h
  Represents-same index other enc_key ((k, e) ∷ files) ((n, t) ∷ plain) same (opens, keyed, h) =
      (opens, same n ∙ keyed, Represents-same index other enc_key files plain same h)

  Represents-if :
      (index : VaultIndex) (enc_key : Bytes) (b c : Bool) (files files' : HashMap IndexEntry)
      (plain plain' : HashMap Bytes)
      → b ≡ c
      → (b ≡ true → Represents index enc_key files plain)
      → (b ≡ false → Represents index enc_key files' plain')
      → Represents index enc_key (if b then files else files') (if c then plain else plain')
  Represents-if index enc_key true true files files' plain plain' h f g = f refl
  Represents-if index enc_key false false files files' plain plain' h f g = g refl
  Represents-if index enc_key true false files files' plain plain' h f g = cc
  Represents-if index enc_key false true files files' plain plain' h f g = cc

  module _ (U : Bytes → Type 0) (index : VaultIndex) (separates : Separates p U index) where
    -- Two keys are equal exactly when their names are.
    pub same_test :
        (k j n m : Bytes)
        → U n
        → U m
        → hmac_key_for_name p index n ≡ ok k
        → hmac_key_for_name p index m ≡ ok j
        → bytes_eq k j ≡ bytes_eq n m
    same_test k j n m un um keyed_n keyed_m = by_tests (bytes_eq k j) (bytes_eq n m) refl refl
      where
        by_tests : (b c : Bool) → bytes_eq k j ≡ b → bytes_eq n m ≡ c → bytes_eq k j ≡ bytes_eq n m
        by_tests true true hb hc = cc
        by_tests false false hb hc = cc
        by_tests true false hb hc =
            let names : n ≡ m =
              separates.apart n m k un um keyed_n (keyed_m ∙ ap ok (sym (bytes_eq→eq k j hb))) in
            ap (λ x. bytes_eq k x) (sym (bytes_eq→eq k j hb))
            ∙ (bytes_eq_refl k ∙ (sym (bytes_eq_refl n) ∙ ap (bytes_eq n) names))
        by_tests false true hb hc =
            let names : n ≡ m = bytes_eq→eq n m hc in
            let keys : k ≡ j =
              ok-injective
                (sym keyed_n ∙ (ap (λ x. hmac_key_for_name p index x) names ∙ keyed_m)) in
            ap (bytes_eq k) (sym keys)
            ∙ (bytes_eq_refl k ∙ (sym (bytes_eq_refl n) ∙ ap (bytes_eq n) names))

    pub insert-Represents :
        (enc_key k n t : Bytes) (e : IndexEntry) (files : HashMap IndexEntry)
        (plain : HashMap Bytes)
        → U n
        → hmac_key_for_name p index n ≡ ok k
        → old_plaintexts p enc_key k e ≡ ok (n, t)
        → All (λ q. U q.0) plain
        → Represents index enc_key files plain
        → Represents index enc_key (insert k e files) (insert n t plain)
    unfolding insert
    insert-Represents enc_key k n t e [] [] un keyed opens all h = (opens, keyed, tt)
    insert-Represents enc_key k n t e [] (q ∷ plain) un keyed opens all h = absurd h
    insert-Represents enc_key k n t e (f ∷ files) [] un keyed opens all h = absurd h
    insert-Represents enc_key k n t e ((j, x) ∷ files) ((m, u) ∷ plain) un keyed opens all
          (opens_m, keyed_m, h) =
        Represents-if index enc_key (bytes_eq j k) (bytes_eq m n) ((j, e) ∷ files)
          ((j, x) ∷ insert k e files) ((m, t) ∷ plain) ((m, u) ∷ insert n t plain)
          (same_test j k m n all.0 un keyed_m keyed)
          (λ same.
            let keys : j ≡ k = bytes_eq→eq j k same in
            let names : m ≡ n = separates.apart m n k all.0 un (keyed_m ∙ ap ok keys) keyed in
            (
              ap (λ i. old_plaintexts p enc_key i e) keys
                  ∙ (opens ∙ ap (λ (i : Bytes). ok (i, t)) (sym names)),
              keyed_m,
              h,
            ))
          (λ differ. (
            opens_m,
            keyed_m,
            insert-Represents enc_key k n t e files plain un keyed opens all.1 h,
          ))

    pub remove-Represents :
        (enc_key k n : Bytes) (files : HashMap IndexEntry) (plain : HashMap Bytes)
        → U n
        → hmac_key_for_name p index n ≡ ok k
        → All (λ q. U q.0) plain
        → Represents index enc_key files plain
        → Represents index enc_key (remove k files) (remove n plain)
    unfolding remove
    remove-Represents enc_key k n [] [] un keyed all h = tt
    remove-Represents enc_key k n [] (q ∷ plain) un keyed all h = absurd h
    remove-Represents enc_key k n (f ∷ files) [] un keyed all h = absurd h
    remove-Represents enc_key k n ((j, x) ∷ files) ((m, u) ∷ plain) un keyed all
          (opens_m, keyed_m, h) =
        Represents-if index enc_key (bytes_eq j k) (bytes_eq m n) files ((j, x) ∷ remove k files)
          plain ((m, u) ∷ remove n plain) (same_test j k m n all.0 un keyed_m keyed) (λ same. h)
          (λ differ. (opens_m, keyed_m, remove-Represents enc_key k n files plain un keyed all.1 h))
