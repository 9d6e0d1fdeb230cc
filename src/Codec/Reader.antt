-- ===== src/Codec/Reader.antt =====
-- `struct Reader` of src/vault/index_codec.rs: a cursor over bytes. A method returns its value and
-- the reader with the new position.
use memseal.Prelude.{
  ℕ, zero, suc, ◌+◌, ◌-◌, ◌≤◌, ◌<◌, ◌^◌, ◌≡◌, refl, sym, ap, ap₂, subst, ◌∙◌, List, [], ◌∷◌, ◌++◌,
  length, take as take_list, drop, take-append, drop-append, take-append-drop, length-append,
  length-take, length-drop, ltb, if◌then◌else◌, arith,
}
use memseal.Bytes.{Bytes, AreBytes, from_le_bytes, to_le_bytes}
use memseal.Bytes.LittleEndian.{
  length-to_le_bytes, from_le_bytes-to_le_bytes, to_le_bytes-from_le_bytes, from_le_bytes-lt,
}
use memseal.Errors.{Result, ok, err, ◌>>=◌, What, VaultError, corrupted_data, index_truncated}

pub record Reader : Type 0 where
  pub buf : Bytes
  pub pos : ℕ

abbrev pub Read : Type 0 → Type 0
Read A = Result VaultError (A × Reader)

unfoldable pub remaining : Reader → ℕ
remaining r = length r.buf - r.pos

unfoldable pub take : ℕ → What → Reader → Read Bytes
unfolding remaining
take n what r =
    if ltb (remaining r) n
    then err (corrupted_data (index_truncated what n (remaining r)))
    else ok (take_list n (drop r.pos r.buf), record r { pos = r.pos + n })

-- `Reader::u16`, `u32` and `u64` are `take` of 2, 4 and 8 bytes and `from_le_bytes`.
unfoldable pub read_le : ℕ → What → Reader → Read ℕ
read_le w what r = do (bytes, r') ← take w what r; ok (from_le_bytes bytes, r')

abbrev pub u16 : What → Reader → Read ℕ
u16 = read_le 2

abbrev pub u32 : What → Reader → Read ℕ
u32 = read_le 4

abbrev pub u64 : What → Reader → Read ℕ
u64 = read_le 8

-- The bytes that are still to be read.
abbrev pub rest : Reader → Bytes
rest r = drop r.pos r.buf

abbrev pub advance : Reader → ℕ → Reader
advance r n = record r { pos = r.pos + n }

drop-nil {ℓ} : {A : Type ℓ} (n : ℕ) → drop {A = A} n [] ≡ []
drop-nil zero = refl
drop-nil (suc n) = refl

suc_add : (p n : ℕ) → suc p + n ≡ suc (p + n)
suc_add p n = omega arith

drop-drop {ℓ} : {A : Type ℓ} (p n : ℕ) (xs : List A) → drop (p + n) xs ≡ drop n (drop p xs)
drop-drop zero n xs = ap (λ k. drop k xs) (omega arith)
drop-drop (suc p) n [] = drop-nil (suc p + n) ∙ sym (drop-nil n)
drop-drop (suc p) n (x ∷ xs) = ap (λ k. drop k (x ∷ xs)) (suc_add p n) ∙ drop-drop p n xs

pub remaining-rest : (r : Reader) → remaining r ≡ length (rest r)
unfolding remaining
remaining-rest r = omega (arith, length-drop r.pos r.buf)

take_step :
    (n : ℕ) (what : What) (r : Reader)
    → n ≤ length (rest r)
    → take n what r ≡ ok (take_list n (rest r), advance r n)
unfolding take
take_step n what r h = ground (arith, length-drop r.pos r.buf)

-- Reading what lies ahead: the bytes come back, and the reader stands behind them.
pub take_ahead :
    (what : What) (r : Reader) (n : ℕ) (xs ys : Bytes)
    → length xs ≡ n
    → rest r ≡ xs ++ ys
    → (take n what r ≡ ok (xs, advance r n)) × (rest (advance r n) ≡ ys)
take_ahead what r n xs ys h e = (
  take_step n what r (omega (arith, length-append xs ys, ap (length {A = ℕ}) e))
      ∙ ap (λ (b : Bytes). ok (b, advance r n)) (ap₂ take_list (sym h) e ∙ take-append xs ys),
  drop-drop r.pos n r.buf ∙ (ap₂ drop (sym h) e ∙ drop-append xs ys),
)

-- A read that succeeds has split off the first `n` of the remaining bytes.
pub record Took (n : ℕ) (r : Reader) (xs : Bytes) (r' : Reader) : Type 0 where
  pub split : rest r ≡ xs ++ rest r'
  pub taken : length xs ≡ n

Took-step :
    (n : ℕ) (r : Reader) → n ≤ length (rest r) → Took n r (take_list n (rest r)) (advance r n)
Took-step n r h = record {
  split =
      sym (take-append-drop n (rest r))
      ∙ ap (λ (b : Bytes). take_list n (rest r) ++ b) (sym (drop-drop r.pos n r.buf));
  taken = omega (arith, length-take n (rest r));
}

pub take-Took :
    (n : ℕ) (what : What) (r r' : Reader) (xs : Bytes)
    → take n what r ≡ ok (xs, r')
    → Took n r xs r'
unfolding take
take-Took n what r r' xs e = ground (arith, length-drop r.pos r.buf, Took-step n r)

-- The integers, in both directions.
pub read_le_ahead :
    (w : ℕ) (what : What) (r : Reader) (n : ℕ) (ys : Bytes)
    → n < 256 ^ w
    → rest r ≡ to_le_bytes w n ++ ys
    → (read_le w what r ≡ ok (n, advance r w)) × (rest (advance r w) ≡ ys)
unfolding read_le
read_le_ahead w what r n ys h e =
    let (step, after) = take_ahead what r w (to_le_bytes w n) ys (length-to_le_bytes w n) e in
    (rw (step, from_le_bytes-to_le_bytes w n h), after)

pub record ReadInt (w : ℕ) (r : Reader) (n : ℕ) (r' : Reader) : Type 0 where
  pub split : rest r ≡ to_le_bytes w n ++ rest r'
  pub fits : n < 256 ^ w

pub AreBytes-split : (xs ys zs : Bytes) → zs ≡ xs ++ ys → AreBytes zs → AreBytes xs × AreBytes ys
AreBytes-split [] ys zs e h = (tt, subst AreBytes e h)
AreBytes-split (x ∷ xs) ys zs e h =
    let k = subst AreBytes e h in
    let (a, b) = AreBytes-split xs ys (xs ++ ys) refl k.1 in ((k.0, a), b)

ReadInt-of_Took :
    (w : ℕ) (r r' : Reader) (xs : Bytes)
    → AreBytes (rest r)
    → Took w r xs r'
    → ReadInt w r (from_le_bytes xs) r' × AreBytes (rest r')
ReadInt-of_Took w r r' xs h took =
    let (hx, hr) = AreBytes-split xs (rest r') (rest r) took.split h in
    (
      record {
        split = cc (took.split, took.taken, to_le_bytes-from_le_bytes xs hx);
        fits = omega (arith, from_le_bytes-lt xs hx, ap (λ (n : ℕ). 256 ^ n) took.taken);
      },
      hr,
    )

pub read_le-ReadInt :
    (w : ℕ) (what : What) (r r' : Reader) (n : ℕ)
    → AreBytes (rest r)
    → read_le w what r ≡ ok (n, r')
    → ReadInt w r n r' × AreBytes (rest r')
unfolding read_le
read_le-ReadInt w what r r' n h e = finish (take w what r) refl e
  where
    finish :
        (t : Read Bytes)
        → take w what r ≡ t
        → (t >>= λ p. let v : Read ℕ = ok (from_le_bytes p.0, p.1) in v) ≡ ok (n, r')
        → ReadInt w r n r' × AreBytes (rest r')
    finish (err x) step same = cc
    finish (ok (xs, s)) step same =
        grind (arith, ReadInt-of_Took w r s xs h (take-Took w what r s xs step))
