-- ===== src/Codec/Hex.antt =====
-- `key_to_hex`, `hex_to_key` and `hex_digit` of src/vault/index_codec.rs.
use Prim.Native.Nat.{bit_or}
use memseal.Prelude.{
  ℕ, zero, suc, ◌+◌, ◌-◌, ◌*◌, ◌/◌, ◌%◌, ◌<◌, ◌≡◌, refl, ap, ap₂, ◌∙◌, Bool, true, ◌&&◌, Option,
  none, some, [], ◌∷◌, length, not, ltb, leb, ◌==◌, ==_iff, if◌then◌else◌, arith,
}
use memseal.Bytes.{Bytes, AreBytes}
use memseal.Constants.{entry_key_len}

infixl 5 ◌>>=◌
abbrev ◌>>=◌ {ℓ κ} : {A : Type ℓ} {B : Type κ} → Option A → (A → Option B) → Option B
none >>= f = none
some a >>= f = f a

-- One digit of `{:02x}`.
unfoldable pub hex_char : ℕ → ℕ
hex_char n = if ltb n 10 then b'0' + n else b'a' + (n - 10)

-- `write!(hex, "{:02x}", b)` for each byte.
unfoldable pub key_to_hex : Bytes → Bytes
unfolding hex_char
key_to_hex [] = []
key_to_hex (b ∷ key) = hex_char (b / 16) ∷ hex_char (b % 16) ∷ key_to_hex key

unfoldable pub hex_digit : ℕ → Option ℕ
hex_digit c =
    if leb b'0' c && leb c b'9'
    then some (c - b'0')
    else if leb b'a' c && leb c b'f'
    then some (c - b'a' + 10)
    else none

-- The loop over `bytes.chunks(2)`; the length test has left no odd chunk. `<<` is on a `u8`.
unfoldable pub hex_pairs : Bytes → Option Bytes
unfolding hex_digit
hex_pairs [] = some []
hex_pairs (c ∷ []) = none
hex_pairs (c ∷ d ∷ rest) = do
  hi ← hex_digit c
  lo ← hex_digit d
  key ← hex_pairs rest
  some (bit_or (hi * 16 % 256) lo ∷ key)

unfoldable pub hex_to_key : Bytes → Option Bytes
unfolding hex_pairs
hex_to_key hex = if not (length hex == entry_key_len * 2) then none else hex_pairs hex

-- The two halves of every byte below the bound join to the byte, by evaluation.
halves_join : ℕ → Bool
halves_join zero = true
halves_join (suc b) = (bit_or (b / 16 * 16 % 256) (b % 16) == b) && halves_join b

halves_join-below :
    (bound b : ℕ)
    → halves_join bound ≡ true
    → b < bound
    → (bit_or (b / 16 * 16 % 256) (b % 16) == b) ≡ true
unfolding halves_join
halves_join-below zero b table h = absurd (omega (arith, h))
halves_join-below (suc bound) b table h = ground (arith, halves_join-below bound b)

join_nibbles : (b : ℕ) → b < 256 → bit_or (b / 16 * 16 % 256) (b % 16) ≡ b
unfolding halves_join
join_nibbles b h = (==_iff _ b).0 (halves_join-below 256 b refl h)

join_digits : (hi lo : ℕ) → hi < 16 → lo < 16 → bit_or (hi * 16 % 256) lo ≡ hi * 16 + lo
join_digits hi lo h l =
    ap₂ (λ (x y : ℕ). bit_or (x * 16 % 256) y) high low ∙ join_nibbles (hi * 16 + lo) (omega arith)
  where
    high : hi ≡ (hi * 16 + lo) / 16
    high = omega arith

    low : lo ≡ (hi * 16 + lo) % 16
    low = omega arith

hex_digit-hex_char : (n : ℕ) → n < 16 → hex_digit (hex_char n) ≡ some n
unfolding hex_digit hex_char
hex_digit-hex_char n h = ground arith

-- A character that is read as a digit is the character of that digit.
hex_char-hex_digit : (c n : ℕ) → hex_digit c ≡ some n → (n < 16) × (hex_char n ≡ c)
unfolding hex_digit hex_char
hex_char-hex_digit c n h = ground arith

length-key_to_hex : (key : Bytes) → length (key_to_hex key) ≡ 2 * length key
unfolding key_to_hex
length-key_to_hex [] = refl
length-key_to_hex (b ∷ key) = omega (arith, length-key_to_hex key)

hex_pairs-key_to_hex : (key : Bytes) → AreBytes key → hex_pairs (key_to_hex key) ≡ some key
unfolding key_to_hex hex_pairs
hex_pairs-key_to_hex [] h = refl
hex_pairs-key_to_hex (b ∷ key) (hb, h) = rw (
  hex_digit-hex_char (b / 16) (omega arith),
  hex_digit-hex_char (b % 16) (omega arith),
  hex_pairs-key_to_hex key h,
  join_nibbles b hb,
)

-- `hex_to_key` reads the hex form of a key of 32 bytes (each below 256) back to the key.
pub hex_to_key-key_to_hex :
    (key : Bytes) → AreBytes key → length key ≡ 32 → hex_to_key (key_to_hex key) ≡ some key
unfolding hex_to_key
hex_to_key-key_to_hex key h n = rw (length-key_to_hex key, n) (hex_pairs-key_to_hex key h)

-- What one pair of digits contributes.
pair_back :
    (c d hi lo : ℕ)
    → hex_digit c ≡ some hi
    → hex_digit d ≡ some lo
    → let b = bit_or (hi * 16 % 256) lo in
      (b < 256) × (hex_char (b / 16) ≡ c) × (hex_char (b % 16) ≡ d)
pair_back c d hi lo p q =
    let (hb, hc) = hex_char-hex_digit c hi p in
    let (lb, lc) = hex_char-hex_digit d lo q in
    rw (join_digits hi lo hb lb)
      (omega arith, ap hex_char (high hb lb) ∙ hc, ap hex_char (low hb lb) ∙ lc)
  where
    high : hi < 16 → lo < 16 → (hi * 16 + lo) / 16 ≡ hi
    high h l = omega arith

    low : hi < 16 → lo < 16 → (hi * 16 + lo) % 16 ≡ lo
    low h l = omega arith

-- What the loop over the pairs accepts is the lower-case form of what it returns.
pub record IsHexOf (hex key : Bytes) : Type 0 where
  pub form : key_to_hex key ≡ hex
  pub bytes : AreBytes key

hex_pairs-IsHexOf : (hex key : Bytes) → hex_pairs hex ≡ some key → IsHexOf hex key
unfolding hex_pairs key_to_hex
hex_pairs-IsHexOf [] key e = ground arith
hex_pairs-IsHexOf (c ∷ []) key e = cc
hex_pairs-IsHexOf (c ∷ d ∷ rest) key e =
    split (hex_digit c) (hex_digit d) (hex_pairs rest) refl refl refl e (hex_pairs-IsHexOf rest)
  where
    split :
        (p q : Option ℕ) (r : Option Bytes)
        → hex_digit c ≡ p
        → hex_digit d ≡ q
        → hex_pairs rest ≡ r
        → (p >>= λ hi. q >>= λ lo. r >>= λ k. some (bit_or (hi * 16 % 256) lo ∷ k)) ≡ some key
        → ((k : Bytes) → hex_pairs rest ≡ some k → IsHexOf rest k)
        → IsHexOf (c ∷ d ∷ rest) key
    split none q r hp hq hr e ih = cc
    split (some hi) none r hp hq hr e ih = cc
    split (some hi) (some lo) none hp hq hr e ih = cc
    split (some hi) (some lo) (some k) hp hq hr e ih =
        ground (arith, pair_back c d hi lo hp hq, (ih k hr).form, (ih k hr).bytes)

length_test :
    (n : ℕ) (r : Option Bytes) {key : Bytes}
    → (if not (n == 64) then none else r) ≡ some key
    → (n ≡ 64) × (r ≡ some key)
length_test n r h = ground arith

-- A text that `hex_to_key` accepts is the lower-case form that `key_to_hex` writes of the result,
-- which has 32 bytes.
pub key_to_hex-hex_to_key :
    (hex key : Bytes)
    → hex_to_key hex ≡ some key
    → (key_to_hex key ≡ hex) × AreBytes key × (length key ≡ 32)
unfolding hex_to_key
key_to_hex-hex_to_key hex key e =
    let (n, r) = length_test (length hex) (hex_pairs hex) e in
    let back = hex_pairs-IsHexOf hex key r in
    (back.form, back.bytes, omega (arith, length-key_to_hex key, ap (length {A = ℕ}) back.form))
