-- ===== src/Bytes/LittleEndian.antt =====
-- The little-endian integers: lengths, ranges and both round trips.
use memseal.Prelude.{
  ℕ, zero, suc, ◌+◌, ◌*◌, ◌/◌, ◌%◌, ◌^◌, ◌<◌, ◌≡◌, ◌∙◌, refl, ap, ap₂, [], ◌∷◌, length, arith,
}
use memseal.Bytes.{Bytes, AreBytes, to_le_bytes, from_le_bytes}

pub length-to_le_bytes : (w n : ℕ) → length (to_le_bytes w n) ≡ w
unfolding to_le_bytes
length-to_le_bytes zero n = refl
length-to_le_bytes (suc w) n = ap suc (length-to_le_bytes w (n / 256))

pub to_le_bytes-AreBytes : (w n : ℕ) → AreBytes (to_le_bytes w n)
unfolding to_le_bytes
to_le_bytes-AreBytes zero n = tt
to_le_bytes-AreBytes (suc w) n = (omega arith, to_le_bytes-AreBytes w (n / 256))

pub from_le_bytes-to_le_bytes : (w n : ℕ) → n < 256 ^ w → from_le_bytes (to_le_bytes w n) ≡ n
unfolding to_le_bytes from_le_bytes
from_le_bytes-to_le_bytes zero n h = omega arith
from_le_bytes-to_le_bytes (suc w) n h =
    omega (arith, from_le_bytes-to_le_bytes w (n / 256) (omega arith))

pow_step : (w : ℕ) → 256 ^ suc w ≡ 256 * 256 ^ w
pow_step w = omega arith

pub from_le_bytes-lt : (bs : Bytes) → AreBytes bs → from_le_bytes bs < 256 ^ length bs
unfolding from_le_bytes
from_le_bytes-lt [] h = omega arith
from_le_bytes-lt (b ∷ bs) h = omega (arith, from_le_bytes-lt bs h.1, pow_step (length bs))

pub to_le_bytes-from_le_bytes :
    (bs : Bytes) → AreBytes bs → to_le_bytes (length bs) (from_le_bytes bs) ≡ bs
unfolding to_le_bytes from_le_bytes
to_le_bytes-from_le_bytes [] h = refl
to_le_bytes-from_le_bytes (b ∷ bs) h =
    ap₂ ◌∷◌ low (ap (to_le_bytes (length bs)) high ∙ to_le_bytes-from_le_bytes bs h.1)
  where
    low : (b + 256 * from_le_bytes bs) % 256 ≡ b
    low = omega arith

    high : (b + 256 * from_le_bytes bs) / 256 ≡ from_le_bytes bs
    high = omega arith
