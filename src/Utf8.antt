-- ===== src/Utf8.antt =====
-- `String::from_utf8`: the UTF-8 validation of the standard library, as a scan that keeps how many
-- continuation bytes are still due and the range that the next one must lie in.
use memseal.Prelude.{
  ℕ, zero, suc, Bool, false, ◌&&◌, Option, none, some, [], ◌∷◌, ltb, leb, ◌==◌, if◌then◌else◌,
}
use memseal.Bytes.{Bytes}

pub record Due : Type 0 where
  pub count : ℕ
  pub lo : ℕ
  pub hi : ℕ

abbrev due : ℕ → ℕ → ℕ → Option Due
due n lo hi = some (record { count = n; lo = lo; hi = hi })

abbrev within : ℕ → ℕ → ℕ → Bool
within lo hi b = leb lo b && leb b hi

-- What a first byte announces.
unfoldable pub lead : ℕ → Option Due
lead b =
    if ltb b 0x80
    then due 0 0x80 0xbf
    else if within 0xc2 0xdf b
    then due 1 0x80 0xbf
    else if b == 0xe0
    then due 2 0xa0 0xbf
    else if b == 0xed
    then due 2 0x80 0x9f
    else if within 0xe1 0xef b
    then due 2 0x80 0xbf
    else if b == 0xf0
    then due 3 0x90 0xbf
    else if within 0xf1 0xf3 b
    then due 3 0x80 0xbf
    else if b == 0xf4
    then due 3 0x80 0x8f
    else none

unfoldable pub after : Due → ℕ → Option Due
unfolding lead
after d b = elim d.count [
  | zero ↦ lead b
  | suc n ↦ if within d.lo d.hi b then due n 0x80 0xbf else none
]

unfoldable pub scan : Option Due → Bytes → Bool
unfolding after
scan none bs = false
scan (some d) [] = d.count == 0
scan (some d) (b ∷ bs) = scan (after d b) bs

unfoldable pub is_utf8 : Bytes → Bool
unfolding scan
is_utf8 bs = scan (due 0 0x80 0xbf) bs

unfoldable pub from_utf8 : Bytes → Option Bytes
unfolding is_utf8
from_utf8 bs = if is_utf8 bs then some bs else none
