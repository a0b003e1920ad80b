-- ===== src/Record/Bitmap.antt =====
-- src/record/bitmap.h. A bitmap is a list of bytes; a `char` is its bit pattern, a number below 256.
-- A position past the bitmap, which the C++ code would read or write out of bounds, reads a zero
-- byte and writes nothing; `next_bit` is called with `curr` = -1 or a slot number only.
pub mod Bits
pub mod Scan
pub mod Count
use Prim.Native.Nat.{bit_and, bit_or}
use myrmdb.Prelude.{
  ℕ, zero, suc, ◌+◌, ◌-◌, ◌/◌, ◌%◌, ◌^◌, Bool, true, false, List, not, ◌==◌, if◌then◌else◌,
  replicate, get_or, set, bool_eq,
}
use myrmdb.Prelude.Int.{ℤ, pos, negsuc}

abbrev pub bitmap_width : ℕ
bitmap_width = 8

abbrev pub bitmap_highest_bit : ℕ
bitmap_highest_bit = 128

abbrev pub get_bucket : ℕ → ℕ
get_bucket p = p / bitmap_width

-- BITMAP_HIGHEST_BIT >> (pos % BITMAP_WIDTH)
abbrev pub get_bit : ℕ → ℕ
get_bit p = bitmap_highest_bit / 2 ^ (p % bitmap_width)

unfoldable pub init : ℕ → List ℕ
init size = replicate size 0

unfoldable pub set_bit : List ℕ → ℕ → List ℕ
set_bit bm p = set bm (get_bucket p) (bit_or (get_or bm (get_bucket p) 0) (get_bit p))

-- `~get_bit(pos)` as a byte is 255 - get_bit pos
unfoldable pub reset : List ℕ → ℕ → List ℕ
reset bm p = set bm (get_bucket p) (bit_and (get_or bm (get_bucket p) 0) (255 - get_bit p))

unfoldable pub is_set : List ℕ → ℕ → Bool
is_set bm p = not (bit_and (get_or bm (get_bucket p) 0) (get_bit p) == 0)

-- The loop of `next_bit` from `i`, with `rounds` = max_n - i rounds left.
unfoldable pub scan : Bool → List ℕ → ℕ → ℕ → ℕ → ℕ
scan bit bm max_n zero i = max_n
scan bit bm max_n (suc rounds) i =
    let rest = scan bit bm max_n rounds (i + 1) in if bool_eq (is_set bm i) bit then i else rest

abbrev pub after : ℤ → ℕ
after (pos n) = n + 1
after (negsuc n) = 0

unfoldable pub next_bit : Bool → List ℕ → ℕ → ℤ → ℕ
next_bit bit bm max_n curr = scan bit bm max_n (max_n - after curr) (after curr)

unfoldable pub first_bit : Bool → List ℕ → ℕ → ℕ
unfolding next_bit
first_bit bit bm max_n = next_bit bit bm max_n (negsuc 0)
