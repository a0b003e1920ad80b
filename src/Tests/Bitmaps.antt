-- ===== src/Tests/Bitmaps.antt =====
-- Bitmaps of one and two bytes.
use myrmdb.Prelude.{ℕ, ◌≡◌, refl, true, List, [], ◌∷◌, arith}
use myrmdb.Prelude.Int.{pos}
use myrmdb.Record.Bitmap.{set_bit, is_set, next_bit, first_bit, scan}
use myrmdb.Record.Bitmap.Scan.{IsNext, next_bit-IsNext}

abbrev two_bytes : List ℕ
two_bytes = 0 ∷ 64 ∷ []

set_bit_run : set_bit two_bytes 0 ≡ 128 ∷ 64 ∷ []
unfolding set_bit
set_bit_run = refl

first_bit_run : first_bit true two_bytes 16 ≡ 9
unfolding first_bit scan is_set
first_bit_run = refl

next_bit-IsNext_example : IsNext true two_bytes 16 4 (next_bit true two_bytes 16 (pos 3))
next_bit-IsNext_example = next_bit-IsNext true two_bytes 16 (pos 3) (omega arith)
