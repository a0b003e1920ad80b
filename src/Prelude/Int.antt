-- ===== src/Prelude/Int.antt =====
-- The program's signed numbers: page and slot numbers with their -1, over the native ℕ.
use Prim.Native.Nat.{ℕ, zero, suc, ◌+◌, ◌-◌, ◌%◌, ◌<◌, ◌≤◌}
use mathlib.Core.Bool.{Bool}
use mathlib.Core.Path.{◌≡◌}
use native.Mathlib.Decide.{ℕ_discrete}
use native.Mathlib.Omega.{arith}
use myrmdb.Prelude.Tests.{ltb, if◌then◌else◌}

-- `negsuc n` is -(n + 1).
pub data ℤ : Type 0 where
  pos : ℕ → ℤ
  negsuc : ℕ → ℤ

unfoldable pub ℤ-discrete : Discrete ℤ
ℤ-discrete = hlevel ℕ_discrete

abbrev pub pos_part : ℤ → ℕ
pos_part (pos n) = n
pos_part (negsuc n) = 0

abbrev pub neg_part : ℤ → ℕ
neg_part (pos n) = 0
neg_part (negsuc n) = suc n

abbrev pub ltb_ℤ : ℤ → ℤ → Bool
ltb_ℤ a b = ltb (pos_part a + neg_part b) (pos_part b + neg_part a)

-- `x++` on a signed number below its maximum.
abbrev pub suc_ℤ : ℤ → ℤ
suc_ℤ (pos n) = pos (n + 1)
suc_ℤ (negsuc zero) = pos 0
suc_ℤ (negsuc (suc n)) = negsuc n

-- The conversion to a 32-bit `int`.
unfoldable pub to_int : ℕ → ℤ
to_int n = let b = n % 4294967296 in if ltb b 2147483648 then pos b else negsuc (4294967295 - b)

-- `offset += n` for an `int` and a 32-bit unsigned number.
unfoldable pub add_int : ℤ → ℕ → ℤ
add_int (pos m) n = to_int (m % 4294967296 + n)
add_int (negsuc m) n = to_int (4294967295 - m % 4294967296 + n)

pub to_int_small : (n : ℕ) → n < 2147483648 → to_int n ≡ pos n
unfolding to_int
to_int_small n h = let e : n % 4294967296 ≡ n = omega arith in rw e (ground (arith, h))

pub to_int_large : (n : ℕ) → 2147483648 ≤ n → n < 4294967296 → to_int n ≡ negsuc (4294967295 - n)
unfolding to_int
to_int_large n low high = let e : n % 4294967296 ≡ n = omega arith in rw e (ground (arith, low))

pub add_int_small : (m n : ℕ) → m + n < 2147483648 → add_int (pos m) n ≡ pos (m + n)
unfolding add_int
add_int_small m n h = let e : m % 4294967296 ≡ m = omega arith in rw e (to_int_small (m + n) h)
