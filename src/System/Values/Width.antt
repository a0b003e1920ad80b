-- ===== src/System/Values/Width.antt =====
-- A comparison of raw values reads no byte behind the column.

use myrmdb.Prelude.{ℕ, zero, suc, ◌≡◌, refl, sym, List, [], ◌∷◌, take, take-take, arith}
use myrmdb.System.Values.{
  ColType, type_int, type_float, type_string, type_bigint, type_datetime, strncmp,
  compare_raw_value,
}

-- The width of a column of the type.
abbrev pub HasWidth : ColType → ℕ → Type 0
HasWidth type_int n = n ≡ 4
HasWidth type_float n = n ≡ 4
HasWidth type_string n = Unit {0}
HasWidth type_bigint n = n ≡ 8
HasWidth type_datetime n = n ≡ 8

take_nil : (n : ℕ) → ◌≡◌ {A = List ℕ} (take n []) []
take_nil zero = refl
take_nil (suc n) = refl

strncmp-take : (n : ℕ) (p q : List ℕ) → strncmp n p q ≡ strncmp n (take n p) (take n q)
unfolding strncmp
strncmp-take zero p q = refl
strncmp-take (suc n) [] [] = refl
strncmp-take (suc n) [] (y ∷ ys) = ground (arith, strncmp-take n [] ys, take_nil n)
strncmp-take (suc n) (x ∷ xs) [] = ground (arith, strncmp-take n xs [], take_nil n)
strncmp-take (suc n) (x ∷ xs) (y ∷ ys) = ground (arith, strncmp-take n xs ys)

taken : (w n : ℕ) (p : List ℕ) → n ≡ w → take w p ≡ take w (take n p)
taken w n p e = sym (take-take w n p (omega (arith, e)))

pub compare_raw_value-take :
    (t : ColType) (n : ℕ) (p q : List ℕ)
    → HasWidth t n
    → compare_raw_value p q t n ≡ compare_raw_value (take n p) (take n q) t n
unfolding compare_raw_value
compare_raw_value-take type_int n p q h = rw (← taken 4 n p h, ← taken 4 n q h) refl
compare_raw_value-take type_float n p q h = rw (← taken 4 n p h, ← taken 4 n q h) refl
compare_raw_value-take type_string n p q h = strncmp-take n p q
compare_raw_value-take type_bigint n p q h = rw (← taken 8 n p h, ← taken 8 n q h) refl
compare_raw_value-take type_datetime n p q h = rw (← taken 8 n p h, ← taken 8 n q h) refl
