-- ===== src/System/Values/Laws.antt =====
-- The comparison of raw values is an order of values that are not NaN.
use Prim.Native.Nat.{compare, Ordering}
use myrmdb.Prelude.{ℕ, zero, suc, ◌≡◌, refl, false, List, drop, arith}
use myrmdb.Prelude.Int.{ℤ}
use myrmdb.Recovery.Bytes.{read_int}
use myrmdb.System.Values.{
  ColType, compare_ℤ, compare_float, strncmp, compare_raw_value, is_nan, magnitude, float_bits,
  type_int, type_float, type_string, type_bigint, type_datetime, read_int64,
}

-- The comparison with its sides swapped.
abbrev pub swapped : Ordering → Ordering
swapped Ordering.lt = Ordering.gt
swapped Ordering.eq = Ordering.eq
swapped Ordering.gt = Ordering.lt

compare_swap : (a b : ℕ) → compare b a ≡ swapped (compare a b)
compare_swap a b = ground arith

compare_eq : (a b c : ℕ) → compare a b ≡ Ordering.eq → compare a c ≡ compare b c
compare_eq a b c h = ground arith

compare_lt :
    (a b c : ℕ) → compare a b ≡ Ordering.lt → compare b c ≡ Ordering.lt → compare a c ≡ Ordering.lt
compare_lt a b c h k = ground arith

compare_ℤ_swap : (a b : ℤ) → compare_ℤ b a ≡ swapped (compare_ℤ a b)
compare_ℤ_swap a b = ground arith

compare_ℤ_eq : (a b c : ℤ) → compare_ℤ a b ≡ Ordering.eq → compare_ℤ a c ≡ compare_ℤ b c
compare_ℤ_eq a b c h = ground arith

compare_ℤ_lt :
    (a b c : ℤ)
    → compare_ℤ a b ≡ Ordering.lt
    → compare_ℤ b c ≡ Ordering.lt
    → compare_ℤ a c ≡ Ordering.lt
compare_ℤ_lt a b c h k = ground arith

float_swap : (a b : ℕ) → compare_float b a ≡ swapped (compare_float a b)
float_swap a b = ground (arith, compare_ℤ_swap (magnitude a) (magnitude b))

float_eq :
    (a b c : ℕ)
    → is_nan a ≡ false
    → is_nan b ≡ false
    → compare_float a b ≡ Ordering.eq
    → compare_float a c ≡ compare_float b c
float_eq a b c h k e =
    ground (arith, h, k, e, compare_ℤ_eq (magnitude a) (magnitude b) (magnitude c))

float_lt :
    (a b c : ℕ)
    → compare_float a b ≡ Ordering.lt
    → compare_float b c ≡ Ordering.lt
    → compare_float a c ≡ Ordering.lt
float_lt a b c h k = ground (arith, h, k, compare_ℤ_lt (magnitude a) (magnitude b) (magnitude c))

strncmp_swap : (n : ℕ) (a b : List ℕ) → strncmp n b a ≡ swapped (strncmp n a b)
unfolding strncmp
strncmp_swap zero a b = refl
strncmp_swap (suc n) a b = ground (arith, strncmp_swap n (drop 1 a) (drop 1 b))

strncmp_eq : (n : ℕ) (a b c : List ℕ) → strncmp n a b ≡ Ordering.eq → strncmp n a c ≡ strncmp n b c
unfolding strncmp
strncmp_eq zero a b c h = refl
strncmp_eq (suc n) a b c h = ground (arith, h, strncmp_eq n (drop 1 a) (drop 1 b) (drop 1 c))

strncmp_lt :
    (n : ℕ) (a b c : List ℕ)
    → strncmp n a b ≡ Ordering.lt
    → strncmp n b c ≡ Ordering.lt
    → strncmp n a c ≡ Ordering.lt
unfolding strncmp
strncmp_lt zero a b c h k = h
strncmp_lt (suc n) a b c h k = ground (arith, h, k, strncmp_lt n (drop 1 a) (drop 1 b) (drop 1 c))

-- The bytes are no NaN, where they are read as a `float`.
abbrev pub IsNumber : ColType → List ℕ → Type 0
IsNumber type_float p = is_nan (float_bits p) ≡ false
IsNumber _ p = Unit {0}

pub compare_raw_value_swap :
    (t : ColType) (n : ℕ) (a b : List ℕ)
    → compare_raw_value b a t n ≡ swapped (compare_raw_value a b t n)
unfolding compare_raw_value
compare_raw_value_swap type_int n a b = compare_ℤ_swap (read_int a 0) (read_int b 0)
compare_raw_value_swap type_float n a b = float_swap (float_bits a) (float_bits b)
compare_raw_value_swap type_string n a b = strncmp_swap n a b
compare_raw_value_swap type_bigint n a b = compare_ℤ_swap (read_int64 a) (read_int64 b)
compare_raw_value_swap type_datetime n a b = compare_ℤ_swap (read_int64 a) (read_int64 b)

pub compare_raw_value_eq :
    (t : ColType) (n : ℕ) (a b c : List ℕ)
    → IsNumber t a
    → IsNumber t b
    → compare_raw_value a b t n ≡ Ordering.eq
    → compare_raw_value a c t n ≡ compare_raw_value b c t n
unfolding compare_raw_value
compare_raw_value_eq type_int n a b c h k e =
    compare_ℤ_eq (read_int a 0) (read_int b 0) (read_int c 0) e
compare_raw_value_eq type_float n a b c h k e =
    float_eq (float_bits a) (float_bits b) (float_bits c) h k e
compare_raw_value_eq type_string n a b c h k e = strncmp_eq n a b c e
compare_raw_value_eq type_bigint n a b c h k e =
    compare_ℤ_eq (read_int64 a) (read_int64 b) (read_int64 c) e
compare_raw_value_eq type_datetime n a b c h k e =
    compare_ℤ_eq (read_int64 a) (read_int64 b) (read_int64 c) e

pub compare_raw_value_lt :
    (t : ColType) (n : ℕ) (a b c : List ℕ)
    → compare_raw_value a b t n ≡ Ordering.lt
    → compare_raw_value b c t n ≡ Ordering.lt
    → compare_raw_value a c t n ≡ Ordering.lt
unfolding compare_raw_value
compare_raw_value_lt type_int n a b c h k =
    compare_ℤ_lt (read_int a 0) (read_int b 0) (read_int c 0) h k
compare_raw_value_lt type_float n a b c h k =
    float_lt (float_bits a) (float_bits b) (float_bits c) h k
compare_raw_value_lt type_string n a b c h k = strncmp_lt n a b c h k
compare_raw_value_lt type_bigint n a b c h k =
    compare_ℤ_lt (read_int64 a) (read_int64 b) (read_int64 c) h k
compare_raw_value_lt type_datetime n a b c h k =
    compare_ℤ_lt (read_int64 a) (read_int64 b) (read_int64 c) h k
