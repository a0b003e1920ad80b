-- ===== src/System/Values.antt =====
-- Columns, raw values and conditions: src/defs.h, src/common/common.h, src/system/sm_meta.h and
-- src/execution/execution_defs.h. The `int` of a comparison is read by its sign only, so that it is
-- an `Ordering` here. A pointer is the bytes from where it points.
pub mod Laws
pub mod Width
use Prim.Native.Nat.{compare, Ordering}
use myrmdb.Prelude.{
  ℕ, zero, suc, ◌+◌, ◌-◌, ◌%◌, ◌/◌, ◌*◌, Bool, true, false, not, ◌&&◌, List, [], ◌∷◌, Option, none,
  some, take, drop, get_or, ltb, ◌==◌, if◌then◌else◌,
}
use myrmdb.Prelude.Int.{ℤ, pos, negsuc, pos_part, neg_part}
use myrmdb.Recovery.Bytes.{un_le, read_int}
use myrmdb.Errors.{Result, ok, err, Error}

pub data ColType : Type 0 where
  type_int type_float type_string type_bigint type_datetime : ColType

-- The characters of a name.
abbrev pub Name : Type 0
Name = List ℕ

abbrev pub same_name : Name → Name → Bool
same_name [] [] = true
same_name (c ∷ cs) (d ∷ ds) = (c == d) && same_name cs ds
same_name _ _ = false

-- The field `index` is `indexed` here.
pub record ColMeta : Type 0 where
  pub tab_name : Name
  pub name : Name
  pub type : ColType
  pub len : ℕ
  pub offset : ℕ
  pub indexed : Bool

pub record TabCol : Type 0 where
  pub tab_name : Name
  pub col_name : Name

pub data CompOp : Type 0 where
  op_eq op_ne op_lt op_gt op_le op_ge : CompOp

-- Of the value on the right, the buffer `raw` that is compared, which may be null.
pub record Condition : Type 0 where
  pub lhs_col : TabCol
  pub op : CompOp
  pub is_rhs_val : Bool
  pub rhs_col : TabCol
  pub raw : Option (List ℕ)

abbrev pub compare_ℤ : ℤ → ℤ → Ordering
compare_ℤ a b = compare (pos_part a + neg_part b) (pos_part b + neg_part a)

-- `*reinterpret_cast<const int64_t *>(p)`
abbrev pub of_bits_64 : ℕ → ℤ
of_bits_64 b = if ltb b 9223372036854775808 then pos b else negsuc (18446744073709551615 - b)

abbrev pub read_int64 : List ℕ → ℤ
read_int64 p = of_bits_64 (un_le (take 8 p))

-- A `float` in the binary32 format: its order is that of the signed magnitude, in which -0 is 0,
-- and a NaN is neither above nor below anything.
abbrev pub float_bits : List ℕ → ℕ
float_bits p = un_le (take 4 p)

abbrev pub is_nan : ℕ → Bool
is_nan b = ltb 2139095040 (b % 2147483648)

abbrev pub negated : ℕ → ℤ
negated zero = pos 0
negated (suc n) = negsuc n

abbrev pub magnitude : ℕ → ℤ
magnitude b = if ltb b 2147483648 then pos b else negated (b - 2147483648)

abbrev pub compare_float : ℕ → ℕ → Ordering
compare_float a b =
    if is_nan a
    then Ordering.eq
    else if is_nan b
    then Ordering.eq
    else compare_ℤ (magnitude a) (magnitude b)

-- `std::strncmp`; a string ends with a zero at the latest.
unfoldable pub strncmp : ℕ → List ℕ → List ℕ → Ordering
strncmp zero lhs rhs = Ordering.eq
strncmp (suc n) lhs rhs = elim (compare (get_or lhs 0 0) (get_or rhs 0 0)) [
  | Ordering.lt ↦ Ordering.lt
  | Ordering.eq ↦ if get_or lhs 0 0 == 0 then Ordering.eq else strncmp n (drop 1 lhs) (drop 1 rhs)
  | Ordering.gt ↦ Ordering.gt
]

unfoldable pub compare_raw_value : List ℕ → List ℕ → ColType → ℕ → Ordering
compare_raw_value lhs rhs type_int len = compare_ℤ (read_int lhs 0) (read_int rhs 0)
compare_raw_value lhs rhs type_float len = compare_float (float_bits lhs) (float_bits rhs)
compare_raw_value lhs rhs type_string len = strncmp len lhs rhs
compare_raw_value lhs rhs type_bigint len = compare_ℤ (read_int64 lhs) (read_int64 rhs)
compare_raw_value lhs rhs type_datetime len = compare_ℤ (read_int64 lhs) (read_int64 rhs)

unfoldable pub eval_compare : Ordering → CompOp → Bool
eval_compare Ordering.eq op_eq = true
eval_compare _ op_eq = false
eval_compare Ordering.eq op_ne = false
eval_compare _ op_ne = true
eval_compare Ordering.lt op_lt = true
eval_compare _ op_lt = false
eval_compare Ordering.gt op_gt = true
eval_compare _ op_gt = false
eval_compare Ordering.gt op_le = false
eval_compare _ op_le = true
eval_compare Ordering.lt op_ge = false
eval_compare _ op_ge = true

abbrev pub is_col_of : TabCol → ColMeta → Bool
is_col_of target col = same_name col.tab_name target.tab_name && same_name col.name target.col_name

unfoldable pub find_col_meta : List ColMeta → TabCol → Result ColMeta
find_col_meta [] target = err Error.column_not_found
find_col_meta (col ∷ cols) target =
    if is_col_of target col then ok col else find_col_meta cols target

-- Where the right-hand side of a condition is read.
unfoldable pub rhs_of : List ColMeta → Condition → List ℕ → Result (List ℕ)
unfolding find_col_meta
rhs_of cols cond rec = elim cond.is_rhs_val [
  | true ↦ elim cond.raw [ none ↦ err Error.internal_error | some bytes ↦ ok bytes ]
  | false ↦ elim (find_col_meta cols cond.rhs_col) [
    | err e ↦ err e
    | ok col ↦ ok (drop col.offset rec)
  ]
]

-- A record is its bytes.
unfoldable pub eval_condition : List ColMeta → Condition → List ℕ → Result Bool
unfolding find_col_meta rhs_of
eval_condition cols cond rec = elim (find_col_meta cols cond.lhs_col) [
  | err e ↦ err e
  | ok col ↦ elim (rhs_of cols cond rec) [
    | err e ↦ err e
    | ok rhs ↦
        ok (eval_compare (compare_raw_value (drop col.offset rec) rhs col.type col.len) cond.op)
  ]
]

unfoldable pub eval_conditions : List ColMeta → List Condition → List ℕ → Result Bool
unfolding eval_condition
eval_conditions cols [] rec = ok true
eval_conditions cols (cond ∷ conds) rec = elim (eval_condition cols cond rec) [
  | err e ↦ err e
  | ok true ↦ eval_conditions cols conds rec
  | ok false ↦ ok false
]
