-- ===== src/System/IndexScan/Bounds.antt =====
-- What the bounds of a scan say of a record that meets the conditions.
use Prim.Native.Nat.{Ordering}
use myrmdb.Prelude.{ℕ, ◌≡◌, ◌≢◌, Bool, true, false, List, drop, arith, ◌⊎◌}
use myrmdb.System.Values.{
  Name, ColMeta, Condition, compare_raw_value, eval_compare, CompOp, op_eq, op_ne, op_lt, op_gt,
  op_le, op_ge,
}
use myrmdb.System.Keys.{make_key, compare_cols}
use myrmdb.System.Keys.Order.{IsKey}
use myrmdb.System.IndexScan.{
  raw_data, is_on, is_op_eq, is_op_lower, is_op_upper, is_op_inclusive, Bound, ScanBounds,
}
use myrmdb.System.IndexScan.Prefixes.{Serves}

-- A record meets a condition on the column.
abbrev pub Meets : Name → List ℕ → ColMeta → Condition → Type 0
Meets tab_name rec col cond =
    is_on tab_name col cond ≡ true
    → Serves col (raw_data cond)
      × (eval_compare (compare_raw_value (drop col.offset rec) (raw_data cond) col.type col.len)
            cond.op
          ≡ true)

-- What a comparison of a key with a bound comes out as.
abbrev pub OnLower : Bool → Ordering → Type 0
OnLower true o = o ≢ Ordering.lt
OnLower false o = o ≡ Ordering.gt

abbrev pub OnUpper : Bool → Ordering → Type 0
OnUpper true o = o ≢ Ordering.gt
OnUpper false o = o ≡ Ordering.lt

module _ (all : List ColMeta) (rec : List ℕ) where
  abbrev pub LowerHolds : Bound → Type 0
  LowerHolds b =
      (b.cols ≡ 0)
      ⊎ (OnLower b.inclusive (compare_cols b.cols all (make_key all rec) b.key) × IsKey all b.key)

  abbrev pub UpperHolds : Bound → Type 0
  UpperHolds b =
      (b.cols ≡ 0)
      ⊎ (OnUpper b.inclusive (compare_cols b.cols all (make_key all rec) b.key) × IsKey all b.key)

  abbrev pub Holds : ScanBounds → Type 0
  Holds b = LowerHolds b.lower × UpperHolds b.upper

pub lower_op :
    (op : CompOp) (o : Ordering)
    → is_op_lower op ≡ true
    → eval_compare o op ≡ true
    → OnLower (is_op_inclusive op) o
unfolding eval_compare
lower_op op_eq o h e = ground (arith, h)
lower_op op_ne o h e = ground (arith, h)
lower_op op_lt o h e = ground (arith, h)
lower_op op_le o h e = ground (arith, h)
lower_op op_gt o h e = ground (arith, e)
lower_op op_ge o h e = ground (arith, e)

pub upper_op :
    (op : CompOp) (o : Ordering)
    → is_op_upper op ≡ true
    → eval_compare o op ≡ true
    → OnUpper (is_op_inclusive op) o
unfolding eval_compare
upper_op op_eq o h e = ground (arith, h)
upper_op op_ne o h e = ground (arith, h)
upper_op op_gt o h e = ground (arith, h)
upper_op op_ge o h e = ground (arith, h)
upper_op op_lt o h e = ground (arith, e)
upper_op op_le o h e = ground (arith, e)

pub eq_op :
    (op : CompOp) (o : Ordering) → is_op_eq op ≡ true → eval_compare o op ≡ true → o ≡ Ordering.eq
unfolding eval_compare
eq_op op_eq o h e = ground (arith, e)
eq_op op_ne o h e = ground (arith, h)
eq_op op_lt o h e = ground (arith, h)
eq_op op_gt o h e = ground (arith, h)
eq_op op_le o h e = ground (arith, h)
eq_op op_ge o h e = ground (arith, h)
