-- ===== src/Execution/Scans/Feed.antt =====
-- The constructor of an index scan turns a condition round without changing what it says.
use Prim.Native.Nat.{Ordering}
use myrmdb.Prelude.{ℕ, ◌≡◌, sym, ap, ◌∙◌, inl, inr, false, List, some, drop, arith, Bool-cases}
use myrmdb.Prelude.Assoc.{some_inj}
use myrmdb.Errors.{ok}
use myrmdb.System.Values.{
  Name, same_name, ColMeta, CompOp, op_eq, op_ne, op_lt, op_gt, op_le, op_ge, Condition,
  compare_raw_value, eval_compare, find_col_meta, rhs_of, eval_condition,
}
use myrmdb.System.Values.Laws.{swapped, compare_raw_value_swap}
use myrmdb.Execution.Scans.{swap_op, feed_cond}

-- The operator with its sides swapped says the same of the comparison with its sides swapped.
pub eval_compare-swap_op :
    (o : Ordering) (op : CompOp) → eval_compare (swapped o) (swap_op op) ≡ eval_compare o op
unfolding eval_compare swap_op
eval_compare-swap_op o op_eq = ground arith
eval_compare-swap_op o op_ne = ground arith
eval_compare-swap_op o op_lt = ground arith
eval_compare-swap_op o op_gt = ground arith
eval_compare-swap_op o op_le = ground arith
eval_compare-swap_op o op_ge = ground arith

-- The condition with its columns swapped.
abbrev turned : Condition → Condition
turned cond = record cond { lhs_col = cond.rhs_col; rhs_col = cond.lhs_col; op = swap_op cond.op }

turned-eval :
    (cols : List ColMeta) (cond : Condition) (a b : ColMeta) (rec : List ℕ)
    → cond.is_rhs_val ≡ false
    → find_col_meta cols cond.lhs_col ≡ ok a
    → find_col_meta cols cond.rhs_col ≡ ok b
    → b.type ≡ a.type
    → b.len ≡ a.len
    → eval_condition cols (turned cond) rec ≡ eval_condition cols cond rec
unfolding eval_condition rhs_of
turned-eval cols cond a b rec v l r t n =
    let p = drop a.offset rec in
    let q = drop b.offset rec in
    let o = compare_raw_value p q a.type a.len in
    let same : compare_raw_value q p b.type b.len ≡ swapped o =
      ap (λ x. compare_raw_value q p x b.len) t
      ∙ ap (compare_raw_value q p a.type) n
      ∙ compare_raw_value_swap a.type a.len p q in
    let back = eval_compare-swap_op o cond.op in
    let says : eval_compare (compare_raw_value q p b.type b.len) (swap_op cond.op)
        ≡ eval_compare o cond.op =
      ap (λ x. eval_compare x (swap_op cond.op)) same ∙ back in
    ground (arith, v, l, r, says)

-- Where the two columns have the same type and width, what an index scan makes of a condition is
-- met by the same records.
pub feed_cond-eval :
    (cols : List ColMeta) (tab_name : Name) (cond fed : Condition) (a b : ColMeta) (rec : List ℕ)
    → feed_cond tab_name cond ≡ some fed
    → find_col_meta cols cond.lhs_col ≡ ok a
    → find_col_meta cols cond.rhs_col ≡ ok b
    → b.type ≡ a.type
    → b.len ≡ a.len
    → eval_condition cols fed rec ≡ eval_condition cols cond rec
unfolding feed_cond
feed_cond-eval cols tab_name cond fed a b rec h l r t n =
    elim (Bool-cases (same_name cond.lhs_col.tab_name tab_name)) [
      | inl own ↦
          let e : some cond ≡ some fed = ground (arith, own, h) in
          ap (λ c. eval_condition cols c rec) (sym (some_inj e))
      | inr other ↦ elim (Bool-cases cond.is_rhs_val) [
        | inl value ↦ absurd (ground (arith, other, value, h))
        | inr column ↦ elim (Bool-cases (same_name cond.rhs_col.tab_name tab_name)) [
          | inr gone ↦ absurd (ground (arith, other, column, gone, h))
          | inl on ↦
              let e : some (turned cond) ≡ some fed = ground (arith, other, column, on, h) in
              ap (λ c. eval_condition cols c rec) (sym (some_inj e))
              ∙ turned-eval cols cond a b rec column l r t n
        ]
      ]
    ]
