-- ===== src/System/IndexScan.antt =====
-- `scan_index` of src/system/sm_manager.cpp: the bounds that conditions on the columns of an index
-- set, and the entries between them.
pub mod Bounds
pub mod Prefixes
pub mod Reached
pub mod Loop
pub mod Between
pub mod Complete
use Prim.Native.Nat.{Ordering}
use myrmdb.Prelude.{
  ℕ, zero, suc, ◌+◌, ◌-◌, ◌≡◌, refl, Bool, true, false, not, ◌&&◌, ◌||◌, List, [], ◌∷◌, ◌++◌,
  Option, none, some, map, length, take, drop, ltb, ◌==◌, if◌then◌else◌,
}
use myrmdb.Concurrency.Transaction.{Rid}
use myrmdb.System.Values.{
  Name, same_name, ColMeta, CompOp, op_eq, op_ne, op_lt, op_gt, op_le, op_ge, Condition,
}
use myrmdb.System.Keys.{IndexMeta, compare_index_prefix, is_lt, is_eq}
use myrmdb.System.Entries.{RuntimeIndexEntry, Entries, bound}

-- The bytes behind `rhs_val.raw`. Where the pointer is null the process ends; no theorem speaks of
-- that case, whose bytes are none here.
abbrev pub raw_data : Condition → List ℕ
raw_data cond = elim cond.raw [ none ↦ [] | some bytes ↦ bytes ]

abbrev pub is_gt : Ordering → Bool
is_gt Ordering.gt = true
is_gt _ = false

abbrev pub is_op_eq : CompOp → Bool
is_op_eq op_eq = true
is_op_eq _ = false

-- `OP_GT` or `OP_GE`, and `OP_LT` or `OP_LE`; and with the bound itself.
abbrev pub is_op_lower : CompOp → Bool
is_op_lower op_gt = true
is_op_lower op_ge = true
is_op_lower _ = false

abbrev pub is_op_upper : CompOp → Bool
is_op_upper op_lt = true
is_op_upper op_le = true
is_op_upper _ = false

abbrev pub is_op_inclusive : CompOp → Bool
is_op_inclusive op_ge = true
is_op_inclusive op_le = true
is_op_inclusive _ = false

-- Whether a condition compares the column of the table to a value.
abbrev pub is_on : Name → ColMeta → Condition → Bool
is_on tab_name col cond =
    cond.is_rhs_val
    && (same_name cond.lhs_col.tab_name tab_name && same_name cond.lhs_col.col_name col.name)

-- `cols` is 0 where there is no bound.
pub record Bound : Type 0 where
  pub key : List ℕ
  pub cols : ℕ
  pub inclusive : Bool

pub record ScanBounds : Type 0 where
  pub eq_prefix : List ℕ
  pub eq_cols : ℕ
  pub lower : Bound
  pub upper : Bound

abbrev pub no_bound : Bound
no_bound = record { key = []; cols = 0; inclusive = true }

abbrev pub no_bounds : ScanBounds
no_bounds = record { eq_prefix = []; eq_cols = 0; lower = no_bound; upper = no_bound }

-- `eq_cond`
unfoldable pub find_eq : Name → ColMeta → List Condition → Option Condition
find_eq tab_name col [] = none
find_eq tab_name col (cond ∷ conds) =
    let rest = find_eq tab_name col conds in
    if is_op_eq cond.op && is_on tab_name col cond then some cond else rest

module _ (index : IndexMeta) where
  unfoldable pub better_lower : Bound → Bound → Bool
  unfolding compare_index_prefix
  better_lower lhs rhs =
      let cmp = compare_index_prefix index lhs.key rhs.key lhs.cols in
      is_gt cmp || (is_eq cmp && (not lhs.inclusive && rhs.inclusive))

  unfoldable pub better_upper : Bound → Bound → Bool
  unfolding compare_index_prefix
  better_upper lhs rhs =
      let cmp = compare_index_prefix index lhs.key rhs.key lhs.cols in
      is_lt cmp || (is_eq cmp && (not lhs.inclusive && rhs.inclusive))

  -- The body of the loop over the conditions on the column `i`.
  unfoldable pub add_bound : ℕ → ColMeta → Condition → ScanBounds → ScanBounds
  unfolding better_lower better_upper
  add_bound i col cond b =
      let new : Bound = record {
        key = b.eq_prefix ++ take col.len (raw_data cond);
        cols = suc i;
        inclusive = is_op_inclusive cond.op;
      } in
      if is_op_lower cond.op
      then (if (b.lower.cols == 0) || better_lower new b.lower then record b { lower = new } else b)
      else if is_op_upper cond.op
      then (if (b.upper.cols == 0) || better_upper new b.upper then record b { upper = new } else b)
      else b

  unfoldable pub add_bounds : Name → ℕ → ColMeta → List Condition → ScanBounds → ScanBounds
  unfolding add_bound
  add_bounds tab_name i col [] b = b
  add_bounds tab_name i col (cond ∷ conds) b =
      add_bounds tab_name i col conds
        (if is_on tab_name col cond then add_bound i col cond b else b)

  -- The loop over the columns from the column `i` on.
  unfoldable pub scan_cols : Name → List Condition → ℕ → List ColMeta → ScanBounds → ScanBounds
  unfolding find_eq add_bounds
  scan_cols tab_name conds i [] b = b
  scan_cols tab_name conds i (col ∷ cols) b = elim (find_eq tab_name col conds) [
    | some cond ↦ scan_cols tab_name conds (suc i) cols (record b {
      eq_prefix = b.eq_prefix ++ take col.len (raw_data cond);
      eq_cols = suc b.eq_cols;
    })
    | none ↦ add_bounds tab_name i col conds b
  ]

  abbrev pub or_prefix : ScanBounds → Bound → Bound
  or_prefix b old =
      if ltb 0 b.eq_cols && (old.cols == 0)
      then record { key = b.eq_prefix; cols = b.eq_cols; inclusive = true }
      else old

  -- A column that equals a value bounds the scan on both sides.
  unfoldable pub with_prefix : ScanBounds → ScanBounds
  with_prefix b = record b { lower = or_prefix b b.lower; upper = or_prefix b b.upper }

  unfoldable pub scan_begin : Bound → Entries → ℕ
  unfolding bound compare_index_prefix
  scan_begin lower entries =
      if lower.cols == 0
      then 0
      else if lower.inclusive
      then bound (λ e. is_lt (compare_index_prefix index e.key lower.key lower.cols)) entries
      else bound (λ e. not (is_lt (compare_index_prefix index lower.key e.key lower.cols))) entries

  unfoldable pub scan_end : Bound → Entries → ℕ
  unfolding bound compare_index_prefix
  scan_end upper entries =
      if upper.cols == 0
      then length entries
      else if upper.inclusive
      then bound (λ e. not (is_lt (compare_index_prefix index upper.key e.key upper.cols))) entries
      else bound (λ e. is_lt (compare_index_prefix index e.key upper.key upper.cols)) entries

  -- `for (auto it = begin; it < end; ++it)`
  abbrev pub between : ℕ → ℕ → Entries → Entries
  between begin end entries = take (end - begin) (drop begin entries)

  unfoldable pub scan_bounds : Name → List Condition → ScanBounds
  unfolding scan_cols with_prefix
  scan_bounds tab_name conds =
      with_prefix (scan_cols tab_name conds 0 (take index.col_num index.cols) no_bounds)

  -- `scan_index`, where the index is there.
  unfoldable pub scan_index : Name → List Condition → Entries → List Rid
  unfolding scan_bounds scan_begin scan_end
  scan_index tab_name conds entries =
      let b = scan_bounds tab_name conds in
      map (λ (e : RuntimeIndexEntry). e.rid)
        (between (scan_begin b.lower entries) (scan_end b.upper entries) entries)
