-- ===== src/Execution/Scans.antt =====
-- src/execution/executor_index_scan.h and the loop of src/portal.h that drains an executor. The state of a scan is `rids_` from `cursor_` on. The file of the table is
-- seen as the record at each position. The locks that a scan takes are those of Concurrency.
pub mod Filter
pub mod Feed
pub mod Suits
pub mod Index
use myrmdb.Prelude.{
  ℕ, zero, suc, Bool, true, false, not, ◌&&◌, List, [], ◌∷◌, Option, none, some, length,
  if◌then◌else◌,
}
use myrmdb.Concurrency.Transaction.{Rid}
use myrmdb.Errors.{Result, ok, err, Error}
use myrmdb.System.Values.{
  Name, same_name, ColMeta, CompOp, op_eq, op_ne, op_lt, op_gt, op_le, op_ge, Condition,
  eval_conditions,
}
use myrmdb.System.Keys.{IndexMeta}
use myrmdb.System.Entries.{Entries}
use myrmdb.System.Entries.Mirror.{Table}
use myrmdb.System.IndexScan.{scan_index}

unfoldable pub swap_op : CompOp → CompOp
swap_op op_eq = op_eq
swap_op op_ne = op_ne
swap_op op_lt = op_gt
swap_op op_gt = op_lt
swap_op op_le = op_ge
swap_op op_ge = op_le

-- A condition with the column of the table on the left; `none` is a failed assertion.
unfoldable pub feed_cond : Name → Condition → Option Condition
unfolding swap_op
feed_cond tab_name cond =
    if same_name cond.lhs_col.tab_name tab_name
    then some cond
    else if not cond.is_rhs_val && same_name cond.rhs_col.tab_name tab_name
    then some (record cond { lhs_col = cond.rhs_col; rhs_col = cond.lhs_col; op = swap_op cond.op })
    else none

-- `get_record` of the table's file.
abbrev pub get_record : Table → Rid → Result (List ℕ)
get_record file rid = elim (file rid) [ none ↦ err Error.record_not_found | some rec ↦ ok rec ]

module _ (cols : List ColMeta) (conds : List Condition) (file : Table) where
  -- The loop that stops at a position whose record meets the conditions.
  unfoldable pub seek : List Rid → Result (List Rid)
  unfolding eval_conditions
  seek [] = ok []
  seek (rid ∷ rids) = elim (get_record file rid) [
    | err e ↦ err e
    | ok rec ↦ elim (eval_conditions cols conds rec) [
      | err e ↦ err e
      | ok true ↦ ok (rid ∷ rids)
      | ok false ↦ seek rids
    ]
  ]

  -- `nextTuple`
  unfoldable pub next_tuple : List Rid → Result (List Rid)
  unfolding seek
  next_tuple [] = ok []
  next_tuple (rid ∷ rids) = seek rids

  -- `for (...; !is_end(); nextTuple()) rids.push_back(rid())`. A scan has at
  -- most as many rounds as positions.
  unfoldable pub drain : ℕ → List Rid → Result (List Rid)
  unfolding next_tuple
  drain rounds [] = ok []
  drain zero (rid ∷ rids) = ok []
  drain (suc rounds) (rid ∷ rids) = elim (next_tuple (rid ∷ rids)) [
    | err e ↦ err e
    | ok rest ↦ elim (drain rounds rest) [ err e ↦ err e | ok out ↦ ok (rid ∷ out) ]
  ]

  -- `beginTuple`
  unfoldable pub begin_tuple : IndexMeta → Name → Entries → Result (List Rid)
  unfolding seek scan_index
  begin_tuple index tab_name entries = seek (scan_index index tab_name conds entries)

  -- The whole loop.
  unfoldable pub collect : IndexMeta → Name → Entries → Result (List Rid)
  unfolding begin_tuple drain
  collect index tab_name entries = elim (begin_tuple index tab_name entries) [
    | err e ↦ err e
    | ok first ↦ drain (length first) first
  ]
