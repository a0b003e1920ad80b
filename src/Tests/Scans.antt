-- ===== src/Tests/Scans.antt =====
-- An index on one column of a table with two records, and a scan of it.

use myrmdb.Prelude.{
  ℕ, ◌≡◌, ◌↔◌, refl, sym, ap, ◌∙◌, ◌⊎◌, inl, inr, Bool, true, false, List, [], ◌∷◌, none, some,
  if_pos, if_neg, arith, ℕ_discrete,
}
use mathlib.Core.Path.{subst}
use myrmdb.Prelude.Assoc.{some_inj}
use myrmdb.Prelude.Int.{pos, ℤ-discrete}
use myrmdb.Concurrency.Transaction.{Rid}
use myrmdb.Errors.{ok}
use myrmdb.System.Values.{
  Name, ColMeta, type_int, Condition, op_gt, eval_conditions, eval_condition, eval_compare,
  find_col_meta, rhs_of, compare_raw_value,
}
use myrmdb.System.Keys.{
  IndexMeta, make_key, make_index_key, compare_cols, compare_index_prefix, compare_index_key,
  key_equal,
}
use myrmdb.System.Entries.{
  RuntimeIndexEntry, Entries, rid_eq, bound, lower_bound, insert_entry, is_duplicate, erase_run,
  delete_entry, update_entry,
}
use myrmdb.System.Entries.Unique.{any_duplicate, is_duplicate-any_duplicate}
use myrmdb.System.Entries.Mirror.{
  Table, put, inserted, updated, Steps, done, more, Agrees, Steps-Agrees, empty-Agrees,
}
use myrmdb.System.Entries.Build.{
  scan_entries, entry_less, sort_in, sort_runtime_index, has_equal_keys, rebuild_entries,
  create_entries,
}
use myrmdb.System.Entries.Build.Agreement.{create_entries-Agrees}
use myrmdb.System.IndexScan.{
  scan_index, scan_bounds, scan_cols, find_eq, add_bounds, add_bound, better_lower, better_upper,
  with_prefix, scan_begin, scan_end,
}
use myrmdb.Execution.Scans.{seek, next_tuple, drain, begin_tuple}
use myrmdb.System.IndexScan.Between.{HasRid}
use myrmdb.Execution.Scans.{collect}
use myrmdb.Execution.Scans.Index.{collect-HasRid}
use myrmdb.Execution.Scans.Suits.{Suits}

-- The table `t` has one column `k`, an `int`.
abbrev pub t_name : Name
t_name = 116 ∷ []

abbrev pub k_col : ColMeta
k_col = record {
  tab_name = t_name;
  name = 107 ∷ [];
  type = type_int;
  len = 4;
  offset = 0;
  indexed = true;
}

abbrev pub k_index : IndexMeta
k_index = record { tab_name = t_name; col_tot_len = 4; col_num = 1; cols = k_col ∷ [] }

abbrev pub row : ℕ → List ℕ
row n = n ∷ 0 ∷ 0 ∷ 0 ∷ []

abbrev pub at : ℕ → Rid
at n = record { page_no = pos 1; slot_no = pos n }

abbrev entry_of : ℕ → ℕ → RuntimeIndexEntry
entry_of key n = record { key = row key; rid = at n }

abbrev no_records : Table
no_records r = none

-- 7 is inserted, then 5, and 7 becomes 9.
abbrev pub rows : Table
rows = put (put (put no_records (at 0) (some (row 7))) (at 1) (some (row 5))) (at 0) (some (row 9))

abbrev pub entries : Entries
entries = entry_of 5 1 ∷ entry_of 9 0 ∷ []

three-Steps : Steps k_index (no_records, []) (rows, entries)
unfolding make_index_key make_key is_duplicate lower_bound bound insert_entry update_entry
    delete_entry erase_run key_equal compare_index_key compare_index_prefix compare_cols
    compare_raw_value put rid_eq ℤ-discrete ℕ_discrete
three-Steps = more _ _ _ (inserted no_records [] (at 0) (row 7) refl (tt, tt) refl) (
    more _ _ _
      (inserted (put no_records (at 0) (some (row 7))) (entry_of 7 0 ∷ []) (at 1) (row 5) refl
        (tt, tt) refl)
      (more _ _ _
        (updated (put (put no_records (at 0) (some (row 7))) (at 1) (some (row 5)))
          (entry_of 5 1 ∷ entry_of 7 0 ∷ []) entries (at 0) (row 7) (row 9) refl (tt, tt) refl)
        (done (rows, entries))))

pub rows-Agrees : Agrees k_index rows entries
rows-Agrees =
    Steps-Agrees k_index (no_records, []) (rows, entries) three-Steps (empty-Agrees k_index)

Steps-Agrees_example : Agrees k_index rows entries
Steps-Agrees_example =
    Steps-Agrees k_index (no_records, []) (rows, entries) three-Steps (empty-Agrees k_index)

-- The key 9 has an entry, but it is that of the record at the position 0.
is_duplicate-any_duplicate_example :
    is_duplicate k_index (row 9) (some (at 0)) entries
    ≡ any_duplicate k_index (row 9) (some (at 0)) entries
is_duplicate-any_duplicate_example =
    is_duplicate-any_duplicate k_index (row 9) (some (at 0)) entries (tt, tt) rows-Agrees.keys
      rows-Agrees.strict

which_row :
    (rid : Rid) (rec : List ℕ)
    → rows rid ≡ some rec
    → ((at 0 ≡ rid) × (row 9 ≡ rec)) ⊎ ((at 1 ≡ rid) × (row 5 ≡ rec))
unfolding put
which_row rid rec h = elim (rid_eq (at 0) rid) [
  | yes e ↦ inl (e, some_inj (sym (if_pos (rid_eq (at 0) rid) e _ _) ∙ h))
  | no ne ↦
      let h' : put (put no_records (at 0) (some (row 7))) (at 1) (some (row 5)) rid ≡ some rec =
        sym (if_neg (rid_eq (at 0) rid) ne (some (row 9)) _) ∙ h in
      elim (rid_eq (at 1) rid) [
        | yes e ↦ inr (e, some_inj (sym (if_pos (rid_eq (at 1) rid) e _ _) ∙ h'))
        | no ne' ↦
            let f = sym (if_neg (rid_eq (at 1) rid) ne' (some (row 5)) _) ∙ h' in
            absurd (let g = sym (if_neg (rid_eq (at 0) rid) ne (some (row 7)) none) ∙ f in cc)
      ]
]

-- What holds of both rows.
both_rows {κ} :
    (P : List ℕ → Type κ)
    → P (row 9)
    → P (row 5)
    → (rid : Rid) (rec : List ℕ) → rows rid ≡ some rec
    → P rec
both_rows P p q rid rec h = elim (which_row rid rec h) [
  | inl (e, same) ↦ subst P same p
  | inr (e, same) ↦ subst P same q
]

create_entries_run : create_entries k_index rows (at 0 ∷ at 1 ∷ []) ≡ ok entries
unfolding make_index_key make_key scan_entries entry_less sort_in sort_runtime_index has_equal_keys
    rebuild_entries create_entries bound key_equal compare_index_key compare_index_prefix
    compare_cols compare_raw_value put rid_eq ℤ-discrete ℕ_discrete
create_entries_run = refl

create_entries-Agrees_example : Agrees k_index rows entries
create_entries-Agrees_example =
    create_entries-Agrees k_index rows (at 0 ∷ at 1 ∷ []) entries create_entries_run
      (((λ e. let s = ap (λ (r : Rid). r.slot_no) e in cc), tt), (tt, tt))
      (λ rid rec h. elim (which_row rid rec h) [
        | inl (e, same) ↦ inl e
        | inr (e, same) ↦ inr (inl e)
      ])
      (λ rid rec h. (tt, tt))

-- `k > 6`
abbrev over_six : List Condition
over_six =
    record {
      lhs_col = record { tab_name = t_name; col_name = 107 ∷ [] };
      op = op_gt;
      is_rhs_val = true;
      rhs_col = record { tab_name = []; col_name = [] };
      raw = some (row 6);
    }
    ∷ []

rows-Suits : Suits (k_col ∷ []) k_index t_name over_six rows
unfolding eval_conditions eval_condition find_col_meta rhs_of eval_compare compare_raw_value
rows-Suits = record {
  number = refl;
  found = (refl, tt);
  typed = (((λ on. (omega arith, tt)), tt), tt);
  fits = both_rows _ ((refl, omega arith), tt) ((refl, omega arith), tt);
  total =
      both_rows (λ rec. (b : Bool) × (eval_conditions (k_col ∷ []) over_six rec ≡ ok b))
        (true, refl) (false, refl);
}

collect-HasRid_example :
    (out : List Rid) × (collect (k_col ∷ []) over_six rows k_index t_name entries ≡ ok out)
    × ((rid : Rid)
        → HasRid rid out ↔ (
            (rec : List ℕ) × (rows rid ≡ some rec)
            × (eval_conditions (k_col ∷ []) over_six rec ≡ ok true)))
collect-HasRid_example =
    collect-HasRid (k_col ∷ []) k_index t_name over_six rows entries rows-Agrees rows-Suits

-- The scan takes the record whose key is 9.
collect_run : collect (k_col ∷ []) over_six rows k_index t_name entries ≡ ok (at 0 ∷ [])
unfolding collect begin_tuple drain next_tuple seek eval_conditions eval_condition find_col_meta
    rhs_of eval_compare compare_raw_value scan_index scan_bounds scan_cols find_eq add_bounds
    add_bound better_lower better_upper with_prefix scan_begin scan_end bound compare_index_prefix
    compare_cols put rid_eq ℤ-discrete ℕ_discrete
collect_run = refl
