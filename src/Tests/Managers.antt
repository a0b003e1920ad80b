-- ===== src/Tests/Managers.antt =====
-- The calls on the indexes of a table, which has one.
use myrmdb.Prelude.{◌≡◌, ◌⊎◌, refl, [], ◌∷◌, none, some, ℕ_discrete}
use myrmdb.Prelude.Assoc
use myrmdb.Prelude.Int.{ℤ-discrete}
use myrmdb.Errors.{ok, err, Error}
use myrmdb.System.Entries.{rid_eq}
use myrmdb.System.Entries.Mirror.{put}
use myrmdb.System.Values.{compare_raw_value}
use myrmdb.System.Keys.{
  make_key, make_index_key, compare_cols, compare_index_prefix, compare_index_key, key_equal,
}
use myrmdb.System.Entries.{bound, lower_bound, is_duplicate}
use myrmdb.System.Manager.{
  check_each, get_runtime_index, SmManager, TabMeta, Name-discrete, runtime_index_name, index_name,
  get_table, check_index_insert, insert_index_entries, update_index_entries,
}
use myrmdb.System.Manager.Whole.{
  Indexed, insert_index_entries-Indexed, update_index_entries-Indexed,
}
use myrmdb.Tests.Scans.{t_name, k_col, k_index, row, at, rows, entries, rows-Agrees}

abbrev table : TabMeta
table = record { name = t_name; cols = k_col ∷ []; indexes = k_index ∷ [] }

-- The index is `t#k`.
abbrev indexed : SmManager
indexed = record {
  tabs = (t_name, table) ∷ [];
  runtime_indexes = (116 ∷ 35 ∷ 107 ∷ [], record { meta = k_index; entries = entries }) ∷ [];
}

indexed-Indexed : Indexed rows t_name table indexed
unfolding get_table index_name runtime_index_name Assoc.lookup Name-discrete ℕ_discrete
indexed-Indexed = record {
  there = refl;
  own = (refl, tt);
  apart = (tt, tt);
  holding = ((record { meta = k_index; entries = entries }, refl, rows-Agrees), tt);
}

free : rows (at 2) ≡ none
unfolding put rid_eq ℤ-discrete ℕ_discrete
free = refl

taken : rows (at 0) ≡ some (row 9)
unfolding put rid_eq ℤ-discrete ℕ_discrete
taken = refl

insert_index_entries-Indexed_example :
    (check_index_insert t_name (row 7) none indexed ≡ err Error.internal_error)
    ⊎ ((check_index_insert t_name (row 7) none indexed ≡ ok tt)
        × ((insert_index_entries t_name (row 7) (at 2) indexed).0 ≡ ok tt)
        × Indexed
            (put rows (at 2) (some (row 7)))
            t_name
            table
            (insert_index_entries t_name (row 7) (at 2) indexed).1)
insert_index_entries-Indexed_example =
    insert_index_entries-Indexed t_name table rows indexed indexed-Indexed (row 7) (at 2) free
      ((tt, tt), tt)

update_index_entries-Indexed_example :
    (update_index_entries t_name (row 9) (row 5) (at 0) indexed
      ≡ (err Error.internal_error, indexed))
    ⊎ (((update_index_entries t_name (row 9) (row 5) (at 0) indexed).0 ≡ ok tt)
        × Indexed
            (put rows (at 0) (some (row 5)))
            t_name
            table
            (update_index_entries t_name (row 9) (row 5) (at 0) indexed).1)
update_index_entries-Indexed_example =
    update_index_entries-Indexed t_name table rows indexed indexed-Indexed (row 9) (row 5) (at 0)
      taken ((tt, tt), tt)

-- The key 9 is taken, and 7 is not.
check_taken : check_index_insert t_name (row 9) none indexed ≡ err Error.internal_error
unfolding check_index_insert check_each get_table get_runtime_index index_name runtime_index_name
    Assoc.lookup Name-discrete ℕ_discrete is_duplicate lower_bound bound make_index_key make_key
    key_equal compare_index_key compare_index_prefix compare_cols compare_raw_value
check_taken = refl

check_free : check_index_insert t_name (row 7) none indexed ≡ ok tt
unfolding check_index_insert check_each get_table get_runtime_index index_name runtime_index_name
    Assoc.lookup Name-discrete ℕ_discrete is_duplicate lower_bound bound make_index_key make_key
    key_equal compare_index_key compare_index_prefix compare_cols compare_raw_value
check_free = refl
