-- ===== src/System/Manager.antt =====
-- The calls of src/system/sm_manager.cpp that keep the indexes of a table in step with its records.
-- The maps of tables and of runtime indexes go by name.
pub mod Each
pub mod Whole
use myrmdb.Prelude.{
  ℕ, ◌≡◌, Bool, true, false, List, [], ◌∷◌, ◌++◌, Option, none, some, map, ℕ_discrete,
  if◌then◌else◌,
}
use myrmdb.Prelude.Assoc
use myrmdb.Concurrency.Transaction.{Rid}
use myrmdb.Errors.{Result, ok, err, Error, and_then}
use myrmdb.System.Values.{Name, ColMeta}
use myrmdb.System.Keys.{IndexMeta, make_index_key}
use myrmdb.System.Entries.{
  RuntimeIndexEntry, Entries, RuntimeIndex, is_duplicate, insert_entry, delete_entry,
}

unfoldable pub Name-discrete : Discrete Name
Name-discrete = hlevel ℕ_discrete

pub record TabMeta : Type 0 where
  pub name : Name
  pub cols : List ColMeta
  pub indexes : List IndexMeta

abbrev pub RuntimeIndexes : Type 0
RuntimeIndexes = List (Name × RuntimeIndex)

pub record SmManager : Type 0 where
  pub tabs : List (Name × TabMeta)
  pub runtime_indexes : RuntimeIndexes

-- A `#`, which no name of a table or a column has, stands before each column.
unfoldable pub runtime_index_name : Name → List Name → Name
runtime_index_name tab_name [] = tab_name
runtime_index_name tab_name (col_name ∷ col_names) =
    runtime_index_name (tab_name ++ (35 ∷ col_name)) col_names

abbrev pub names_of : List ColMeta → List Name
names_of cols = map (λ (col : ColMeta). col.name) cols

-- `runtime_index_name(index)`
unfoldable pub index_name : IndexMeta → Name
unfolding runtime_index_name
index_name index = runtime_index_name index.tab_name (names_of index.cols)

unfoldable pub get_table : Name → SmManager → Result TabMeta
get_table tab_name s = elim (Assoc.lookup Name-discrete tab_name s.tabs) [
  | none ↦ err Error.table_not_found
  | some tab ↦ ok tab
]

unfoldable pub get_runtime_index : Name → List Name → RuntimeIndexes → Result RuntimeIndex
unfolding runtime_index_name
get_runtime_index tab_name col_names m =
    elim (Assoc.lookup Name-discrete (runtime_index_name tab_name col_names) m) [
      | none ↦ err Error.index_not_found
      | some index ↦ ok index
    ]

-- The loop of `check_index_insert` over the indexes of the table.
unfoldable pub check_each :
    Name → List ℕ → Option Rid → List IndexMeta → RuntimeIndexes → Result (Unit {0})
unfolding get_runtime_index is_duplicate make_index_key
check_each tab_name rec self [] m = ok tt
check_each tab_name rec self (index ∷ indexes) m =
    elim (get_runtime_index tab_name (names_of index.cols) m) [
      | err e ↦ err e
      | ok r ↦ elim (is_duplicate index (make_index_key index rec) self r.entries) [
        | true ↦ err Error.internal_error
        | false ↦ check_each tab_name rec self indexes m
      ]
    ]

-- A loop that changes the entries of each index of the table.
unfoldable pub change_each :
    (IndexMeta → Entries → Entries)
    → List IndexMeta
    → RuntimeIndexes
    → Result (Unit {0}) × RuntimeIndexes
unfolding index_name
change_each change [] m = (ok tt, m)
change_each change (index ∷ indexes) m = elim (Assoc.lookup Name-discrete (index_name index) m) [
  | none ↦ (err Error.out_of_range, m)
  | some r ↦ change_each change indexes (
      Assoc.insert Name-discrete (index_name index) (record r { entries = change index r.entries })
        m)
]

abbrev pub inserts : List ℕ → Rid → IndexMeta → Entries → Entries
inserts rec rid index es =
    insert_entry index (record { key = make_index_key index rec; rid = rid }) es

abbrev pub deletes : List ℕ → Rid → IndexMeta → Entries → Entries
deletes rec rid index es = delete_entry index (make_index_key index rec) rid es

unfoldable pub check_index_insert : Name → List ℕ → Option Rid → SmManager → Result (Unit {0})
unfolding get_table check_each
check_index_insert tab_name rec self s = elim (get_table tab_name s) [
  | err e ↦ err e
  | ok tab ↦ check_each tab_name rec self tab.indexes s.runtime_indexes
]

-- A change of each index of a table.
unfoldable pub change_indexes :
    (IndexMeta → Entries → Entries) → Name → SmManager → Result (Unit {0}) × SmManager
unfolding get_table change_each
change_indexes change tab_name s = elim (get_table tab_name s) [
  | err e ↦ (err e, s)
  | ok tab ↦
      let done = change_each change tab.indexes s.runtime_indexes in
      (done.0, record s { runtime_indexes = done.1 })
]

unfoldable pub insert_index_entries :
    Name → List ℕ → Rid → SmManager → Result (Unit {0}) × SmManager
unfolding change_indexes
insert_index_entries tab_name rec rid s = change_indexes (inserts rec rid) tab_name s

unfoldable pub delete_index_entries :
    Name → List ℕ → Rid → SmManager → Result (Unit {0}) × SmManager
unfolding change_indexes
delete_index_entries tab_name rec rid s = change_indexes (deletes rec rid) tab_name s

unfoldable pub update_index_entries :
    Name → List ℕ → List ℕ → Rid → SmManager → Result (Unit {0}) × SmManager
unfolding check_index_insert delete_index_entries insert_index_entries and_then
update_index_entries tab_name old_rec new_rec rid s =
    and_then (check_index_insert tab_name new_rec (some rid) s, s)
      λ _ s.
        and_then (delete_index_entries tab_name old_rec rid s)
          λ _ t. insert_index_entries tab_name new_rec rid t
