-- ===== src/System/Entries.antt =====
-- `RuntimeIndex` of src/system/sm_manager.h: a vector of entries that is kept in the order of its
-- keys, and what src/system/sm_manager.cpp does with one index. An iterator is a position.
-- `std::lower_bound` and `std::upper_bound` search a range whose entries that satisfy the test come
-- first: their answer is the number of those entries.
pub mod Find
pub mod Sorted
pub mod Unique
pub mod Deleted
pub mod Mirror
pub mod Build
use myrmdb.Prelude.{
  ℕ, zero, suc, ◌≡◌, refl, Bool, true, false, not, ◌&&◌, List, [], ◌∷◌, ◌++◌, Option, none, some,
  map, ite, take, drop, get_elem?, ℕ_discrete, if◌then◌else◌,
}
use myrmdb.Prelude.Int.{ℤ-discrete}
use myrmdb.Concurrency.Transaction.{Rid}
use myrmdb.Errors.{Result, ok, err, Error}
use myrmdb.System.Keys.{IndexMeta, make_index_key, compare_index_key, key_equal, is_lt}

unfoldable pub rid_eq : (a b : Rid) → Dec (a ≡ b)
rid_eq = hlevel ℤ-discrete

abbrev pub same_rid : Rid → Rid → Bool
same_rid a b = ite (rid_eq a b) true false

pub record RuntimeIndexEntry : Type 0 where
  pub key : List ℕ
  pub rid : Rid

pub record RuntimeIndex : Type 0 where
  pub meta : IndexMeta
  pub entries : List RuntimeIndexEntry

abbrev pub Entries : Type 0
Entries = List RuntimeIndexEntry

-- The number of entries before the first one that fails the test.
unfoldable pub bound : (RuntimeIndexEntry → Bool) → Entries → ℕ
bound test [] = 0
bound test (e ∷ es) = let rest = bound test es in if test e then suc rest else 0

abbrev pub below : IndexMeta → List ℕ → RuntimeIndexEntry → Bool
below index key e = is_lt (compare_index_key index e.key key)

unfoldable pub lower_bound : IndexMeta → List ℕ → Entries → ℕ
unfolding bound
lower_bound index key entries = bound (below index key) entries

-- The test of `check_index_insert` for one index; `self` may be null.
abbrev pub is_other : Option Rid → Rid → Bool
is_other none rid = true
is_other (some self) rid = not (same_rid rid self)

unfoldable pub is_duplicate : IndexMeta → List ℕ → Option Rid → Entries → Bool
unfolding lower_bound
is_duplicate index key self entries = elim (get_elem? entries (lower_bound index key entries)) [
  | none ↦ false
  | some e ↦ key_equal index e.key key && is_other self e.rid
]

-- `insert_index_entries` for one index.
unfoldable pub insert_entry : IndexMeta → RuntimeIndexEntry → Entries → Entries
unfolding lower_bound
insert_entry index entry entries =
    let it = lower_bound index entry.key entries in take it entries ++ (entry ∷ drop it entries)

-- The loop of `delete_index_entries` over the entries from an iterator on.
unfoldable pub erase_run : IndexMeta → List ℕ → Rid → Entries → Entries
erase_run index key rid [] = []
erase_run index key rid (e ∷ es) =
    let rest = erase_run index key rid es in
    if key_equal index e.key key then (if same_rid e.rid rid then es else e ∷ rest) else e ∷ es

-- `delete_index_entries` for one index.
unfoldable pub delete_entry : IndexMeta → List ℕ → Rid → Entries → Entries
unfolding lower_bound erase_run
delete_entry index key rid entries =
    let it = lower_bound index key entries in
    take it entries ++ erase_run index key rid (drop it entries)

-- `update_index_entries` for one index; a record is its bytes.
unfoldable pub update_entry : IndexMeta → List ℕ → List ℕ → Rid → Entries → Result Entries
unfolding is_duplicate delete_entry insert_entry make_index_key
update_entry index old_rec new_rec rid entries =
    let old_key = make_index_key index old_rec in
    let new_key = make_index_key index new_rec in
    if is_duplicate index new_key (some rid) entries
    then err Error.internal_error
    else ok (
        insert_entry index (record { key = new_key; rid = rid })
          (delete_entry index old_key rid entries))
