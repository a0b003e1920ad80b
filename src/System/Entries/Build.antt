-- ===== src/System/Entries/Build.antt =====
-- `create_index` and `rebuild_runtime_index` of src/system/sm_manager.cpp, for one index: the
-- entries of the records that a scan of the table's file comes upon, in their order.
pub mod Sort
pub mod Agreement
use Prim.Native.Nat.{Ordering}
use myrmdb.Prelude.{
  ℕ, zero, suc, Bool, true, false, not, ◌&&◌, ◌||◌, List, [], ◌∷◌, ◌++◌, Option, none, some, ite,
  take, drop, if◌then◌else◌,
}
use myrmdb.Prelude.Int.{ltb_ℤ, ℤ-discrete}
use myrmdb.Concurrency.Transaction.{Rid}
use myrmdb.Errors.{Result, ok, err, Error}
use myrmdb.System.Keys.{IndexMeta, make_index_key, compare_index_key, key_equal}
use myrmdb.System.Entries.{RuntimeIndexEntry, Entries, bound}
use myrmdb.System.Entries.Mirror.{Table}

-- The loop over the positions of a scan, which pushes an entry behind the others.
unfoldable pub scan_entries : IndexMeta → Table → List Rid → Result Entries
unfolding make_index_key
scan_entries index file [] = ok []
scan_entries index file (rid ∷ rids) = elim (file rid) [
  | none ↦ err Error.record_not_found
  | some rec ↦ elim (scan_entries index file rids) [
    | err e ↦ err e
    | ok es ↦ ok (record { key = make_index_key index rec; rid = rid } ∷ es)
  ]
]

-- `<` of two pairs of page and slot.
abbrev pub rid_less : Rid → Rid → Bool
rid_less a b =
    ltb_ℤ a.page_no b.page_no
    || (ite (ℤ-discrete a.page_no b.page_no) true false && ltb_ℤ a.slot_no b.slot_no)

-- The comparison of `sort_runtime_index`.
unfoldable pub entry_less : IndexMeta → RuntimeIndexEntry → RuntimeIndexEntry → Bool
unfolding compare_index_key
entry_less index lhs rhs = elim (compare_index_key index lhs.key rhs.key) [
  | Ordering.lt ↦ true
  | Ordering.eq ↦ rid_less lhs.rid rhs.rid
  | Ordering.gt ↦ false
]

-- `sort_runtime_index`. `std::sort` gives the entries in the order of the comparison, which no two
-- entries with different positions leave open: the order that sorting by insertion finds.
unfoldable pub sort_in : IndexMeta → RuntimeIndexEntry → Entries → Entries
unfolding entry_less bound
sort_in index e es =
    let at = bound (λ x. not (entry_less index e x)) es in take at es ++ (e ∷ drop at es)

unfoldable pub sort_runtime_index : IndexMeta → Entries → Entries
unfolding sort_in
sort_runtime_index index [] = []
sort_runtime_index index (e ∷ es) = sort_in index e (sort_runtime_index index es)

-- Whether two entries that stand side by side have the same key.
unfoldable pub has_equal_keys : IndexMeta → Entries → Bool
unfolding key_equal
has_equal_keys index [] = false
has_equal_keys index (e ∷ []) = false
has_equal_keys index (e ∷ (x ∷ xs)) = key_equal index e.key x.key || has_equal_keys index (x ∷ xs)

-- The entries that `rebuild_runtime_index` puts in place of the old ones.
unfoldable pub rebuild_entries : IndexMeta → Table → List Rid → Result Entries
unfolding scan_entries sort_runtime_index
rebuild_entries index file positions = elim (scan_entries index file positions) [
  | err e ↦ err e
  | ok es ↦ ok (sort_runtime_index index es)
]

-- The entries that `create_index` starts with.
unfoldable pub create_entries : IndexMeta → Table → List Rid → Result Entries
unfolding rebuild_entries has_equal_keys
create_entries index file positions = elim (rebuild_entries index file positions) [
  | err e ↦ err e
  | ok es ↦ if has_equal_keys index es then err Error.internal_error else ok es
]
