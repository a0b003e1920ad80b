-- ===== src/System/Keys.antt =====
-- The keys of an index: `IndexMeta` of src/system/sm_meta.h, `make_index_key`, `compare_index_key`
-- and `key_equal` of src/system/sm_manager.cpp.
pub mod Order
pub mod Slices
use Prim.Native.Nat.{Ordering}
use myrmdb.Prelude.{ℕ, zero, suc, Bool, true, false, List, [], ◌∷◌, ◌++◌, take, drop}
use myrmdb.System.Values.{Name, ColMeta, compare_raw_value}

pub record IndexMeta : Type 0 where
  pub tab_name : Name
  pub col_tot_len : ℕ
  pub col_num : ℕ
  pub cols : List ColMeta

unfoldable pub make_key : List ColMeta → List ℕ → List ℕ
make_key [] rec = []
make_key (col ∷ cols) rec = take col.len (drop col.offset rec) ++ make_key cols rec

unfoldable pub make_index_key : IndexMeta → List ℕ → List ℕ
unfolding make_key
make_index_key index rec = make_key index.cols rec

-- The loop over so many columns; the two pointers move on by `col.len`.
unfoldable pub compare_cols : ℕ → List ColMeta → List ℕ → List ℕ → Ordering
unfolding compare_raw_value
compare_cols zero cols lhs rhs = Ordering.eq
compare_cols (suc n) [] lhs rhs = Ordering.eq
compare_cols (suc n) (col ∷ cols) lhs rhs = elim (compare_raw_value lhs rhs col.type col.len) [
  | Ordering.lt ↦ Ordering.lt
  | Ordering.eq ↦ compare_cols n cols (drop col.len lhs) (drop col.len rhs)
  | Ordering.gt ↦ Ordering.gt
]

-- `compare_index_key(index, lhs, rhs)` and the same with the number of columns.
unfoldable pub compare_index_prefix : IndexMeta → List ℕ → List ℕ → ℕ → Ordering
unfolding compare_cols
compare_index_prefix index lhs rhs col_num = compare_cols col_num index.cols lhs rhs

unfoldable pub compare_index_key : IndexMeta → List ℕ → List ℕ → Ordering
unfolding compare_index_prefix
compare_index_key index lhs rhs = compare_index_prefix index lhs rhs index.col_num

abbrev pub is_lt : Ordering → Bool
is_lt Ordering.lt = true
is_lt _ = false

abbrev pub is_eq : Ordering → Bool
is_eq Ordering.eq = true
is_eq _ = false

unfoldable pub key_equal : IndexMeta → List ℕ → List ℕ → Bool
unfolding compare_index_key
key_equal index lhs rhs = is_eq (compare_index_key index lhs rhs)
