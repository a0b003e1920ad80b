-- ===== src/Tests/Indexes.antt =====
-- The header of an index on one column.
use myrmdb.Prelude.{ℕ, ◌≡◌, refl, List, [], ◌∷◌, some, arith}
use myrmdb.Prelude.Int.{ℤ, pos, negsuc}
use myrmdb.Index.Header.{IxFileHdr, update_tot_len, serialize, deserialize}
use myrmdb.Index.Header.RoundTrip.{IsHeader, deserialize-serialize}

abbrev header : List ℤ → List ℤ → ℤ → IxFileHdr
header types lens columns = record {
  first_free_page_no = negsuc 0;
  num_pages = pos 3;
  root_page = pos 2;
  col_num = columns;
  col_types = types;
  col_lens = lens;
  col_tot_len = pos 4;
  btree_order = pos 300;
  keys_size = pos 1204;
  first_leaf = pos 2;
  last_leaf = pos 2;
  tot_len = pos 48;
}

abbrev one_column : IxFileHdr
one_column = header (pos 0 ∷ []) (pos 4 ∷ []) (pos 1)

one_column-IsHeader : IsHeader 1 one_column
one_column-IsHeader = record {
  columns = refl;
  types = refl;
  lens = refl;
  total = refl;
  ints = (
    omega arith,
    (
      omega arith,
      (
        omega arith,
        (
          omega arith,
          (
            omega arith,
            (
              omega arith,
              (
                omega arith,
                (omega arith, (omega arith, (omega arith, (omega arith, (omega arith, tt))))),
              ),
            ),
          ),
        ),
      ),
    ),
  );
}

deserialize-serialize_example :
    (src : List ℕ) × (serialize one_column [] ≡ some src)
    × (deserialize src (header [] [] (pos 0)) ≡ some one_column)
deserialize-serialize_example =
    deserialize-serialize 1 one_column (header [] [] (pos 0)) [] one_column-IsHeader refl refl

length_is_set : update_tot_len one_column ≡ one_column
unfolding update_tot_len
length_is_set = refl
