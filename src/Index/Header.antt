-- ===== src/Index/Header.antt =====
-- `IxFileHdr` of src/index/ix_defs.h: the header of an index file, its bytes and its reading back.
pub mod RoundTrip
use myrmdb.Prelude.{
  ℕ, zero, suc, ◌+◌, ◌*◌, Bool, List, [], ◌∷◌, ◌++◌, Option, none, some, map, take, ite,
}
use myrmdb.Prelude.Int.{ℤ, pos, negsuc, pos_part, ℤ-discrete}
use myrmdb.Recovery.Bytes.{memcpy, int_bytes, read_int}

-- A `ColType` is its number, that of the enumerator.
pub record IxFileHdr : Type 0 where
  pub first_free_page_no : ℤ
  pub num_pages : ℤ
  pub root_page : ℤ
  pub col_num : ℤ
  pub col_types : List ℤ
  pub col_lens : List ℤ
  pub col_tot_len : ℤ
  pub btree_order : ℤ
  pub keys_size : ℤ
  pub first_leaf : ℤ
  pub last_leaf : ℤ
  pub tot_len : ℤ

-- `update_tot_len`; four-byte page ids, integers and enumerators.
unfoldable pub update_tot_len : IxFileHdr → IxFileHdr
update_tot_len h = record h {
  tot_len = pos (4 * 4 + 4 * 6 + (4 * pos_part h.col_num + 4 * pos_part h.col_num));
}

-- `memcpy(dest + offset, &value, 4); offset += 4;`
abbrev pub Cursor : Type 0
Cursor = List ℕ × ℕ

abbrev pub put_int : ℤ → Cursor → Cursor
put_int z (dest, offset) = (memcpy dest offset (int_bytes z), offset + 4)

-- A loop over the first elements of a vector.
unfoldable pub put_ints : List ℤ → Cursor → Cursor
put_ints [] c = c
put_ints (z ∷ zs) c = put_ints zs (put_int z c)

-- `serialize`; `none` is a failed assertion.
unfoldable pub serialize : IxFileHdr → List ℕ → Option (List ℕ)
unfolding put_ints
serialize h dest =
    let n = pos_part h.col_num in
    let c = put_int h.tot_len (dest, 0) in
    let c = put_int h.first_free_page_no c in
    let c = put_int h.num_pages c in
    let c = put_int h.root_page c in
    let c = put_int h.col_num c in
    let c = put_ints (take n h.col_types) c in
    let c = put_ints (take n h.col_lens) c in
    let c = put_int h.col_tot_len c in
    let c = put_int h.btree_order c in
    let c = put_int h.keys_size c in
    let c = put_int h.first_leaf c in
    let c = put_int h.last_leaf c in ite (ℤ-discrete (pos c.1) h.tot_len) (some c.0) none

-- A loop that reads so many four-byte values.
unfoldable pub read_ints : ℕ → List ℕ → ℕ → List ℤ
read_ints zero src offset = []
read_ints (suc n) src offset = read_int src offset ∷ read_ints n src (offset + 4)

-- `deserialize`; the columns are pushed behind those that the header has.
unfoldable pub deserialize : List ℕ → IxFileHdr → Option IxFileHdr
unfolding read_ints
deserialize src h =
    let col_num = read_int src 16 in
    let n = pos_part col_num in
    let at = 20 + 4 * n + 4 * n in
    let r : IxFileHdr = record {
      tot_len = read_int src 0;
      first_free_page_no = read_int src 4;
      num_pages = read_int src 8;
      root_page = read_int src 12;
      col_num = col_num;
      col_types = h.col_types ++ read_ints n src 20;
      col_lens = h.col_lens ++ read_ints n src (20 + 4 * n);
      col_tot_len = read_int src at;
      btree_order = read_int src (at + 4);
      keys_size = read_int src (at + 8);
      first_leaf = read_int src (at + 12);
      last_leaf = read_int src (at + 16);
    } in
    ite (ℤ-discrete (pos (at + 20)) r.tot_len) (some r) none
