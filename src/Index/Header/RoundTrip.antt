-- ===== src/Index/Header/RoundTrip.antt =====
-- A header that is written is read back.

use myrmdb.Prelude.{
  ℕ, zero, suc, ◌+◌, ◌*◌, ◌≤◌, ◌<◌, ◌≡◌, refl, sym, ap, ◌∙◌, List, [], ◌∷◌, ◌++◌, Option, none,
  some, take, drop, length, All, arith, append_assoc, append-nil, length-append, if_pos, ite,
  get_or, take_all, take-append, drop-append,
}
use myrmdb.Prelude.Int.{ℤ, pos, pos_part, ℤ-discrete}
use myrmdb.Recovery.Bytes.{
  int_bytes, read_int, bits, of_bits, IsInt, bits_below, of_bits-bits, un_le-le, written,
  memcpy-written,
}
use myrmdb.Index.Header.{IxFileHdr, Cursor, put_int, put_ints, serialize, read_ints, deserialize}

-- The bytes of some integers.
abbrev flat : List ℤ → List ℕ
flat [] = []
flat (z ∷ zs) = int_bytes z ++ flat zs

length-flat : (zs : List ℤ) → length (flat zs) ≡ 4 * length zs
length-flat [] = refl
length-flat (z ∷ zs) = let rest = length-flat zs in omega (arith, rest)

-- An integer that stands first is read.
read_first : (z : ℤ) (rest : List ℕ) → IsInt z → read_int (int_bytes z ++ rest) 0 ≡ z
read_first z rest h = ap (λ n. of_bits n) (un_le-le 4 (bits z) (bits_below z)) ∙ of_bits-bits z h

-- So is one behind others.
read_later :
    (zs : List ℤ) (i : ℕ) (rest : List ℕ)
    → All IsInt zs
    → i < length zs
    → read_int (flat zs ++ rest) (4 * i) ≡ get_or zs i (pos 0)
read_later [] i rest h l = absurd (omega (arith, l))
read_later (z ∷ zs) zero rest h l = read_first z (flat zs ++ rest) h.0
read_later (z ∷ zs) (suc i) rest h l =
    let at : 4 * suc i ≡ suc (suc (suc (suc (4 * i)))) = omega arith in
    ap (read_int (flat (z ∷ zs) ++ rest)) at ∙ read_later zs i rest h.1 (omega (arith, l))

get_or-append :
    (xs ys : List ℤ) (i : ℕ) (d : ℤ) → get_or (xs ++ ys) (length xs + i) d ≡ get_or ys i d
get_or-append [] ys i d = let e : 0 + i ≡ i = omega arith in ap (λ m. get_or ys m d) e
get_or-append (x ∷ xs) ys i d =
    let e : suc (length xs) + i ≡ suc (length xs + i) = omega arith in
    ap (λ m. get_or (x ∷ (xs ++ ys)) m d) e ∙ get_or-append xs ys i d

drop-get_or :
    (zs : List ℤ) (i : ℕ) (d : ℤ) → i < length zs → drop i zs ≡ get_or zs i d ∷ drop (suc i) zs
drop-get_or [] i d h = absurd (omega (arith, h))
drop-get_or (z ∷ zs) zero d h = refl
drop-get_or (z ∷ zs) (suc i) d h = drop-get_or zs i d (omega (arith, h))

-- A loop reads the integers that stand there.
read_ints-flat :
    (n : ℕ) (zs : List ℤ) (i : ℕ) (rest : List ℕ)
    → All IsInt zs
    → i + n ≤ length zs
    → read_ints n (flat zs ++ rest) (4 * i) ≡ take n (drop i zs)
unfolding read_ints
read_ints-flat zero zs i rest h l = refl
read_ints-flat (suc n) zs i rest h l =
    let src = flat zs ++ rest in
    let next : 4 * i + 4 ≡ 4 * suc i = omega arith in
    let later = ap (read_ints n src) next ∙ read_ints-flat n zs (suc i) rest h (omega (arith, l)) in
    ap (λ z. z ∷ read_ints n src (4 * i + 4)) (read_later zs i rest h (omega (arith, l)))
    ∙ ap (λ xs. get_or zs i (pos 0) ∷ xs) later
    ∙ ap (take (suc n)) (sym (drop-get_or zs i (pos 0) (omega (arith, l))))

put_ints-append :
    (xs ys : List ℤ) (c : Cursor) → put_ints (xs ++ ys) c ≡ put_ints ys (put_ints xs c)
unfolding put_ints
put_ints-append [] ys c = refl
put_ints-append (x ∷ xs) ys c = put_ints-append xs ys (put_int x c)

flat-append : (xs ys : List ℤ) → flat (xs ++ ys) ≡ flat xs ++ flat ys
flat-append [] ys = refl
flat-append (x ∷ xs) ys =
    ap (λ bs. int_bytes x ++ bs) (flat-append xs ys)
    ∙ sym (append_assoc (int_bytes x) (flat xs) (flat ys))

-- Where so many integers have been written.
abbrev cursor : List ℤ → List ℕ → Cursor
cursor ds dest = (written (flat ds) dest, 4 * length ds)

put_int-cursor :
    (z : ℤ) (ds : List ℤ) (dest : List ℕ) → put_int z (cursor ds dest) ≡ cursor (ds ++ z ∷ []) dest
put_int-cursor z ds dest =
    let one = memcpy-written (flat ds) (int_bytes z) dest (4 * length ds) (sym (length-flat ds)) in
    let all : flat ds ++ int_bytes z ≡ flat (ds ++ z ∷ []) =
      ap (λ bs. flat ds ++ bs) (sym (append-nil (int_bytes z))) ∙ sym (flat-append ds (z ∷ [])) in
    let len = length-append ds (z ∷ []) in
    let count : 4 * length ds + 4 ≡ 4 * length (ds ++ z ∷ []) = omega (arith, len) in
    λ k. ((one ∙ ap (λ bs. written bs dest) all) k, count k)

put_ints-cursor :
    (zs ds : List ℤ) (dest : List ℕ) → put_ints zs (cursor ds dest) ≡ cursor (ds ++ zs) dest
unfolding put_ints
put_ints-cursor [] ds dest = ap (λ xs. cursor xs dest) (sym (append-nil ds))
put_ints-cursor (z ∷ zs) ds dest =
    ap (put_ints zs) (put_int-cursor z ds dest)
    ∙ put_ints-cursor zs (ds ++ z ∷ []) dest
    ∙ ap (λ xs. cursor xs dest) (append_assoc ds (z ∷ []) zs)

abbrev tail : IxFileHdr → List ℤ
tail h = h.col_tot_len ∷ h.btree_order ∷ h.keys_size ∷ h.first_leaf ∷ h.last_leaf ∷ []

-- The integers of a header, in their order.
abbrev fields : IxFileHdr → List ℤ
fields h =
    h.tot_len
    ∷ h.first_free_page_no
    ∷ h.num_pages
    ∷ h.root_page
    ∷ h.col_num
    ∷ (h.col_types ++ (h.col_lens ++ tail h))

-- A header of `n` columns whose fields are values of an `int`, with its length.
pub record IsHeader (n : ℕ) (h : IxFileHdr) : Type 0 where
  pub columns : h.col_num ≡ pos n
  pub types : length h.col_types ≡ n
  pub lens : length h.col_lens ≡ n
  pub total : h.tot_len ≡ pos (40 + (4 * n + 4 * n))
  pub ints : All IsInt (fields h)

module _ (n : ℕ) (h : IxFileHdr) (v : IsHeader n h) (dest : List ℕ) where
  abbrev bytes : List ℕ
  bytes = written (flat (fields h)) dest

  count : length (fields h) ≡ 10 + (n + n)
  count =
      let a = length-append h.col_types (h.col_lens ++ tail h) in
      let b = length-append h.col_lens (tail h) in
      let c = v.types in let d = v.lens in omega (arith, a, b, c, d)

  serialize-bytes : serialize h dest ≡ some bytes
  unfolding serialize put_ints
  serialize-bytes =
      let c5 : Cursor = put_int h.col_num (
        put_int h.root_page
          (put_int h.num_pages (put_int h.first_free_page_no (put_int h.tot_len (dest, 0))))) in
      let end : List ℤ → List ℤ → Cursor =
        λ ts ls. put_ints (tail h) (put_ints ls (put_ints ts c5)) in
      let go : Cursor → Option (List ℕ) =
        λ c. ite (ℤ-discrete (pos c.1) h.tot_len) (some c.0) none in
      let columns = ap pos_part v.columns in
      let types = v.types in
      let lens = v.lens in
      let whole : end (take (pos_part h.col_num) h.col_types) (take (pos_part h.col_num) h.col_lens)
          ≡ end h.col_types h.col_lens =
        ap (λ ts. end ts (take (pos_part h.col_num) h.col_lens))
          (take_all (pos_part h.col_num) h.col_types (omega (arith, columns, types)))
        ∙ ap (end h.col_types)
            (take_all (pos_part h.col_num) h.col_lens (omega (arith, columns, lens))) in
      let last : end h.col_types h.col_lens ≡ cursor (fields h) dest =
        sym (
          put_ints-append h.col_types (h.col_lens ++ tail h) c5
          ∙ put_ints-append h.col_lens (tail h) (put_ints h.col_types c5))
        ∙ put_ints-cursor (fields h) [] dest in
      let num = count in
      let sum : 4 * length (fields h) ≡ 40 + (4 * n + 4 * n) = omega (arith, num) in
      ap go (whole ∙ last)
      ∙ if_pos (ℤ-discrete (pos (4 * length (fields h))) h.tot_len) (ap pos sum ∙ sym v.total)
          (some bytes) none

  abbrev zs : List ℤ
  zs = fields h

  read_field : (i o : ℕ) → o ≡ 4 * i → i < length zs → read_int bytes o ≡ get_or zs i (pos 0)
  read_field i o e l =
      ap (read_int bytes) e ∙ read_later zs i (drop (length (flat zs)) dest) v.ints l

  abbrev past_head : ℕ → ℕ
  past_head i = suc (suc (suc (suc (suc i))))

  get-tail : (k : ℕ) → get_or zs (past_head (n + (n + k))) (pos 0) ≡ get_or (tail h) k (pos 0)
  get-tail k =
      ap (λ m. get_or (h.col_types ++ (h.col_lens ++ tail h)) (m + (n + k)) (pos 0)) (sym v.types)
      ∙ get_or-append h.col_types (h.col_lens ++ tail h) (n + k) (pos 0)
      ∙ ap (λ m. get_or (h.col_lens ++ tail h) (m + k) (pos 0)) (sym v.lens)
      ∙ get_or-append h.col_lens (tail h) k (pos 0)

  read_tail :
      (k o : ℕ)
      → o ≡ 20 + 4 * n + 4 * n + 4 * k
      → k < 5
      → read_int bytes o ≡ get_or (tail h) k (pos 0)
  read_tail k o e l =
      let num = count in
      read_field (past_head (n + (n + k))) o (omega (arith, e)) (omega (arith, num, l)) ∙ get-tail k

  read_types : read_ints n bytes 20 ≡ h.col_types
  read_types =
      let num = count in
      read_ints-flat n zs 5 (drop (length (flat zs)) dest) v.ints (omega (arith, num))
      ∙ ap (λ m. take m (h.col_types ++ (h.col_lens ++ tail h))) (sym v.types)
      ∙ take-append h.col_types (h.col_lens ++ tail h)

  read_lens : read_ints n bytes (20 + 4 * n) ≡ h.col_lens
  read_lens =
      let num = count in
      let start : 20 + 4 * n ≡ 4 * past_head n = omega arith in
      ap (read_ints n bytes) start
      ∙ read_ints-flat n zs (past_head n) (drop (length (flat zs)) dest) v.ints (omega (arith, num))
      ∙ ap (λ m. take n (drop m (h.col_types ++ (h.col_lens ++ tail h)))) (sym v.types)
      ∙ ap (take n) (drop-append h.col_types (h.col_lens ++ tail h))
      ∙ ap (λ m. take m (h.col_lens ++ tail h)) (sym v.lens)
      ∙ take-append h.col_lens (tail h)

  deserialize-bytes :
      (g : IxFileHdr) → g.col_types ≡ [] → g.col_lens ≡ [] → deserialize bytes g ≡ some h
  unfolding deserialize
  deserialize-bytes g e e' =
      let num = count in
      let read_col : ℤ → Option IxFileHdr = λ col.
        let m = pos_part col in
        let at = 20 + 4 * m + 4 * m in
        let r : IxFileHdr = record {
          tot_len = read_int bytes 0;
          first_free_page_no = read_int bytes 4;
          num_pages = read_int bytes 8;
          root_page = read_int bytes 12;
          col_num = col;
          col_types = g.col_types ++ read_ints m bytes 20;
          col_lens = g.col_lens ++ read_ints m bytes (20 + 4 * m);
          col_tot_len = read_int bytes at;
          btree_order = read_int bytes (at + 4);
          keys_size = read_int bytes (at + 8);
          first_leaf = read_int bytes (at + 12);
          last_leaf = read_int bytes (at + 16);
        } in
        ite (ℤ-discrete (pos (at + 20)) r.tot_len) (some r) none in
      let at = 20 + 4 * n + 4 * n in
      let col = read_field 4 16 (omega arith) (omega (arith, num)) ∙ v.columns in
      let tot = read_field 0 0 (omega arith) (omega (arith, num)) in
      let free = read_field 1 4 (omega arith) (omega (arith, num)) in
      let pages = read_field 2 8 (omega arith) (omega (arith, num)) in
      let root = read_field 3 12 (omega arith) (omega (arith, num)) in
      let types = ap (λ xs. xs ++ read_ints n bytes 20) e ∙ read_types in
      let lens = ap (λ xs. xs ++ read_ints n bytes (20 + 4 * n)) e' ∙ read_lens in
      let t0 = read_tail 0 at (omega arith) (omega arith) in
      let t1 = read_tail 1 (at + 4) (omega arith) (omega arith) in
      let t2 = read_tail 2 (at + 8) (omega arith) (omega arith) in
      let t3 = read_tail 3 (at + 12) (omega arith) (omega arith) in
      let t4 = read_tail 4 (at + 16) (omega arith) (omega arith) in
      let sum : at + 20 ≡ 40 + (4 * n + 4 * n) = omega arith in
      ap read_col col
      ∙ if_pos (ℤ-discrete (pos (at + 20)) (read_int bytes 0)) (ap pos sum ∙ sym v.total ∙ sym tot)
          (some _) none
      ∙ (λ k. some (record {
        tot_len = tot k;
        first_free_page_no = free k;
        num_pages = pages k;
        root_page = root k;
        col_num = sym v.columns k;
        col_types = types k;
        col_lens = lens k;
        col_tot_len = t0 k;
        btree_order = t1 k;
        keys_size = t2 k;
        first_leaf = t3 k;
        last_leaf = t4 k;
      }))

-- What `serialize` writes for a header of `n` columns, whose fields are values of an `int` and whose
-- length `update_tot_len` has set, is read back by a header that has no columns yet, whatever was in
-- the buffer.
pub deserialize-serialize :
    (n : ℕ) (h g : IxFileHdr) (dest : List ℕ)
    → IsHeader n h
    → g.col_types ≡ []
    → g.col_lens ≡ []
    → (src : List ℕ) × (serialize h dest ≡ some src) × (deserialize src g ≡ some h)
deserialize-serialize n h g dest v e e' =
    (bytes n h v dest, serialize-bytes n h v dest, deserialize-bytes n h v dest g e e')
