-- ===== src/System/Keys/Order.antt =====
-- Keys are ordered column by column, and so are the first columns of keys.
use Prim.Native.Nat.{Ordering}
use myrmdb.Prelude.{ℕ, zero, suc, ◌≡◌, ◌≢◌, refl, List, [], ◌∷◌, drop, arith, length}
use myrmdb.System.Values.{ColMeta}
use myrmdb.System.Values.Laws.{
  swapped, IsNumber, compare_raw_value_swap, compare_raw_value_eq, compare_raw_value_lt,
}
use myrmdb.System.Keys.{compare_cols}

-- No column of the key is a NaN.
abbrev pub IsKey : List ColMeta → List ℕ → Type 0
IsKey [] key = Unit {0}
IsKey (col ∷ cols) key = IsNumber col.type key × IsKey cols (drop col.len key)

pub compare_cols_swap :
    (n : ℕ) (cols : List ColMeta) (a b : List ℕ)
    → compare_cols n cols b a ≡ swapped (compare_cols n cols a b)
unfolding compare_cols
compare_cols_swap zero cols a b = refl
compare_cols_swap (suc n) [] a b = refl
compare_cols_swap (suc n) (col ∷ cols) a b = ground (
  arith,
  compare_raw_value_swap col.type col.len a b,
  compare_cols_swap n cols (drop col.len a) (drop col.len b),
)

pub compare_cols_eq :
    (n : ℕ) (cols : List ColMeta) (a b c : List ℕ)
    → IsKey cols a
    → IsKey cols b
    → compare_cols n cols a b ≡ Ordering.eq
    → compare_cols n cols a c ≡ compare_cols n cols b c
unfolding compare_cols
compare_cols_eq zero cols a b c h k e = refl
compare_cols_eq (suc n) [] a b c h k e = refl
compare_cols_eq (suc n) (col ∷ cols) a b c h k e =
    let w = col.len in
    ground (
      arith,
      e,
      compare_raw_value_eq col.type w a b c h.0 k.0,
      compare_cols_eq n cols (drop w a) (drop w b) (drop w c) h.1 k.1,
    )

-- What is below what is below is below.
pub compare_cols_lt :
    (n : ℕ) (cols : List ColMeta) (a b c : List ℕ)
    → IsKey cols a
    → IsKey cols b
    → IsKey cols c
    → compare_cols n cols a b ≡ Ordering.lt
    → compare_cols n cols b c ≡ Ordering.lt
    → compare_cols n cols a c ≡ Ordering.lt
unfolding compare_cols
compare_cols_lt zero cols a b c h k l e f = e
compare_cols_lt (suc n) [] a b c h k l e f = e
compare_cols_lt (suc n) (col ∷ cols) a b c h k l e f =
    let w = col.len in
    ground (
      arith,
      e,
      f,
      compare_raw_value_eq col.type w a b c h.0 k.0,
      compare_raw_value_eq col.type w c b a l.0 k.0,
      compare_raw_value_swap col.type w a c,
      compare_raw_value_swap col.type w b c,
      compare_raw_value_swap col.type w a b,
      compare_raw_value_lt col.type w a b c,
      compare_cols_lt n cols (drop w a) (drop w b) (drop w c) h.1 k.1 l.1,
    )

-- What is not above in all columns is not above in some.
pub compare_cols_fewer :
    (m : ℕ) (cols : List ColMeta) (a b : List ℕ)
    → compare_cols (length cols) cols a b ≢ Ordering.gt
    → compare_cols m cols a b ≢ Ordering.gt
unfolding compare_cols
compare_cols_fewer zero cols a b k = λ e. cc
compare_cols_fewer (suc m) [] a b k = λ e. cc
compare_cols_fewer (suc m) (col ∷ cols) a b k =
    let w = col.len in
    let rest = compare_cols_fewer m cols (drop w a) (drop w b) in ground (arith, k, rest)

-- What is not above what is below is below.
pub compare_cols_trans :
    (n : ℕ) (cols : List ColMeta) (a b c : List ℕ)
    → IsKey cols a
    → IsKey cols b
    → IsKey cols c
    → compare_cols n cols a b ≢ Ordering.gt
    → compare_cols n cols b c ≡ Ordering.lt
    → compare_cols n cols a c ≡ Ordering.lt
compare_cols_trans n cols a b c h k l e f =
    ground (arith, e, f, compare_cols_lt n cols a b c h k l, compare_cols_eq n cols a b c h k)

-- What is not above what is not above.
pub compare_cols_le :
    (n : ℕ) (cols : List ColMeta) (a b c : List ℕ)
    → IsKey cols a
    → IsKey cols b
    → IsKey cols c
    → compare_cols n cols a b ≢ Ordering.gt
    → compare_cols n cols b c ≢ Ordering.gt
    → compare_cols n cols a c ≢ Ordering.gt
compare_cols_le n cols a b c h k l e f g =
    let back = compare_cols_trans n cols b c a k l h f in
    ground (arith, e, g, back, compare_cols_swap n cols a c, compare_cols_swap n cols a b)
