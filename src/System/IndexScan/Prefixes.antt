-- ===== src/System/IndexScan/Prefixes.antt =====
-- A record's key against the bytes of some values, column by column.
use Prim.Native.Nat.{Ordering}
use myrmdb.Prelude.{
  ℕ, zero, suc, ◌≤◌, ◌≡◌, refl, sym, ap, ◌∙◌, List, [], ◌∷◌, ◌++◌, take, drop, length, arith,
  take-append, drop-append, append_assoc, length-take, append-nil,
}
use mathlib.Core.Path.{subst}
use myrmdb.System.Values.{
  ColType, ColMeta, compare_raw_value, type_int, type_float, type_string, type_bigint,
  type_datetime,
}
use myrmdb.System.Values.Width.{HasWidth, compare_raw_value-take}
use myrmdb.System.Values.Laws.{IsNumber}
use myrmdb.System.Keys.{make_key, compare_cols}
use myrmdb.System.Keys.Order.{IsKey}

-- The bytes of the first columns' values, and their comparison with a record.
abbrev pub prefix_of : List ColMeta → List (List ℕ) → List ℕ
prefix_of [] vs = []
prefix_of (col ∷ cols) [] = []
prefix_of (col ∷ cols) (v ∷ vs) = take col.len v ++ prefix_of cols vs

unfoldable pub compare_values : List ColMeta → List ℕ → List (List ℕ) → Ordering
compare_values cols rec [] = Ordering.eq
compare_values [] rec (v ∷ vs) = Ordering.eq
compare_values (col ∷ cols) rec (v ∷ vs) =
    elim (compare_raw_value (drop col.offset rec) v col.type col.len) [
      | Ordering.lt ↦ Ordering.lt
      | Ordering.eq ↦ compare_values cols rec vs
      | Ordering.gt ↦ Ordering.gt
    ]

-- The columns have the width of their types, and the record and the values reach so far.
abbrev pub Fits : List ColMeta → List ℕ → Type 0
Fits [] rec = Unit {0}
Fits (col ∷ cols) rec =
    (HasWidth col.type col.len × (col.len ≤ length (drop col.offset rec))) × Fits cols rec

-- A value is a number with all the bytes of the column.
abbrev pub Serves : ColMeta → List ℕ → Type 0
Serves col v = (col.len ≤ length v) × IsNumber col.type v

abbrev pub Reach : List ColMeta → List (List ℕ) → Type 0
Reach cols [] = Unit {0}
Reach [] (v ∷ vs) = Unit {0}
Reach (col ∷ cols) (v ∷ vs) = Serves col v × Reach cols vs

take_slice : (n : ℕ) (v rest : List ℕ) → n ≤ length v → take n (take n v ++ rest) ≡ take n v
take_slice n v rest h =
    ap (λ k. take k (take n v ++ rest)) (sym (length-take n v h)) ∙ take-append (take n v) rest

drop_slice : (n : ℕ) (v rest : List ℕ) → n ≤ length v → drop n (take n v ++ rest) ≡ rest
drop_slice n v rest h =
    ap (λ k. drop k (take n v ++ rest)) (sym (length-take n v h)) ∙ drop-append (take n v) rest

-- The first column of two keys compares like the values that it was cut from.
first_column :
    (col : ColMeta) (p v xs ys : List ℕ)
    → HasWidth col.type col.len
    → col.len ≤ length p
    → col.len ≤ length v
    → compare_raw_value (take col.len p ++ xs) (take col.len v ++ ys) col.type col.len
      ≡ compare_raw_value p v col.type col.len
first_column col p v xs ys w h k =
    let n = col.len in
    compare_raw_value-take col.type n (take n p ++ xs) (take n v ++ ys) w
    ∙ ap (λ a. compare_raw_value a (take n (take n v ++ ys)) col.type n) (take_slice n p xs h)
    ∙ ap (λ b. compare_raw_value (take n p) b col.type n) (take_slice n v ys k)
    ∙ sym (compare_raw_value-take col.type n p v w)

pub compare_cols-prefix_of :
    (cols : List ColMeta) (rec : List ℕ) (vs : List (List ℕ))
    → Fits cols rec
    → Reach cols vs
    → compare_cols (length vs) cols (make_key cols rec) (prefix_of cols vs)
      ≡ compare_values cols rec vs
unfolding compare_cols make_key compare_values
compare_cols-prefix_of cols rec [] f r = refl
compare_cols-prefix_of [] rec (v ∷ vs) f r = refl
compare_cols-prefix_of (col ∷ cols) rec (v ∷ vs) f r =
    let p = drop col.offset rec in
    let n = col.len in
    let first = first_column col p v (make_key cols rec) (prefix_of cols vs) f.0.0 f.0.1 r.0.0 in
    let rest = compare_cols-prefix_of cols rec vs f.1 r.1 in
    let left = drop_slice n p (make_key cols rec) f.0.1 in
    let right = drop_slice n v (prefix_of cols vs) r.0.0 in ground (arith, first, left, right, rest)

-- The bytes of a value are a number if the value is.
slice-IsNumber :
    (t : ColType) (n : ℕ) (v rest : List ℕ)
    → HasWidth t n
    → n ≤ length v
    → IsNumber t v
    → IsNumber t (take n v ++ rest)
slice-IsNumber type_int n v rest w h k = tt
slice-IsNumber type_float n v rest w h k =
    let same : take 4 (take n v ++ rest) ≡ take 4 v =
      subst (λ m. take m (take n v ++ rest) ≡ take m v) w (take_slice n v rest h) in
    rw same k
slice-IsNumber type_string n v rest w h k = tt
slice-IsNumber type_bigint n v rest w h k = tt
slice-IsNumber type_datetime n v rest w h k = tt

drop_nil : (n : ℕ) → ◌≡◌ {A = List ℕ} (drop n []) []
drop_nil zero = refl
drop_nil (suc n) = refl

empty-IsNumber : (t : ColType) → IsNumber t []
empty-IsNumber type_int = tt
empty-IsNumber type_float = refl
empty-IsNumber type_string = tt
empty-IsNumber type_bigint = tt
empty-IsNumber type_datetime = tt

empty-IsKey : (cols : List ColMeta) → IsKey cols []
empty-IsKey [] = tt
empty-IsKey (col ∷ cols) =
    (empty-IsNumber col.type, subst (IsKey cols) (sym (drop_nil col.len)) (empty-IsKey cols))

pub prefix_of-IsKey :
    (cols : List ColMeta) (rec : List ℕ) (vs : List (List ℕ))
    → Fits cols rec
    → Reach cols vs
    → IsKey cols (prefix_of cols vs)
prefix_of-IsKey [] rec vs f r = tt
prefix_of-IsKey (col ∷ cols) rec [] f r = empty-IsKey (col ∷ cols)
prefix_of-IsKey (col ∷ cols) rec (v ∷ vs) f r =
    let rest = prefix_of-IsKey cols rec vs f.1 r.1 in
    (
      slice-IsNumber col.type col.len v (prefix_of cols vs) f.0.0 r.0.0 r.0.1,
      subst (IsKey cols) (sym (drop_slice col.len v (prefix_of cols vs) r.0.0)) rest,
    )

-- One more value.
pub prefix_of_snoc :
    (before : List ColMeta) (col : ColMeta) (after : List ColMeta) (vs : List (List ℕ)) (v : List ℕ)
    → length before ≡ length vs
    → prefix_of (before ++ (col ∷ after)) (vs ++ (v ∷ []))
      ≡ prefix_of (before ++ (col ∷ after)) vs ++ take col.len v
prefix_of_snoc [] col [] [] v h = append-nil _
prefix_of_snoc [] col (c ∷ cs) [] v h = append-nil _
prefix_of_snoc [] col after (w ∷ ws) v h = absurd (omega (arith, h))
prefix_of_snoc (c ∷ before) col after [] v h = absurd (omega (arith, h))
prefix_of_snoc (c ∷ before) col after (w ∷ ws) v h =
    let rest = prefix_of_snoc before col after ws v (omega (arith, h)) in
    rw rest (sym (append_assoc (take c.len w) _ (take col.len v)))

pub compare_values_snoc :
    (before : List ColMeta) (col : ColMeta) (after : List ColMeta) (rec : List ℕ)
    (vs : List (List ℕ)) (v : List ℕ)
    → length before ≡ length vs
    → compare_values (before ++ (col ∷ after)) rec vs ≡ Ordering.eq
    → compare_values (before ++ (col ∷ after)) rec (vs ++ (v ∷ []))
      ≡ compare_raw_value (drop col.offset rec) v col.type col.len
unfolding compare_values
compare_values_snoc [] col after rec [] v h e = ground arith
compare_values_snoc [] col after rec (w ∷ ws) v h e = absurd (omega (arith, h))
compare_values_snoc (c ∷ before) col after rec [] v h e = absurd (omega (arith, h))
compare_values_snoc (c ∷ before) col after rec (w ∷ ws) v h e =
    let rest = compare_values_snoc before col after rec ws v (omega (arith, h)) in
    ground (arith, e, rest)

pub Reach-snoc :
    (before : List ColMeta) (col : ColMeta) (after : List ColMeta) (vs : List (List ℕ)) (v : List ℕ)
    → length before ≡ length vs
    → Reach (before ++ (col ∷ after)) vs
    → Serves col v
    → Reach (before ++ (col ∷ after)) (vs ++ (v ∷ []))
Reach-snoc [] col after [] v h r k = (k, tt)
Reach-snoc [] col after (w ∷ ws) v h r k = absurd (omega (arith, h))
Reach-snoc (c ∷ before) col after [] v h r k = absurd (omega (arith, h))
Reach-snoc (c ∷ before) col after (w ∷ ws) v h r k =
    (r.0, Reach-snoc before col after ws v (omega (arith, h)) r.1 k)
