-- ===== src/System/IndexScan/Reached.antt =====
-- How far the loop of a scan has come: the columns that equal a value.
use Prim.Native.Nat.{Ordering}
use myrmdb.Prelude.{
  ℕ, suc, ◌≡◌, refl, sym, ap, ◌∙◌, List, [], ◌∷◌, ◌++◌, take, drop, length, arith, append_assoc,
  length-append,
}
use mathlib.Core.Path.{subst}
use myrmdb.System.Values.{ColMeta, compare_raw_value}
use myrmdb.System.Keys.{make_key, compare_cols}
use myrmdb.System.Keys.Order.{IsKey}
use myrmdb.System.IndexScan.{ScanBounds}
use myrmdb.System.IndexScan.Prefixes.{
  prefix_of, compare_values, Fits, Reach, Serves, prefix_of-IsKey, compare_cols-prefix_of,
  prefix_of_snoc, compare_values_snoc, Reach-snoc,
}

pub prefix_of_nil : (cols : List ColMeta) → [] ≡ prefix_of cols []
prefix_of_nil [] = refl
prefix_of_nil (c ∷ cs) = refl

-- The loop has passed the columns `before`, whose values are `vs`, and the record has them too.
pub record Reached (all before after : List ColMeta) (rec : List ℕ) (vs : List (List ℕ))
    (b : ScanBounds) : Type 0 where
  pub split : all ≡ before ++ after
  pub count : length before ≡ length vs
  pub reach : Reach all vs
  pub equal : compare_values all rec vs ≡ Ordering.eq
  pub prefix : b.eq_prefix ≡ prefix_of all vs
  pub number : b.eq_cols ≡ length before

-- The prefix with one more value.
abbrev pub next_bounds : ColMeta → List ℕ → ScanBounds → ScanBounds
next_bounds col v b = record b {
  eq_prefix = b.eq_prefix ++ take col.len v;
  eq_cols = suc b.eq_cols;
}

module _ (all before : List ColMeta) (col : ColMeta) (after : List ColMeta) (rec : List ℕ)
    (vs : List (List ℕ)) (b : ScanBounds) (r : Reached all before (col ∷ after) rec vs b)
    (v : List ℕ) where
  open r use {split, count, reach, equal, prefix, number}

  next-Reach : Serves col v → Reach all (vs ++ (v ∷ []))
  next-Reach k =
      rw split (Reach-snoc before col after vs v count (subst (λ cs. Reach cs vs) split reach) k)

  next_prefix : b.eq_prefix ++ take col.len v ≡ prefix_of all (vs ++ (v ∷ []))
  next_prefix =
      let snoc : prefix_of all (vs ++ (v ∷ [])) ≡ prefix_of all vs ++ take col.len v =
        rw split (prefix_of_snoc before col after vs v count) in
      ap (λ p. p ++ take col.len v) prefix ∙ sym snoc

  next_values :
      compare_values all rec (vs ++ (v ∷ []))
      ≡ compare_raw_value (drop col.offset rec) v col.type col.len
  next_values = rw split (
      compare_values_snoc before col after rec vs v count
        (subst (λ cs. compare_values cs rec vs ≡ Ordering.eq) split equal))

  -- The key of the record against a value of the next column.
  pub compare_next :
      Fits all rec
      → Serves col v
      → compare_cols (suc (length before)) all (make_key all rec) (b.eq_prefix ++ take col.len v)
        ≡ compare_raw_value (drop col.offset rec) v col.type col.len
  compare_next fits k =
      let key = make_key all rec in
      let many : suc (length before) ≡ length (vs ++ (v ∷ [])) =
        let e = length-append vs (v ∷ []) in omega (arith, e, count) in
      ap (compare_cols (suc (length before)) all key) next_prefix
      ∙ ap (λ m. compare_cols m all key (prefix_of all (vs ++ (v ∷ [])))) many
      ∙ compare_cols-prefix_of all rec (vs ++ (v ∷ [])) fits (next-Reach k)
      ∙ next_values

  pub next-IsKey : Fits all rec → Serves col v → IsKey all (b.eq_prefix ++ take col.len v)
  next-IsKey fits k = rw next_prefix (prefix_of-IsKey all rec (vs ++ (v ∷ [])) fits (next-Reach k))

  pub next_Reached :
      Serves col v
      → compare_raw_value (drop col.offset rec) v col.type col.len ≡ Ordering.eq
      → Reached all (before ++ (col ∷ [])) after rec (vs ++ (v ∷ [])) (next_bounds col v b)
  next_Reached k e =
      let vs-more = length-append vs (v ∷ []) in
      let before-more = length-append before (col ∷ []) in
      record {
        split = split ∙ sym (append_assoc before (col ∷ []) after);
        count = omega (arith, vs-more, before-more, count);
        reach = next-Reach k;
        equal = next_values ∙ e;
        prefix = next_prefix;
        number = omega (arith, before-more, number);
      }
