-- ===== src/System/IndexScan/Loop.antt =====
-- The loop of a scan keeps what its bounds say of a record that meets the conditions.
use Prim.Native.Nat.{Ordering}
use myrmdb.Prelude.{
  ℕ, suc, ◌≡◌, refl, sym, ap, ◌∙◌, true, ◌&&◌, List, [], ◌∷◌, ◌++◌, none, some, length, All, arith,
  length-append, if_both, inl, inr, if◌then◌else◌, Bool-cases, Option-cases,
}
use mathlib.Core.Path.{subst}
use myrmdb.Prelude.Assoc.{some_inj}
use myrmdb.System.Values.{Name, ColMeta, Condition}
use myrmdb.System.Keys.{IndexMeta, make_key, compare_cols}
use myrmdb.System.Keys.Order.{IsKey}
use myrmdb.System.IndexScan.{
  raw_data, is_on, is_op_eq, is_op_lower, is_op_upper, ScanBounds, find_eq, add_bound, add_bounds,
  scan_cols, no_bounds,
}
use myrmdb.System.IndexScan.Prefixes.{
  prefix_of, compare_values, Fits, prefix_of-IsKey, compare_cols-prefix_of,
}
use myrmdb.System.IndexScan.Bounds.{Meets, OnLower, OnUpper, Holds, lower_op, upper_op, eq_op}
use myrmdb.System.IndexScan.Reached.{
  prefix_of_nil, Reached, next_bounds, compare_next, next-IsKey, next_Reached,
}

-- The first columns equal the value of the prefix, and no bound shuts the record out.
pub record Final (all : List ColMeta) (rec : List ℕ) (b : ScanBounds) : Type 0 where
  pub equal : compare_cols b.eq_cols all (make_key all rec) b.eq_prefix ≡ Ordering.eq
  pub prefix : IsKey all b.eq_prefix
  pub holds : Holds all rec b

module _ (tab_name : Name) (index : IndexMeta) (rec : List ℕ) (fits : Fits index.cols rec) where
  abbrev Invariant : List ColMeta → List ColMeta → List (List ℕ) → ScanBounds → Type 0
  Invariant before after vs b = Reached index.cols before after rec vs b × Holds index.cols rec b

  -- The columns and their values say nothing of the bounds.
  again :
      (before after : List ColMeta) (vs : List (List ℕ)) (b c : ScanBounds)
      → c.eq_prefix ≡ b.eq_prefix
      → c.eq_cols ≡ b.eq_cols
      → Reached index.cols before after rec vs b
      → Reached index.cols before after rec vs c
  again before after vs b c e f r = record {
    split = r.split;
    count = r.count;
    reach = r.reach;
    equal = r.equal;
    prefix = e ∙ r.prefix;
    number = f ∙ r.number;
  }

  Invariant-Final :
      (before after : List ColMeta) (vs : List (List ℕ)) (b : ScanBounds)
      → Invariant before after vs b
      → Final index.cols rec b
  Invariant-Final before after vs b (r, h) =
      let key = make_key index.cols rec in
      record {
        equal =
            ap (compare_cols b.eq_cols index.cols key) r.prefix
            ∙ ap (λ n. compare_cols n index.cols key (prefix_of index.cols vs)) (r.number ∙ r.count)
            ∙ compare_cols-prefix_of index.cols rec vs fits r.reach
            ∙ r.equal;
        prefix = rw r.prefix (prefix_of-IsKey index.cols rec vs fits r.reach);
        holds = h;
      }

  add_bound-Invariant :
      (before : List ColMeta) (col : ColMeta) (after : List ColMeta) (vs : List (List ℕ))
      (cond : Condition) (b : ScanBounds)
      → Invariant before (col ∷ after) vs b
      → Meets tab_name rec col cond
      → is_on tab_name col cond ≡ true
      → Invariant before (col ∷ after) vs (add_bound index (length before) col cond b)
  unfolding add_bound
  add_bound-Invariant before col after vs cond b (r, (l, u)) m on =
      let I : ScanBounds → Type 0 = Invariant before (col ∷ after) vs in
      let same : I b = (r, (l, u)) in
      let v = raw_data cond in
      let e = compare_next index.cols before col after rec vs b r v fits (m on).0 in
      let k = next-IsKey index.cols before col after rec vs b r v fits (m on).0 in
      elim (Bool-cases (is_op_lower cond.op)) [
        | inl hit ↦
            let new = lower_op cond.op _ hit (m on).1 in
            rw hit (
              if_both I _ _ b
                (
                  again before (col ∷ after) vs b _ refl refl r,
                  (inr (subst (OnLower _) (sym e) new, k), u),
                )
                same)
        | inr miss ↦ rw miss (elim (Bool-cases (is_op_upper cond.op)) [
          | inl hit ↦
              let new = upper_op cond.op _ hit (m on).1 in
              rw hit (
                if_both I _ _ b
                  (
                    again before (col ∷ after) vs b _ refl refl r,
                    (l, inr (subst (OnUpper _) (sym e) new, k)),
                  )
                  same)
          | inr other ↦ rw other same
        ])
      ]

  add_bounds-Final :
      (before : List ColMeta) (col : ColMeta) (after : List ColMeta) (vs : List (List ℕ))
      (conds : List Condition) (b : ScanBounds)
      → Invariant before (col ∷ after) vs b
      → All (Meets tab_name rec col) conds
      → Final index.cols rec (add_bounds index tab_name (length before) col conds b)
  unfolding add_bounds
  add_bounds-Final before col after vs [] b i m = Invariant-Final before (col ∷ after) vs b i
  add_bounds-Final before col after vs (cond ∷ conds) b i m =
      elim (Bool-cases (is_on tab_name col cond)) [
        | inl on ↦ rw on (
            add_bounds-Final before col after vs conds _
              (add_bound-Invariant before col after vs cond b i m.0 on) m.1)
        | inr off ↦ rw off (add_bounds-Final before col after vs conds b i m.1)
      ]

  -- The condition that is found is one on the column.
  find_eq-All {κ} :
      (P : Condition → Type κ) (col : ColMeta) (conds : List Condition) (cond : Condition)
      → find_eq tab_name col conds ≡ some cond
      → All P conds
      → P cond × (is_op_eq cond.op ≡ true) × (is_on tab_name col cond ≡ true)
  unfolding find_eq
  find_eq-All P col [] cond e m = absurd (cc e)
  find_eq-All P col (c ∷ cs) cond e m = elim (Bool-cases (is_op_eq c.op && is_on tab_name col c)) [
    | inl hit ↦
        let same : c ≡ cond =
          some_inj (sym (ap (λ t. if t then some c else find_eq tab_name col cs) hit) ∙ e) in
        subst (λ x. P x × (is_op_eq x.op ≡ true) × (is_on tab_name col x ≡ true)) same
          (m.0, ground (arith, hit), ground (arith, hit))
    | inr miss ↦
        find_eq-All P col cs cond
          (sym (ap (λ t. if t then some c else find_eq tab_name col cs) miss) ∙ e) m.1
  ]

  scan_cols-none :
      (i : ℕ) (col : ColMeta) (cols : List ColMeta) (conds : List Condition) (b : ScanBounds)
      → find_eq tab_name col conds ≡ none
      → scan_cols index tab_name conds i (col ∷ cols) b ≡ add_bounds index tab_name i col conds b
  unfolding scan_cols
  scan_cols-none i col cols conds b h = ground (arith, h)

  scan_cols-some :
      (i : ℕ) (col : ColMeta) (cols : List ColMeta) (conds : List Condition) (cond : Condition)
      (b : ScanBounds)
      → find_eq tab_name col conds ≡ some cond
      → scan_cols index tab_name conds i (col ∷ cols) b
        ≡ scan_cols index tab_name conds (suc i) cols (next_bounds col (raw_data cond) b)
  unfolding scan_cols
  scan_cols-some i col cols conds cond b h = ground (arith, h)

  scan_cols-Final :
      (before after : List ColMeta) (vs : List (List ℕ)) (conds : List Condition) (b : ScanBounds)
      → Invariant before after vs b
      → All (λ col. All (Meets tab_name rec col) conds) after
      → Final index.cols rec (scan_cols index tab_name conds (length before) after b)
  unfolding scan_cols
  scan_cols-Final before [] vs conds b i m = Invariant-Final before [] vs b i
  scan_cols-Final before (col ∷ after) vs conds b (r, h) m =
      elim (Option-cases (find_eq tab_name col conds)) [
        | inl miss ↦
            rw (scan_cols-none (length before) col after conds b miss)
              (add_bounds-Final before col after vs conds b (r, h) m.0)
        | inr (cond, hit) ↦
            let found = find_eq-All (Meets tab_name rec col) col conds cond hit m.0 in
            let meets = found.0 found.2 in
            let eq = eq_op cond.op _ found.1 meets.1 in
            let b' = next_bounds col (raw_data cond) b in
            let r' =
              next_Reached index.cols before col after rec vs b r (raw_data cond) meets.0 eq in
            let more = length-append before (col ∷ []) in
            let count : length (before ++ (col ∷ [])) ≡ suc (length before) = omega (arith, more) in
            rw (scan_cols-some (length before) col after conds cond b hit) (
              subst (λ n. Final index.cols rec (scan_cols index tab_name conds n after b')) count
                (scan_cols-Final (before ++ (col ∷ [])) after _ conds b' (r', h) m.1))
      ]

  pub scan_cols_start :
      (conds : List Condition)
      → All (λ col. All (Meets tab_name rec col) conds) index.cols
      → Final index.cols rec (scan_cols index tab_name conds 0 index.cols no_bounds)
  unfolding compare_values
  scan_cols_start conds m =
      let r : Reached index.cols [] index.cols rec [] no_bounds = record {
        split = refl;
        count = refl;
        reach = tt;
        equal = refl;
        prefix = prefix_of_nil index.cols;
        number = refl;
      } in
      scan_cols-Final [] index.cols [] conds no_bounds (r, (inl refl, inl refl)) m
