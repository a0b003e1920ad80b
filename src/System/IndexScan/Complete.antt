-- ===== src/System/IndexScan/Complete.antt =====
-- A scan of an index leaves out no record that meets the conditions.
use Prim.Native.Nat.{Ordering}
use myrmdb.Prelude.{
  ℕ, ◌≡◌, ◌≢◌, ◌-◌, refl, sym, ap, Bool, true, false, not, ◌&&◌, List, [], ◌∷◌, some, take, drop,
  length, All, arith, take_all, ltb, ◌==◌, if◌then◌else◌, if_both, inl, inr, ◌⊎◌, Bool-cases,
}
use mathlib.Core.Path.{subst}
use myrmdb.Concurrency.Transaction.{Rid}
use myrmdb.System.Values.{Name, Condition}
use myrmdb.System.Keys.{
  IndexMeta, make_key, make_index_key, compare_cols, compare_index_prefix, compare_index_key, is_lt,
}
use myrmdb.System.Keys.Order.{
  IsKey, compare_cols_swap, compare_cols_fewer, compare_cols_le, compare_cols_trans,
}
use myrmdb.System.Entries.{RuntimeIndexEntry, Entries, bound}
use myrmdb.System.Entries.Find.{find}
use myrmdb.System.Entries.Sorted.{Sorted, Ordered, HasKey, NotAbove}
use myrmdb.System.IndexScan.{
  Bound, ScanBounds, no_bounds, scan_cols, with_prefix, scan_bounds, scan_begin, scan_end,
  scan_index,
}
use myrmdb.System.IndexScan.Prefixes.{Fits}
use myrmdb.System.IndexScan.Bounds.{Meets, OnLower, OnUpper, LowerHolds, UpperHolds, Holds}
use myrmdb.System.IndexScan.Loop.{Final, scan_cols_start}
use myrmdb.System.IndexScan.Between.{
  Has, HasRid, HasRid-map, find-Has, Carries, Has-between, bound_none, bound_all,
}

module _ (index : IndexMeta) where
  -- The tests that the two ends of a scan stand for, by whether there is no bound and whether it is
  -- inclusive.
  abbrev low_with : Bool → Bool → Bound → RuntimeIndexEntry → Bool
  low_with true i b e = false
  low_with false true b e = is_lt (compare_index_prefix index e.key b.key b.cols)
  low_with false false b e = not (is_lt (compare_index_prefix index b.key e.key b.cols))

  abbrev high_with : Bool → Bool → Bound → RuntimeIndexEntry → Bool
  high_with true i b e = true
  high_with false true b e = not (is_lt (compare_index_prefix index b.key e.key b.cols))
  high_with false false b e = is_lt (compare_index_prefix index e.key b.key b.cols)

  abbrev low_test : Bound → RuntimeIndexEntry → Bool
  low_test b = low_with (b.cols == 0) b.inclusive b

  abbrev high_test : Bound → RuntimeIndexEntry → Bool
  high_test b = high_with (b.cols == 0) b.inclusive b

  begin_with :
      (z i : Bool) (b : Bound) (es : Entries)
      → (if z
          then 0
          else if i
          then bound (low_with false true b) es
          else bound (low_with false false b) es)
        ≡ bound (low_with z i b) es
  begin_with true i b es = sym (bound_none es)
  begin_with false true b es = refl
  begin_with false false b es = refl

  end_with :
      (z i : Bool) (b : Bound) (es : Entries)
      → (if z
          then length es
          else if i
          then bound (high_with false true b) es
          else bound (high_with false false b) es)
        ≡ bound (high_with z i b) es
  end_with true i b es = sym (bound_all es)
  end_with false true b es = refl
  end_with false false b es = refl

  scan_begin-low_test : (b : Bound) (es : Entries) → scan_begin index b es ≡ bound (low_test b) es
  unfolding scan_begin
  scan_begin-low_test b es = begin_with (b.cols == 0) b.inclusive b es

  scan_end-high_test : (b : Bound) (es : Entries) → scan_end index b es ≡ bound (high_test b) es
  unfolding scan_end
  scan_end-high_test b es = end_with (b.cols == 0) b.inclusive b es

  LowerHolds-low_test :
      (rec : List ℕ) (b : Bound) (rid : Rid)
      → LowerHolds index.cols rec b
      → low_test b (record { key = make_key index.cols rec; rid = rid }) ≡ false
  unfolding compare_index_prefix
  LowerHolds-low_test rec b rid (inl unbound) = ground (arith, unbound)
  LowerHolds-low_test rec b rid (inr (h, k)) =
      let key = make_key index.cols rec in
      let o = compare_cols b.cols index.cols key b.key in
      let swap = compare_cols_swap b.cols index.cols key b.key in
      elim (Bool-cases b.inclusive) [
        | inl on ↦ let h' : OnLower true o = subst (λ i. OnLower i o) on h in ground (arith, on, h')
        | inr off ↦
            let h' : OnLower false o = subst (λ i. OnLower i o) off h in
            ground (arith, off, h', swap)
      ]

  UpperHolds-high_test :
      (rec : List ℕ) (b : Bound) (rid : Rid)
      → UpperHolds index.cols rec b
      → high_test b (record { key = make_key index.cols rec; rid = rid }) ≡ true
  unfolding compare_index_prefix
  UpperHolds-high_test rec b rid (inl unbound) = ground (arith, unbound)
  UpperHolds-high_test rec b rid (inr (h, k)) =
      let key = make_key index.cols rec in
      let o = compare_cols b.cols index.cols key b.key in
      let swap = compare_cols_swap b.cols index.cols key b.key in
      elim (Bool-cases b.inclusive) [
        | inl on ↦
            let h' : OnUpper true o = subst (λ i. OnUpper i o) on h in ground (arith, on, h', swap)
        | inr off ↦
            let h' : OnUpper false o = subst (λ i. OnUpper i o) off h in ground (arith, off, h')
      ]

  -- An entry in front of one below the upper bound is below it.
  Carries-high_test :
      (b : Bound) (x y : RuntimeIndexEntry)
      → index.col_num ≡ length index.cols
      → (b.cols ≡ 0) ⊎ IsKey index.cols b.key
      → HasKey index x
      → HasKey index y
      → NotAbove index x y
      → Carries (high_test b) x y
  unfolding compare_index_key compare_index_prefix
  Carries-high_test b x y n (inl unbound) h k le up = ground (arith, unbound)
  Carries-high_test b x y n (inr w) h k le up =
      let m = b.cols in
      let c = index.cols in
      let le' =
        compare_cols_fewer m c x.key y.key
          (subst (λ i. compare_cols i c x.key y.key ≢ Ordering.gt) n le) in
      let swap = compare_cols_swap m c in
      let excl = compare_cols_trans m c x.key y.key b.key h k w le' in
      let incl = compare_cols_le m c x.key y.key b.key h k w le' in
      elim (Bool-cases b.inclusive) [
        | inl on ↦ ground (arith, on, up, incl, swap x.key b.key, swap y.key b.key)
        | inr off ↦ ground (arith, off, up, excl)
      ]

  Carries-all :
      (b : Bound) (x : RuntimeIndexEntry) (es : Entries)
      → index.col_num ≡ length index.cols
      → (b.cols ≡ 0) ⊎ IsKey index.cols b.key
      → HasKey index x
      → All (HasKey index) es
      → All (NotAbove index x) es
      → All (Carries (high_test b) x) es
  Carries-all b x [] n w h k le = tt
  Carries-all b x (y ∷ ys) n w h k le =
      (Carries-high_test b x y n w h k.0 le.0, Carries-all b x ys n w h k.1 le.1)

  Ordered-high_test :
      (b : Bound) (es : Entries)
      → index.col_num ≡ length index.cols
      → (b.cols ≡ 0) ⊎ IsKey index.cols b.key
      → All (HasKey index) es
      → Sorted index es
      → Ordered (Carries (high_test b)) es
  Ordered-high_test b [] n w k s = tt
  Ordered-high_test b (x ∷ xs) n w k s =
      (Carries-all b x xs n w k.0 k.1 s.0, Ordered-high_test b xs n w k.1 s.1)

  -- A prefix of equal columns is a bound on both sides.
  with_prefix-Holds :
      (rec : List ℕ) (b : ScanBounds)
      → Final index.cols rec b
      → Holds index.cols rec (with_prefix index b)
  unfolding with_prefix
  with_prefix-Holds rec b f =
      let new : Bound = record { key = b.eq_prefix; cols = b.eq_cols; inclusive = true } in
      let low : LowerHolds index.cols rec new =
        let e = f.equal in inr ((λ lt. absurd (ground (arith, e, lt))), f.prefix) in
      let high : UpperHolds index.cols rec new =
        let e = f.equal in inr ((λ gt. absurd (ground (arith, e, gt))), f.prefix) in
      (
        if_both (LowerHolds index.cols rec) (ltb 0 b.eq_cols && (b.lower.cols == 0)) new b.lower low
            f.holds.0,
        if_both (UpperHolds index.cols rec) (ltb 0 b.eq_cols && (b.upper.cols == 0)) new b.upper
            high f.holds.1,
      )

  upper_key :
      (rec : List ℕ) (b : Bound)
      → UpperHolds index.cols rec b
      → (b.cols ≡ 0) ⊎ IsKey index.cols b.key
  upper_key rec b (inl unbound) = inl unbound
  upper_key rec b (inr (h, w)) = inr w

  pub scan_index-HasRid :
      (tab_name : Name) (conds : List Condition) (rec : List ℕ) (rid : Rid) (es : Entries)
      → index.col_num ≡ length index.cols
      → Fits index.cols rec
      → All (HasKey index) es
      → Sorted index es
      → find rid es ≡ some (make_index_key index rec)
      → All (λ col. All (Meets tab_name rec col) conds) index.cols
      → HasRid rid (scan_index index tab_name conds es)
  unfolding scan_index scan_bounds make_index_key
  scan_index-HasRid tab_name conds rec rid es n fits keys sorted here meets =
      let key = make_key index.cols rec in
      let all : take index.col_num index.cols ≡ index.cols =
        take_all index.col_num index.cols (omega (arith, n)) in
      let b = scan_bounds index tab_name conds in
      let same : with_prefix index (scan_cols index tab_name conds 0 index.cols no_bounds) ≡ b =
        ap (λ cs. with_prefix index (scan_cols index tab_name conds 0 cs no_bounds)) (sym all) in
      let final = scan_cols_start tab_name index rec fits conds meets in
      let holds : Holds index.cols rec b =
        subst (Holds index.cols rec) same (with_prefix-Holds rec _ final) in
      let e : RuntimeIndexEntry = record { key = key; rid = rid } in
      let ordered = Ordered-high_test b.upper es n (upper_key rec b.upper holds.1) keys sorted in
      let between : Has e (
          take (scan_end index b.upper es - scan_begin index b.lower es)
            (drop (scan_begin index b.lower es) es)) =
        rw (scan_begin-low_test b.lower es, scan_end-high_test b.upper es)
          (Has-between (low_test b.lower) (high_test b.upper) e es ordered
            (find-Has rid key es here) (LowerHolds-low_test rec b.lower rid holds.0)
            (UpperHolds-high_test rec b.upper rid holds.1)) in
      HasRid-map e _ between
