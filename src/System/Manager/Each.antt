-- ===== src/System/Manager/Each.antt =====
-- A loop over the indexes of a table reaches each of them once.
use myrmdb.Prelude.{
  ℕ, ◌≡◌, ◌≢◌, ◌⊎◌, inl, inr, refl, sym, ◌∙◌, false, List, [], ◌∷◌, Option, some, All, arith,
  Bool-cases, Option-cases,
}
use mathlib.Core.Path.{subst}
use myrmdb.Prelude.Assoc
use myrmdb.Prelude.Assoc.{lookup-insert_self, lookup-insert_ne, some_inj}
use myrmdb.Concurrency.Transaction.{Rid}
use myrmdb.Errors.{Result, ok, err, Error}
use myrmdb.System.Values.{Name}
use myrmdb.System.Keys.{IndexMeta, make_index_key}
use myrmdb.System.Entries.{Entries, RuntimeIndex, is_duplicate}
use myrmdb.System.Manager.{
  Name-discrete, RuntimeIndexes, index_name, names_of, get_runtime_index, check_each, change_each,
}

-- No two of the indexes have the same name.
abbrev pub Apart : List IndexMeta → Type 0
Apart [] = Unit {0}
Apart (i ∷ is) = All (λ j. index_name i ≢ index_name j) is × Apart is

-- Each of the indexes is there, and something holds of its entries.
abbrev pub Holding : (IndexMeta → Entries → Type 0) → List IndexMeta → RuntimeIndexes → Type 0
Holding P is m =
    All
      (λ i.
        (r : RuntimeIndex) × (Assoc.lookup Name-discrete (index_name i) m ≡ some r) × P i r.entries)
      is

Holding-insert :
    (P : IndexMeta → Entries → Type 0) (n : Name) (r : RuntimeIndex) (is : List IndexMeta)
    (m : RuntimeIndexes)
    → All (λ j. n ≢ index_name j) is
    → Holding P is m
    → Holding P is (Assoc.insert Name-discrete n r m)
Holding-insert P n r [] m d h = tt
Holding-insert P n r (i ∷ is) m d h =
    let (q, e, p) = h.0 in
    (
      (q, lookup-insert_ne Name-discrete n (index_name i) r m d.0 ∙ e, p),
      Holding-insert P n r is m d.1 h.1,
    )

lookup-change_each :
    (change : IndexMeta → Entries → Entries) (n : Name) (is : List IndexMeta) (m : RuntimeIndexes)
    → All (λ j. n ≢ index_name j) is
    → Assoc.lookup Name-discrete n (change_each change is m).1 ≡ Assoc.lookup Name-discrete n m
unfolding change_each
lookup-change_each change n [] m d = refl
lookup-change_each change n (i ∷ is) m d =
    elim (Option-cases (Assoc.lookup Name-discrete (index_name i) m)) [
      | inl out ↦ ground (arith, out)
      | inr (r, there) ↦
          let new : RuntimeIndex = record r { entries = change i r.entries } in
          let m' = Assoc.insert Name-discrete (index_name i) new m in
          let rest = lookup-change_each change n is m' d.1 in
          let ne = lookup-insert_ne Name-discrete (index_name i) n new m (λ e. d.0 (sym e)) in
          ground (arith, there, rest, ne)
    ]

change_each-some :
    (change : IndexMeta → Entries → Entries) (i : IndexMeta) (is : List IndexMeta)
    (m : RuntimeIndexes) (r : RuntimeIndex)
    → Assoc.lookup Name-discrete (index_name i) m ≡ some r
    → change_each change (i ∷ is) m
      ≡ change_each change is
          (Assoc.insert Name-discrete (index_name i) (record r { entries = change i r.entries }) m)
unfolding change_each
change_each-some change i is m r e = ground (arith, e)

pub change_each-Holding :
    (P Q : IndexMeta → Entries → Type 0) (change : IndexMeta → Entries → Entries)
    (step : (i : IndexMeta) (es : Entries) → P i es → Q i (change i es)) (is : List IndexMeta)
    (m : RuntimeIndexes)
    → Apart is
    → Holding P is m
    → ((change_each change is m).0 ≡ ok tt) × Holding Q is (change_each change is m).1
unfolding change_each
change_each-Holding P Q change step [] m d h = (refl, tt)
change_each-Holding P Q change step (i ∷ is) m d h =
    let (r, there, p) = h.0 in
    let new : RuntimeIndex = record r { entries = change i r.entries } in
    let m' = Assoc.insert Name-discrete (index_name i) new m in
    let rest =
      change_each-Holding P Q change step is m' d.1
        (Holding-insert P (index_name i) new is m d.0 h.1) in
    let self =
      lookup-change_each change (index_name i) is m' d.0
      ∙ lookup-insert_self Name-discrete (index_name i) (index_name i) new m refl in
    let same = change_each-some change i is m r there in
    subst (λ (x : Result (Unit {0}) × RuntimeIndexes). (x.0 ≡ ok tt) × Holding Q (i ∷ is) x.1)
      (sym same) (rest.0, ((new, self, step i r.entries p), rest.1))

get_runtime_index-index_name :
    (tab_name : Name) (i : IndexMeta) (m : RuntimeIndexes) (r : RuntimeIndex)
    → i.tab_name ≡ tab_name
    → Assoc.lookup Name-discrete (index_name i) m ≡ some r
    → get_runtime_index tab_name (names_of i.cols) m ≡ ok r
unfolding get_runtime_index index_name
get_runtime_index-index_name tab_name i m r t e =
    subst (λ n. get_runtime_index n (names_of i.cols) m ≡ ok r) t (ground (arith, e))

-- The check passes every index, or it throws.
pub check_each-Holding :
    (P : IndexMeta → Entries → Type 0) (tab_name : Name) (rec : List ℕ) (self : Option Rid)
    (is : List IndexMeta) (m : RuntimeIndexes)
    → All (λ i. i.tab_name ≡ tab_name) is
    → Holding P is m
    → (check_each tab_name rec self is m ≡ err Error.internal_error)
      ⊎ ((check_each tab_name rec self is m ≡ ok tt)
          × Holding (λ i es. P i es × (is_duplicate i (make_index_key i rec) self es ≡ false)) is m)
unfolding check_each
check_each-Holding P tab_name rec self [] m t h = inr (refl, tt)
check_each-Holding P tab_name rec self (i ∷ is) m t h =
    let (r, there, p) = h.0 in
    let found : get_runtime_index tab_name (names_of i.cols) m ≡ ok r =
      get_runtime_index-index_name tab_name i m r t.0 there in
    elim (Bool-cases (is_duplicate i (make_index_key i rec) self r.entries)) [
      | inl hit ↦ inl (ground (arith, found, hit))
      | inr miss ↦ elim (check_each-Holding P tab_name rec self is m t.1 h.1) [
        | inl e ↦ inl (ground (arith, found, miss, e))
        | inr (e, rest) ↦ inr (ground (arith, found, miss, e), ((r, there, (p, miss)), rest))
      ]
    ]
