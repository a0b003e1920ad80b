-- ===== src/System/Manager/Whole.antt =====
-- The calls on the indexes of a table keep all of them in step with its records.
use myrmdb.Prelude.{
  ℕ, ◌≡◌, ◌⊎◌, inl, inr, sym, false, List, [], ◌∷◌, Option, none, some, All, arith,
}
use mathlib.Core.Path.{subst}
use myrmdb.Concurrency.Transaction.{Rid}
use myrmdb.Errors.{Result, ok, err, Error, and_then}
use myrmdb.System.Values.{Name}
use myrmdb.System.Keys.{IndexMeta, make_index_key}
use myrmdb.System.Keys.Order.{IsKey}
use myrmdb.System.Entries.{Entries, is_duplicate}
use myrmdb.System.Entries.Mirror.{
  Table, put, Agrees, insert-Agrees, delete-Agrees, moved-Agrees, replaced-Agrees,
}
use myrmdb.System.Manager.{
  SmManager, TabMeta, RuntimeIndexes, get_table, change_each, inserts, deletes, check_index_insert,
  change_indexes, insert_index_entries, delete_index_entries, update_index_entries,
}
use myrmdb.System.Manager.Each.{Apart, Holding, change_each-Holding, check_each-Holding}

-- What the key of a new record must be, in each index of the table: free of NaN.
abbrev pub NewKeys : List ℕ → TabMeta → Type 0
NewKeys rec tab = All (λ i. IsKey i.cols (make_index_key i rec)) tab.indexes

-- The table is there, its indexes have names of their own, and something holds of each.
pub record Has (P : IndexMeta → Entries → Type 0) (tab_name : Name) (tab : TabMeta) (s : SmManager)
    : Type 0 where
  pub there : get_table tab_name s ≡ ok tab
  pub own : All (λ i. i.tab_name ≡ tab_name) tab.indexes
  pub apart : Apart tab.indexes
  pub holding : Holding P tab.indexes s.runtime_indexes

-- Every index of the table agrees with the records.
abbrev pub Indexed : Table → Name → TabMeta → SmManager → Type 0
Indexed f = Has (λ i es. Agrees i f es)

with_each :
    (P : IndexMeta → Entries → Type 0) (R : IndexMeta → Type 0) (is : List IndexMeta)
    (m : RuntimeIndexes)
    → All R is
    → Holding P is m
    → Holding (λ i es. P i es × R i) is m
with_each P R [] m k h = tt
with_each P R (i ∷ is) m k h = let (r, e, p) = h.0 in ((r, e, (p, k.0)), with_each P R is m k.1 h.1)

-- A change of all indexes of the table.
change_indexes-Has :
    (P Q : IndexMeta → Entries → Type 0) (change : IndexMeta → Entries → Entries)
    (step : (i : IndexMeta) (es : Entries) → P i es → Q i (change i es)) (tab_name : Name)
    (tab : TabMeta) (s : SmManager)
    → Has P tab_name tab s
    → ((change_indexes change tab_name s).0 ≡ ok tt)
      × Has Q tab_name tab (change_indexes change tab_name s).1
unfolding change_indexes get_table
change_indexes-Has P Q change step tab_name tab s h =
    let done = change_each change tab.indexes s.runtime_indexes in
    let all = change_each-Holding P Q change step tab.indexes s.runtime_indexes h.apart h.holding in
    let there = h.there in
    let same : change_indexes change tab_name s ≡ (done.0, record s { runtime_indexes = done.1 }) =
      ground (arith, there) in
    subst (λ (x : Result (Unit {0}) × SmManager). (x.0 ≡ ok tt) × Has Q tab_name tab x.1) (sym same)
      (all.0, record { there = there; own = h.own; apart = h.apart; holding = all.1 })

-- The check of a record throws, or no index has its key for another record.
check_index_insert-Has :
    (P : IndexMeta → Entries → Type 0) (tab_name : Name) (rec : List ℕ) (self : Option Rid)
    (tab : TabMeta) (s : SmManager)
    → Has P tab_name tab s
    → (check_index_insert tab_name rec self s ≡ err Error.internal_error)
      ⊎ ((check_index_insert tab_name rec self s ≡ ok tt)
          × Has
              (λ i es. P i es × (is_duplicate i (make_index_key i rec) self es ≡ false))
              tab_name
              tab
              s)
unfolding check_index_insert
check_index_insert-Has P tab_name rec self tab s h =
    let there = h.there in
    elim (check_each-Holding P tab_name rec self tab.indexes s.runtime_indexes h.own h.holding) [
      | inl e ↦ inl (ground (arith, there, e))
      | inr (e, all) ↦ inr (
        ground (arith, there, e),
        record { there = there; own = h.own; apart = h.apart; holding = all },
      )
    ]

module _ (tab_name : Name) (tab : TabMeta) (f : Table) (s : SmManager)
    (h : Indexed f tab_name tab s) where
  with_keys :
      (rec : List ℕ)
      → NewKeys rec tab
      → Has (λ i es. Agrees i f es × IsKey i.cols (make_index_key i rec)) tab_name tab s
  with_keys rec k = record {
    there = h.there;
    own = h.own;
    apart = h.apart;
    holding = with_each _ _ tab.indexes s.runtime_indexes k h.holding;
  }

  -- Where the indexes of a table agree with its records, the check of a new record throws, or it
  -- returns and inserting the entries of the record at a free position returns too, with indexes
  -- that agree with the records and the new one.
  pub insert_index_entries-Indexed :
      (rec : List ℕ) (rid : Rid)
      → f rid ≡ none
      → NewKeys rec tab
      → (check_index_insert tab_name rec none s ≡ err Error.internal_error)
        ⊎ ((check_index_insert tab_name rec none s ≡ ok tt)
            × ((insert_index_entries tab_name rec rid s).0 ≡ ok tt)
            × Indexed
                (put f rid (some rec))
                tab_name
                tab
                (insert_index_entries tab_name rec rid s).1)
  unfolding insert_index_entries
  insert_index_entries-Indexed rec rid n k =
      elim (check_index_insert-Has _ tab_name rec none tab s (with_keys rec k)) [
        | inl e ↦ inl e
        | inr (e, all) ↦
            let done =
              change_indexes-Has _ (λ i es. Agrees i (put f rid (some rec)) es) (inserts rec rid)
                (λ i es ((a, key), d). insert-Agrees i f es rid rec a n key d) tab_name tab s all in
            inr (e, done.0, done.1)
      ]

  -- Deleting the entries of a record returns, with indexes that agree with the other records.
  pub delete_index_entries-Indexed :
      (rec : List ℕ) (rid : Rid)
      → f rid ≡ some rec
      → ((delete_index_entries tab_name rec rid s).0 ≡ ok tt)
        × Indexed (put f rid none) tab_name tab (delete_index_entries tab_name rec rid s).1
  unfolding delete_index_entries
  delete_index_entries-Indexed rec rid there =
      change_indexes-Has _ (λ i es. Agrees i (put f rid none) es) (deletes rec rid)
        (λ i es a. delete-Agrees i f es rid rec a there) tab_name tab s h

  -- Where the indexes of a table agree with its records, updating the entries of a record throws and
  -- changes nothing, or it returns with indexes that agree with the records after the update.
  pub update_index_entries-Indexed :
      (old_rec new_rec : List ℕ) (rid : Rid)
      → f rid ≡ some old_rec
      → NewKeys new_rec tab
      → (update_index_entries tab_name old_rec new_rec rid s ≡ (err Error.internal_error, s))
        ⊎ (((update_index_entries tab_name old_rec new_rec rid s).0 ≡ ok tt)
            × Indexed
                (put f rid (some new_rec))
                tab_name
                tab
                (update_index_entries tab_name old_rec new_rec rid s).1)
  unfolding update_index_entries insert_index_entries delete_index_entries and_then
  update_index_entries-Indexed old_rec new_rec rid there k =
      elim (check_index_insert-Has _ tab_name new_rec (some rid) tab s (with_keys new_rec k)) [
        | inl e ↦ inl (ground (arith, e))
        | inr (e, all) ↦
            let Left : IndexMeta → Entries → Type 0 = λ i es.
              (Agrees i (put f rid none) es
                × (is_duplicate i (make_index_key i new_rec) none es ≡ false))
              × IsKey i.cols (make_index_key i new_rec) in
            let left =
              change_indexes-Has _ Left (deletes old_rec rid)
                (λ i es ((a, key), d). (moved-Agrees i f es rid old_rec new_rec a there key d, key))
                tab_name tab s all in
            let t = (delete_index_entries tab_name old_rec rid s).1 in
            let last =
              change_indexes-Has Left (λ i es. Agrees i (put f rid (some new_rec)) es)
                (inserts new_rec rid)
                (λ i es ((a, d), key). replaced-Agrees i f es rid new_rec a key d) tab_name tab t
                left.1 in
            let d = left.0 in
            let same : update_index_entries tab_name old_rec new_rec rid s
                ≡ insert_index_entries tab_name new_rec rid t =
              ground (arith, e, d) in
            inr (
              subst
                (λ (x : Result (Unit {0}) × SmManager).
                  (x.0 ≡ ok tt) × Indexed (put f rid (some new_rec)) tab_name tab x.1)
                (sym same) last)
      ]
