-- ===== src/System/Entries/Build/Sort.antt =====
-- Sorting puts the entries of an index in order and loses none.

use myrmdb.Prelude.{
  ◌≡◌, refl, ap, ◌∙◌, true, false, not, [], ◌∷◌, some, ite, All, arith, Bool-cases, inl, inr,
}
use myrmdb.Concurrency.Transaction.{Rid}
use myrmdb.System.Keys.{IndexMeta, key_equal}
use myrmdb.System.Entries.{RuntimeIndexEntry, Entries, bound, rid_eq}
use myrmdb.System.Entries.Find.{find, Once, insert_at, find-insert_at, Once-insert_at}
use myrmdb.System.Entries.Sorted.{NotAbove, Sorted, HasKey, NotAbove-all, All-insert_at}
use myrmdb.System.Entries.Unique.{Below, Strict, Below-all}
use myrmdb.System.Entries.Deleted.{compare_index_swap}
use myrmdb.System.Entries.Build.{entry_less, sort_in, sort_runtime_index, has_equal_keys}

less-NotAbove :
    (index : IndexMeta) (e x : RuntimeIndexEntry) → entry_less index e x ≡ true → NotAbove index e x
unfolding entry_less
less-NotAbove index e x h = ground (arith, h)

not_less-NotAbove :
    (index : IndexMeta) (e x : RuntimeIndexEntry)
    → entry_less index e x ≡ false
    → NotAbove index x e
unfolding entry_less
not_less-NotAbove index e x h = let s = compare_index_swap index e.key x.key in ground (arith, h, s)

insert_at-Sorted :
    (index : IndexMeta) (e : RuntimeIndexEntry) (es : Entries)
    → HasKey index e
    → All (HasKey index) es
    → Sorted index es
    → Sorted index (insert_at (bound (λ x. not (entry_less index e x)) es) e es)
unfolding bound
insert_at-Sorted index e [] h k s = (tt, tt)
insert_at-Sorted index e (x ∷ xs) h k s = elim (Bool-cases (entry_less index e x)) [
  | inl hit ↦
      let first = less-NotAbove index e x hit in
      rw hit ((first, NotAbove-all index e x xs h k.0 k.1 first s.0), s)
  | inr miss ↦
      let first = not_less-NotAbove index e x miss in
      let n = bound (λ y. not (entry_less index e y)) xs in
      rw miss
        (All-insert_at (NotAbove index x) n e xs first s.0, insert_at-Sorted index e xs h k.1 s.1)
]

pub sort-All {κ} :
    (index : IndexMeta) (P : RuntimeIndexEntry → Type κ) (es : Entries)
    → All P es
    → All P (sort_runtime_index index es)
unfolding sort_runtime_index sort_in
sort-All index P [] h = tt
sort-All index P (e ∷ es) h = All-insert_at P _ e _ h.0 (sort-All index P es h.1)

pub sort-Sorted :
    (index : IndexMeta) (es : Entries)
    → All (HasKey index) es
    → Sorted index (sort_runtime_index index es)
unfolding sort_runtime_index sort_in
sort-Sorted index [] h = tt
sort-Sorted index (e ∷ es) h =
    insert_at-Sorted index e _ h.0 (sort-All index (HasKey index) es h.1) (sort-Sorted index es h.1)

pub find-sort :
    (index : IndexMeta) (es : Entries) (rid : Rid)
    → Once es
    → find rid (sort_runtime_index index es) ≡ find rid es
unfolding sort_runtime_index sort_in find
find-sort index [] rid o = refl
find-sort index (e ∷ es) rid o =
    find-insert_at _ e (sort_runtime_index index es) rid (find-sort index es e.rid o.1 ∙ o.0)
    ∙ ap (ite (rid_eq e.rid rid) (some e.key)) (find-sort index es rid o.1)

pub sort-Once : (index : IndexMeta) (es : Entries) → Once es → Once (sort_runtime_index index es)
unfolding sort_runtime_index sort_in
sort-Once index [] o = tt
sort-Once index (e ∷ es) o =
    Once-insert_at _ e (sort_runtime_index index es) (find-sort index es e.rid o.1 ∙ o.0)
      (sort-Once index es o.1)

-- In order and without equal neighbours, the keys go up.
pub Sorted-Strict :
    (index : IndexMeta) (es : Entries)
    → All (HasKey index) es
    → Sorted index es
    → has_equal_keys index es ≡ false
    → Strict index es
unfolding has_equal_keys key_equal
Sorted-Strict index [] k s h = tt
Sorted-Strict index (e ∷ []) k s h = (tt, tt)
Sorted-Strict index (e ∷ (x ∷ xs)) k s h =
    let rest = Sorted-Strict index (x ∷ xs) k.1 s.1 (ground (arith, h)) in
    let le = s.0.0 in
    let first : Below index e x = ground (arith, h, le) in
    ((first, Below-all index e x xs k.0 k.1.0 k.1.1 first rest.0), rest)

-- Keys that go up have no equal neighbours.
pub Strict-has_equal_keys :
    (index : IndexMeta) (es : Entries) → Strict index es → has_equal_keys index es ≡ false
unfolding has_equal_keys key_equal
Strict-has_equal_keys index [] s = refl
Strict-has_equal_keys index (e ∷ []) s = refl
Strict-has_equal_keys index (e ∷ (x ∷ xs)) s =
    let rest = Strict-has_equal_keys index (x ∷ xs) s.1 in
    let lt = s.0.0 in ground (arith, lt, rest)
