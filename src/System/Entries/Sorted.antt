-- ===== src/System/Entries/Sorted.antt =====
-- The entries of an index stay in the order of their keys.
use Prim.Native.Nat.{Ordering}
use myrmdb.Prelude.{
  ℕ, zero, suc, ◌≡◌, ◌≢◌, false, List, [], ◌∷◌, ◌++◌, take, drop, All, arith, Bool-cases, if_both,
  inl, inr,
}
use myrmdb.Concurrency.Transaction.{Rid}
use myrmdb.System.Keys.{IndexMeta, compare_index_key, compare_index_prefix, key_equal}
use myrmdb.System.Keys.Order.{IsKey, compare_cols_swap, compare_cols_le}
use myrmdb.System.Entries.{
  RuntimeIndexEntry, Entries, bound, below, lower_bound, insert_entry, delete_entry, erase_run,
  same_rid,
}
use myrmdb.System.Entries.Find.{insert_at}

-- The relation holds of each entry and each later one.
abbrev pub Ordered : (RuntimeIndexEntry → RuntimeIndexEntry → Type 0) → Entries → Type 0
Ordered R [] = Unit {0}
Ordered R (e ∷ es) = All (R e) es × Ordered R es

abbrev pub NotAbove : IndexMeta → RuntimeIndexEntry → RuntimeIndexEntry → Type 0
NotAbove index e x = compare_index_key index e.key x.key ≢ Ordering.gt

-- No key is above a later one.
abbrev pub Sorted : IndexMeta → Entries → Type 0
Sorted index = Ordered (NotAbove index)

-- No key has a NaN.
abbrev pub HasKey : IndexMeta → RuntimeIndexEntry → Type 0
HasKey index e = IsKey index.cols e.key

NotAbove-trans :
    (index : IndexMeta) (a b c : RuntimeIndexEntry)
    → HasKey index a
    → HasKey index b
    → HasKey index c
    → NotAbove index a b
    → NotAbove index b c
    → NotAbove index a c
unfolding compare_index_key compare_index_prefix
NotAbove-trans index a b c = compare_cols_le index.col_num index.cols a.key b.key c.key

pub NotAbove-all :
    (index : IndexMeta) (a b : RuntimeIndexEntry) (es : Entries)
    → HasKey index a
    → HasKey index b
    → All (HasKey index) es
    → NotAbove index a b
    → All (NotAbove index b) es
    → All (NotAbove index a) es
NotAbove-all index a b [] h k l e f = tt
NotAbove-all index a b (x ∷ xs) h k l e f =
    (NotAbove-trans index a b x h k l.0 e f.0, NotAbove-all index a b xs h k l.1 e f.1)

-- An entry that is not below another one.
pub below-NotAbove :
    (index : IndexMeta) (e x : RuntimeIndexEntry) → below index e.key x ≡ false → NotAbove index e x
unfolding compare_index_key compare_index_prefix
below-NotAbove index e x h =
    ground (arith, h, compare_cols_swap index.col_num index.cols x.key e.key)

pub All-insert_at {κ} :
    (P : RuntimeIndexEntry → Type κ) (n : ℕ) (e : RuntimeIndexEntry) (es : Entries)
    → P e
    → All P es
    → All P (insert_at n e es)
All-insert_at P zero e es h k = (h, k)
All-insert_at P (suc n) e [] h k = (h, tt)
All-insert_at P (suc n) e (x ∷ xs) h k = (k.0, All-insert_at P n e xs h k.1)

insert_at-Sorted :
    (index : IndexMeta) (e : RuntimeIndexEntry) (es : Entries)
    → HasKey index e
    → All (HasKey index) es
    → Sorted index es
    → Sorted index (insert_at (bound (below index e.key) es) e es)
unfolding bound
insert_at-Sorted index e [] h k s = (tt, tt)
insert_at-Sorted index e (x ∷ xs) h k s = elim (Bool-cases (below index e.key x)) [
  | inl hit ↦
      let n = bound (below index e.key) xs in
      let first : NotAbove index x e = ground (arith, hit) in
      rw hit
        (All-insert_at (NotAbove index x) n e xs first s.0, insert_at-Sorted index e xs h k.1 s.1)
  | inr miss ↦
      let first = below-NotAbove index e x miss in
      rw miss ((first, NotAbove-all index e x xs h k.0 k.1 first s.0), s)
]

-- Inserting an entry keeps the entries in order.
pub insert_entry-Sorted :
    (index : IndexMeta) (e : RuntimeIndexEntry) (es : Entries)
    → HasKey index e
    → All (HasKey index) es
    → Sorted index es
    → Sorted index (insert_entry index e es)
unfolding insert_entry lower_bound
insert_entry-Sorted index e es h k s = insert_at-Sorted index e es h k s

erase_run-All {κ} :
    (index : IndexMeta) (key : List ℕ) (rid : Rid) (P : RuntimeIndexEntry → Type κ) (es : Entries)
    → All P es
    → All P (erase_run index key rid es)
unfolding erase_run
erase_run-All index key rid P [] h = tt
erase_run-All index key rid P (e ∷ es) h =
    let Q : Entries → Type κ = All P in
    if_both Q (key_equal index e.key key) _ (e ∷ es)
      (if_both Q (same_rid e.rid rid) es _ h.1 (h.0, erase_run-All index key rid P es h.1)) h

erase_run-Ordered :
    (index : IndexMeta) (key : List ℕ) (rid : Rid)
    (R : RuntimeIndexEntry → RuntimeIndexEntry → Type 0) (es : Entries)
    → Ordered R es
    → Ordered R (erase_run index key rid es)
unfolding erase_run
erase_run-Ordered index key rid R [] h = tt
erase_run-Ordered index key rid R (e ∷ es) h =
    let Q : Entries → Type 0 = Ordered R in
    let rest = erase_run-All index key rid (R e) es h.0 in
    if_both Q (key_equal index e.key key) _ (e ∷ es)
      (if_both Q (same_rid e.rid rid) es _ h.1 (rest, erase_run-Ordered index key rid R es h.1)) h

abbrev pub delete_at : IndexMeta → List ℕ → Rid → ℕ → Entries → Entries
delete_at index key rid n es = take n es ++ erase_run index key rid (drop n es)

delete_at-All {κ} :
    (index : IndexMeta) (key : List ℕ) (rid : Rid) (n : ℕ) (P : RuntimeIndexEntry → Type κ)
    (es : Entries)
    → All P es
    → All P (delete_at index key rid n es)
delete_at-All index key rid zero P es h = erase_run-All index key rid P es h
delete_at-All index key rid (suc n) P [] h = erase_run-All index key rid P [] h
delete_at-All index key rid (suc n) P (e ∷ es) h = (h.0, delete_at-All index key rid n P es h.1)

pub delete_entry-All {κ} :
    (index : IndexMeta) (key : List ℕ) (rid : Rid) (P : RuntimeIndexEntry → Type κ) (es : Entries)
    → All P es
    → All P (delete_entry index key rid es)
unfolding delete_entry
delete_entry-All index key rid P es h =
    delete_at-All index key rid (lower_bound index key es) P es h

delete_at-Ordered :
    (index : IndexMeta) (key : List ℕ) (rid : Rid) (n : ℕ)
    (R : RuntimeIndexEntry → RuntimeIndexEntry → Type 0) (es : Entries)
    → Ordered R es
    → Ordered R (delete_at index key rid n es)
delete_at-Ordered index key rid zero R es h = erase_run-Ordered index key rid R es h
delete_at-Ordered index key rid (suc n) R [] h = erase_run-Ordered index key rid R [] h
delete_at-Ordered index key rid (suc n) R (e ∷ es) h =
    (delete_at-All index key rid n (R e) es h.0, delete_at-Ordered index key rid n R es h.1)

-- Deleting an entry keeps the others in their order.
pub delete_entry-Ordered :
    (index : IndexMeta) (key : List ℕ) (rid : Rid)
    (R : RuntimeIndexEntry → RuntimeIndexEntry → Type 0) (es : Entries)
    → Ordered R es
    → Ordered R (delete_entry index key rid es)
unfolding delete_entry
delete_entry-Ordered index key rid R es h =
    delete_at-Ordered index key rid (lower_bound index key es) R es h
