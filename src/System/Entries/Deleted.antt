-- ===== src/System/Entries/Deleted.antt =====
-- Deleting an entry from an index takes away that entry and no other.
use Prim.Native.Nat.{Ordering}
use myrmdb.Prelude.{
  ℕ, zero, suc, ◌≡◌, ◌≢◌, sym, ◌∙◌, List, [], ◌∷◌, none, some, ite, if_pos, if_neg, All, arith,
  Bool-cases, if_both, inl, inr,
}
use mathlib.Core.Path.{subst}
use myrmdb.Prelude.Assoc.{some_inj}
use myrmdb.Concurrency.Transaction.{Rid}
use myrmdb.System.Values.Laws.{swapped}
use myrmdb.System.Keys.{IndexMeta, compare_index_key, compare_index_prefix, key_equal}
use myrmdb.System.Keys.Order.{IsKey, compare_cols_swap}
use myrmdb.System.Entries.{
  RuntimeIndexEntry, Entries, bound, below, lower_bound, delete_entry, erase_run, same_rid, rid_eq,
}
use myrmdb.System.Entries.Find.{find, Once}
use myrmdb.System.Entries.Sorted.{NotAbove, Sorted, HasKey, NotAbove-all, below-NotAbove, delete_at}

abbrev entry : List ℕ → Rid → RuntimeIndexEntry
entry key rid = record { key = key; rid = rid }

pub compare_index_swap :
    (index : IndexMeta) (a b : List ℕ)
    → compare_index_key index b a ≡ swapped (compare_index_key index a b)
unfolding compare_index_key compare_index_prefix
compare_index_swap index = compare_cols_swap index.col_num index.cols

compare_self :
    (index : IndexMeta) (a b : List ℕ) → a ≡ b → compare_index_key index a b ≡ Ordering.eq
compare_self index a b e = rw e (let s = compare_index_swap index b b in ground (arith, s))

-- What holds of all entries holds of the one that is found.
pub find-All {κ} :
    (P : List ℕ → Type κ) (rid : Rid) (key : List ℕ) (es : Entries)
    → All (λ e. P e.key) es
    → find rid es ≡ some key
    → P key
unfolding find
find-All P rid key [] h e = absurd (cc e)
find-All P rid key (x ∷ xs) h e = elim (rid_eq x.rid rid) [
  | yes same ↦
      let e' : x.key ≡ key = some_inj (sym (if_pos (rid_eq x.rid rid) same _ _) ∙ e) in
      subst P e' h.0
  | no ne ↦ find-All P rid key xs h.1 (sym (if_neg (rid_eq x.rid rid) ne _ _) ∙ e)
]

-- The entries from the first one that is not below the key on.
find-erase_run :
    (index : IndexMeta) (key : List ℕ) (rid r : Rid) (es : Entries)
    → Sorted index es
    → Once es
    → All (NotAbove index (entry key rid)) es
    → find rid es ≡ some key
    → find r (erase_run index key rid es) ≡ ite (rid_eq rid r) none (find r es)
unfolding find erase_run key_equal
find-erase_run index key rid r [] s o h e = ground (arith, e)
find-erase_run index key rid r (x ∷ xs) s o h e = elim (rid_eq x.rid rid) [
  | yes same ↦
      let c = compare_self index x.key key in
      let e' : x.key ≡ key = some_inj (sym (if_pos (rid_eq x.rid rid) same _ _) ∙ e) in
      ground (arith, same, c e', o.0)
  | no ne ↦
      let e' : find rid xs ≡ some key = sym (if_neg (rid_eq x.rid rid) ne _ _) ∙ e in
      let le = find-All (λ k. compare_index_key index x.key k ≢ Ordering.gt) rid key xs s.0 e' in
      let c : compare_index_key index x.key key ≡ Ordering.eq =
        ground (arith, le, h.0, compare_index_swap index x.key key) in
      ground (arith, ne, c, o.0, find-erase_run index key rid r xs s.1 o.1 h.1 e')
]

find-delete_at :
    (index : IndexMeta) (key : List ℕ) (rid r : Rid) (es : Entries)
    → IsKey index.cols key
    → All (HasKey index) es
    → Sorted index es
    → Once es
    → find rid es ≡ some key
    → find r (delete_at index key rid (bound (below index key) es) es)
      ≡ ite (rid_eq rid r) none (find r es)
unfolding find bound
find-delete_at index key rid r [] w k s o e = ground (arith, e)
find-delete_at index key rid r (x ∷ xs) w k s o e = elim (Bool-cases (below index key x)) [
  | inl hit ↦
      let c = compare_self index x.key key in
      let ne : x.key ≢ key = λ same. let c' = c same in ground (arith, hit, c') in
      let e' : find rid xs ≡ some key = ground (arith, e, ne) in
      rw hit (ground (arith, e, ne, find-delete_at index key rid r xs w k.1 s.1 o.1 e'))
  | inr miss ↦
      let first = below-NotAbove index (entry key rid) x miss in
      let rest = NotAbove-all index (entry key rid) x xs w k.0 k.1 first s.0 in
      rw miss (find-erase_run index key rid r (x ∷ xs) s o (first, rest) e)
]

pub find-delete_entry :
    (index : IndexMeta) (key : List ℕ) (rid r : Rid) (es : Entries)
    → IsKey index.cols key
    → All (HasKey index) es
    → Sorted index es
    → Once es
    → find rid es ≡ some key
    → find r (delete_entry index key rid es) ≡ ite (rid_eq rid r) none (find r es)
unfolding delete_entry lower_bound
find-delete_entry index key rid r es = find-delete_at index key rid r es

find-erase_run-none :
    (index : IndexMeta) (key : List ℕ) (rid r : Rid) (es : Entries)
    → find r es ≡ none
    → find r (erase_run index key rid es) ≡ none
unfolding find erase_run
find-erase_run-none index key rid r [] h = h
find-erase_run-none index key rid r (x ∷ xs) h =
    ground (arith, h, find-erase_run-none index key rid r xs)

Once-erase_run :
    (index : IndexMeta) (key : List ℕ) (rid : Rid) (es : Entries)
    → Once es
    → Once (erase_run index key rid es)
unfolding erase_run
Once-erase_run index key rid [] h = tt
Once-erase_run index key rid (x ∷ xs) h =
    let Q : Entries → Type 0 = Once in
    let rest = find-erase_run-none index key rid x.rid xs h.0 in
    if_both Q (key_equal index x.key key) _ (x ∷ xs)
      (if_both Q (same_rid x.rid rid) xs _ h.1 (rest, Once-erase_run index key rid xs h.1)) h

find-delete_at-none :
    (index : IndexMeta) (key : List ℕ) (rid r : Rid) (n : ℕ) (es : Entries)
    → find r es ≡ none
    → find r (delete_at index key rid n es) ≡ none
unfolding find
find-delete_at-none index key rid r zero es h = find-erase_run-none index key rid r es h
find-delete_at-none index key rid r (suc n) [] h = find-erase_run-none index key rid r [] h
find-delete_at-none index key rid r (suc n) (x ∷ xs) h =
    ground (arith, h, find-delete_at-none index key rid r n xs)

Once-delete_at :
    (index : IndexMeta) (key : List ℕ) (rid : Rid) (n : ℕ) (es : Entries)
    → Once es
    → Once (delete_at index key rid n es)
Once-delete_at index key rid zero es h = Once-erase_run index key rid es h
Once-delete_at index key rid (suc n) [] h = Once-erase_run index key rid [] h
Once-delete_at index key rid (suc n) (x ∷ xs) h =
    (find-delete_at-none index key rid x.rid n xs h.0, Once-delete_at index key rid n xs h.1)

pub Once-delete_entry :
    (index : IndexMeta) (key : List ℕ) (rid : Rid) (es : Entries)
    → Once es
    → Once (delete_entry index key rid es)
unfolding delete_entry
Once-delete_entry index key rid es h = Once-delete_at index key rid (lower_bound index key es) es h
