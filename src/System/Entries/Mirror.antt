-- ===== src/System/Entries/Mirror.antt =====
-- An index and the records of its table, while both change.

use myrmdb.Prelude.{
  ℕ, ◌≡◌, refl, sym, ap, ◌∙◌, false, List, [], Option, none, some, ite, if_pos, All, arith,
  Bool-cases, inl, inr,
}
use mathlib.Core.Path.{subst}
use myrmdb.Concurrency.Transaction.{Rid}
use myrmdb.Errors.{ok, ok_inj}
use myrmdb.System.Keys.{IndexMeta, make_index_key}
use myrmdb.System.Keys.Order.{IsKey}
use myrmdb.System.Entries.{
  RuntimeIndexEntry, Entries, lower_bound, insert_entry, delete_entry, update_entry, is_duplicate,
  rid_eq,
}
use myrmdb.System.Entries.Find.{find, Once, find-insert_at, Once-insert_at}
use myrmdb.System.Entries.Sorted.{HasKey, All-insert_at, delete_entry-All, delete_entry-Ordered}
use myrmdb.System.Entries.Unique.{
  Strict, Strict-Sorted, is_duplicate-any_duplicate, insert_entry-Strict,
  any_duplicate-delete_entry, Below,
}
use myrmdb.System.Entries.Deleted.{find-delete_entry, Once-delete_entry, find-All}

-- The records of a table: the bytes at each position.
abbrev pub Table : Type 0
Table = Rid → Option (List ℕ)

unfoldable pub put : Table → Rid → Option (List ℕ) → Table
put f rid x r = ite (rid_eq rid r) x (f r)

abbrev pub key_of : IndexMeta → Option (List ℕ) → Option (List ℕ)
key_of index none = none
key_of index (some rec) = some (make_index_key index rec)

-- The index has one entry for each record, with its key, and the keys go up.
pub record Agrees (index : IndexMeta) (f : Table) (es : Entries) : Type 0 where
  pub keys : All (HasKey index) es
  pub strict : Strict index es
  pub once : Once es
  pub finds : (r : Rid) → find r es ≡ key_of index (f r)

-- What an insertion, a deletion and an update do to the table and to one of its indexes.
pub data Step (index : IndexMeta) : Table × Entries → Table × Entries → Type 0 where
  inserted :
      (f : Table) (es : Entries) (rid : Rid) (rec : List ℕ)
      → f rid ≡ none
      → IsKey index.cols (make_index_key index rec)
      → is_duplicate index (make_index_key index rec) none es ≡ false
      → Step index
          (f, es)
          (
            put f rid (some rec),
            insert_entry index (record { key = make_index_key index rec; rid = rid }) es,
          )
  deleted :
      (f : Table) (es : Entries) (rid : Rid) (rec : List ℕ)
      → f rid ≡ some rec
      → Step index (f, es) (put f rid none, delete_entry index (make_index_key index rec) rid es)
  updated :
      (f : Table) (es es' : Entries) (rid : Rid) (old_rec new_rec : List ℕ)
      → f rid ≡ some old_rec
      → IsKey index.cols (make_index_key index new_rec)
      → update_entry index old_rec new_rec rid es ≡ ok es'
      → Step index (f, es) (put f rid (some new_rec), es')

-- Any number of steps.
pub data Steps (index : IndexMeta) : Table × Entries → Table × Entries → Type 0 where
  done : (s : Table × Entries) → Steps index s s
  more : (s t u : Table × Entries) → Step index s t → Steps index t u → Steps index s u

pub insert-Agrees :
    (index : IndexMeta) (f : Table) (es : Entries) (rid : Rid) (rec : List ℕ)
    → Agrees index f es
    → f rid ≡ none
    → IsKey index.cols (make_index_key index rec)
    → is_duplicate index (make_index_key index rec) none es ≡ false
    → Agrees index
        (put f rid (some rec))
        (insert_entry index (record { key = make_index_key index rec; rid = rid }) es)
unfolding insert_entry put
insert-Agrees index f es rid rec a n k d =
    let e : RuntimeIndexEntry = record { key = make_index_key index rec; rid = rid } in
    let at = lower_bound index e.key es in
    let out : find rid es ≡ none = a.finds rid ∙ ap (key_of index) n in
    record {
      keys = All-insert_at (HasKey index) at e es k a.keys;
      strict = insert_entry-Strict index e es k a.keys a.strict d;
      once = Once-insert_at at e es out a.once;
      finds = λ r. let i = find-insert_at at e es r out in ground (arith, i, a.finds r);
    }

pub delete-Agrees :
    (index : IndexMeta) (f : Table) (es : Entries) (rid : Rid) (rec : List ℕ)
    → Agrees index f es
    → f rid ≡ some rec
    → Agrees index (put f rid none) (delete_entry index (make_index_key index rec) rid es)
unfolding put
delete-Agrees index f es rid rec a h =
    let key = make_index_key index rec in
    let here : find rid es ≡ some key = a.finds rid ∙ ap (key_of index) h in
    let k = find-All (IsKey index.cols) rid key es a.keys here in
    let s = Strict-Sorted index es a.strict in
    record {
      keys = delete_entry-All index key rid (HasKey index) es a.keys;
      strict = delete_entry-Ordered index key rid (Below index) es a.strict;
      once = Once-delete_entry index key rid es a.once;
      finds = λ r.
          let i = find-delete_entry index key rid r es k a.keys s a.once here in
          ground (arith, i, a.finds r);
    }

-- A table is seen through what it holds.
Agrees-same :
    (index : IndexMeta) (f g : Table) (es : Entries)
    → ((r : Rid) → f r ≡ g r)
    → Agrees index f es
    → Agrees index g es
Agrees-same index f g es h a = record {
  keys = a.keys;
  strict = a.strict;
  once = a.once;
  finds = λ r. a.finds r ∙ ap (key_of index) (h r);
}

-- Between the deletion and the insertion of an update, no entry has the new key.
pub moved-Agrees :
    (index : IndexMeta) (f : Table) (es : Entries) (rid : Rid) (old_rec new_rec : List ℕ)
    → Agrees index f es
    → f rid ≡ some old_rec
    → IsKey index.cols (make_index_key index new_rec)
    → is_duplicate index (make_index_key index new_rec) (some rid) es ≡ false
    → let left = delete_entry index (make_index_key index old_rec) rid es in
      Agrees index (put f rid none) left
      × (is_duplicate index (make_index_key index new_rec) none left ≡ false)
unfolding put
moved-Agrees index f es rid old_rec new_rec a h k miss =
    let key = make_index_key index new_rec in
    let old_key = make_index_key index old_rec in
    let left = delete_entry index old_key rid es in
    let a' = delete-Agrees index f es rid old_rec a h in
    let empty : put f rid none rid ≡ none = if_pos (rid_eq rid rid) refl none (f rid) in
    let out : find rid left ≡ none = a'.finds rid ∙ ap (key_of index) empty in
    let d = is_duplicate-any_duplicate index key (some rid) es k a.keys a.strict in
    let d' = any_duplicate-delete_entry index key old_key rid es (sym d ∙ miss) out in
    (a', is_duplicate-any_duplicate index key none left k a'.keys a'.strict ∙ d')

pub replaced-Agrees :
    (index : IndexMeta) (f : Table) (left : Entries) (rid : Rid) (new_rec : List ℕ)
    → Agrees index (put f rid none) left
    → IsKey index.cols (make_index_key index new_rec)
    → is_duplicate index (make_index_key index new_rec) none left ≡ false
    → Agrees index
        (put f rid (some new_rec))
        (insert_entry index (record { key = make_index_key index new_rec; rid = rid }) left)
unfolding put
replaced-Agrees index f left rid new_rec a k d =
    let empty : put f rid none rid ≡ none = if_pos (rid_eq rid rid) refl none (f rid) in
    Agrees-same index _ (put f rid (some new_rec)) _ (λ r. ground arith)
      (insert-Agrees index (put f rid none) left rid new_rec a empty k d)

update-Agrees :
    (index : IndexMeta) (f : Table) (es es' : Entries) (rid : Rid) (old_rec new_rec : List ℕ)
    → Agrees index f es
    → f rid ≡ some old_rec
    → IsKey index.cols (make_index_key index new_rec)
    → update_entry index old_rec new_rec rid es ≡ ok es'
    → Agrees index (put f rid (some new_rec)) es'
unfolding update_entry
update-Agrees index f es es' rid old_rec new_rec a h k u =
    let key = make_index_key index new_rec in
    let left = delete_entry index (make_index_key index old_rec) rid es in
    elim (Bool-cases (is_duplicate index key (some rid) es)) [
      | inl hit ↦ ground (arith, hit, u)
      | inr miss ↦
          let moved = moved-Agrees index f es rid old_rec new_rec a h k miss in
          let new = insert_entry index (record { key = key; rid = rid }) left in
          let u' : ok new ≡ ok es' = ground (arith, miss, u) in
          subst (Agrees index (put f rid (some new_rec))) (ok_inj u')
            (replaced-Agrees index f left rid new_rec moved.0 k moved.1)
    ]

Step-Agrees :
    (index : IndexMeta) (s t : Table × Entries)
    → Step index s t
    → Agrees index s.0 s.1
    → Agrees index t.0 t.1
Step-Agrees index _ _ (inserted f es rid rec n k d) a = insert-Agrees index f es rid rec a n k d
Step-Agrees index _ _ (deleted f es rid rec h) a = delete-Agrees index f es rid rec a h
Step-Agrees index _ _ (updated f es es' rid old_rec new_rec h k u) a =
    update-Agrees index f es es' rid old_rec new_rec a h k u

-- An index that agrees with its table, with keys that go up, still does after any number of
-- insertions that pass the check for duplicates, of deletions, and of updates that return, if no
-- new key has a NaN in it.
pub Steps-Agrees :
    (index : IndexMeta) (s t : Table × Entries)
    → Steps index s t
    → Agrees index s.0 s.1
    → Agrees index t.0 t.1
Steps-Agrees index _ _ (done s) a = a
Steps-Agrees index _ _ (more s t u step rest) a =
    Steps-Agrees index t u rest (Step-Agrees index s t step a)

-- An index without entries agrees with a table without records.
pub empty-Agrees : (index : IndexMeta) → Agrees index (λ r. none) []
unfolding find
empty-Agrees index = record { keys = tt; strict = tt; once = tt; finds = λ r. refl }
