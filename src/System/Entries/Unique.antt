-- ===== src/System/Entries/Unique.antt =====
-- The entries of a unique index have keys that differ, and the check before an insertion finds the
-- key if an entry has it.
use Prim.Native.Nat.{Ordering}
use myrmdb.Prelude.{
  ℕ, ◌≡◌, refl, ◌∙◌, Bool, false, ◌&&◌, ◌||◌, List, [], ◌∷◌, Option, none, some, All, arith,
  Bool-cases, inl, inr,
}
use myrmdb.Concurrency.Transaction.{Rid}
use myrmdb.System.Keys.{IndexMeta, compare_index_key, compare_index_prefix, key_equal}
use myrmdb.System.Values.Laws.{swapped}
use myrmdb.System.Keys.Order.{IsKey, compare_cols_swap, compare_cols_lt, compare_cols_eq}
use myrmdb.System.Entries.{
  RuntimeIndexEntry, Entries, bound, below, lower_bound, insert_entry, delete_entry, is_duplicate,
  is_other,
}
use myrmdb.System.Entries.Find.{find}
use myrmdb.System.Entries.Sorted.{
  HasKey, NotAbove, Ordered, Sorted, All-insert_at, delete_entry-All,
}

abbrev pub Below : IndexMeta → RuntimeIndexEntry → RuntimeIndexEntry → Type 0
Below index e x = compare_index_key index e.key x.key ≡ Ordering.lt

-- The keys go up.
abbrev pub Strict : IndexMeta → Entries → Type 0
Strict index = Ordered (Below index)

Below-NotAbove :
    (index : IndexMeta) (e : RuntimeIndexEntry) (es : Entries)
    → All (Below index e) es
    → All (NotAbove index e) es
Below-NotAbove index e [] h = tt
Below-NotAbove index e (x ∷ xs) h = (ground (arith, h.0), Below-NotAbove index e xs h.1)

pub Strict-Sorted : (index : IndexMeta) (es : Entries) → Strict index es → Sorted index es
Strict-Sorted index [] h = tt
Strict-Sorted index (e ∷ es) h = (Below-NotAbove index e es h.0, Strict-Sorted index es h.1)

-- Whether an entry other than `self` has the key.
abbrev pub any_duplicate : IndexMeta → List ℕ → Option Rid → Entries → Bool
any_duplicate index key self [] = false
any_duplicate index key self (e ∷ es) =
    (key_equal index e.key key && is_other self e.rid) || any_duplicate index key self es

pub Below-all :
    (index : IndexMeta) (a b : RuntimeIndexEntry) (es : Entries)
    → HasKey index a
    → HasKey index b
    → All (HasKey index) es
    → Below index a b
    → All (Below index b) es
    → All (Below index a) es
unfolding compare_index_key compare_index_prefix
Below-all index a b [] h k l e f = tt
Below-all index a b (x ∷ xs) h k l e f = (
  compare_cols_lt index.col_num index.cols a.key b.key x.key h k l.0 e f.0,
  Below-all index a b xs h k l.1 e f.1,
)

-- Behind an entry whose key is not below, no entry has the key.
no_duplicate_after :
    (index : IndexMeta) (key : List ℕ) (self : Option Rid) (x : RuntimeIndexEntry) (es : Entries)
    → IsKey index.cols key
    → HasKey index x
    → All (HasKey index) es
    → below index key x ≡ false
    → All (Below index x) es
    → any_duplicate index key self es ≡ false
unfolding key_equal compare_index_key compare_index_prefix
no_duplicate_after index key self x [] h k l b f = refl
no_duplicate_after index key self x (y ∷ ys) h k l b f =
    let n = index.col_num in
    let c = index.cols in
    ground (
      arith,
      b,
      f.0,
      no_duplicate_after index key self x ys h k l.1 b f.1,
      compare_cols_swap n c x.key y.key,
      compare_cols_swap n c x.key key,
      compare_cols_swap n c y.key key,
      compare_cols_eq n c y.key key x.key l.0 h,
    )

-- The check looks at one entry, and finds what a search of all entries finds.
pub is_duplicate-any_duplicate :
    (index : IndexMeta) (key : List ℕ) (self : Option Rid) (es : Entries)
    → IsKey index.cols key
    → All (HasKey index) es
    → Strict index es
    → is_duplicate index key self es ≡ any_duplicate index key self es
unfolding is_duplicate lower_bound bound key_equal
is_duplicate-any_duplicate index key self [] h k s = refl
is_duplicate-any_duplicate index key self (x ∷ xs) h k s = elim (Bool-cases (below index key x)) [
  | inl hit ↦
      let rest = is_duplicate-any_duplicate index key self xs h k.1 s.1 in ground (arith, hit, rest)
  | inr miss ↦
      let rest = no_duplicate_after index key self x xs h k.0 k.1 miss s.0 in
      ground (arith, miss, rest)
]

compare_index_swap :
    (index : IndexMeta) (a b : List ℕ)
    → compare_index_key index b a ≡ swapped (compare_index_key index a b)
unfolding compare_index_key compare_index_prefix
compare_index_swap index = compare_cols_swap index.col_num index.cols

-- An entry whose key no entry has goes between the others.
pub insert_entry-Strict :
    (index : IndexMeta) (e : RuntimeIndexEntry) (es : Entries)
    → HasKey index e
    → All (HasKey index) es
    → Strict index es
    → is_duplicate index e.key none es ≡ false
    → Strict index (insert_entry index e es)
unfolding insert_entry lower_bound is_duplicate bound key_equal
insert_entry-Strict index e [] h k s d = (tt, tt)
insert_entry-Strict index e (x ∷ xs) h k s d = elim (Bool-cases (below index e.key x)) [
  | inl hit ↦
      let n = bound (below index e.key) xs in
      let first : Below index x e = ground (arith, hit) in
      let d' : is_duplicate index e.key none xs ≡ false = ground (arith, hit, d) in
      rw hit (
        All-insert_at (Below index x) n e xs first s.0,
        insert_entry-Strict index e xs h k.1 s.1 d',
      )
  | inr miss ↦
      let first : Below index e x = ground (arith, miss, d, compare_index_swap index x.key e.key) in
      rw miss ((first, Below-all index e x xs h k.0 k.1 first s.0), s)
]

-- The entry is not a second one with the key.
abbrev NoDuplicate : IndexMeta → List ℕ → Option Rid → RuntimeIndexEntry → Type 0
NoDuplicate index key self e = (key_equal index e.key key && is_other self e.rid) ≡ false

any_duplicate-All :
    (index : IndexMeta) (key : List ℕ) (self : Option Rid) (es : Entries)
    → any_duplicate index key self es ≡ false
    → All (NoDuplicate index key self) es
any_duplicate-All index key self [] h = tt
any_duplicate-All index key self (e ∷ es) h =
    (ground (arith, h), any_duplicate-All index key self es (ground (arith, h)))

All-any_duplicate :
    (index : IndexMeta) (key : List ℕ) (self : Option Rid) (es : Entries)
    → All (NoDuplicate index key self) es
    → any_duplicate index key self es ≡ false
All-any_duplicate index key self [] h = refl
All-any_duplicate index key self (e ∷ es) h =
    let rest = All-any_duplicate index key self es h.1 in ground (arith, h.0, rest)

-- Where `self` has no entry, its entry is no exception.
any_duplicate-none :
    (index : IndexMeta) (key : List ℕ) (self : Rid) (es : Entries)
    → find self es ≡ none
    → any_duplicate index key none es ≡ any_duplicate index key (some self) es
unfolding find
any_duplicate-none index key self [] h = refl
any_duplicate-none index key self (e ∷ es) h =
    ground (arith, h, any_duplicate-none index key self es)

-- Without its own entry, a record has no duplicate left.
pub any_duplicate-delete_entry :
    (index : IndexMeta) (key old_key : List ℕ) (rid : Rid) (es : Entries)
    → any_duplicate index key (some rid) es ≡ false
    → find rid (delete_entry index old_key rid es) ≡ none
    → any_duplicate index key none (delete_entry index old_key rid es) ≡ false
any_duplicate-delete_entry index key old_key rid es h out =
    let left = delete_entry index old_key rid es in
    let All-left =
      delete_entry-All index old_key rid (NoDuplicate index key (some rid)) es
        (any_duplicate-All index key (some rid) es h) in
    any_duplicate-none index key rid left out ∙ All-any_duplicate index key (some rid) left All-left
