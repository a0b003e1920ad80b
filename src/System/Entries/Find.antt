-- ===== src/System/Entries/Find.antt =====
-- The entries of an index as a map from positions to keys.

use myrmdb.Prelude.{
  ℕ, zero, suc, ◌≡◌, refl, List, [], ◌∷◌, ◌++◌, Option, none, some, ite, take, drop, arith,
}
use myrmdb.Concurrency.Transaction.{Rid}
use myrmdb.System.Entries.{RuntimeIndexEntry, Entries, rid_eq}

-- The key of the first entry for the position.
unfoldable pub find : Rid → Entries → Option (List ℕ)
find rid [] = none
find rid (e ∷ es) = ite (rid_eq e.rid rid) (some e.key) (find rid es)

-- No position has two entries.
abbrev pub Once : Entries → Type 0
Once [] = Unit {0}
Once (e ∷ es) = (find e.rid es ≡ none) × Once es

abbrev pub insert_at : ℕ → RuntimeIndexEntry → Entries → Entries
insert_at n e es = take n es ++ (e ∷ drop n es)

pub find-insert_at :
    (n : ℕ) (e : RuntimeIndexEntry) (es : Entries) (rid : Rid)
    → find e.rid es ≡ none
    → find rid (insert_at n e es) ≡ ite (rid_eq e.rid rid) (some e.key) (find rid es)
unfolding find
find-insert_at zero e es rid h = refl
find-insert_at (suc n) e [] rid h = refl
find-insert_at (suc n) e (x ∷ xs) rid h = ground (arith, h, find-insert_at n e xs rid)

pub Once-insert_at :
    (n : ℕ) (e : RuntimeIndexEntry) (es : Entries)
    → find e.rid es ≡ none
    → Once es
    → Once (insert_at n e es)
unfolding find
Once-insert_at zero e es h k = (h, k)
Once-insert_at (suc n) e [] h k = (h, k)
Once-insert_at (suc n) e (x ∷ xs) h k = (
  ground (arith, h, k.0, find-insert_at n e xs x.rid),
  Once-insert_at n e xs (ground (arith, h)) k.1,
)
