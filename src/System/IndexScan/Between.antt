-- ===== src/System/IndexScan/Between.antt =====
-- The entries between two bounds are those that no bound shuts out.

use myrmdb.Prelude.{
  ℕ, suc, ◌-◌, ◌≡◌, refl, ap, ◌∙◌, Bool, true, false, List, [], ◌∷◌, some, take, drop, length, All,
  map, arith, inl, inr, ◌⊎◌, Bool-cases,
}
use myrmdb.Concurrency.Transaction.{Rid}
use myrmdb.System.Entries.{RuntimeIndexEntry, Entries, bound, rid_eq}
use myrmdb.System.Entries.Find.{find}
use myrmdb.System.Entries.Sorted.{Ordered}

-- The entry stands in the list.
abbrev pub Has : RuntimeIndexEntry → Entries → Type 0
Has e [] = ⊥
Has e (x ∷ xs) = (x ≡ e) ⊎ Has e xs

abbrev pub HasRid : Rid → List Rid → Type 0
HasRid r [] = ⊥
HasRid r (x ∷ xs) = (x ≡ r) ⊎ HasRid r xs

pub HasRid-map :
    (e : RuntimeIndexEntry) (es : Entries)
    → Has e es
    → HasRid e.rid (map (λ (x : RuntimeIndexEntry). x.rid) es)
HasRid-map e [] h = h
HasRid-map e (x ∷ xs) (inl same) = inl (ap (λ (y : RuntimeIndexEntry). y.rid) same)
HasRid-map e (x ∷ xs) (inr h) = inr (HasRid-map e xs h)

-- What a search finds stands in the list.
pub find-Has :
    (rid : Rid) (key : List ℕ) (es : Entries)
    → find rid es ≡ some key
    → Has (record { key = key; rid = rid }) es
unfolding find
find-Has rid key [] e = absurd (cc e)
find-Has rid key (x ∷ xs) e = elim (rid_eq x.rid rid) [
  | yes same ↦ inl (ground (arith, e, same))
  | no ne ↦ inr (find-Has rid key xs (ground (arith, e, ne)))
]

-- The relation under which the entries before one that passes the test pass it.
abbrev pub Carries : (RuntimeIndexEntry → Bool) → RuntimeIndexEntry → RuntimeIndexEntry → Type 0
Carries test x y = test y ≡ true → test x ≡ true

Carries-Has :
    (test : RuntimeIndexEntry → Bool) (e x : RuntimeIndexEntry) (es : Entries)
    → All (Carries test x) es
    → Has e es
    → test e ≡ true
    → test x ≡ true
Carries-Has test e x [] c h t = absurd h
Carries-Has test e x (y ∷ ys) c (inl same) t = c.0 (ap test same ∙ t)
Carries-Has test e x (y ∷ ys) c (inr h) t = Carries-Has test e x ys c.1 h t

Has-take :
    (test : RuntimeIndexEntry → Bool) (e : RuntimeIndexEntry) (es : Entries)
    → Ordered (Carries test) es
    → Has e es
    → test e ≡ true
    → Has e (take (bound test es) es)
unfolding bound
Has-take test e [] c h t = h
Has-take test e (x ∷ xs) c (inl same) t = rw (ap test same ∙ t) (inl same)
Has-take test e (x ∷ xs) c (inr h) t =
    rw (Carries-Has test e x xs c.0 h t) (inr (Has-take test e xs c.1 h t))

-- An entry that fails the lower test and passes the upper one is between the bounds.
pub Has-between :
    (low high : RuntimeIndexEntry → Bool) (e : RuntimeIndexEntry) (es : Entries)
    → Ordered (Carries high) es
    → Has e es
    → low e ≡ false
    → high e ≡ true
    → Has e (take (bound high es - bound low es) (drop (bound low es) es))
unfolding bound
Has-between low high e [] c h f t = h
Has-between low high e (x ∷ xs) c h f t = elim (Bool-cases (low x)) [
  | inr miss ↦
      let n = bound high (x ∷ xs) in
      let all : n - 0 ≡ n = omega arith in rw (miss, all) (Has-take high e (x ∷ xs) c h t)
  | inl hit ↦ rw hit (elim h [
    | inl same ↦ absurd (let g = ap low same ∙ f in ground (arith, hit, g))
    | inr rest ↦
        let n = bound high xs in
        let m = bound low xs in
        let one : suc n - suc m ≡ n - m = omega arith in
        rw (Carries-Has high e x xs c.0 rest t, one) (Has-between low high e xs c.1 rest f t)
  ])
]

pub bound_none : (es : Entries) → bound (λ e. false) es ≡ 0
unfolding bound
bound_none [] = refl
bound_none (x ∷ xs) = refl

pub bound_all : (es : Entries) → bound (λ e. true) es ≡ length es
unfolding bound
bound_all [] = refl
bound_all (x ∷ xs) = ap suc (bound_all xs)
