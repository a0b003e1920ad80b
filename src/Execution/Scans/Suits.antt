-- ===== src/Execution/Scans/Suits.antt =====
-- What a table, its index and the conditions of a scan have to do with each other.
use myrmdb.Prelude.{
  ℕ, zero, suc, ◌≡◌, refl, ap, ◌∙◌, Bool, true, List, [], ◌∷◌, some, if_pos, if_neg, map, take,
  drop, length, All, arith,
}
use myrmdb.Concurrency.Transaction.{Rid}
use myrmdb.Errors.{ok}
use myrmdb.System.Values.{
  Name, same_name, ColMeta, TabCol, Condition, find_col_meta, rhs_of, eval_condition,
  eval_conditions,
}
use myrmdb.System.Keys.{IndexMeta}
use myrmdb.System.Entries.{RuntimeIndexEntry, Entries, rid_eq}
use myrmdb.System.Entries.Find.{find}
use myrmdb.System.Entries.Mirror.{Table}
use myrmdb.System.IndexScan.{is_on, raw_data}
use myrmdb.System.IndexScan.Prefixes.{Fits, Serves}
use myrmdb.System.IndexScan.Bounds.{Meets}

pub same_name_eq : (a b : Name) → same_name a b ≡ true → a ≡ b
same_name_eq [] [] h = refl
same_name_eq [] (d ∷ ds) h = absurd (cc h)
same_name_eq (c ∷ cs) [] h = absurd (cc h)
same_name_eq (c ∷ cs) (d ∷ ds) h =
    let rest = same_name_eq cs ds (ground (arith, h)) in
    let first : c ≡ d = ground (arith, h) in ap (λ x. x ∷ cs) first ∙ ap (◌∷◌ d) rest

-- The conditions that a record meets, one by one.
pub eval_conditions-All :
    (cols : List ColMeta) (conds : List Condition) (rec : List ℕ)
    → eval_conditions cols conds rec ≡ ok true
    → All (λ cond. eval_condition cols cond rec ≡ ok true) conds
unfolding eval_conditions
eval_conditions-All cols [] rec h = tt
eval_conditions-All cols (cond ∷ conds) rec h =
    (ground (arith, h), eval_conditions-All cols conds rec (ground (arith, h)))

-- The column of the index is the one that its name finds.
abbrev pub Finds : List ColMeta → Name → ColMeta → Type 0
Finds cols tab_name col =
    find_col_meta cols (record { tab_name = tab_name; col_name = col.name }) ≡ ok col

-- A value on the right is one of the column's.
abbrev pub Typed : Name → ColMeta → Condition → Type 0
Typed tab_name col cond = is_on tab_name col cond ≡ true → Serves col (raw_data cond)

eval_condition-Meets :
    (cols : List ColMeta) (tab_name : Name) (col : ColMeta) (cond : Condition) (rec : List ℕ)
    → Finds cols tab_name col
    → Typed tab_name col cond
    → eval_condition cols cond rec ≡ ok true
    → Meets tab_name rec col cond
unfolding eval_condition rhs_of
eval_condition-Meets cols tab_name col cond rec f t h on =
    let is_val : cond.is_rhs_val ≡ true = ground (arith, on) in
    let tab = same_name_eq cond.lhs_col.tab_name tab_name (ground (arith, on)) in
    let name = same_name_eq cond.lhs_col.col_name col.name (ground (arith, on)) in
    let target : TabCol = record { tab_name = tab_name; col_name = col.name } in
    let same : cond.lhs_col ≡ target = λ i. record { tab_name = tab i; col_name = name i } in
    let found : find_col_meta cols cond.lhs_col ≡ ok col = ap (find_col_meta cols) same ∙ f in
    (t on, ground (arith, is_val, found, h))

-- The records, the index and the conditions belong together.
pub record Suits (cols : List ColMeta) (index : IndexMeta) (tab_name : Name)
    (conds : List Condition) (file : Table) : Type 0 where
  pub number : index.col_num ≡ length index.cols
  pub found : All (Finds cols tab_name) index.cols
  pub typed : All (λ col. All (Typed tab_name col) conds) index.cols
  -- A record reaches over the columns, and the conditions can be evaluated on it.
  pub fits : (rid : Rid) (rec : List ℕ) → file rid ≡ some rec → Fits index.cols rec
  pub total :
      (rid : Rid) (rec : List ℕ)
      → file rid ≡ some rec
      → (b : Bool) × (eval_conditions cols conds rec ≡ ok b)

Meets-conds :
    (cols : List ColMeta) (tab_name : Name) (col : ColMeta) (conds : List Condition) (rec : List ℕ)
    → Finds cols tab_name col
    → All (Typed tab_name col) conds
    → All (λ cond. eval_condition cols cond rec ≡ ok true) conds
    → All (Meets tab_name rec col) conds
Meets-conds cols tab_name col [] rec f t h = tt
Meets-conds cols tab_name col (cond ∷ conds) rec f t h = (
  eval_condition-Meets cols tab_name col cond rec f t.0 h.0,
  Meets-conds cols tab_name col conds rec f t.1 h.1,
)

pub Meets-cols :
    (cols : List ColMeta) (tab_name : Name) (after : List ColMeta) (conds : List Condition)
    (rec : List ℕ)
    → All (Finds cols tab_name) after
    → All (λ col. All (Typed tab_name col) conds) after
    → All (λ cond. eval_condition cols cond rec ≡ ok true) conds
    → All (λ col. All (Meets tab_name rec col) conds) after
Meets-cols cols tab_name [] conds rec f t h = tt
Meets-cols cols tab_name (col ∷ after) conds rec f t h = (
  Meets-conds cols tab_name col conds rec f.0 t.0 h,
  Meets-cols cols tab_name after conds rec f.1 t.1 h,
)

-- An entry's position finds an entry.
pub find-All_rid {κ} :
    (P : Rid → Type κ) (all es : Entries)
    → ((rid : Rid) (key : List ℕ) → find rid all ≡ some key → P rid)
    → All (λ (e : RuntimeIndexEntry). (key : List ℕ) × (find e.rid all ≡ some key)) es
    → All P (map (λ (e : RuntimeIndexEntry). e.rid) es)
find-All_rid P all [] f h = tt
find-All_rid P all (e ∷ es) f h = (f e.rid h.0.0 h.0.1, find-All_rid P all es f h.1)

pub All-take {ℓ κ} :
    {A : Type ℓ} (P : A → Type κ) (n : ℕ) (xs : List A) → All P xs → All P (take n xs)
All-take P zero xs h = tt
All-take P (suc n) [] h = tt
All-take P (suc n) (x ∷ xs) h = (h.0, All-take P n xs h.1)

pub All-drop {ℓ κ} :
    {A : Type ℓ} (P : A → Type κ) (n : ℕ) (xs : List A) → All P xs → All P (drop n xs)
All-drop P zero xs h = h
All-drop P (suc n) [] h = tt
All-drop P (suc n) (x ∷ xs) h = All-drop P n xs h.1

pub find_again :
    (es more : Entries)
    → ((rid : Rid) (key : List ℕ)
        → find rid es ≡ some key
        → (k : List ℕ) × (find rid more ≡ some k))
    → All (λ (e : RuntimeIndexEntry). (key : List ℕ) × (find e.rid more ≡ some key)) es
unfolding find
find_again [] more f = tt
find_again (e ∷ es) more f = (
  f e.rid e.key (if_pos (rid_eq e.rid e.rid) refl (some e.key) _),
  find_again es more (λ rid key h. elim (rid_eq e.rid rid) [
    | yes same ↦ f rid e.key (if_pos (rid_eq e.rid rid) same (some e.key) _)
    | no ne ↦ f rid key (if_neg (rid_eq e.rid rid) ne (some e.key) _ ∙ h)
  ]),
)
