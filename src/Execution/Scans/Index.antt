-- ===== src/Execution/Scans/Index.antt =====
-- An index scan finds the records that meet the conditions, all of them and no others.
use myrmdb.Prelude.{
  ℕ, ◌≡◌, ◌↔◌, sym, ap, ◌∙◌, inl, inr, true, List, [], ◌∷◌, some, Option-cases, All, arith,
  if◌then◌else◌, Bool-cases,
}
use mathlib.Core.Path.{subst}
use myrmdb.Concurrency.Transaction.{Rid}
use myrmdb.Errors.{ok}
use myrmdb.System.Values.{Name, ColMeta, Condition, eval_conditions}
use myrmdb.System.Keys.{IndexMeta, make_index_key}
use myrmdb.System.Entries.{Entries}
use myrmdb.System.Entries.Find.{find}
use myrmdb.System.Entries.Unique.{Strict-Sorted}
use myrmdb.System.Entries.Mirror.{Table, Agrees, key_of}
use myrmdb.System.IndexScan.{scan_index}
use myrmdb.System.IndexScan.Between.{HasRid}
use myrmdb.System.IndexScan.Complete.{scan_index-HasRid}
use myrmdb.Execution.Scans.{begin_tuple, collect}
use myrmdb.Execution.Scans.Filter.{Sees, meets, filtered, collect-filtered}
use myrmdb.Execution.Scans.Suits.{
  eval_conditions-All, Suits, Meets-cols, find-All_rid, All-take, All-drop, find_again,
}

module _ (cols : List ColMeta) (index : IndexMeta) (tab_name : Name) (conds : List Condition)
    (file : Table) (es : Entries) (agrees : Agrees index file es)
    (suits : Suits cols index tab_name conds file) where
  Sees-found : (rid : Rid) (key : List ℕ) → find rid es ≡ some key → Sees cols conds file rid
  Sees-found rid key h = elim (Option-cases (file rid)) [
    | inl out ↦ absurd (let e = sym h ∙ agrees.finds rid ∙ ap (key_of index) out in cc)
    | inr (rec, there) ↦ let t = suits.total rid rec there in (rec, t.0, there, t.1)
  ]

  Sees-scan : All (Sees cols conds file) (scan_index index tab_name conds es)
  unfolding scan_index
  Sees-scan =
      find-All_rid (Sees cols conds file) es _ Sees-found
        (All-take _ _ _ (All-drop _ _ es (find_again es es (λ rid key h. (key, h)))))

  filtered-HasRid :
      (rid : Rid) (rids : List Rid)
      → HasRid rid rids
      → meets cols conds file rid ≡ true
      → HasRid rid (filtered cols conds file rids)
  filtered-HasRid rid [] h m = h
  filtered-HasRid rid (r ∷ rids) (inl same) m = rw (ap (meets cols conds file) same ∙ m) (inl same)
  filtered-HasRid rid (r ∷ rids) (inr h) m =
      let rest = filtered-HasRid rid rids h m in
      elim (Bool-cases (meets cols conds file r)) [
        | inl hit ↦ rw hit (inr rest)
        | inr miss ↦ rw miss rest
      ]

  HasRid-filtered :
      (rid : Rid) (rids : List Rid)
      → HasRid rid (filtered cols conds file rids)
      → meets cols conds file rid ≡ true
  HasRid-filtered rid [] h = absurd h
  HasRid-filtered rid (r ∷ rids) h = elim (Bool-cases (meets cols conds file r)) [
    | inl hit ↦
        let h' : HasRid rid
            (if true then r ∷ filtered cols conds file rids else filtered cols conds file rids) =
          subst
            (λ b.
              HasRid rid
                (if b then r ∷ filtered cols conds file rids else filtered cols conds file rids))
            hit h in
        elim h' [
          | inl same ↦ ap (meets cols conds file) (sym same) ∙ hit
          | inr rest ↦ HasRid-filtered rid rids rest
        ]
    | inr miss ↦ HasRid-filtered rid rids (
        subst
          (λ b.
            HasRid rid
              (if b then r ∷ filtered cols conds file rids else filtered cols conds file rids))
          miss h)
  ]

  -- Where an index agrees with its table, an index scan returns, and a position is among those that
  -- it takes exactly if there is a record that meets the conditions.
  pub collect-HasRid :
      (out : List Rid) × (collect cols conds file index tab_name es ≡ ok out)
      × ((rid : Rid)
          → HasRid rid out
            ↔ ((rec : List ℕ) × (file rid ≡ some rec) × (eval_conditions cols conds rec ≡ ok true)))
  unfolding collect begin_tuple make_index_key
  collect-HasRid =
      let rids = scan_index index tab_name conds es in
      (
        filtered cols conds file rids,
        collect-filtered cols conds file rids Sees-scan,
        λ rid. (
          (λ h.
              let m = HasRid-filtered rid rids h in
              elim (Option-cases (file rid)) [
                | inl out ↦ absurd (ground (arith, out, m))
                | inr (rec, there) ↦ (
                  rec,
                  there,
                  (let t = suits.total rid rec there in let e = t.1 in ground (arith, there, m, e)),
                )
              ]),
          λ (rec, there, e).
              let here = agrees.finds rid ∙ ap (key_of index) there in
              let meet =
                Meets-cols cols tab_name index.cols conds rec suits.found suits.typed
                  (eval_conditions-All cols conds rec e) in
              let has =
                scan_index-HasRid index tab_name conds rec rid es suits.number
                  (suits.fits rid rec there) agrees.keys (Strict-Sorted index es agrees.strict) here
                  meet in
              filtered-HasRid rid rids has (ground (arith, there, e)),
        ),
      )
