-- ===== src/System/Entries/Build/Agreement.antt =====
-- A new index agrees with the records of its table.
use myrmdb.Prelude.{
  ℕ, ◌≡◌, ◌≢◌, refl, sym, ap, ◌∙◌, ◌⊎◌, inl, inr, List, [], ◌∷◌, none, some, Option-cases, if_pos,
  if_neg, All, arith, Bool-cases,
}
use mathlib.Core.Path.{subst}
use myrmdb.Concurrency.Transaction.{Rid}
use myrmdb.Errors.{ok, Result-cases, ok_inj}
use myrmdb.System.Keys.{IndexMeta, make_index_key}
use myrmdb.System.Keys.Order.{IsKey}
use myrmdb.System.Entries.{RuntimeIndexEntry, Entries, rid_eq}
use myrmdb.System.Entries.Find.{find, Once}
use myrmdb.System.Entries.Sorted.{HasKey}
use myrmdb.System.Entries.Mirror.{Table, Agrees, key_of}
use myrmdb.System.Entries.Build.{
  scan_entries, sort_runtime_index, has_equal_keys, rebuild_entries, create_entries,
}
use myrmdb.System.Entries.Build.Sort.{sort-All, sort-Sorted, find-sort, sort-Once, Sorted-Strict}

-- The position is among those of a scan, and no position is twice.
abbrev pub Visited : Rid → List Rid → Type 0
Visited rid [] = ⊥
Visited rid (p ∷ ps) = (p ≡ rid) ⊎ Visited rid ps

abbrev pub Distinct : List Rid → Type 0
Distinct [] = Unit {0}
Distinct (p ∷ ps) = All (λ q. q ≢ p) ps × Distinct ps

module _ (index : IndexMeta) (file : Table) where
  scan_entries_cons :
      (p : Rid) (ps : List Rid) (es : Entries)
      → scan_entries index file (p ∷ ps) ≡ ok es
      → (rec : List ℕ) × (rest : Entries) × (file p ≡ some rec)
        × (scan_entries index file ps ≡ ok rest)
        × ((record { key = make_index_key index rec; rid = p } ∷ rest) ≡ es)
  unfolding scan_entries
  scan_entries_cons p ps es h = elim (Option-cases (file p)) [
    | inl out ↦ absurd (ground (arith, out, h))
    | inr (rec, there) ↦ elim (Result-cases (scan_entries index file ps)) [
      | inl (rest, e) ↦
          let entry : RuntimeIndexEntry = record { key = make_index_key index rec; rid = p } in
          let h' : ok (entry ∷ rest) ≡ ok es = ground (arith, there, e, h) in
          (rec, rest, there, e, ok_inj h')
      | inr (x, e) ↦ absurd (ground (arith, there, e, h))
    ]
  ]

  found_if_Visited :
      (ps : List Rid) (es : Entries) (rid : Rid)
      → scan_entries index file ps ≡ ok es
      → Visited rid ps
      → find rid es ≡ key_of index (file rid)
  unfolding find
  found_if_Visited [] es rid h v = absurd v
  found_if_Visited (p ∷ ps) es rid h v =
      let (rec, rest, there, e, same) = scan_entries_cons p ps es h in
      elim (rid_eq p rid) [
        | yes at ↦
            let here : file rid ≡ some rec = subst (λ q. file q ≡ some rec) at there in
            rw (← same, here, if_pos (rid_eq p rid) at _ (find rid rest)) refl
        | no ne ↦ elim v [
          | inl at ↦ absurd (ne at)
          | inr later ↦
              rw (← same, if_neg (rid_eq p rid) ne (some (make_index_key index rec)) _)
                (found_if_Visited ps rest rid e later)
        ]
      ]

  found_or_none :
      (ps : List Rid) (es : Entries) (rid : Rid)
      → scan_entries index file ps ≡ ok es
      → (find rid es ≡ none) ⊎ Visited rid ps
  unfolding find scan_entries
  found_or_none [] es rid h = inl (ap (find rid) (sym (ok_inj h)))
  found_or_none (p ∷ ps) es rid h =
      let (rec, rest, there, e, same) = scan_entries_cons p ps es h in
      elim (rid_eq p rid) [
        | yes at ↦ inr (inl at)
        | no ne ↦ elim (found_or_none ps rest rid e) [
          | inl out ↦
              inl (rw (← same, if_neg (rid_eq p rid) ne (some (make_index_key index rec)) _) out)
          | inr later ↦ inr (inr later)
        ]
      ]

  not-Visited : (p : Rid) (ps : List Rid) → All (λ q. q ≢ p) ps → Visited p ps → ⊥
  not-Visited p [] d v = v
  not-Visited p (q ∷ qs) d (inl same) = d.0 same
  not-Visited p (q ∷ qs) d (inr v) = not-Visited p qs d.1 v

  scan-Once :
      (ps : List Rid) (es : Entries) → scan_entries index file ps ≡ ok es → Distinct ps → Once es
  unfolding scan_entries
  scan-Once [] es h d = subst Once (ok_inj h) tt
  scan-Once (p ∷ ps) es h d =
      let (rec, rest, there, e, same) = scan_entries_cons p ps es h in
      elim (found_or_none ps rest p e) [
        | inl out ↦ subst Once same (out, scan-Once ps rest e d.1)
        | inr v ↦ absurd (not-Visited p ps d.0 v)
      ]

  scan-HasKey :
      (ps : List Rid) (es : Entries)
      → scan_entries index file ps ≡ ok es
      → ((rid : Rid) (rec : List ℕ)
          → file rid ≡ some rec
          → IsKey index.cols (make_index_key index rec))
      → All (HasKey index) es
  unfolding scan_entries
  scan-HasKey [] es h k = subst (All (HasKey index)) (ok_inj h) tt
  scan-HasKey (p ∷ ps) es h k =
      let (rec, rest, there, e, same) = scan_entries_cons p ps es h in
      subst (All (HasKey index)) same (k p rec there, scan-HasKey ps rest e k)

  finds_scanned :
      (ps : List Rid) (es : Entries) (rid : Rid)
      → scan_entries index file ps ≡ ok es
      → ((r : Rid) (rec : List ℕ) → file r ≡ some rec → Visited r ps)
      → find rid es ≡ key_of index (file rid)
  finds_scanned ps es rid h v = elim (found_or_none ps es rid h) [
    | inr at ↦ found_if_Visited ps es rid h at
    | inl out ↦ elim (Option-cases (file rid)) [
      | inl gone ↦ out ∙ ap (key_of index) (sym gone)
      | inr (rec, there) ↦ found_if_Visited ps es rid h (v rid rec there)
    ]
  ]

  -- Where `create_index` returns, the new index agrees with the table, if the scan comes upon each
  -- record once and no record has a NaN in the columns of the index.
  pub create_entries-Agrees :
      (ps : List Rid) (es : Entries)
      → create_entries index file ps ≡ ok es
      → Distinct ps
      → ((rid : Rid) (rec : List ℕ) → file rid ≡ some rec → Visited rid ps)
      → ((rid : Rid) (rec : List ℕ)
          → file rid ≡ some rec
          → IsKey index.cols (make_index_key index rec))
      → Agrees index file es
  unfolding create_entries rebuild_entries
  create_entries-Agrees ps es h d v k = elim (Result-cases (scan_entries index file ps)) [
    | inr (x, e) ↦ absurd (ground (arith, e, h))
    | inl (scanned, e) ↦
        let es' = sort_runtime_index index scanned in
        let keys = scan-HasKey ps scanned e k in
        let once = scan-Once ps scanned e d in
        elim (Bool-cases (has_equal_keys index es')) [
          | inl hit ↦ absurd (ground (arith, e, hit, h))
          | inr miss ↦
              let h' : ok es' ≡ ok es = ground (arith, e, miss, h) in
              let keys' = sort-All index (HasKey index) scanned keys in
              subst (Agrees index file) (ok_inj h') (record {
                keys = keys';
                strict = Sorted-Strict index es' keys' (sort-Sorted index scanned keys) miss;
                once = sort-Once index scanned once;
                finds = λ rid. find-sort index scanned rid once ∙ finds_scanned ps scanned rid e v;
              })
        ]
  ]
