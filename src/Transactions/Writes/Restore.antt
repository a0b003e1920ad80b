-- ===== src/Transactions/Writes/Restore.antt =====
-- Taking back the writes of a transaction restores the records that were there before them.
use mathlib.Core.Path.{subst}
use myrmdb.Prelude.{
  ◌≡◌, refl, sym, ap, ◌∙◌, Bool, true, false, not, List, [], ◌∷◌, Option, none, some, inl, inr,
  ℕ_discrete, if_both,
}
use myrmdb.Concurrency.Transaction.{Rid}
use myrmdb.Errors.{Result, ok, err, and_then, and_then-ok, ok_ne_err, table_not_found}
use myrmdb.Recovery.Log.{RmRecord}
use myrmdb.Transactions.Tables.{TableName, Tables, Records, SetsAt, Same, is_some}
use myrmdb.Transactions.Writes.{
  WType, insert_tuple, delete_tuple, update_tuple, WriteRecord, revert, take_back, roll_back,
  went_on,
}

unfoldable pub TableName-discrete : Discrete TableName
TableName-discrete = hlevel ℕ_discrete

unfoldable pub Rid-discrete : Discrete Rid
Rid-discrete = hlevel ℕ_discrete

-- A position that is changed twice, and holds at last what it held at first.
sets-back :
    (n : TableName) (rid : Rid) (x y : Option RmRecord) (f h h' g : Records)
    → SetsAt n rid x f h
    → Same h' h
    → SetsAt n rid y h' g
    → f n rid ≡ y
    → Same g f
sets-back n rid x y f h h' g there same back e m r = elim (TableName-discrete m n) [
  | yes name ↦ elim (Rid-discrete r rid) [
    | yes at ↦
        subst (λ k. g k r ≡ f k r) (sym name) (subst (λ q. g n q ≡ f n q) (sym at) (back.0 ∙ sym e))
    | no ne ↦ back.1 m r (inr ne) ∙ same m r ∙ there.1 m r (inr ne)
  ]
  | no ne ↦ back.1 m r (inl ne) ∙ same m r ∙ there.1 m r (inl ne)
]

Same-trans : (f g h : Records) → Same f g → Same g h → Same f h
Same-trans f g h a b n r = a n r ∙ b n r

module _ (tables : Tables) where
  open tables use {State, records}

  -- What the write that a write record is of has done: it was the insertion of a record, or the
  -- deletion or the change of the record that is kept in `old`.
  abbrev Did : WType → TableName → Rid → RmRecord → Records → Records → Type 0
  Did insert_tuple n rid old f h = (f n rid ≡ none) × ((x : RmRecord) × SetsAt n rid (some x) f h)
  Did delete_tuple n rid old f h =
      (f n rid ≡ some old) × (tables.fit n old ≡ old) × SetsAt n rid none f h
  Did update_tuple n rid old f h =
      (f n rid ≡ some old) × (tables.fit n old ≡ old) × ((x : RmRecord) × SetsAt n rid (some x) f h)

  abbrev pub Wrote : WriteRecord → Records → Records → Type 0
  Wrote w f h = Did w.wtype w.tab_name w.rid w.old f h

  -- What the writes have done, one after the other.
  abbrev pub WroteAll : List WriteRecord → Records → Records → Type 0
  WroteAll [] f g = Same g f
  WroteAll (w ∷ ws) f g = (h : Records) × Wrote w f h × WroteAll ws h g

  abbrev Ran : Type 0
  Ran = Result (Unit {0}) × State

  -- What of the call's end is known from its parts.
  ends_so : (r q : Ran) → r ≡ q → r.0 ≡ ok tt → q.0 ≡ ok tt
  ends_so r q same e = ap (λ (x : Ran). x.0) (sym same) ∙ e

  -- An inserted record is taken out of its indexes and its table.
  abbrev removed : TableName → Rid → State → Ran
  removed n rid s = and_then (tables.get_record n rid s) λ rec s.
      and_then (tables.delete_index_entries n rec rid s) λ _ s. tables.delete_record n rid s

  removed-restores :
      (n : TableName) (rid : Rid) (x : RmRecord) (f h : Records) (s : State)
      → f n rid ≡ none
      → SetsAt n rid (some x) f h
      → Same (records s) h
      → (removed n rid s).0 ≡ ok tt
      → Same (records (removed n rid s).1) f
  removed-restores n rid x f h s before sets same e =
      let one = and_then-ok (tables.get_record n rid s) _ tt e in
      let s1 = (tables.get_record n rid s).1 in
      let two =
        and_then-ok (tables.delete_index_entries n one.0 rid s1) _ tt (ends_so _ _ one.2 e) in
      let s2 = (tables.delete_index_entries n one.0 rid s1).1 in
      let all = one.2 ∙ two.2 in
      let back = tables.records-delete_record n rid s2 (ends_so _ _ all e) in
      subst (λ (r : Ran). Same (records r.1) f) (sym all)
        (sets-back n rid (some x) none f h (records s2) _ sets
          (Same-trans _ _ h (tables.records-delete_index n one.0 rid s1)
            (Same-trans _ _ h (tables.records-get_record n rid s one.0 one.1) same))
          back before)

  revert-restores :
      (t : WType) (n : TableName) (rid : Rid) (old : RmRecord) (f h : Records) (s : State)
      → Did t n rid old f h
      → Same (records s) h
      → (revert tables t n rid old s).0 ≡ ok tt
      → Same (records (revert tables t n rid old s).1) f
  unfolding revert
  revert-restores insert_tuple n rid old f h s (before, (x, sets)) same e =
      let k : Bool → State → Ran = λ b s. elim b [ true ↦ removed n rid s | false ↦ (ok tt, s) ] in
      let one = and_then-ok (tables.is_record n rid s) k tt e in
      let s1 = (tables.is_record n rid s).1 in
      let there : one.0 ≡ true =
        sym (tables.records-is_record n rid s one.0 one.1) ∙ ap is_some (same n rid ∙ sets.0) in
      let all : and_then (tables.is_record n rid s) k ≡ removed n rid s1 =
        one.2 ∙ ap (λ b. k b s1) there in
      subst (λ (r : Ran). Same (records r.1) f) (sym all)
        (removed-restores n rid x f h s1 before sets
          (Same-trans _ _ h (tables.records-is_record_same n rid s) same) (ends_so _ _ all e))
  revert-restores delete_tuple n rid old f h s (before, fits, sets) same e =
      let one = and_then-ok (tables.insert_record n rid old s) _ tt e in
      let back = tables.records-insert_record n rid old s one.1 in
      subst (λ (r : Result (Unit {0}) × State). Same (records r.1) f) (sym one.2)
        (Same-trans _ _ f
          (tables.records-insert_index n old rid (tables.insert_record n rid old s).1)
          (sets-back n rid none (some (tables.fit n old)) f h (records s) _ sets same back
            (before ∙ ap some (sym fits))))
  revert-restores update_tuple n rid old f h s (before, fits, (x, sets)) same e =
      let one = and_then-ok (tables.get_record n rid s) _ tt e in
      let s1 = (tables.get_record n rid s).1 in
      let two =
        and_then-ok (tables.update_index_entries n one.0 old rid s1) _ tt (ends_so _ _ one.2 e) in
      let s2 = (tables.update_index_entries n one.0 old rid s1).1 in
      let all = one.2 ∙ two.2 in
      let back = tables.records-update_record n rid old s2 (ends_so _ _ all e) in
      subst (λ (r : Result (Unit {0}) × State). Same (records r.1) f) (sym all)
        (sets-back n rid (some x) (some (tables.fit n old)) f h (records s2) _ sets
          (Same-trans _ _ h (tables.records-update_index n one.0 old rid s1)
            (Same-trans _ _ h (tables.records-get_record n rid s one.0 one.1) same))
          back (before ∙ ap some (sym fits)))

  take_back-restores :
      (w : WriteRecord) (f h : Records) (s : State)
      → Wrote w f h
      → Same (records s) h
      → (take_back tables w s).0 ≡ ok tt
      → Same (records (take_back tables w s).1) f
  unfolding take_back
  take_back-restores w f h s did same =
      let P : Ran → Type 0 = λ r. r.0 ≡ ok tt → Same (records r.1) f in
      if_both P (not (tables.has_table w.tab_name s)) (err table_not_found, s)
        (revert tables w.wtype w.tab_name w.rid w.old s) (λ bad. absurd (ok_ne_err (sym bad)))
        (revert-restores w.wtype w.tab_name w.rid w.old f h s did same)

  -- A roll back that returns has returned at every write.
  went_on_ok :
      (w : WriteRecord) (x : (Result (Unit {0}) × List WriteRecord) × State)
      → (went_on tables w x).0.0 ≡ ok tt
      → (x.0.0 ≡ ok tt)
        × ((take_back tables w x.1).0 ≡ ok tt)
        × ((went_on tables w x).1 ≡ (take_back tables w x.1).1)
        × ((went_on tables w x).0.1 ≡ [])
  unfolding went_on
  went_on_ok w ((ok tt, left), s) e = (refl, e, refl, refl)
  went_on_ok w ((err x, left), s) e = absurd (ok_ne_err (sym e))

  -- If the writes of a transaction have led from the records `f` to those of a state, each deletion
  -- and change with the old record kept in full, then a roll back that returns leads back to `f`, and
  -- leaves no write in the set.
  pub roll_back-restores :
      (ws : List WriteRecord) (f : Records) (s : State)
      → WroteAll ws f (records s)
      → (roll_back tables ws s).0.0 ≡ ok tt
      → Same (records (roll_back tables ws s).1) f × ((roll_back tables ws s).0.1 ≡ [])
  unfolding roll_back
  roll_back-restores [] f s wrote e = (wrote, refl)
  roll_back-restores (w ∷ ws) f s (h, did, later) e =
      let rest = roll_back tables ws s in
      let parts = went_on_ok w rest e in
      let before = roll_back-restores ws h s later parts.0 in
      (
        subst (λ u. Same (records u) f) (sym parts.2)
            (take_back-restores w f h rest.1 did before.0 parts.1),
        parts.3,
      )
