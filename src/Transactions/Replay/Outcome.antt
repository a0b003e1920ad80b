-- ===== src/Transactions/Replay/Outcome.antt =====
-- What redo and undo leave at each position.
use mathlib.Core.Path.{subst}
use myrmdb.Prelude.{
  ◌≡◌, refl, sym, ap, ◌∙◌, Bool, false, not, Option, none, some, inl, inr, if◌then◌else◌, if_both,
  Bool-cases, ite, if_pos, if_neg,
}
use myrmdb.Concurrency.Transaction.{Rid}
use myrmdb.Errors.{Error, Result, ok, err, ok_ne_err, table_not_found}
use myrmdb.Recovery.Log.{Body, update, insert, delete, begin, commit, abort, RmRecord}
use myrmdb.Transactions.Tables.{TableName, Tables, Records, SetsAt, Same, is_some}
use myrmdb.Transactions.Writes.Restore.{TableName-discrete, Rid-discrete}
use myrmdb.Transactions.Replay.{
  Run, record_exists, put_row, drop_row, in_table, redo_body, undo_body,
}

-- A change of one position, or none.
abbrev pub Change : Type 0
Change = Option (TableName × Rid × Option RmRecord)

-- What a change says of a position.
abbrev pub says : Change → TableName → Rid → Option (Option RmRecord)
says none n rid = none
says (some (m, r, x)) n rid =
    ite (TableName-discrete n m) (ite (Rid-discrete rid r) (some x) none) none

-- The value that is said, or the old one.
abbrev pub value_or_old : Option (Option RmRecord) → Option RmRecord → Option RmRecord
value_or_old none old = old
value_or_old (some x) old = x

unfoldable pub Changed : Change → Records → Records → Type 0
Changed none f g = Same g f
Changed (some (m, r, x)) f g = SetsAt m r x f g

pub Changed-says :
    (c : Change) (f g : Records) (n : TableName) (rid : Rid)
    → Changed c f g
    → g n rid ≡ value_or_old (says c n rid) (f n rid)
unfolding Changed
Changed-says none f g n rid h = h n rid
Changed-says (some (m, r, x)) f g n rid h =
    let there = ite (Rid-discrete rid r) (some x) none in
    elim (TableName-discrete n m) [
      | yes name ↦ elim (Rid-discrete rid r) [
        | yes at ↦
            subst (λ k. g k rid ≡ x) (sym name) (subst (λ q. g m q ≡ x) (sym at) h.0)
            ∙ sym (
                ap (λ o. value_or_old o (f n rid))
                  (if_pos (TableName-discrete n m) name there none
                    ∙ if_pos (Rid-discrete rid r) at (some x) none))
        | no ne ↦
            h.1 n rid (inr ne)
            ∙ sym (
                ap (λ o. value_or_old o (f n rid))
                  (if_pos (TableName-discrete n m) name there none
                    ∙ if_neg (Rid-discrete rid r) ne (some x) none))
      ]
      | no ne ↦
          h.1 n rid (inl ne)
          ∙ sym (ap (λ o. value_or_old o (f n rid)) (if_neg (TableName-discrete n m) ne there none))
    ]

-- What is said first, and where nothing is, what is said next.
abbrev pub or_else : Option (Option RmRecord) → Option (Option RmRecord) → Option (Option RmRecord)
or_else none b = b
or_else (some x) b = some x

pub or_else-value :
    (a b : Option (Option RmRecord)) (old : Option RmRecord)
    → value_or_old a (value_or_old b old) ≡ value_or_old (or_else a b) old
or_else-value none b old = refl
or_else-value (some x) b old = refl

SetsAt-Same :
    (n : TableName) (rid : Rid) (x : Option RmRecord) (f f' g : Records)
    → Same f' f
    → SetsAt n rid x f' g
    → SetsAt n rid x f g
SetsAt-Same n rid x f f' g same h = (h.0, λ m r ne. h.1 m r ne ∙ same m r)

module _ (tables : Tables) where
  open tables use {State, records, fit}

  -- `is_record` throws only where there is no record: the buffer pool does not fail.
  abbrev pub IsHonest : Type 0
  IsHonest =
      (n : TableName) (rid : Rid) (s : State) (e : Error)
      → (tables.is_record n rid s).0 ≡ err e
      → records s n rid ≡ none

  exists_false :
      (n : TableName) (rid : Rid) (s : State)
      → IsHonest
      → (record_exists tables n rid s).0 ≡ false
      → records s n rid ≡ none
  unfolding record_exists
  exists_false n rid s honest e = go (tables.is_record n rid s).0 refl e
    where
      absent : (x : Option RmRecord) → is_some x ≡ false → x ≡ none
      absent none h = refl
      absent (some x) h = cc

      go :
          (r : Result Bool)
          → (tables.is_record n rid s).0 ≡ r
          → (elim r as (λ _. Bool) [ ok b ↦ b | err x ↦ false ]) ≡ false
          → records s n rid ≡ none
      go (ok b) is_ok no_ =
          absent (records s n rid) (tables.records-is_record n rid s b is_ok ∙ no_)
      go (err x) thrown no_ = honest n rid s x thrown

  exists_Same :
      (n : TableName) (rid : Rid) (s : State)
      → Same (records (record_exists tables n rid s).1) (records s)
  unfolding record_exists
  exists_Same n rid s = tables.records-is_record_same n rid s

  put_row-SetsAt :
      (n : TableName) (rid : Rid) (v : RmRecord) (s : State)
      → (put_row tables n rid v s).0 ≡ ok tt
      → SetsAt n rid (some (fit n v)) (records s) (records (put_row tables n rid v s).1)
  unfolding put_row
  put_row-SetsAt n rid v s =
      let r = record_exists tables n rid s in
      let P : Run tables → Type 0 =
        λ x. x.0 ≡ ok tt → SetsAt n rid (some (fit n v)) (records s) (records x.1) in
      let same = exists_Same n rid s in
      if_both P r.0 (tables.update_record n rid v r.1) (tables.insert_record n rid v r.1)
        (λ e.
          SetsAt-Same n rid _ (records s) (records r.1) _ same
            (tables.records-update_record n rid v r.1 e))
        (λ e.
          SetsAt-Same n rid _ (records s) (records r.1) _ same
            (tables.records-insert_record n rid v r.1 e))

  drop_row-SetsAt :
      (n : TableName) (rid : Rid) (s : State)
      → IsHonest
      → (drop_row tables n rid s).0 ≡ ok tt
      → SetsAt n rid none (records s) (records (drop_row tables n rid s).1)
  unfolding drop_row
  drop_row-SetsAt n rid s honest =
      let r = record_exists tables n rid s in
      let P : Run tables → Type 0 =
        λ x. x.0 ≡ ok tt → SetsAt n rid none (records s) (records x.1) in
      let same = exists_Same n rid s in
      let gone = tables.delete_record n rid r.1 in
      elim (Bool-cases r.0) [
        | inl there ↦
            subst (λ b. P (if b then gone else (ok tt, r.1))) (sym there)
              (λ e.
                SetsAt-Same n rid none (records s) (records r.1) _ same
                  (tables.records-delete_record n rid r.1 e))
        | inr absent ↦
            subst (λ b. P (if b then gone else (ok tt, r.1))) (sym absent)
              (λ e. (same n rid ∙ exists_false n rid s honest absent, λ m q _. same m q))
      ]

  in_table-Changed :
      (c : Change) (n : TableName) (f : State → Run tables) (s : State)
      → ((f s).0 ≡ ok tt → Changed c (records s) (records (f s).1))
      → (in_table tables n f s).0 ≡ ok tt
      → Changed c (records s) (records (in_table tables n f s).1)
  unfolding in_table
  in_table-Changed c n f s h =
      let P : Run tables → Type 0 = λ x. x.0 ≡ ok tt → Changed c (records s) (records x.1) in
      if_both P (not (tables.has_table n s)) (err table_not_found, s) (f s)
        (λ bad. absurd (ok_ne_err (sym bad))) h

  -- What redoing a log record writes, and what undoing it does.
  abbrev pub redo_change : Body → Change
  redo_change (insert v rid n) = some (n, rid, some (fit n v))
  redo_change (delete v rid n) = some (n, rid, none)
  redo_change (update v w rid n) = some (n, rid, some (fit n w))
  redo_change _ = none

  abbrev pub undo_change : Body → Change
  undo_change (insert v rid n) = some (n, rid, none)
  undo_change (delete v rid n) = some (n, rid, some (fit n v))
  undo_change (update v w rid n) = some (n, rid, some (fit n v))
  undo_change _ = none

  pub redo_body-Changed :
      (b : Body) (s : State)
      → IsHonest
      → (redo_body tables b s).0 ≡ ok tt
      → Changed (redo_change b) (records s) (records (redo_body tables b s).1)
  unfolding redo_body Changed
  redo_body-Changed (insert v rid n) s honest e =
      in_table-Changed (some (n, rid, some (fit n v))) n (put_row tables n rid v) s
        (put_row-SetsAt n rid v s) e
  redo_body-Changed (delete v rid n) s honest e =
      in_table-Changed (some (n, rid, none)) n (drop_row tables n rid) s
        (drop_row-SetsAt n rid s honest) e
  redo_body-Changed (update v w rid n) s honest e =
      in_table-Changed (some (n, rid, some (fit n w))) n (put_row tables n rid w) s
        (put_row-SetsAt n rid w s) e
  redo_body-Changed begin s honest e = λ m q. refl
  redo_body-Changed commit s honest e = λ m q. refl
  redo_body-Changed abort s honest e = λ m q. refl

  pub undo_body-Changed :
      (b : Body) (s : State)
      → IsHonest
      → (undo_body tables b s).0 ≡ ok tt
      → Changed (undo_change b) (records s) (records (undo_body tables b s).1)
  unfolding undo_body Changed
  undo_body-Changed (insert v rid n) s honest e =
      in_table-Changed (some (n, rid, none)) n (drop_row tables n rid) s
        (drop_row-SetsAt n rid s honest) e
  undo_body-Changed (delete v rid n) s honest e =
      in_table-Changed (some (n, rid, some (fit n v))) n (put_row tables n rid v) s
        (put_row-SetsAt n rid v s) e
  undo_body-Changed (update v w rid n) s honest e =
      in_table-Changed (some (n, rid, some (fit n v))) n (put_row tables n rid v) s
        (put_row-SetsAt n rid v s) e
  undo_body-Changed begin s honest e = λ m q. refl
  undo_body-Changed commit s honest e = λ m q. refl
  undo_body-Changed abort s honest e = λ m q. refl
