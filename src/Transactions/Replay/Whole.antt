-- ===== src/Transactions/Replay/Whole.antt =====
-- Redo and undo over a whole log.

use myrmdb.Prelude.{
  ◌≡◌, refl, sym, ap, ◌∙◌, not, List, [], ◌∷◌, Option, none, if◌then◌else◌, Bool-cases, inl, inr,
}
use myrmdb.Prelude.Int.{ℤ}
use myrmdb.Concurrency.Transaction.{Rid}
use myrmdb.Errors.{ok, and_then-ok}
use myrmdb.Recovery.Log.{LogRecord, RmRecord}
use myrmdb.Recovery.Manager.Transactions.{has_id}
use myrmdb.Transactions.Tables.{TableName, Tables}
use myrmdb.Transactions.Replay.{Run, redo_body, undo_body, redo, undo_logs, undo}
use myrmdb.Transactions.Replay.Outcome.{
  Change, Changed, Changed-says, says, value_or_old, or_else, or_else-value, IsHonest, redo_change,
  undo_change, redo_body-Changed, undo_body-Changed,
}

-- A record counts if its transaction is in the set.
abbrev pub counted : List ℤ → LogRecord → Change → Change
counted txns r c = if has_id r.log_tid txns then c else none

module _ (tables : Tables) where
  open tables use {State, records}

  -- What the last record of the set that names a position says it holds after it.
  abbrev pub last_said : List ℤ → List LogRecord → TableName → Rid → Option (Option RmRecord)
  last_said txns [] n rid = none
  last_said txns (r ∷ rs) n rid =
      or_else (last_said txns rs n rid) (says (counted txns r (redo_change tables r.body)) n rid)

  -- What the first record of the set that names a position says it held before it.
  abbrev pub first_said : List ℤ → List LogRecord → TableName → Rid → Option (Option RmRecord)
  first_said txns [] n rid = none
  first_said txns (r ∷ rs) n rid =
      or_else (says (counted txns r (undo_change tables r.body)) n rid) (first_said txns rs n rid)

  counted-Changed :
      (txns : List ℤ) (r : LogRecord) (c : Change) (x : Run tables) (s : State)
      → (x.0 ≡ ok tt → Changed c (records s) (records x.1))
      → let y : Run tables = if not (has_id r.log_tid txns) then (ok tt, s) else x in
        y.0 ≡ ok tt → Changed (counted txns r c) (records s) (records y.1)
  unfolding Changed
  counted-Changed txns r c x s h = elim (Bool-cases (has_id r.log_tid txns)) [
    | inl in_ ↦ rw in_ h
    | inr out ↦ rw out (λ _ m q. refl)
  ]

  abbrev ends_so : (r q : Run tables) → r ≡ q → r.0 ≡ ok tt → q.0 ≡ ok tt
  ends_so r q same e = ap (λ (x : Run tables). x.0) (sym same) ∙ e

  -- If the buffer pool does not fail when it looks for records, a redo that returns leaves at each
  -- position what the last record of a committed transaction that names it says, and where there is
  -- none, what was there.
  pub redo-last :
      (committed : List ℤ) (logs : List LogRecord) (s : State) (n : TableName) (rid : Rid)
      → IsHonest tables
      → (redo tables committed logs s).0 ≡ ok tt
      → records (redo tables committed logs s).1 n rid
        ≡ value_or_old (last_said committed logs n rid) (records s n rid)
  unfolding redo
  redo-last committed [] s n rid honest e = refl
  redo-last committed (r ∷ rs) s n rid honest e =
      let x : Run tables =
        if not (has_id r.log_tid committed) then (ok tt, s) else redo_body tables r.body s in
      let c = counted committed r (redo_change tables r.body) in
      let one = and_then-ok x (λ _ s. redo tables committed rs s) tt e in
      let changed =
        counted-Changed committed r (redo_change tables r.body) (redo_body tables r.body s) s
          (redo_body-Changed tables r.body s honest) one.1 in
      ap (λ (y : Run tables). records y.1 n rid) one.2
      ∙ redo-last committed rs x.1 n rid honest (ends_so _ _ one.2 e)
      ∙ ap (value_or_old (last_said committed rs n rid))
          (Changed-says c (records s) (records x.1) n rid changed)
      ∙ or_else-value (last_said committed rs n rid) (says c n rid) (records s n rid)

  undo_logs-first :
      (active : List ℤ) (logs : List LogRecord) (s : State) (n : TableName) (rid : Rid)
      → IsHonest tables
      → (undo_logs tables active logs s).0 ≡ ok tt
      → records (undo_logs tables active logs s).1 n rid
        ≡ value_or_old (first_said active logs n rid) (records s n rid)
  unfolding undo_logs
  undo_logs-first active [] s n rid honest e = refl
  undo_logs-first active (r ∷ rs) s n rid honest e =
      let rest = undo_logs tables active rs s in
      let c = counted active r (undo_change tables r.body) in
      let k : State → Run tables =
        λ s. if not (has_id r.log_tid active) then (ok tt, s) else undo_body tables r.body s in
      let one = and_then-ok rest (λ _ s. k s) tt e in
      let changed =
        counted-Changed active r (undo_change tables r.body) (undo_body tables r.body rest.1) rest.1
          (undo_body-Changed tables r.body rest.1 honest) (ends_so _ (k rest.1) one.2 e) in
      ap (λ (y : Run tables). records y.1 n rid) one.2
      ∙ Changed-says c (records rest.1) (records (k rest.1).1) n rid changed
      ∙ ap (value_or_old (says c n rid)) (undo_logs-first active rs s n rid honest one.1)
      ∙ or_else-value (says c n rid) (first_said active rs n rid) (records s n rid)

  -- If the buffer pool does not fail when it looks for records, an undo that returns leaves at each
  -- position what the first record of an active transaction that names it says was there before, and
  -- where there is none, what was there.
  pub undo-first :
      (active : List ℤ) (logs : List LogRecord) (s : State) (n : TableName) (rid : Rid)
      → IsHonest tables
      → (undo tables active logs s).0 ≡ ok tt
      → records (undo tables active logs s).1 n rid
        ≡ value_or_old (first_said active logs n rid) (records s n rid)
  unfolding undo
  undo-first active logs s n rid honest e =
      let x = undo_logs tables active logs s in
      let one = and_then-ok x _ tt e in
      let y = tables.rebuild_runtime_indexes x.1 in
      let two = and_then-ok y (λ _ s. tables.flush_all_tables s) tt (ends_so _ _ one.2 e) in
      ap (λ (z : Run tables). records z.1 n rid) (one.2 ∙ two.2)
      ∙ tables.records-flush y.1 n rid
      ∙ tables.records-rebuild x.1 n rid
      ∙ undo_logs-first active logs s n rid honest one.1
