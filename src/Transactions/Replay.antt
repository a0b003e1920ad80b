-- ===== src/Transactions/Replay.antt =====
-- `RecoveryManager::redo` and `undo` of src/recovery/log_recovery.cpp, over the log records and the
-- sets of transactions that analyze has left.
pub mod Outcome
pub mod Whole
use myrmdb.Prelude.{
  ℕ, Bool, true, false, not, List, [], ◌∷◌, Option, none, some, if◌then◌else◌, ite,
}
use myrmdb.Prelude.Int.{ℤ, ℤ-discrete}
use myrmdb.Concurrency.Transaction.{Rid}
use myrmdb.Errors.{Result, ok, err, and_then, table_not_found}
use myrmdb.Recovery.Manager.Transactions.{has_id}
use myrmdb.Recovery.Log.{LogRecord, Body, update, insert, delete, RmRecord}
use myrmdb.Transactions.Tables.{TableName, Tables}

module _ (tables : Tables) where
  open tables use {State}

  abbrev pub Run : Type 0
  Run = Result (Unit {0}) × State

  -- An exception of `is_record` counts as false.
  unfoldable pub record_exists : TableName → Rid → State → Bool × State
  record_exists n rid s =
      let r = tables.is_record n rid s in (elim r.0 [ ok b ↦ b | err e ↦ false ], r.1)

  unfoldable pub put_row : TableName → Rid → RmRecord → State → Run
  unfolding record_exists
  put_row n rid value s =
      let r = record_exists n rid s in
      if r.0 then tables.update_record n rid value r.1 else tables.insert_record n rid value r.1

  unfoldable pub drop_row : TableName → Rid → State → Run
  unfolding record_exists
  drop_row n rid s =
      let r = record_exists n rid s in if r.0 then tables.delete_record n rid r.1 else (ok tt, r.1)

  -- `fhs_.at(table_name)`, whose exception `table_not_found` stands for.
  unfoldable pub in_table : TableName → (State → Run) → State → Run
  in_table n f s = if not (tables.has_table n s) then (err table_not_found, s) else f s

  unfoldable pub redo_body : Body → State → Run
  unfolding in_table put_row drop_row
  redo_body (insert value rid n) s = in_table n (put_row n rid value) s
  redo_body (delete value rid n) s = in_table n (drop_row n rid) s
  redo_body (update old new rid n) s = in_table n (put_row n rid new) s
  redo_body _ s = (ok tt, s)

  unfoldable pub undo_body : Body → State → Run
  unfolding in_table put_row drop_row
  undo_body (insert value rid n) s = in_table n (drop_row n rid) s
  undo_body (delete value rid n) s = in_table n (put_row n rid value) s
  undo_body (update old new rid n) s = in_table n (put_row n rid old) s
  undo_body _ s = (ok tt, s)

  unfoldable pub redo : List ℤ → List LogRecord → State → Run
  redo committed [] s = (ok tt, s)
  redo committed (r ∷ rs) s =
      and_then (if not (has_id r.log_tid committed) then (ok tt, s) else redo_body r.body s)
        λ _ s. redo committed rs s

  -- The loop of `undo`, from the last record to the first one.
  unfoldable pub undo_logs : List ℤ → List LogRecord → State → Run
  undo_logs active [] s = (ok tt, s)
  undo_logs active (r ∷ rs) s =
      and_then (undo_logs active rs s)
        λ _ s. if not (has_id r.log_tid active) then (ok tt, s) else undo_body r.body s

  unfoldable pub undo : List ℤ → List LogRecord → State → Run
  unfolding undo_logs
  undo active logs s =
      and_then (undo_logs active logs s)
        λ _ s. and_then (tables.rebuild_runtime_indexes s) λ _ s. tables.flush_all_tables s
