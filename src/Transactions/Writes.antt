-- ===== src/Transactions/Writes.antt =====
-- `WriteRecord` of src/transaction/txn_defs.h, and the loop of `TransactionManager::abort` that takes
-- the writes of a transaction back, the last one first.
pub mod Restore
use myrmdb.Prelude.{ℕ, Bool, true, false, not, List, [], ◌∷◌, if◌then◌else◌}
use myrmdb.Concurrency.Transaction.{Rid}
use myrmdb.Errors.{Result, ok, err, and_then, table_not_found}
use myrmdb.Recovery.Log.{RmRecord}
use myrmdb.Transactions.Tables.{TableName, Tables}

pub data WType : Type 0 where
  insert_tuple delete_tuple update_tuple : WType

pub record WriteRecord : Type 0 where
  pub wtype : WType
  pub tab_name : TableName
  pub rid : Rid
  pub old : RmRecord

module _ (tables : Tables) where
  open tables use {State}

  -- How one write is taken back, by its type.
  unfoldable pub revert : WType → TableName → Rid → RmRecord → State → Result (Unit {0}) × State
  revert insert_tuple n rid old s = and_then (tables.is_record n rid s) λ exists s. elim exists [
    | true ↦ and_then (tables.get_record n rid s) λ rec s.
        and_then (tables.delete_index_entries n rec rid s) λ _ s. tables.delete_record n rid s
    | false ↦ (ok tt, s)
  ]
  revert delete_tuple n rid old s =
      and_then (tables.insert_record n rid old s) λ _ s. tables.insert_index_entries n old rid s
  revert update_tuple n rid old s = and_then (tables.get_record n rid s) λ current s.
      and_then (tables.update_index_entries n current old rid s)
        λ _ s. tables.update_record n rid old s

  -- `table_not_found` stands for the exception of `fhs_.at`.
  unfoldable pub take_back : WriteRecord → State → Result (Unit {0}) × State
  unfolding revert
  take_back w s =
      if not (tables.has_table w.tab_name s)
      then (err table_not_found, s)
      else revert w.wtype w.tab_name w.rid w.old s

  -- What one round of the loop does when the rounds for the later writes have ended so: where one
  -- has thrown, the earlier writes are still in the write set.
  unfoldable pub went_on :
      WriteRecord
      → (Result (Unit {0}) × List WriteRecord) × State
      → (Result (Unit {0}) × List WriteRecord) × State
  went_on w ((ok _, left), s) = let r = take_back w s in ((r.0, []), r.1)
  went_on w ((err e, left), s) = ((err e, w ∷ left), s)

  -- The loop over the write set, whose front is the first write: the result, the writes that are
  -- left in the set, and the tables.
  unfoldable pub roll_back :
      List WriteRecord → State → (Result (Unit {0}) × List WriteRecord) × State
  unfolding went_on
  roll_back [] s = ((ok tt, []), s)
  roll_back (w ∷ ws) s = went_on w (roll_back ws s)
