-- ===== src/Transactions/Manager.antt =====
-- `TransactionManager` of src/transaction/transaction_manager.cpp over the tables, the lock table and
-- the log manager. `logging` tells whether `log_manager` is not null; the null transaction, with which
-- commit and abort do nothing, is left out. An `outcome` is what write(2) writes, should it be called.
pub mod Finish
use myrmdb.Prelude.{ℕ, suc, Bool, true, false, List, [], ◌∷◌, Option, none, some}
use myrmdb.Prelude.Int.{ℤ, pos, negsuc}
use myrmdb.Concurrency.Transaction.{
  Transaction, growing, committed, aborted, default, TransactionState,
}
use myrmdb.Concurrency.Locks.{LockTable}
use myrmdb.Concurrency.Locks.Ownership.{unlock_all}
use myrmdb.Errors.{Result, ok, err, and_then}
use myrmdb.Recovery.Log.{LogRecord, Body, new_record}
use myrmdb.Recovery.Manager.{LogManager, add_log_to_buffer, flush_log_to_disk}
use myrmdb.Transactions.Tables.{Tables}
use myrmdb.Transactions.Writes.{WriteRecord, roll_back}

-- `class Transaction` with what the transaction manager reads of it besides what locks do.
pub record Txn : Type 0 where
  pub locking : Transaction
  pub prev_lsn : ℤ
  pub start_ts : ℕ
  pub write_set : List WriteRecord

-- The constructor.
unfoldable pub new_txn : ℕ → Txn
new_txn id = record {
  locking = record { txn_id = id; state = default; lock_set = [] };
  prev_lsn = negsuc 0;
  start_ts = 0;
  write_set = [];
}

module _ (tables : Tables) (capacity : ℕ) where
  -- `txn_map` by its keys: each is mapped to the transaction that has it. The locks, the log and the
  -- tables are those of the managers that the code holds pointers to.
  pub record TransactionManager : Type 0 where
    pub next_txn_id : ℕ
    pub next_timestamp : ℕ
    pub txn_map : List ℕ
    pub locks : LockTable
    pub log : LogManager
    pub data_ : tables.State

  abbrev pub Done : Type 0
  Done = Result (Unit {0}) × (Txn × TransactionManager)

  abbrev pub with_state : TransactionState → Txn → Txn
  with_state s txn = record txn { locking = record txn.locking { state = s } }

  logged : Txn × TransactionManager → Result LogRecord × LogManager → Done
  logged x (ok r, l) = (ok tt, (record x.0 { prev_lsn = r.lsn }, record x.1 { log = l }))
  logged x (err e, l) = (err e, (x.0, record x.1 { log = l }))

  -- A record of the transaction goes to the log, linked to the one before it.
  unfoldable pub write_log_record : Bool → ℕ → Body → Txn × TransactionManager → Done
  unfolding logged
  write_log_record false outcome b x = (ok tt, x)
  write_log_record true outcome b x =
      let r = record (new_record (pos x.0.locking.txn_id) b) { prev_lsn = x.0.prev_lsn } in
      logged x (add_log_to_buffer capacity outcome r x.1.log)

  unfoldable pub flush_log : Bool → ℕ → Txn × TransactionManager → Done
  flush_log false outcome x = (ok tt, x)
  flush_log true outcome x =
      let r = flush_log_to_disk capacity outcome x.1.log in (r.0, (x.0, record x.1 { log = r.1 }))

  started : Bool → ℕ → Txn × TransactionManager → Done
  started logging outcome (txn, m) =
      let t = with_state growing (record txn { start_ts = m.next_timestamp }) in
      write_log_record logging outcome Body.begin (
        t,
        record m { next_timestamp = suc m.next_timestamp; txn_map = t.locking.txn_id ∷ m.txn_map },
      )

  -- `begin`; without a transaction it makes one.
  unfoldable pub begin_txn : Bool → ℕ → Option Txn → TransactionManager → Done
  unfolding started
  begin_txn logging outcome none m =
      started logging outcome (new_txn m.next_txn_id, record m { next_txn_id = suc m.next_txn_id })
  begin_txn logging outcome (some txn) m = started logging outcome (txn, m)

  -- `unlock` for each id of a copy of the lock set.
  unfoldable pub release : Txn × TransactionManager → Txn × TransactionManager
  release (txn, m) =
      let r = unlock_all txn.locking.lock_set txn.locking m.locks in
      (record txn { locking = r.0 }, record m { locks = r.1 })

  unfoldable pub commit : Bool → ℕ → ℕ → Txn → TransactionManager → Done
  commit logging outcome outcome' txn m =
      and_then (write_log_record logging outcome Body.commit (txn, m)) λ _ x.
        and_then (flush_log logging outcome' x) λ _ x.
          let y = release (with_state committed x.0, x.1) in
          (ok tt, (record y.0 { write_set = [] }, y.1))

  -- The transaction and the tables when the loop over the write set has ended.
  unfoldable pub undone :
      Txn × TransactionManager → (Result (Unit {0}) × List WriteRecord) × tables.State → Done
  undone x r = (r.0.0, (record x.0 { write_set = r.0.1 }, record x.1 { data_ = r.1 }))

  unfoldable pub abort : Bool → ℕ → ℕ → Txn → TransactionManager → Done
  unfolding undone
  abort logging outcome outcome' txn m =
      and_then (undone (txn, m) (roll_back tables txn.write_set m.data_)) λ _ x.
        and_then (write_log_record logging outcome Body.abort x) λ _ x.
          and_then (flush_log logging outcome' x)
            λ _ x. (ok tt, release (with_state aborted x.0, x.1))
