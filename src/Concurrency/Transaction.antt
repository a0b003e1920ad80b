-- ===== src/Concurrency/Transaction.antt =====
-- src/transaction/txn_defs.h and transaction.h: what a lock is on, and the state of a transaction.
use myrmdb.Prelude.{ℕ, Bool, true, false, List, [], ◌∷◌, ite, ℕ_discrete}
use myrmdb.Prelude.Int.{ℤ, negsuc}

pub data TransactionState : Type 0 where
  default growing shrinking committed aborted : TransactionState

unfoldable pub TransactionState-discrete : Discrete TransactionState
TransactionState-discrete = hlevel

pub data LockDataType : Type 0 where
  table record_type : LockDataType

-- `struct Rid` of src/defs.h.
pub record Rid : Type 0 where
  pub page_no : ℤ
  pub slot_no : ℤ

-- `class LockDataId`, with the fields that `operator==` compares.
pub record LockDataId : Type 0 where
  pub fd : ℕ
  pub rid : Rid
  pub type : LockDataType

unfoldable pub LockDataId-discrete : Discrete LockDataId
LockDataId-discrete = hlevel (ℕ_discrete)

-- The two constructors.
abbrev pub table_lock : ℕ → LockDataId
table_lock fd = record {
  fd = fd;
  rid = record { page_no = negsuc 0; slot_no = negsuc 0 };
  type = table;
}

abbrev pub record_lock : ℕ → Rid → LockDataId
record_lock fd rid = record { fd = fd; rid = rid; type = record_type }

pub data AbortReason : Type 0 where
  lock_on_shirinking upgrade_conflict deadlock_prevention : AbortReason

-- The part of `class Transaction` that locks read and write. `lock_set_` is an `unordered_set`: a
-- list without repetition.
pub record Transaction : Type 0 where
  pub txn_id : ℕ
  pub state : TransactionState
  pub lock_set : List LockDataId

unfoldable pub mem : LockDataId → List LockDataId → Bool
mem i [] = false
mem i (j ∷ js) = ite (LockDataId-discrete j i) true (mem i js)

unfoldable pub set_insert : LockDataId → List LockDataId → List LockDataId
set_insert i [] = i ∷ []
set_insert i (j ∷ js) = ite (LockDataId-discrete j i) (j ∷ js) (j ∷ set_insert i js)

unfoldable pub set_erase : LockDataId → List LockDataId → List LockDataId
set_erase i [] = []
set_erase i (j ∷ js) = ite (LockDataId-discrete j i) js (j ∷ set_erase i js)
