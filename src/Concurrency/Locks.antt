-- ===== src/Concurrency/Locks.antt =====
-- src/transaction/concurrency/lock_manager.h and lock_manager.cpp. A lock manager is its table from
-- data ids to queues; a call returns its answer or the exception that it throws, beside the table
-- and the transaction as they then stand. `latch_` makes each call one step.
pub mod Modes
pub mod Queues
pub mod Safety
pub mod TwoPhase
pub mod Upgrade
pub mod Ownership
pub mod Ended
use myrmdb.Prelude.{
  ℕ, Bool, true, false, ◌&&◌, ◌||◌, not, List, [], ◌∷◌, ◌++◌, Option, none, some, ◌==◌,
  if◌then◌else◌,
}
use myrmdb.Prelude.Assoc
use myrmdb.Concurrency.Transaction.{
  TransactionState, default, growing, shrinking, committed, aborted, Rid, LockDataId,
  LockDataId-discrete, table_lock, record_lock, AbortReason, lock_on_shirinking,
  deadlock_prevention, Transaction, set_insert, set_erase,
}

pub data LockMode : Type 0 where
  shared exlucsive intention_shared intention_exclusive s_ix : LockMode

pub data GroupLockMode : Type 0 where
  non_lock is ix s x six : GroupLockMode

pub record LockRequest : Type 0 where
  pub txn_id : ℕ
  pub lock_mode : LockMode
  pub granted : Bool

pub record LockRequestQueue : Type 0 where
  pub request_queue : List LockRequest
  pub group_lock_mode : GroupLockMode

abbrev pub empty_queue : LockRequestQueue
empty_queue = record { request_queue = []; group_lock_mode = non_lock }

abbrev pub LockTable : Type 0
LockTable = List (LockDataId × LockRequestQueue)

-- `==` on lock modes.
abbrev pub mode_eq : LockMode → LockMode → Bool
mode_eq shared shared = true
mode_eq exlucsive exlucsive = true
mode_eq intention_shared intention_shared = true
mode_eq intention_exclusive intention_exclusive = true
mode_eq s_ix s_ix = true
mode_eq _ _ = false

unfoldable pub compatible : LockMode → LockMode → Bool
compatible requested granted =
    if mode_eq requested intention_shared
    then not (mode_eq granted exlucsive)
    else if mode_eq requested intention_exclusive
    then mode_eq granted intention_shared || mode_eq granted intention_exclusive
    else if mode_eq requested shared
    then mode_eq granted intention_shared || mode_eq granted shared
    else false

unfoldable pub is_stronger_or_equal : LockMode → LockMode → Bool
is_stronger_or_equal held requested =
    if mode_eq held requested || mode_eq held exlucsive
    then true
    else if mode_eq held s_ix
    then not (mode_eq requested exlucsive)
    else if mode_eq held shared
    then mode_eq requested intention_shared
    else if mode_eq held intention_exclusive
    then mode_eq requested intention_shared
    else false

-- The loop of `compute_group_mode` for one of its five flags.
unfoldable pub has : LockMode → List LockRequest → Bool
has m [] = false
has m (r ∷ rs) = (r.granted && mode_eq r.lock_mode m) || has m rs

unfoldable pub compute_group_mode : List LockRequest → GroupLockMode
compute_group_mode q =
    if has exlucsive q
    then x
    else if has s_ix q || (has shared q && has intention_exclusive q)
    then six
    else if has shared q
    then s
    else if has intention_exclusive q
    then ix
    else if has intention_shared q
    then is
    else non_lock

-- `self`: the mode of the first granted request of the transaction.
unfoldable pub find_self : ℕ → List LockRequest → Option LockMode
find_self t [] = none
find_self t (r ∷ rs) = if r.txn_id == t && r.granted then some r.lock_mode else find_self t rs

-- The loop that throws if a granted request of another transaction is not compatible.
unfoldable pub all_compatible : ℕ → LockMode → List LockRequest → Bool
all_compatible t m [] = true
all_compatible t m (r ∷ rs) =
    (if not r.granted || r.txn_id == t then true else compatible m r.lock_mode)
    && all_compatible t m rs

-- `self->lock_mode_ = lock_mode`
unfoldable pub upgrade : ℕ → LockMode → List LockRequest → List LockRequest
upgrade t m [] = []
upgrade t m (r ∷ rs) =
    if r.txn_id == t && r.granted then record r { lock_mode = m } ∷ rs else r ∷ upgrade t m rs

-- `lock_table_[id]` on a table that may lack the id.
unfoldable pub queue_at : LockDataId → LockTable → LockRequestQueue
queue_at i t = elim (Assoc.lookup LockDataId-discrete i t) [ none ↦ empty_queue | some q ↦ q ]

pub data Outcome : Type 0 where
  returns : Bool → Outcome
  throws : AbortReason → Outcome

pub record Locked : Type 0 where
  pub outcome : Outcome
  pub locks : LockTable
  pub txn : Transaction

abbrev pub held_by : Transaction → LockDataId → Transaction
held_by txn i = record txn { lock_set = set_insert i txn.lock_set }

-- The requests after a grant: the transaction's own request in its new mode, or a new one at the end.
unfoldable pub granted_queue : ℕ → LockMode → Option LockMode → List LockRequest → List LockRequest
granted_queue t m none q = q ++ record { txn_id = t; lock_mode = m; granted = true } ∷ []
granted_queue t m (some _) q = upgrade t m q

-- Already held in a mode that is strong enough.
unfoldable pub covers : Option LockMode → LockMode → Bool
covers none m = false
covers (some held) m = is_stronger_or_equal held m

-- `lock` under the latch. `lock_table_[id]` leaves a queue behind on every path, also where the call
-- throws.
unfoldable pub acquire : Transaction → LockDataId → LockMode → LockTable → Locked
acquire txn i m t =
    let q = queue_at i t in
    let t' = Assoc.insert LockDataId-discrete i q t in
    let self = find_self txn.txn_id q.request_queue in
    let after = granted_queue txn.txn_id m self q.request_queue in
    if covers self m
    then record { outcome = returns true; locks = t'; txn = held_by txn i }
    else if all_compatible txn.txn_id m q.request_queue
    then record {
      outcome = returns true;
      locks =
          Assoc.insert LockDataId-discrete i
            (record { request_queue = after; group_lock_mode = compute_group_mode after }) t';
      txn = held_by txn i;
    }
    else record { outcome = throws deadlock_prevention; locks = t'; txn = txn }

lock_in : TransactionState → Transaction → LockDataId → LockMode → LockTable → Locked
lock_in shrinking txn i m t = record { outcome = throws lock_on_shirinking; locks = t; txn = txn }
lock_in _ txn i m t = acquire txn i m t

-- `lock` where the transaction is not null.
unfoldable pub lock : Transaction → LockDataId → LockMode → LockTable → Locked
unfolding lock_in
lock txn i m t = lock_in txn.state txn i m t

-- `lock`: a null transaction is granted everything and leaves no trace.
unfoldable pub lock_or_null :
    Option Transaction
    → LockDataId
    → LockMode
    → LockTable
    → Outcome × LockTable × Option Transaction
unfolding lock
lock_or_null none i m t = (returns true, t, none)
lock_or_null (some txn) i m t = let l = lock txn i m t in (l.outcome, l.locks, some l.txn)

-- The six entry points.
abbrev Entry : Type 0
Entry = LockTable → Outcome × LockTable × Option Transaction

unfoldable pub lock_shared_on_record : Option Transaction → Rid → ℕ → Entry
lock_shared_on_record txn rid fd = lock_or_null txn (record_lock fd rid) shared

unfoldable pub lock_exclusive_on_record : Option Transaction → Rid → ℕ → Entry
lock_exclusive_on_record txn rid fd = lock_or_null txn (record_lock fd rid) exlucsive

unfoldable pub lock_shared_on_table : Option Transaction → ℕ → Entry
lock_shared_on_table txn fd = lock_or_null txn (table_lock fd) shared

unfoldable pub lock_exclusive_on_table : Option Transaction → ℕ → Entry
lock_exclusive_on_table txn fd = lock_or_null txn (table_lock fd) exlucsive

unfoldable pub lock_is_on_table : Option Transaction → ℕ → Entry
lock_is_on_table txn fd = lock_or_null txn (table_lock fd) intention_shared

unfoldable pub lock_ix_on_table : Option Transaction → ℕ → Entry
lock_ix_on_table txn fd = lock_or_null txn (table_lock fd) intention_exclusive

abbrev keep_request : LockRequest → Option (List LockRequest) → Option (List LockRequest)
keep_request r none = none
keep_request r (some rs) = some (r ∷ rs)

-- The queue without the first request of the transaction; `none` if it has no request.
unfoldable pub drop_request : ℕ → List LockRequest → Option (List LockRequest)
drop_request t [] = none
drop_request t (r ∷ rs) = if r.txn_id == t then some rs else keep_request r (drop_request t rs)

-- `lock_table_.erase` where the queue is empty.
abbrev pub put_back : LockDataId → List LockRequest → LockTable → LockTable
put_back i [] t = Assoc.erase LockDataId-discrete i t
put_back i (r ∷ rs) t =
    Assoc.insert LockDataId-discrete i
      (record { request_queue = r ∷ rs; group_lock_mode = compute_group_mode (r ∷ rs) }) t

-- The transaction after a release: the first one ends its growing phase.
abbrev pub shrink : TransactionState → TransactionState
shrink growing = shrinking
shrink other = other

released : Transaction → LockDataId → LockTable → Option (List LockRequest) → Locked
released txn i t none = record { outcome = returns false; locks = t; txn = txn }
released txn i t (some q) = record {
  outcome = returns true;
  locks = put_back i q t;
  txn = record txn { lock_set = set_erase i txn.lock_set; state = shrink txn.state };
}

unfoldable pub unlock : Transaction → LockDataId → LockTable → Locked
unfolding released
unlock txn i t = elim (Assoc.lookup LockDataId-discrete i t) [
  | none ↦ record { outcome = returns false; locks = t; txn = txn }
  | some q ↦ released txn i t (drop_request txn.txn_id q.request_queue)
]

unfoldable pub unlock_or_null :
    Option Transaction → LockDataId → LockTable → Outcome × LockTable × Option Transaction
unfolding unlock
unlock_or_null none i t = (returns true, t, none)
unlock_or_null (some txn) i t = let l = unlock txn i t in (l.outcome, l.locks, some l.txn)
