-- ===== src/Tests/Locks.antt =====
-- Two transactions on one lock table.
use myrmdb.Prelude.{ℕ, ◌≡◌, refl, ◌&&◌, not, true, false, List, [], ◌∷◌, arith}
use myrmdb.Prelude.Assoc
use myrmdb.Concurrency.Transaction.{
  Transaction, growing, LockDataId, LockDataId-discrete, table_lock, lock_on_shirinking, mem,
}
use myrmdb.Concurrency.Locks.{
  LockRequestQueue, has, drop_request, shared, exlucsive, intention_shared, intention_exclusive,
  s_ix, LockTable, returns, throws, LockRequest, compatible, is_stronger_or_equal,
  compute_group_mode, mode_eq, lock, unlock, queue_at, s,
}
use myrmdb.Concurrency.Locks.Modes.{
  conflicts, compatible_exact, is_stronger_or_equal_exact, compute_group_mode_exact, mode_of,
}
use myrmdb.Concurrency.Locks.Safety.{IsSafeTable, IsSound}
use myrmdb.Concurrency.Locks.TwoPhase.{
  System, Call, locks, unlocks, step, run, run-IsSafeTable, two_phase,
}
use myrmdb.Concurrency.Locks.Upgrade.{upgrade_loses_shared}
use myrmdb.Concurrency.Locks.Ownership.{
  requests, unlock_all, unlock_all-releases, lock-Owned, OnlyIn, Owned,
}

abbrev txn_at : ℕ → Transaction
txn_at k = record { txn_id = k; state = growing; lock_set = [] }

abbrev users : LockDataId
users = table_lock 3

abbrev start : System
start = record { locks = []; txn = txn_at }

empty-IsSafeTable : IsSafeTable []
unfolding Assoc.lookup
empty-IsSafeTable i q e = cc

abbrev calls : List Call
calls = locks 1 users shared ∷ locks 2 users intention_exclusive ∷ unlocks 1 users ∷ []

run-IsSafeTable_example : IsSafeTable (run calls start).locks
run-IsSafeTable_example = run-IsSafeTable calls start empty-IsSafeTable

compatible_exact_example :
    compatible intention_shared s_ix
    ≡ not (mode_eq intention_shared s_ix) && not (conflicts intention_shared s_ix)
compatible_exact_example = compatible_exact intention_shared s_ix

is_stronger_or_equal_exact_example : is_stronger_or_equal s_ix shared ≡ true
is_stronger_or_equal_exact_example = is_stronger_or_equal_exact s_ix shared

abbrev mixed : List LockRequest
mixed =
    record { txn_id = 1; lock_mode = shared; granted = true }
    ∷ record { txn_id = 2; lock_mode = intention_exclusive; granted = true }
    ∷ []

compute_group_mode_exact_example : mode_of (compute_group_mode mixed) ≡ (true, false, true)
compute_group_mode_exact_example = compute_group_mode_exact mixed

-- Transaction 1 holds S on the table.
abbrev queue_of_reader : LockRequestQueue
queue_of_reader = record {
  request_queue = record { txn_id = 1; lock_mode = shared; granted = true } ∷ [];
  group_lock_mode = s;
}

abbrev after_shared : LockTable
after_shared = (users, queue_of_reader) ∷ []

abbrev one_reader : System
one_reader = record {
  locks = after_shared;
  txn = λ k. record { txn_id = k; state = growing; lock_set = users ∷ [] };
}

unlock_run : (step (unlocks 1 users) one_reader).0 ≡ returns true
unfolding step unlock drop_request Assoc.lookup
unlock_run = ground arith

queue_run :
    (queue_at users after_shared).request_queue
    ≡ record { txn_id = 1; lock_mode = shared; granted = true } ∷ []
unfolding queue_at Assoc.lookup
queue_run = ground arith

two_phase_example :
    let s' = run calls (step (unlocks 1 users) one_reader).1 in
    ((step (locks 1 users shared) s').0 ≡ throws lock_on_shirinking)
    × ((step (locks 1 users shared) s').1.locks ≡ s'.locks)
two_phase_example = two_phase 1 users users shared calls one_reader refl unlock_run

upgrade_loses_shared_example :
    ((lock (txn_at 1) users intention_exclusive after_shared).outcome ≡ returns true)
    × ((queue_at users (lock (txn_at 1) users intention_exclusive after_shared).locks).request_queue
        ≡ record { txn_id = 1; lock_mode = intention_exclusive; granted = true } ∷ [])
    × ((lock
          (txn_at 2)
          users
          intention_exclusive
          (lock (txn_at 1) users intention_exclusive after_shared).locks).outcome
        ≡ returns true)
upgrade_loses_shared_example =
    upgrade_loses_shared (txn_at 1) (txn_at 2) users after_shared refl refl (λ e. omega arith)
      queue_run

after_shared-IsSafeTable : IsSafeTable after_shared
unfolding Assoc.insert compute_group_mode has
after_shared-IsSafeTable =
    Assoc.insert-Everywhere LockDataId-discrete (λ (i : LockDataId) q. IsSound q) users
      (queue_of_reader) [] ((refl, tt, tt), refl) empty-IsSafeTable

abbrev one_reader_txn : Transaction
one_reader_txn = record { txn_id = 1; state = growing; lock_set = users ∷ [] }

reader-Owned : OnlyIn 1 (users ∷ []) after_shared
unfolding Assoc.insert Assoc.lookup mem
reader-Owned =
    Assoc.insert-Everywhere LockDataId-discrete
      (λ i (q : LockRequestQueue). requests 1 q.request_queue ≡ true → mem i (users ∷ []) ≡ true)
      users queue_of_reader [] (λ r. ground arith) (λ i q e. cc)

unlock_all-releases_example : OnlyIn 1 [] (unlock_all (users ∷ []) one_reader_txn after_shared).1
unlock_all-releases_example =
    unlock_all-releases (users ∷ []) one_reader_txn after_shared after_shared-IsSafeTable
      reader-Owned

lock-Owned_example :
    Owned
      (lock one_reader_txn users exlucsive after_shared).txn
      (lock one_reader_txn users exlucsive after_shared).locks
lock-Owned_example = lock-Owned one_reader_txn users exlucsive after_shared reader-Owned
