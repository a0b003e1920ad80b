-- ===== src/Concurrency/Locks/Safety.antt =====
-- The lock table under any interleaving of the calls of any transactions.

use myrmdb.Prelude.{
  ◌≡◌, refl, List, [], ◌∷◌, Option, none, some, Option-cases, Bool-cases, inl, inr,
}
use myrmdb.Prelude.Assoc
use myrmdb.Prelude.Assoc.{lookup-insert, lookup-erase}
use myrmdb.Concurrency.Transaction.{
  Transaction, LockDataId, LockDataId-discrete, TransactionState, shrinking,
}
use myrmdb.Concurrency.Locks.{
  LockMode, LockRequest, LockRequestQueue, LockTable, lock, unlock, queue_at, put_back, acquire,
  lock_in, has, find_self, covers, all_compatible, compute_group_mode, drop_request, released,
}
use myrmdb.Concurrency.Locks.Queues.{IsSafe, granted_queue-IsSafe, drop_request-IsSafe}

-- A queue is sound if its requests do not conflict and its group mode is the one computed from them.
abbrev pub IsSound : LockRequestQueue → Type 0
IsSound q = IsSafe q.request_queue × (q.group_lock_mode ≡ compute_group_mode q.request_queue)

-- Every queue of the table is sound.
abbrev pub IsSafeTable : LockTable → Type 0
IsSafeTable = Assoc.Everywhere LockDataId-discrete (λ i q. IsSound q)

queue_at-IsSound : (i : LockDataId) (t : LockTable) → IsSafeTable t → IsSound (queue_at i t)
unfolding queue_at compute_group_mode has
queue_at-IsSound i t h = elim (Option-cases (Assoc.lookup LockDataId-discrete i t)) [
  | inl e ↦ rw (e, queue_at) (tt, refl)
  | inr (q, e) ↦ rw (e, queue_at) (h i q e)
]

insert-IsSafeTable :
    (i : LockDataId) (q : LockRequestQueue) (t : LockTable)
    → IsSound q
    → IsSafeTable t
    → IsSafeTable (Assoc.insert LockDataId-discrete i q t)
insert-IsSafeTable i q t =
    Assoc.insert-Everywhere LockDataId-discrete (λ (i : LockDataId) q. IsSound q) i q t

put_back-IsSafeTable :
    (i : LockDataId) (q : List LockRequest) (t : LockTable)
    → IsSafe q
    → IsSafeTable t
    → IsSafeTable (put_back i q t)
put_back-IsSafeTable i [] t safe h =
    Assoc.erase-Everywhere LockDataId-discrete (λ (i : LockDataId) q. IsSound q) i t h
put_back-IsSafeTable i (r ∷ q) t safe h = insert-IsSafeTable i _ t (safe, refl) h

module _ (txn : Transaction) (i : LockDataId) (m : LockMode) (t : LockTable)
    (h : IsSafeTable t) where
  acquire-IsSafeTable : IsSafeTable (acquire txn i m t).locks
  unfolding acquire
  acquire-IsSafeTable =
      let q = queue_at i t in
      let self = find_self txn.txn_id q.request_queue in
      let sound = queue_at-IsSound i t h in
      let kept = insert-IsSafeTable i q t sound h in
      elim (Bool-cases (covers self m)) [
        | inl e ↦ rw e kept
        | inr e ↦ rw e (elim (Bool-cases (all_compatible txn.txn_id m q.request_queue)) [
          | inl ok ↦ rw ok (
              insert-IsSafeTable i _ _
                (granted_queue-IsSafe txn.txn_id m q.request_queue sound.0 ok, refl) kept)
          | inr clash ↦ rw clash kept
        ])
      ]

lock_in-IsSafeTable :
    (state : TransactionState) (txn : Transaction) (i : LockDataId) (m : LockMode) (t : LockTable)
    → IsSafeTable t
    → IsSafeTable (lock_in state txn i m t).locks
unfolding lock_in
lock_in-IsSafeTable shrinking txn i m t h = h
lock_in-IsSafeTable _ txn i m t h = acquire-IsSafeTable txn i m t h

pub lock-IsSafeTable :
    (txn : Transaction) (i : LockDataId) (m : LockMode) (t : LockTable)
    → IsSafeTable t
    → IsSafeTable (lock txn i m t).locks
unfolding lock
lock-IsSafeTable txn i m t h = lock_in-IsSafeTable txn.state txn i m t h

released-IsSafeTable :
    (txn : Transaction) (i : LockDataId) (t : LockTable) (r : Option (List LockRequest))
    → IsSafeTable t
    → ((q : List LockRequest) → r ≡ some q → IsSafe q)
    → IsSafeTable (released txn i t r).locks
unfolding released
released-IsSafeTable txn i t none h safe = h
released-IsSafeTable txn i t (some q) h safe = put_back-IsSafeTable i q t (safe q refl) h

pub unlock-IsSafeTable :
    (txn : Transaction) (i : LockDataId) (t : LockTable)
    → IsSafeTable t
    → IsSafeTable (unlock txn i t).locks
unfolding unlock
unlock-IsSafeTable txn i t h = elim (Option-cases (Assoc.lookup LockDataId-discrete i t)) [
  | inl e ↦ rw (e, unlock) h
  | inr (q, e) ↦
      rw (e, unlock)
        (released-IsSafeTable txn i t (drop_request txn.txn_id q.request_queue) h
          λ q' e'. drop_request-IsSafe txn.txn_id q.request_queue q' (h i q e).0 e')
]
