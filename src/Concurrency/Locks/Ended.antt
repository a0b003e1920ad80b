-- ===== src/Concurrency/Locks/Ended.antt =====
-- A transaction that has been committed or aborted stays so while its locks are released.
use myrmdb.Prelude.{
  ◌≡◌, ◌≢◌, refl, sym, ◌∙◌, List, [], ◌∷◌, Option, none, some, Option-cases, inl, inr,
}
use myrmdb.Prelude.Assoc
use myrmdb.Concurrency.Transaction.{
  Transaction, TransactionState, growing, shrinking, committed, aborted, default, LockDataId,
  LockDataId-discrete,
}
use myrmdb.Concurrency.Locks.{LockTable, LockRequest, shrink, released, unlock, drop_request}
use myrmdb.Concurrency.Locks.Ownership.{unlock_all}

shrink-ended : (s : TransactionState) → s ≢ growing → shrink s ≡ s
shrink-ended default ne = refl
shrink-ended growing ne = absurd (ne refl)
shrink-ended shrinking ne = refl
shrink-ended committed ne = refl
shrink-ended aborted ne = refl

released-state :
    (txn : Transaction) (i : LockDataId) (t : LockTable) (q : Option (List LockRequest))
    → txn.state ≢ growing
    → (released txn i t q).txn.state ≡ txn.state
unfolding released
released-state txn i t none ne = refl
released-state txn i t (some q) ne = shrink-ended txn.state ne

unlock-state :
    (txn : Transaction) (i : LockDataId) (t : LockTable)
    → txn.state ≢ growing
    → (unlock txn i t).txn.state ≡ txn.state
unfolding unlock
unlock-state txn i t ne = elim (Option-cases (Assoc.lookup LockDataId-discrete i t)) [
  | inl e ↦ rw (e, unlock) refl
  | inr (q, e) ↦
      rw (e, unlock) (released-state txn i t (drop_request txn.txn_id q.request_queue) ne)
]

pub unlock_all-state :
    (ids : List LockDataId) (txn : Transaction) (t : LockTable)
    → txn.state ≢ growing
    → (unlock_all ids txn t).0.state ≡ txn.state
unfolding unlock_all
unlock_all-state [] txn t ne = refl
unlock_all-state (i ∷ is) txn t ne =
    let l = unlock txn i t in
    let same = unlock-state txn i t ne in
    unlock_all-state is l.txn l.locks (λ e. ne (sym same ∙ e)) ∙ same
