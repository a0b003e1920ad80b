-- ===== src/Concurrency/Locks/TwoPhase.antt =====
-- Several transactions that call one lock manager in any order: no conflicting locks, two phases,
-- and what an upgrade between incomparable modes loses.
use myrmdb.Prelude.{
  ℕ, ◌≡◌, ◌∙◌, ap, true, List, [], ◌∷◌, Option, none, some, arith, Option-cases, inl, inr, ite,
  ℕ_discrete,
}
use myrmdb.Prelude.Assoc
use myrmdb.Prelude.Assoc.{lookup-insert}
use myrmdb.Concurrency.Transaction.{
  Transaction, LockDataId, LockDataId-discrete, growing, shrinking, lock_on_shirinking,
}
use myrmdb.Concurrency.Locks.{
  LockMode, LockRequest, LockTable, Outcome, returns, throws, Locked, lock, lock_in, unlock,
  released, drop_request,
}
use myrmdb.Concurrency.Locks.Safety.{IsSafeTable, lock-IsSafeTable, unlock-IsSafeTable}

pub record System : Type 0 where
  pub locks : LockTable
  pub txn : ℕ → Transaction

-- A call names the transaction that makes it.
pub data Call : Type 0 where
  locks : ℕ → LockDataId → LockMode → Call
  unlocks : ℕ → LockDataId → Call

abbrev pub update : (ℕ → Transaction) → ℕ → Transaction → ℕ → Transaction
update f k v j = ite (ℕ_discrete k j) v (f j)

abbrev pub after : System → ℕ → Locked → Outcome × System
after s k l = (l.outcome, record { locks = l.locks; txn = update s.txn k l.txn })

unfoldable pub step : Call → System → Outcome × System
step (locks k i m) s = after s k (lock (s.txn k) i m s.locks)
step (unlocks k i) s = after s k (unlock (s.txn k) i s.locks)

unfoldable pub run : List Call → System → System
run [] s = s
run (c ∷ cs) s = run cs (step c s).1

-- From a lock table in which every queue is sound, every interleaving of calls by any transactions
-- leads to one in which every queue is sound: in no queue do two transactions hold conflicting
-- modes, no transaction stands twice, and the group mode is the one computed from the requests.
pub run-IsSafeTable :
    (cs : List Call) (s : System) → IsSafeTable s.locks → IsSafeTable (run cs s).locks
unfolding run step
run-IsSafeTable [] s h = h
run-IsSafeTable (locks k i m ∷ cs) s h =
    run-IsSafeTable cs _ (lock-IsSafeTable (s.txn k) i m s.locks h)
run-IsSafeTable (unlocks k i ∷ cs) s h =
    run-IsSafeTable cs _ (unlock-IsSafeTable (s.txn k) i s.locks h)

-- A release that succeeds ends the growing phase.
released_state :
    (txn : Transaction) (i : LockDataId) (t : LockTable) (r : Option (List LockRequest))
    → txn.state ≡ growing
    → (released txn i t r).outcome ≡ returns true
    → (released txn i t r).txn.state ≡ shrinking
unfolding released
released_state txn i t none g e = ground arith
released_state txn i t (some q) g e = rw g

unlock_shrinks :
    (txn : Transaction) (i : LockDataId) (t : LockTable)
    → txn.state ≡ growing
    → (unlock txn i t).outcome ≡ returns true
    → (unlock txn i t).txn.state ≡ shrinking
unfolding unlock
unlock_shrinks txn i t g = elim (Option-cases (Assoc.lookup LockDataId-discrete i t)) [
  | inl e ↦ rw (e, unlock) (λ h. ground arith)
  | inr (q, e) ↦ rw (e, unlock) (released_state txn i t (drop_request txn.txn_id q.request_queue) g)
]

-- In the shrinking phase a lock call throws and changes neither the table nor the transaction.
lock_shrinking :
    (txn : Transaction) (i : LockDataId) (m : LockMode) (t : LockTable)
    → txn.state ≡ shrinking
    → lock txn i m t ≡ record { outcome = throws lock_on_shirinking; locks = t; txn = txn }
unfolding lock lock_in
lock_shrinking txn i m t e = ap (λ st. lock_in st txn i m t) e

-- No call of the lock manager takes a transaction out of its shrinking phase.
released_stays :
    (txn : Transaction) (i : LockDataId) (t : LockTable) (r : Option (List LockRequest))
    → txn.state ≡ shrinking
    → (released txn i t r).txn.state ≡ shrinking
unfolding released
released_stays txn i t none e = e
released_stays txn i t (some q) e = rw e

unlock_stays :
    (txn : Transaction) (i : LockDataId) (t : LockTable)
    → txn.state ≡ shrinking
    → (unlock txn i t).txn.state ≡ shrinking
unfolding unlock
unlock_stays txn i t g = elim (Option-cases (Assoc.lookup LockDataId-discrete i t)) [
  | inl e ↦ rw (e, unlock) g
  | inr (q, e) ↦ rw (e, unlock) (released_stays txn i t (drop_request txn.txn_id q.request_queue) g)
]

abbrev IsShrinking : ℕ → System → Type 0
IsShrinking k s = (s.txn k).state ≡ shrinking

update_stays :
    (f : ℕ → Transaction) (j k : ℕ) (v : Transaction)
    → (j ≡ k → v.state ≡ shrinking)
    → (f k).state ≡ shrinking
    → (update f j v k).state ≡ shrinking
update_stays f j k v h e = ground arith

step_stays : (k : ℕ) (c : Call) (s : System) → IsShrinking k s → IsShrinking k (step c s).1
unfolding step
step_stays k (locks j i m) s e =
    update_stays s.txn j k _
      (λ p.
        let e' : (s.txn j).state ≡ shrinking = rw p e in
        ap (λ (l : Locked). l.txn.state) (lock_shrinking (s.txn j) i m s.locks e') ∙ e')
      e
step_stays k (unlocks j i) s e =
    update_stays s.txn j k _ (λ p. unlock_stays (s.txn j) i s.locks (rw p e)) e

run_stays : (k : ℕ) (cs : List Call) (s : System) → IsShrinking k s → IsShrinking k (run cs s)
unfolding run
run_stays k [] s e = e
run_stays k (c ∷ cs) s e = run_stays k cs (step c s).1 (step_stays k c s e)

update_self : (f : ℕ → Transaction) (k : ℕ) (v : Transaction) → update f k v k ≡ v
update_self f k v = ground arith

-- Two phases: once a growing transaction has released a lock, then after any further calls of all
-- transactions each of its lock calls throws LOCK_ON_SHIRINKING and leaves the lock table alone.
pub two_phase :
    (k : ℕ) (i j : LockDataId) (m : LockMode) (cs : List Call) (s : System)
    → (s.txn k).state ≡ growing
    → (step (unlocks k i) s).0 ≡ returns true
    → let s' = run cs (step (unlocks k i) s).1 in
      ((step (locks k j m) s').0 ≡ throws lock_on_shirinking)
      × ((step (locks k j m) s').1.locks ≡ s'.locks)
unfolding step
two_phase k i j m cs s g ok =
    let first : IsShrinking k (step (unlocks k i) s).1 =
      ap (λ (x : Transaction). x.state) (update_self s.txn k (unlock (s.txn k) i s.locks).txn)
      ∙ unlock_shrinks (s.txn k) i s.locks g ok in
    let last = run_stays k cs (step (unlocks k i) s).1 first in
    let s' = run cs (step (unlocks k i) s).1 in
    let e = lock_shrinking (s'.txn k) j m s'.locks last in
    (ap (λ (l : Locked). l.outcome) e, ap (λ (l : Locked). l.locks) e)
