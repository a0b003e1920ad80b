-- ===== src/Concurrency/Locks/Upgrade.antt =====
-- What a lock call gives: a covered request keeps the mode that is held, and an upgrade replaces it.
use myrmdb.Prelude.{ℕ, ◌≡◌, refl, ◌∙◌, ap, ◌≢◌, true, false, List, [], ◌∷◌, arith}
use myrmdb.Prelude.Assoc
use myrmdb.Prelude.Assoc.{lookup-insert}
use myrmdb.Concurrency.Transaction.{Transaction, LockDataId, LockDataId-discrete, growing}
use myrmdb.Concurrency.Locks.{
  LockMode, LockRequestQueue, shared, intention_exclusive, LockRequest, LockTable, returns, lock,
  lock_in, acquire, find_self, all_compatible, covers, granted_queue, is_stronger_or_equal,
  compatible, queue_at, upgrade,
}

abbrev alone : ℕ → LockMode → List LockRequest
alone t m = record { txn_id = t; lock_mode = m; granted = true } ∷ []

abbrev requests_at : LockDataId → LockTable → List LockRequest
requests_at i t = (queue_at i t).request_queue

requests_at-insert :
    (i : LockDataId) (q : LockRequestQueue) (t : LockTable)
    → queue_at i (Assoc.insert LockDataId-discrete i q t) ≡ q
unfolding queue_at
requests_at-insert i q t = ground (arith, lookup-insert LockDataId-discrete i i q t)

module _ (txn : Transaction) (i : LockDataId) (m : LockMode) (t : LockTable) where
  lock_growing : txn.state ≡ growing → lock txn i m t ≡ acquire txn i m t
  unfolding lock lock_in
  lock_growing g = ap (λ st. lock_in st txn i m t) g

  -- A request that is not covered and is compatible with the other holders is granted.
  pub lock_grants :
      txn.state ≡ growing
      → covers (find_self txn.txn_id (requests_at i t)) m ≡ false
      → all_compatible txn.txn_id m (requests_at i t) ≡ true
      → ((lock txn i m t).outcome ≡ returns true)
        × (requests_at i (lock txn i m t).locks
            ≡ granted_queue txn.txn_id m (find_self txn.txn_id (requests_at i t)) (requests_at i t))
  lock_grants g c a = rw (lock_growing g) (
      unfold acquire in
      rw c (rw a (refl, ap (λ (q : LockRequestQueue). q.request_queue) (requests_at-insert i _ _))))

module _ (t : ℕ) where
  shared_alone-covers : covers (find_self t (alone t shared)) intention_exclusive ≡ false
  unfolding covers find_self is_stronger_or_equal
  shared_alone-covers = ground arith

  shared_alone-compatible : all_compatible t intention_exclusive (alone t shared) ≡ true
  unfolding all_compatible
  shared_alone-compatible = ground arith

  shared_alone-granted :
      granted_queue t intention_exclusive (find_self t (alone t shared)) (alone t shared)
      ≡ alone t intention_exclusive
  unfolding granted_queue find_self upgrade
  shared_alone-granted = ground arith

module _ (t u : ℕ) (ne : t ≢ u) where
  other_covers : covers (find_self u (alone t intention_exclusive)) intention_exclusive ≡ false
  unfolding covers find_self
  other_covers = ground arith

  other_compatible : all_compatible u intention_exclusive (alone t intention_exclusive) ≡ true
  unfolding all_compatible compatible
  other_compatible = ground arith

-- A transaction that is the only holder of S on an item and asks for IX is granted it by replacing S:
-- the next transaction that asks for IX on the item is granted it too, though the first one had read
-- the item as a whole and released nothing.
pub upgrade_loses_shared :
    (t u : Transaction) (i : LockDataId) (table : LockTable)
    → t.state ≡ growing
    → u.state ≡ growing
    → t.txn_id ≢ u.txn_id
    → requests_at i table ≡ alone t.txn_id shared
    → let l = lock t i intention_exclusive table in
      (l.outcome ≡ returns true)
      × (requests_at i l.locks ≡ alone t.txn_id intention_exclusive)
      × ((lock u i intention_exclusive l.locks).outcome ≡ returns true)
upgrade_loses_shared t u i table gt gu ne e =
    let q' = requests_at i (lock t i intention_exclusive table).locks in
    let one =
      lock_grants t i intention_exclusive table gt (rw e (shared_alone-covers t.txn_id))
        (rw e (shared_alone-compatible t.txn_id)) in
    let now : q' ≡ alone t.txn_id intention_exclusive =
      one.1 ∙ rw e (shared_alone-granted t.txn_id) in
    let two =
      lock_grants u i intention_exclusive (lock t i intention_exclusive table).locks gu
        (rw now (other_covers t.txn_id u.txn_id ne))
        (rw now (other_compatible t.txn_id u.txn_id ne)) in
    (one.0, now, two.0)
