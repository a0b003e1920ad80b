-- ===== src/Transactions/Manager/Finish.antt =====
-- What commit and abort leave behind: no lock, no write, and, after an abort, no change.
use mathlib.Core.Path.{subst}
use myrmdb.Prelude.{ℕ, ◌≡◌, ◌≢◌, refl, sym, ap, ◌∙◌, Bool, true, false, []}
use myrmdb.Concurrency.Transaction.{Transaction, TransactionState, growing, committed, aborted}
use myrmdb.Concurrency.Locks.{LockTable}
use myrmdb.Concurrency.Locks.Ended.{unlock_all-state}
use myrmdb.Concurrency.Locks.Ownership.{OnlyIn, unlock_all-releases}
use myrmdb.Concurrency.Locks.Safety.{IsSafeTable}
use myrmdb.Errors.{Result, ok, err, and_then-ok}
use myrmdb.Recovery.Log.{LogRecord, Body}
use myrmdb.Recovery.Manager.{LogManager}
use myrmdb.Transactions.Tables.{Tables, Records, Same}
use myrmdb.Transactions.Manager.{
  Txn, TransactionManager, Done, with_state, logged, write_log_record, flush_log, release, commit,
  abort, undone,
}
use myrmdb.Transactions.Writes.{roll_back}
use myrmdb.Transactions.Writes.Restore.{WroteAll, roll_back-restores}

module _ (tables : Tables) (capacity : ℕ) where
  abbrev Both : Type 0
  Both = Txn × TransactionManager tables capacity

  -- What writing to the log leaves as it was.
  abbrev Kept : Both → Both → Type 0
  Kept x y =
      (y.0.locking ≡ x.0.locking)
      × (y.0.write_set ≡ x.0.write_set)
      × (y.1.locks ≡ x.1.locks)
      × (y.1.data_ ≡ x.1.data_)

  logged-Kept :
      (x : Both) (r : Result LogRecord × LogManager) → Kept x (logged tables capacity x r).1
  unfolding logged
  logged-Kept x (ok r, l) = (refl, refl, refl, refl)
  logged-Kept x (err e, l) = (refl, refl, refl, refl)

  write_log_record-Kept :
      (logging : Bool) (outcome : ℕ) (b : Body) (x : Both)
      → Kept x (write_log_record tables capacity logging outcome b x).1
  unfolding write_log_record
  write_log_record-Kept false outcome b x = (refl, refl, refl, refl)
  write_log_record-Kept true outcome b x = logged-Kept x _

  flush_log-Kept :
      (logging : Bool) (outcome : ℕ) (x : Both)
      → Kept x (flush_log tables capacity logging outcome x).1
  unfolding flush_log
  flush_log-Kept false outcome x = (refl, refl, refl, refl)
  flush_log-Kept true outcome x = (refl, refl, refl, refl)

  Kept-trans : (x y z : Both) → Kept x y → Kept y z → Kept x z
  Kept-trans x y z a b = (b.0 ∙ a.0, b.1 ∙ a.1, b.2 ∙ a.2, b.3 ∙ a.3)

  -- The lock table is sound, and the requests of the transaction are those of its lock set.
  abbrev pub IsOwner : Txn → LockTable → Type 0
  IsOwner txn t = IsSafeTable t × OnlyIn txn.locking.txn_id txn.locking.lock_set t

  IsOwner-Kept : (x y : Both) → Kept x y → IsOwner x.0 x.1.locks → IsOwner y.0 y.1.locks
  IsOwner-Kept x y k h =
      subst (λ t. IsSafeTable t × OnlyIn y.0.locking.txn_id y.0.locking.lock_set t) (sym k.2)
        (subst (λ (l : Transaction). IsSafeTable x.1.locks × OnlyIn l.txn_id l.lock_set x.1.locks)
          (sym k.0) h)

  -- The transaction is in the state `s`, and no queue holds a request of it.
  abbrev pub IsOut : TransactionState → ℕ → Both → Type 0
  IsOut s id x = (x.0.locking.state ≡ s) × OnlyIn id [] x.1.locks

  release-IsOut :
      (s : TransactionState) (x : Both)
      → s ≢ growing
      → IsOwner x.0 x.1.locks
      → IsOut s x.0.locking.txn_id (release tables capacity (with_state tables capacity s x.0, x.1))
  unfolding release
  release-IsOut s x ne h =
      let l = record x.0.locking { state = s } in
      (
        unlock_all-state l.lock_set l x.1.locks ne,
        unlock_all-releases l.lock_set l x.1.locks h.0 h.1,
      )

  -- Apart from the locks, releasing them changes nothing.
  release_rest :
      (x : Both)
      → ((release tables capacity x).0.write_set ≡ x.0.write_set)
        × ((release tables capacity x).1.data_ ≡ x.1.data_)
  unfolding release
  release_rest x = (refl, refl)

  abbrev ends_so : (r q : Done tables capacity) → r ≡ q → r.0 ≡ ok tt → q.0 ≡ ok tt
  ends_so r q same e = ap (λ (x : Done tables capacity). x.0) (sym same) ∙ e

  -- A commit that returns, of a transaction that has the requests of its lock set and no other, leaves
  -- it committed, with no request in any queue and no write in its write set, and the tables as they
  -- were.
  pub commit-IsOut :
      (logging : Bool) (outcome outcome' : ℕ) (txn : Txn) (m : TransactionManager tables capacity)
      → IsOwner txn m.locks
      → (commit tables capacity logging outcome outcome' txn m).0 ≡ ok tt
      → let u = (commit tables capacity logging outcome outcome' txn m).1 in
        IsOut committed txn.locking.txn_id u × (u.0.write_set ≡ []) × (u.1.data_ ≡ m.data_)
  unfolding commit
  commit-IsOut logging outcome outcome' txn m h e =
      let x = write_log_record tables capacity logging outcome Body.commit (txn, m) in
      let one = and_then-ok x _ tt e in
      let y = flush_log tables capacity logging outcome' x.1 in
      let two = and_then-ok y _ tt (ends_so _ _ one.2 e) in
      let all = one.2 ∙ two.2 in
      let kept =
        Kept-trans (txn, m) x.1 y.1 (write_log_record-Kept logging outcome Body.commit (txn, m))
          (flush_log-Kept logging outcome' x.1) in
      let P : Done tables capacity → Type 0 = λ r.
        IsOut committed txn.locking.txn_id r.1 × (r.1.0.write_set ≡ []) × (r.1.1.data_ ≡ m.data_) in
      let id = ap (λ (l : Transaction). l.txn_id) kept.0 in
      let out =
        release-IsOut committed y.1 (λ (bad : committed ≡ growing). cc)
          (IsOwner-Kept (txn, m) y.1 kept h) in
      subst P (sym all) (
        subst
            (λ k.
              IsOut committed k
                (release tables capacity (with_state tables capacity committed y.1.0, y.1.1)))
            id out,
        refl,
        (release_rest (with_state tables capacity committed y.1.0, y.1.1)).1 ∙ kept.3,
      )

  -- An abort that returns, of a transaction whose writes have led from the records `f` to those of the
  -- tables and that has the requests of its lock set and no other, leads back to `f` and leaves the
  -- transaction aborted, with no request in any queue and no write in its write set.
  pub abort-IsOut :
      (logging : Bool) (outcome outcome' : ℕ) (txn : Txn) (m : TransactionManager tables capacity)
      (f : Records)
      → IsOwner txn m.locks
      → WroteAll tables txn.write_set f (tables.records m.data_)
      → (abort tables capacity logging outcome outcome' txn m).0 ≡ ok tt
      → let u = (abort tables capacity logging outcome outcome' txn m).1 in
        IsOut aborted txn.locking.txn_id u
        × (u.0.write_set ≡ [])
        × Same (tables.records u.1.data_) f
  unfolding abort undone
  abort-IsOut logging outcome outcome' txn m f h wrote e =
      let r = roll_back tables txn.write_set m.data_ in
      let z = undone tables capacity (txn, m) r in
      let zero_ = and_then-ok z _ tt e in
      let x = write_log_record tables capacity logging outcome Body.abort z.1 in
      let one = and_then-ok x _ tt (ends_so _ _ zero_.2 e) in
      let y = flush_log tables capacity logging outcome' x.1 in
      let two = and_then-ok y _ tt (ends_so _ _ (zero_.2 ∙ one.2) e) in
      let all = zero_.2 ∙ one.2 ∙ two.2 in
      let kept =
        Kept-trans z.1 x.1 y.1 (write_log_record-Kept logging outcome Body.abort z.1)
          (flush_log-Kept logging outcome' x.1) in
      let restored = roll_back-restores tables txn.write_set f m.data_ wrote zero_.1 in
      let P : Done tables capacity → Type 0 = λ d.
        IsOut aborted txn.locking.txn_id d.1
        × (d.1.0.write_set ≡ [])
        × Same (tables.records d.1.1.data_) f in
      let id = ap (λ (l : Transaction). l.txn_id) kept.0 in
      let out =
        release-IsOut aborted y.1 (λ (bad : aborted ≡ growing). cc) (IsOwner-Kept z.1 y.1 kept h) in
      let last : Both = (with_state tables capacity aborted y.1.0, y.1.1) in
      subst P (sym all) (
        subst (λ k. IsOut aborted k (release tables capacity last)) id out,
        (release_rest last).0 ∙ kept.1 ∙ restored.1,
        subst (λ s. Same (tables.records s) f) (sym ((release_rest last).1 ∙ kept.3)) restored.0,
      )
