-- ===== src/Concurrency/Locks/Ownership.antt =====
-- The lock set of a transaction and the lock table: releasing the set leaves no request behind.
use myrmdb.Prelude.{
  ℕ, ◌≡◌, refl, sym, ◌∙◌, ◌≢◌, Bool, true, false, ◌||◌, List, [], ◌∷◌, Option, none, some, arith,
  ◌==◌, Bool-cases, Option-cases, inl, inr, All, ==_iff,
}
use myrmdb.Prelude.Assoc
use myrmdb.Prelude.Assoc.{lookup-insert, lookup-erase}
use myrmdb.Concurrency.Transaction.{
  Transaction, LockDataId, LockDataId-discrete, TransactionState, shrinking, mem, set_insert,
}
use myrmdb.Concurrency.Locks.{
  LockMode, LockRequest, LockRequestQueue, LockTable, lock, lock_in, acquire, find_self,
  all_compatible, covers, queue_at, unlock, drop_request, put_back, released,
}
use myrmdb.Concurrency.Locks.Queues.{IsSafe, Apart}
use myrmdb.Concurrency.Locks.Safety.{IsSafeTable, unlock-IsSafeTable}
use mathlib.Core.Path.{subst}

-- The transaction has a request in the queue.
abbrev pub requests : ℕ → List LockRequest → Bool
requests k [] = false
requests k (r ∷ rs) = r.txn_id == k || requests k rs

-- Every item on which the transaction has a request is in the list.
abbrev pub OnlyIn : ℕ → List LockDataId → LockTable → Type 0
OnlyIn k ids t =
    Assoc.Everywhere LockDataId-discrete
      (λ i q. requests k q.request_queue ≡ true → mem i ids ≡ true) t

-- `commit` and `abort`: `unlock` for every id of a copy of the lock set, in its order.
unfoldable pub unlock_all : List LockDataId → Transaction → LockTable → Transaction × LockTable
unlock_all [] txn t = (txn, t)
unlock_all (i ∷ is) txn t = let l = unlock txn i t in unlock_all is l.txn l.locks

abbrev OffOne : ℕ → Option LockRequestQueue → Type 0
OffOne k none = Unit {0}
OffOne k (some q) = requests k q.request_queue ≡ false

-- A safe queue holds at most one request of a transaction.
Apart-requests :
    (r : LockRequest) (k : ℕ) (q : List LockRequest)
    → r.txn_id ≡ k
    → All (Apart r) q
    → requests k q ≡ false
Apart-requests r k [] e h = refl
Apart-requests r k (o ∷ q) e h = ground (arith, Apart-requests r k q e h.1, h.0.0)

requests-drop_request :
    (k : ℕ) (q q' : List LockRequest)
    → IsSafe q
    → drop_request k q ≡ some q'
    → requests k q' ≡ false
unfolding drop_request
requests-drop_request k [] q' safe e = cc
requests-drop_request k (r ∷ q) q' safe e = elim (Bool-cases (r.txn_id == k)) [
  | inl own ↦
      let e' : q ≡ q' = ground arith in
      subst (λ p. requests k p ≡ false) e' (Apart-requests r k q ((==_iff r.txn_id k).0 own) safe.1)
  | inr other ↦ elim (Option-cases (drop_request k q)) [
    | inl missing ↦ absurd (ground arith)
    | inr (rest, found) ↦ ground (arith, requests-drop_request k q rest safe.2 found)
  ]
]

drop_request-none : (k : ℕ) (q : List LockRequest) → drop_request k q ≡ none → requests k q ≡ false
unfolding drop_request
drop_request-none k [] e = refl
drop_request-none k (r ∷ q) e = elim (Bool-cases (r.txn_id == k)) [
  | inl own ↦ absurd (ground arith)
  | inr other ↦ elim (Option-cases (drop_request k q)) [
    | inl missing ↦ ground (arith, drop_request-none k q missing)
    | inr (rest, found) ↦ absurd (ground arith)
  ]
]

abbrev Off : ℕ → LockDataId → LockTable → Type 0
Off k i t =
    (q : LockRequestQueue)
    → Assoc.lookup LockDataId-discrete i t ≡ some q
    → requests k q.request_queue ≡ false

put_back-Off :
    (k : ℕ) (i : LockDataId) (q : List LockRequest) (t : LockTable)
    → requests k q ≡ false
    → Off k i (put_back i q t)
put_back-Off k i [] t h p e =
    let e' : none ≡ some p = sym (Assoc.lookup-erase_self LockDataId-discrete i i t refl) ∙ e in cc
put_back-Off k i (r ∷ q) t h p e =
    let e' = sym (Assoc.lookup-insert_self LockDataId-discrete i i _ t refl) ∙ e in
    subst (λ (o : Option LockRequestQueue). OffOne k o) e' h

put_back_ne :
    (i j : LockDataId) (q : List LockRequest) (t : LockTable)
    → i ≢ j
    → Assoc.lookup LockDataId-discrete j (put_back i q t) ≡ Assoc.lookup LockDataId-discrete j t
put_back_ne i j [] t ne = Assoc.lookup-erase_ne LockDataId-discrete i j t ne
put_back_ne i j (r ∷ q) t ne = Assoc.lookup-insert_ne LockDataId-discrete i j _ t ne

module _ (txn : Transaction) (i : LockDataId) (t : LockTable) (q : LockRequestQueue) where
  module _ (here : Assoc.lookup LockDataId-discrete i t ≡ some q)
      (safe : IsSafe q.request_queue) where
    released-Off :
        (r : Option (List LockRequest))
        → drop_request txn.txn_id q.request_queue ≡ r
        → Off txn.txn_id i (released txn i t r).locks
    unfolding released
    released-Off none e = λ p e'.
        let same : some q ≡ some p = sym here ∙ e' in
        subst (λ (o : Option LockRequestQueue). OffOne txn.txn_id o) same
          (drop_request-none txn.txn_id q.request_queue e)
    released-Off (some rest) e =
        put_back-Off txn.txn_id i rest t
          (requests-drop_request txn.txn_id q.request_queue rest safe e)

released_ne :
    (txn : Transaction) (i j : LockDataId) (t : LockTable) (r : Option (List LockRequest))
    → i ≢ j
    → Assoc.lookup LockDataId-discrete j (released txn i t r).locks
      ≡ Assoc.lookup LockDataId-discrete j t
unfolding released
released_ne txn i j t none ne = refl
released_ne txn i j t (some q) ne = put_back_ne i j q t ne

released_id :
    (txn : Transaction) (i : LockDataId) (t : LockTable) (r : Option (List LockRequest))
    → (released txn i t r).txn.txn_id ≡ txn.txn_id
unfolding released
released_id txn i t none = refl
released_id txn i t (some q) = refl

-- After `unlock` the transaction has no request on the item, and the other items are as they were.
unlock-Off :
    (txn : Transaction) (i : LockDataId) (t : LockTable)
    → IsSafeTable t
    → Off txn.txn_id i (unlock txn i t).locks
unfolding unlock
unlock-Off txn i t h = elim (Option-cases (Assoc.lookup LockDataId-discrete i t)) [
  | inl e ↦ rw (e, unlock) (λ q e'. let e'' : none ≡ some q = sym e ∙ e' in cc)
  | inr (q, e) ↦ rw (e, unlock) (released-Off txn i t q e (h i q e).0 _ refl)
]

unlock_ne :
    (txn : Transaction) (i j : LockDataId) (t : LockTable)
    → i ≢ j
    → Assoc.lookup LockDataId-discrete j (unlock txn i t).locks
      ≡ Assoc.lookup LockDataId-discrete j t
unfolding unlock
unlock_ne txn i j t ne = elim (Option-cases (Assoc.lookup LockDataId-discrete i t)) [
  | inl e ↦ rw (e, unlock) refl
  | inr (q, e) ↦ rw (e, unlock) (released_ne txn i j t (drop_request txn.txn_id q.request_queue) ne)
]

unlock_id :
    (txn : Transaction) (i : LockDataId) (t : LockTable) → (unlock txn i t).txn.txn_id ≡ txn.txn_id
unfolding unlock
unlock_id txn i t = elim (Option-cases (Assoc.lookup LockDataId-discrete i t)) [
  | inl e ↦ rw (e, unlock) refl
  | inr (q, e) ↦ rw (e, unlock) (released_id txn i t (drop_request txn.txn_id q.request_queue))
]

mem_tail : (i j : LockDataId) (ids : List LockDataId) → i ≢ j → mem j (i ∷ ids) ≡ mem j ids
unfolding mem
mem_tail i j ids ne = ground arith

unlock-OnlyIn :
    (txn : Transaction) (i : LockDataId) (ids : List LockDataId) (t : LockTable)
    → IsSafeTable t
    → OnlyIn txn.txn_id (i ∷ ids) t
    → OnlyIn txn.txn_id ids (unlock txn i t).locks
unlock-OnlyIn txn i ids t safe h j q e r = elim (LockDataId-discrete i j) [
  | yes same ↦
      let off =
        subst (λ a. Off txn.txn_id a (unlock txn i t).locks) same (unlock-Off txn i t safe) q e in
      let e' : true ≡ false = sym r ∙ off in cc
  | no ne ↦ sym (mem_tail i j ids ne) ∙ h j q (sym (unlock_ne txn i j t ne) ∙ e) r
]

-- Releasing every id of a list that covers a transaction's requests leaves no request of the
-- transaction in any queue of the table.
pub unlock_all-releases :
    (ids : List LockDataId) (txn : Transaction) (t : LockTable)
    → IsSafeTable t
    → OnlyIn txn.txn_id ids t
    → OnlyIn txn.txn_id [] (unlock_all ids txn t).1
unfolding unlock_all
unlock_all-releases [] txn t safe h = h
unlock_all-releases (i ∷ is) txn t safe h =
    let l = unlock txn i t in
    let same = unlock_id txn i t in
    subst (λ k. OnlyIn k [] (unlock_all is l.txn l.locks).1) same
      (unlock_all-releases is l.txn l.locks (unlock-IsSafeTable txn i t safe)
        (subst (λ k. OnlyIn k is l.locks) (sym same) (unlock-OnlyIn txn i is t safe h)))

mem-set_insert_self : (i : LockDataId) (ids : List LockDataId) → mem i (set_insert i ids) ≡ true
unfolding mem set_insert
mem-set_insert_self i [] = ground arith
mem-set_insert_self i (j ∷ ids) = ground (arith, mem-set_insert_self i ids)

mem-set_insert :
    (i j : LockDataId) (ids : List LockDataId) → mem j ids ≡ true → mem j (set_insert i ids) ≡ true
unfolding mem set_insert
mem-set_insert i j [] h = cc
mem-set_insert i j (k ∷ ids) h = ground (arith, mem-set_insert i j ids)

-- The requests of the transaction are covered by its lock set.
abbrev pub Owned : Transaction → LockTable → Type 0
Owned txn t = OnlyIn txn.txn_id txn.lock_set t

Owned-widen :
    (k : ℕ) (i : LockDataId) (ids : List LockDataId) (t : LockTable)
    → OnlyIn k ids t
    → OnlyIn k (set_insert i ids) t
Owned-widen k i ids t h j q e r = mem-set_insert i j ids (h j q e r)

insert-OnlyIn :
    (k : ℕ) (i : LockDataId) (ids : List LockDataId) (q : LockRequestQueue) (t : LockTable)
    → (requests k q.request_queue ≡ true → mem i ids ≡ true)
    → OnlyIn k ids t
    → OnlyIn k ids (Assoc.insert LockDataId-discrete i q t)
insert-OnlyIn k i ids q t =
    Assoc.insert-Everywhere LockDataId-discrete
      (λ i q. requests k q.request_queue ≡ true → mem i ids ≡ true) i q t

queue_at-OnlyIn :
    (k : ℕ) (i : LockDataId) (ids : List LockDataId) (t : LockTable)
    → OnlyIn k ids t
    → requests k (queue_at i t).request_queue ≡ true
    → mem i ids ≡ true
unfolding queue_at
queue_at-OnlyIn k i ids t h = elim (Option-cases (Assoc.lookup LockDataId-discrete i t)) [
  | inl e ↦ rw (e, queue_at) (λ r. cc)
  | inr (q, e) ↦ rw (e, queue_at) (h i q e)
]

module _ (txn : Transaction) (i : LockDataId) (m : LockMode) (t : LockTable) (h : Owned txn t) where
  acquire-Owned : Owned (acquire txn i m t).txn (acquire txn i m t).locks
  unfolding acquire
  acquire-Owned =
      let q = queue_at i t in
      let ids = set_insert i txn.lock_set in
      let kept =
        insert-OnlyIn txn.txn_id i txn.lock_set q t (queue_at-OnlyIn txn.txn_id i txn.lock_set t h)
          h in
      let wide = Owned-widen txn.txn_id i txn.lock_set _ kept in
      elim (Bool-cases (covers (find_self txn.txn_id q.request_queue) m)) [
        | inl e ↦ rw e wide
        | inr e ↦ rw e (elim (Bool-cases (all_compatible txn.txn_id m q.request_queue)) [
          | inl ok ↦
              rw ok
                (insert-OnlyIn txn.txn_id i ids _ _ (λ r. mem-set_insert_self i txn.lock_set) wide)
          | inr clash ↦ rw clash kept
        ])
      ]

lock_in-Owned :
    (state : TransactionState) (txn : Transaction) (i : LockDataId) (m : LockMode) (t : LockTable)
    → Owned txn t
    → Owned (lock_in state txn i m t).txn (lock_in state txn i m t).locks
unfolding lock_in
lock_in-Owned shrinking txn i m t h = h
lock_in-Owned _ txn i m t h = acquire-Owned txn i m t h

-- Every lock call, also one that throws, keeps a transaction's requests within its lock set.
pub lock-Owned :
    (txn : Transaction) (i : LockDataId) (m : LockMode) (t : LockTable)
    → Owned txn t
    → Owned (lock txn i m t).txn (lock txn i m t).locks
unfolding lock
lock-Owned txn i m t h = lock_in-Owned txn.state txn i m t h
