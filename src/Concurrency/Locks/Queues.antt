-- ===== src/Concurrency/Locks/Queues.antt =====
-- A queue in which no two transactions hold conflicting locks, and the calls that change a queue.
use mathlib.Core.Path.{subst}
use myrmdb.Prelude.{
  ℕ, ◌≡◌, refl, ◌≢◌, true, false, List, [], ◌∷◌, ◌++◌, none, some, arith, ◌==◌, All, Option-cases,
  Bool-cases, inl, inr, ==_iff,
}
use myrmdb.Concurrency.Locks.{
  LockMode, LockRequest, find_self, all_compatible, upgrade, drop_request, granted_queue,
  compatible,
}
use myrmdb.Concurrency.Locks.Modes.{conflicts, conflicts_symm, compatible_sound}

-- Another transaction's request that does not conflict.
abbrev pub Apart : LockRequest → LockRequest → Type 0
Apart r o = (o.txn_id ≢ r.txn_id) × (conflicts o.lock_mode r.lock_mode ≡ false)

-- Every request is granted, no transaction stands twice, and no two requests conflict.
abbrev pub IsSafe : List LockRequest → Type 0
IsSafe [] = Unit {0}
IsSafe (r ∷ rs) = (r.granted ≡ true) × All (Apart r) rs × IsSafe rs

abbrev request : ℕ → LockMode → LockRequest
request t m = record { txn_id = t; lock_mode = m; granted = true }

module _ (t : ℕ) (m : LockMode) (r : LockRequest) (q : List LockRequest) where
  head_other : r.granted ≡ true → find_self t (r ∷ q) ≡ none → (r.txn_id == t) ≡ false
  unfolding find_self
  head_other g e = ground arith

  head_compatible :
      r.granted ≡ true
      → all_compatible t m (r ∷ q) ≡ true
      → (r.txn_id == t) ≡ false
      → compatible m r.lock_mode ≡ true
  unfolding all_compatible
  head_compatible g ok n = ground arith

  tail_compatible : all_compatible t m (r ∷ q) ≡ true → all_compatible t m q ≡ true
  unfolding all_compatible
  tail_compatible ok = ground arith

Apart-append :
    (r : LockRequest) (t : ℕ) (m : LockMode) (rs : List LockRequest)
    → All (Apart r) rs
    → Apart r (request t m)
    → All (Apart r) (rs ++ request t m ∷ [])
Apart-append r t m [] h a = (a, tt)
Apart-append r t m (o ∷ rs) h a = (h.0, Apart-append r t m rs h.1 a)

-- A new request at the end of a queue in which its transaction has none.
append-IsSafe :
    (t : ℕ) (m : LockMode) (q : List LockRequest)
    → IsSafe q
    → find_self t q ≡ none
    → all_compatible t m q ≡ true
    → IsSafe (q ++ request t m ∷ [])
unfolding find_self all_compatible
append-IsSafe t m [] safe e ok = (refl, tt, tt)
append-IsSafe t m (r ∷ q) safe e ok = (
  safe.0,
  Apart-append r t m q safe.1 (
      let other = head_other t m r q safe.0 e in
      ground (
        arith,
        other,
        compatible_sound m r.lock_mode (head_compatible t m r q safe.0 ok other),
        conflicts_symm m r.lock_mode,
      )),
  append-IsSafe t m q safe.2 (ground arith) (ground arith),
)

Apart-upgrade :
    (r : LockRequest) (t : ℕ) (m : LockMode) (rs : List LockRequest)
    → All (Apart r) rs
    → r.granted ≡ true
    → (r.txn_id == t) ≡ false
    → compatible m r.lock_mode ≡ true
    → All (Apart r) (upgrade t m rs)
unfolding upgrade
Apart-upgrade r t m [] h g n c = tt
Apart-upgrade r t m (o ∷ rs) h g n c = ground (
  arith,
  Apart-upgrade r t m rs h.1 g n c,
  compatible_sound m r.lock_mode,
  conflicts_symm m r.lock_mode,
)

-- The transaction's own request in its new mode, before the requests behind it.
Apart-new_mode :
    (r : LockRequest) (t : ℕ) (m : LockMode) (q : List LockRequest)
    → r.txn_id ≡ t
    → All (Apart r) q
    → IsSafe q
    → all_compatible t m q ≡ true
    → All (Apart (record r { lock_mode = m })) q
Apart-new_mode r t m [] e h safe ok = tt
Apart-new_mode r t m (o ∷ q) e h safe ok = (
  (
    h.0.0,
    compatible_sound m o.lock_mode (head_compatible t m o q safe.0 ok (ground (arith, h.0.0))),
  ),
  Apart-new_mode r t m q e h.1 safe.2 (tail_compatible t m o q ok),
)

upgrade-IsSafe :
    (t : ℕ) (m : LockMode) (q : List LockRequest)
    → IsSafe q
    → all_compatible t m q ≡ true
    → IsSafe (upgrade t m q)
unfolding upgrade
upgrade-IsSafe t m [] safe ok = tt
upgrade-IsSafe t m (r ∷ q) safe ok =
    let rest = tail_compatible t m r q ok in
    elim (Bool-cases (r.txn_id == t)) [
      | inl own ↦ rw own (
          rw safe.0
            (refl, Apart-new_mode r t m q ((==_iff r.txn_id t).0 own) safe.1 safe.2 rest, safe.2))
      | inr other ↦ rw other (
        safe.0,
        Apart-upgrade r t m q safe.1 safe.0 other (head_compatible t m r q safe.0 ok other),
        upgrade-IsSafe t m q safe.2 rest,
      )
    ]

pub granted_queue-IsSafe :
    (t : ℕ) (m : LockMode) (q : List LockRequest)
    → IsSafe q
    → all_compatible t m q ≡ true
    → IsSafe (granted_queue t m (find_self t q) q)
unfolding granted_queue
granted_queue-IsSafe t m q safe ok = elim (Option-cases (find_self t q)) [
  | inl e ↦ rw (e, granted_queue) (append-IsSafe t m q safe e ok)
  | inr (_, e) ↦ rw (e, granted_queue) (upgrade-IsSafe t m q safe ok)
]

All-drop_request :
    (P : LockRequest → Type 0) (t : ℕ) (q q' : List LockRequest)
    → All P q
    → drop_request t q ≡ some q'
    → All P q'
unfolding drop_request
All-drop_request P t [] q' h e = cc
All-drop_request P t (r ∷ q) q' h e = elim (Bool-cases (r.txn_id == t)) [
  | inl own ↦ subst (All P) (ground arith) h.1
  | inr other ↦ elim (Option-cases (drop_request t q)) [
    | inl missing ↦ absurd (ground arith)
    | inr (rest, found) ↦
        let e' : r ∷ rest ≡ q' = ground arith in
        subst (All P) e' (h.0, All-drop_request P t q rest h.1 found)
  ]
]

pub drop_request-IsSafe :
    (t : ℕ) (q q' : List LockRequest) → IsSafe q → drop_request t q ≡ some q' → IsSafe q'
unfolding drop_request
drop_request-IsSafe t [] q' safe e = cc
drop_request-IsSafe t (r ∷ q) q' safe e = elim (Bool-cases (r.txn_id == t)) [
  | inl own ↦ subst IsSafe (ground arith) safe.2
  | inr other ↦ elim (Option-cases (drop_request t q)) [
    | inl missing ↦ absurd (ground arith)
    | inr (rest, found) ↦
        let e' : r ∷ rest ≡ q' = ground arith in
        subst IsSafe e' (
          safe.0,
          All-drop_request (Apart r) t q rest safe.1 found,
          drop_request-IsSafe t q rest safe.2 found,
        )
  ]
]
