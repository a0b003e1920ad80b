-- ===== src/Recovery/Manager/Transactions.antt =====
-- The transactions that `analyze` takes for committed and for active.

use myrmdb.Prelude.{
  ℕ, ◌≡◌, ◌<◌, length, refl, sym, ap, ◌∙◌, Bool, true, false, List, [], ◌∷◌, ◌++◌, some, ◌||◌, ite,
  if_pos, if_neg, All, All-append,
}
use myrmdb.Prelude.Int.{ℤ, ℤ-discrete}
use myrmdb.Recovery.Log.{LogRecord, Body, update, insert, delete, begin, commit, abort}
use myrmdb.Recovery.Manager.{RecoveryState, insert_id, sort_txn, note, analyze}
use myrmdb.Recovery.Manager.Drain.{log_bytes}
use myrmdb.Recovery.Manager.Analysis.{notes, at_start, analyze-notes}
use myrmdb.Recovery.Manager.Rounds.{IsLogged, IsTail, no-IsTail}

unfoldable pub has_id : ℤ → List ℤ → Bool
has_id t [] = false
has_id t (u ∷ us) = ite (ℤ-discrete u t) true (has_id t us)

or_false : (b : Bool) → b ≡ (b || false)
or_false true = refl
or_false false = refl

has_id-insert_id :
    (t u : ℤ) (us : List ℤ) → has_id t (insert_id u us) ≡ ite (ℤ-discrete u t) true (has_id t us)
unfolding has_id insert_id
has_id-insert_id t u [] = refl
has_id-insert_id t u (w ∷ us) = elim (ℤ-discrete w u) [
  | yes e ↦ rw (if_pos (ℤ-discrete w u) e) (elim (ℤ-discrete u t) [
    | yes q ↦
        if_pos (ℤ-discrete w t) (e ∙ q) true (has_id t us)
        ∙ sym (if_pos (ℤ-discrete u t) q true (has_id t (w ∷ us)))
    | no nq ↦ rw (if_neg (ℤ-discrete u t) nq) refl
  ])
  | no ne ↦ rw (if_neg (ℤ-discrete w u) ne) (elim (ℤ-discrete w t) [
    | yes q ↦
        let other : (u ≡ t) → w ≡ u = λ k. q ∙ sym k in
        if_pos (ℤ-discrete w t) q true (has_id t (insert_id u us))
        ∙ sym (
            if_neg (ℤ-discrete u t) (λ k. ne (other k)) true (has_id t (w ∷ us))
            ∙ if_pos (ℤ-discrete w t) q true (has_id t us))
    | no nq ↦
        if_neg (ℤ-discrete w t) nq true (has_id t (insert_id u us))
        ∙ has_id-insert_id t u us
        ∙ ap (λ b. ite (ℤ-discrete u t) true b)
            (sym (if_neg (ℤ-discrete w t) nq true (has_id t us)))
  ])
]

-- The log has a COMMIT record of the transaction.
unfoldable pub is_commit : ℤ → Body → ℤ → Bool
is_commit t commit tid = ite (ℤ-discrete tid t) true false
is_commit t _ tid = false

unfoldable pub has_commit : ℤ → List LogRecord → Bool
unfolding is_commit
has_commit t [] = false
has_commit t (r ∷ rs) = is_commit t r.body r.log_tid || has_commit t rs

committed_step :
    (t : ℤ) (b : Body) (tid : ℤ) (a : RecoveryState)
    → has_id t (sort_txn b tid a).committed_txns ≡ (is_commit t b tid || has_id t a.committed_txns)
unfolding sort_txn is_commit
committed_step t commit tid a = has_id-insert_id t tid a.committed_txns ∙ elim (ℤ-discrete tid t) [
  | yes e ↦
      if_pos (ℤ-discrete tid t) e true (has_id t a.committed_txns)
      ∙ ap (λ b. b || has_id t a.committed_txns) (sym (if_pos (ℤ-discrete tid t) e true false))
  | no ne ↦
      if_neg (ℤ-discrete tid t) ne true (has_id t a.committed_txns)
      ∙ ap (λ b. b || has_id t a.committed_txns) (sym (if_neg (ℤ-discrete tid t) ne true false))
]
committed_step t (update v w i name) tid a = refl
committed_step t (insert v i name) tid a = refl
committed_step t (delete v i name) tid a = refl
committed_step t begin tid a = refl
committed_step t abort tid a = refl

or_swap : (a b c : Bool) → ((a || b) || c) ≡ (b || (a || c))
or_swap true true c = refl
or_swap true false c = refl
or_swap false true c = refl
or_swap false false c = refl

module _ (capacity : ℕ) where
  committed_notes :
      (t : ℤ) (rs : List LogRecord) (a : RecoveryState)
      → has_id t (notes capacity rs a).committed_txns
        ≡ (has_id t a.committed_txns || has_commit t rs)
  unfolding notes note has_commit
  committed_notes t [] a = or_false (has_id t a.committed_txns)
  committed_notes t (r ∷ rs) a =
      committed_notes t rs (note r a)
      ∙ ap (λ b. b || has_commit t rs) (committed_step t r.body r.log_tid a)
      ∙ or_swap (is_commit t r.body r.log_tid) (has_id t a.committed_txns) (has_commit t rs)

  -- On a log file of records that fit it, with a part of one more record at the end or none, and
  -- shorter than 2^31 bytes, `analyze` puts a transaction into `committed_txns_` exactly if a COMMIT
  -- record of it stands whole in the file.
  pub analyze-committed :
      (t : ℤ) (rs : List LogRecord) (tail : List ℕ)
      → All (IsLogged capacity) rs
      → IsTail capacity tail
      → length (log_bytes rs ++ tail) < 2147483648
      → (a : RecoveryState) × (analyze capacity (log_bytes rs ++ tail) ≡ some a)
        × (has_id t a.committed_txns ≡ has_commit t rs)
  unfolding has_id
  analyze-committed t rs tail logged ends short = (
    notes capacity rs (at_start capacity),
    analyze-notes capacity rs tail logged ends short,
    committed_notes t rs (at_start capacity),
  )

  notes-append :
      (rs ss : List LogRecord) (a : RecoveryState)
      → notes capacity (rs ++ ss) a ≡ notes capacity ss (notes capacity rs a)
  unfolding notes
  notes-append [] ss a = refl
  notes-append (r ∷ rs) ss a = notes-append rs ss (note r a)

  abort_active :
      (b : Body) (tid : ℤ) (a : RecoveryState)
      → b ≡ abort
      → has_id tid (sort_txn b tid a).active_txns ≡ true
  unfolding sort_txn
  abort_active b tid a e =
      ap (λ c. has_id tid (sort_txn c tid a).active_txns) e
      ∙ has_id-insert_id tid tid a.active_txns
      ∙ if_pos (ℤ-discrete tid tid) refl true (has_id tid a.active_txns)

  -- On a log file of records that fit it, shorter than 2^31 bytes and whose last record is an ABORT
  -- record, `analyze` ends with the transaction of that record among the active ones.
  pub analyze-aborted :
      (rs : List LogRecord) (r : LogRecord)
      → All (IsLogged capacity) rs
      → IsLogged capacity r
      → r.body ≡ abort
      → length (log_bytes (rs ++ r ∷ []) ++ []) < 2147483648
      → (a : RecoveryState) × (analyze capacity (log_bytes (rs ++ r ∷ []) ++ []) ≡ some a)
        × (has_id r.log_tid a.active_txns ≡ true)
  unfolding notes note
  analyze-aborted rs r logged last e short =
      let all : All (IsLogged capacity) (rs ++ r ∷ []) =
        All-append (IsLogged capacity) rs (r ∷ []) logged (last, tt) in
      (
        notes capacity (rs ++ r ∷ []) (at_start capacity),
        analyze-notes capacity (rs ++ r ∷ []) [] all (no-IsTail capacity) short,
        ap (λ (a : RecoveryState). has_id r.log_tid a.active_txns)
              (notes-append rs (r ∷ []) (at_start capacity))
            ∙ abort_active r.body r.log_tid (notes capacity rs (at_start capacity)) e,
      )
