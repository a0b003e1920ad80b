-- ===== src/Recovery/Manager/Analysis.antt =====
-- The rounds of `analyze` over the bytes of a log file.

use myrmdb.Prelude.{
  ℕ, zero, suc, ◌+◌, ◌≡◌, ◌≤◌, ◌<◌, refl, sym, ap, ◌∙◌, List, [], ◌∷◌, ◌++◌, some, length, drop,
  arith, append-nil, append_assoc, length-append, drop-append, drop_add, length-drop, All,
}
use myrmdb.Prelude.Int.{ℤ, pos, add_int_small}
use myrmdb.Recovery.Log.{Body, update, insert, delete, begin, commit, abort, LogRecord}
use myrmdb.Recovery.Log.Layout.{record_bytes}
use myrmdb.Recovery.Manager.{RecoveryState, sort_txn, note, analyze_from, analyze}
use myrmdb.Recovery.Manager.Drain.{log_bytes}
use myrmdb.Recovery.Manager.Rounds.{IsLogged, IsTail, next_found, next_tail, next_long}

sort_txn-logs : (b : Body) (tid : ℤ) (a : RecoveryState) → (sort_txn b tid a).logs ≡ a.logs
unfolding sort_txn
sort_txn-logs (update v w i name) tid a = refl
sort_txn-logs (insert v i name) tid a = refl
sort_txn-logs (delete v i name) tid a = refl
sort_txn-logs begin tid a = refl
sort_txn-logs commit tid a = refl
sort_txn-logs abort tid a = refl

module _ (capacity : ℕ) where
  unfoldable pub notes : List LogRecord → RecoveryState → RecoveryState
  notes [] a = a
  notes (r ∷ rs) a = notes rs (note r a)

  analyze_from-reads :
      (rs : List LogRecord) (rounds : ℕ) (file : List ℕ) (offset : ℕ) (tail : List ℕ)
      (a : RecoveryState)
      → length file < 2147483648
      → offset ≤ length file
      → drop offset file ≡ log_bytes rs ++ tail
      → All (IsLogged capacity) rs
      → IsTail capacity tail
      → length rs < rounds
      → analyze_from capacity rounds file (pos offset) a ≡ some (notes rs a)
  unfolding analyze_from notes
  analyze_from-reads rs zero file offset tail a short inside e logged ends fuel =
      absurd (omega (arith, fuel))
  analyze_from-reads [] (suc rounds) file offset tail a short inside e logged ends fuel =
      let stops = next_tail capacity file offset tail short inside e ends in
      rw (analyze_from, stops) refl
  analyze_from-reads (r ∷ rs) (suc rounds) file offset tail a short inside e logged ends fuel =
      let n = r.log_tot_len in
      let rest = log_bytes rs ++ tail in
      let sized = logged.0.sized in
      let split : drop offset file ≡ record_bytes r ++ rest =
        e ∙ append_assoc (record_bytes r) (log_bytes rs) tail in
      let finds = next_found capacity file offset r rest short inside split logged.0 in
      let next : drop (offset + n) file ≡ rest =
        drop_add offset n file
        ∙ ap (drop n) split
        ∙ ap (λ k. drop k (record_bytes r ++ rest)) sized
        ∙ drop-append (record_bytes r) rest in
      let a1 = length-drop offset file inside in
      let a2 = ap length split in
      let a3 = length-append (record_bytes r) rest in
      let inside' : offset + n ≤ length file = omega (arith, a1, a2, a3, sized) in
      let again =
        analyze_from-reads rs rounds file (offset + n) tail (note r a) short inside' next logged.1
          ends (omega (arith, fuel)) in
      let wraps = add_int_small offset n (omega (arith, short, inside')) in
      rw (analyze_from, finds)
        (ap (λ z. analyze_from capacity rounds file z (note r a)) wraps ∙ again)

  notes-logs : (rs : List LogRecord) (a : RecoveryState) → (notes rs a).logs ≡ a.logs ++ rs
  unfolding notes note
  notes-logs [] a = sym (append-nil a.logs)
  notes-logs (r ∷ rs) a =
      notes-logs rs (note r a)
      ∙ ap (λ xs. xs ++ (r ∷ []) ++ rs) (sort_txn-logs r.body r.log_tid a)
      ∙ append_assoc a.logs (r ∷ []) rs

  count_below : (rs : List LogRecord) → length rs ≤ length (log_bytes rs)
  count_below [] = omega arith
  count_below (r ∷ rs) =
      let a = count_below rs in
      let b = length-append (record_bytes r) (log_bytes rs) in omega (arith, a, b)

  abbrev pub at_start : RecoveryState
  at_start = record { logs = []; committed_txns = []; active_txns = [] }

  pub analyze-notes :
      (rs : List LogRecord) (tail : List ℕ)
      → All (IsLogged capacity) rs
      → IsTail capacity tail
      → length (log_bytes rs ++ tail) < 2147483648
      → analyze capacity (log_bytes rs ++ tail) ≡ some (notes rs at_start)
  unfolding analyze
  analyze-notes rs tail logged ends short =
      let file = log_bytes rs ++ tail in
      let b = count_below rs in
      let c = length-append (log_bytes rs) tail in
      analyze_from-reads rs (suc (length file)) file 0 tail at_start short (omega arith) refl logged
        ends (omega (arith, b, c))

  -- If the log file is shorter than 2^31 bytes and consists of the bytes of records that fit it, and
  -- of no more than a part of one more record, `analyze` ends without an exception and `logs_` is
  -- those records in their order.
  pub analyze-reads :
      (rs : List LogRecord) (tail : List ℕ)
      → All (IsLogged capacity) rs
      → IsTail capacity tail
      → length (log_bytes rs ++ tail) < 2147483648
      → (a : RecoveryState) × (analyze capacity (log_bytes rs ++ tail) ≡ some a) × (a.logs ≡ rs)
  analyze-reads rs tail logged ends short =
      (notes rs at_start, analyze-notes rs tail logged ends short, notes-logs rs at_start)

  -- If the log file has 2^31 bytes or more, but fewer than 2^32, `analyze` finds nothing.
  analyze_long :
      (file : List ℕ)
      → 2147483648 ≤ length file
      → length file < 4294967296
      → analyze capacity file ≡ some at_start
  unfolding analyze analyze_from
  analyze_long file long wide =
      let stops = next_long capacity file 0 long wide in rw (analyze_from, stops) refl
