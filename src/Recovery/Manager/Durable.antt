-- ===== src/Recovery/Manager/Durable.antt =====
-- Runs of the log manager, and what recovery finds in the file after a flush.
use mathlib.Core.Path.{subst}
use myrmdb.Prelude.{
  ℕ, suc, ◌+◌, ◌≡◌, ◌≤◌, ◌<◌, refl, sym, ap, ◌∙◌, List, [], ◌∷◌, ◌++◌, Option, none, some, length,
  arith, append-nil, append_assoc, All,
}
use myrmdb.Prelude.Assoc
use myrmdb.Prelude.Int.{ℤ, pos}
use myrmdb.Storage.Disk.{Result, ok, err}
use myrmdb.Recovery.Log.{LogRecord}
use myrmdb.Recovery.Log.RoundTrip.{Fits}
use myrmdb.Recovery.Log.Layout.{record_bytes}
use myrmdb.Recovery.Manager.{
  LogManager, new_manager, add_log_to_buffer, flush_log_to_disk, RecoveryState, analyze,
}
use myrmdb.Recovery.Manager.Appends.{
  add_log_to_buffer-Added, flush_log_to_disk-Holds, new_manager-Holds,
}
use myrmdb.Recovery.Manager.Drain.{log_bytes, Holds}
use myrmdb.Recovery.Manager.Analysis.{analyze-reads}
use myrmdb.Recovery.Manager.Rounds.{IsLogged, no-IsTail}

-- A record as a constructor leaves it and as its `log_tot_len_` says.
abbrev pub IsRecord : LogRecord → Type 0
IsRecord r = Fits r × (r.log_tot_len ≡ length (record_bytes r))

new_manager_lsn : (capacity : ℕ) (persist : ℤ) → (new_manager capacity persist []).global_lsn ≡ 0
unfolding new_manager
new_manager_lsn capacity persist = refl

module _ (capacity : ℕ) where
  came_back :
      LogRecord → Option (List LogRecord × LogManager) → Option (List LogRecord × LogManager)
  came_back r none = none
  came_back r (some (rs, l)) = some (r ∷ rs, l)

  -- A record that came back, then the records of the calls that follow.
  then_ :
      Result LogRecord × LogManager
      → (LogManager → Option (List LogRecord × LogManager))
      → Option (List LogRecord × LogManager)
  then_ (err e, l) k = none
  then_ (ok r, l) k = came_back r (k l)

  -- Calls of `add_log_to_buffer`, each with the outcome of the write that it may need: the records
  -- as they came back, or `none` if a call throws.
  unfoldable pub add_all : List (ℕ × LogRecord) → LogManager → Option (List LogRecord × LogManager)
  unfolding then_ came_back
  add_all [] l = some ([], l)
  add_all ((outcome, r) ∷ es) l = then_ (add_log_to_buffer capacity outcome r l) (add_all es)

  came_back-some :
      (r : LogRecord) (o : Option (List LogRecord × LogManager)) (ss : List LogRecord)
      (q : LogManager)
      → came_back r o ≡ some (ss, q)
      → (ts : List LogRecord) × (o ≡ some (ts, q)) × (r ∷ ts ≡ ss)
  unfolding came_back
  came_back-some r none ss q e = cc
  came_back-some r (some (ts, l)) ss q e =
      let both = Assoc.some_inj e in
      (
        ts,
        ap (λ (x : List LogRecord × LogManager). some (ts, x.1)) both,
        ap (λ (x : List LogRecord × LogManager). x.0) both,
      )

  then_some :
      (x : Result LogRecord × LogManager) (k : LogManager → Option (List LogRecord × LogManager))
      (ss : List LogRecord) (q : LogManager)
      → then_ x k ≡ some (ss, q)
      → (r : LogRecord) × (x.0 ≡ ok r)
        × (ts : List LogRecord) × (k x.1 ≡ some (ts, q))
        × (r ∷ ts ≡ ss)
  unfolding then_ came_back
  then_some (err e, l) k ss q h = cc
  then_some (ok r, l) k ss q h = let c = came_back-some r (k l) ss q h in (r, refl, c.0, c.1, c.2)

  numbered_IsLogged :
      (r : LogRecord) (n : ℕ)
      → IsRecord r
      → n < 2147483648
      → r.log_tot_len ≤ capacity
      → IsLogged capacity (record r { lsn = pos n })
  numbered_IsLogged r n h small fits = record {
    fits = record { lsn = small; tid = h.0.tid; prev = h.0.prev; len = h.0.len; body = h.0.body };
    sized = h.1;
    small = fits;
  }

  add_all-Holds :
      (es : List (ℕ × LogRecord)) (l : LogManager) (rs ss : List LogRecord) (q : LogManager)
      → Holds rs l
      → All (λ (e : ℕ × LogRecord). IsRecord e.1) es
      → l.global_lsn + length es ≤ 2147483648
      → add_all es l ≡ some (ss, q)
      → Holds (rs ++ ss) q × All (IsLogged capacity) ss
  unfolding add_all
  add_all-Holds [] l rs ss q h records bound e =
      let both = Assoc.some_inj e in
      subst
        (λ (x : List LogRecord × LogManager). Holds (rs ++ x.0) x.1 × All (IsLogged capacity) x.0)
        both (subst (λ xs. Holds xs l) (sym (append-nil rs)) h, tt)
  add_all-Holds ((o, r) ∷ es) l rs ss q h records bound e =
      let t = then_some (add_log_to_buffer capacity o r l) (add_all es) ss q e in
      let a = add_log_to_buffer-Added capacity o r t.0 rs l h records.0.1 t.1 in
      let next : LogManager = (add_log_to_buffer capacity o r l).1 in
      let lsn : next.global_lsn ≡ suc l.global_lsn = a.0.2 in
      let rest =
        add_all-Holds es next (rs ++ t.0 ∷ []) t.2 q a.0.0 records.1 (omega (arith, bound, lsn))
          t.3 in
      let first : IsLogged capacity t.0 =
        subst (IsLogged capacity) (sym a.0.1)
          (numbered_IsLogged r l.global_lsn records.0 (omega (arith, bound)) a.1) in
      subst (λ xs. Holds (rs ++ xs) q × All (IsLogged capacity) xs) t.4
        (subst (λ xs. Holds xs q) (append_assoc rs (t.0 ∷ []) t.2) rest.0, (first, rest.1))

  -- Let records be added to a manager over an empty file, at most 2^31, each with fields that
  -- fit their widths and with its length in `log_tot_len_`, and let no call throw, nor the flush at
  -- the end. Let the file then be shorter than 2^31 bytes. Then `analyze` reads from the file exactly the records as they came back from the
  -- calls, in their order.
  pub analyze-flushed :
      (es : List (ℕ × LogRecord)) (persist : ℤ) (outcome : ℕ) (ss : List LogRecord) (q : LogManager)
      → All (λ (e : ℕ × LogRecord). IsRecord e.1) es
      → length es ≤ 2147483648
      → add_all es (new_manager capacity persist []) ≡ some (ss, q)
      → (flush_log_to_disk capacity outcome q).0 ≡ ok tt
      → length (flush_log_to_disk capacity outcome q).1.log_file < 2147483648
      → (a : RecoveryState) × (analyze capacity (flush_log_to_disk capacity outcome q).1.log_file
          ≡ some a)
        × (a.logs ≡ ss)
  analyze-flushed es persist outcome ss q records bound e done short =
      let start = new_manager-Holds capacity persist in
      let h =
        add_all-Holds es (new_manager capacity persist []) [] ss q start records
          (omega (arith, bound, new_manager_lsn capacity persist)) e in
      let file = flush_log_to_disk-Holds capacity outcome ss q h.0 done in
      let same = file ∙ sym (append-nil (log_bytes ss)) in
      let read =
        analyze-reads capacity ss [] h.1 (no-IsTail capacity)
          (omega (arith, short, ap length same)) in
      (read.0, ap (analyze capacity) same ∙ read.1, read.2)
