-- ===== src/Recovery/Manager/Drain.antt =====
-- The records in the log file and in the buffer, and the writing of the buffer.
use mathlib.Core.Path.{subst}
use myrmdb.Prelude.{
  ℕ, ◌≡◌, ◌≢◌, ◌≤◌, refl, sym, ap, ◌∙◌, List, [], ◌∷◌, ◌++◌, length, take, arith, append-nil,
  append_assoc, Bool-cases, inl, inr, ◌==◌, take-take,
}
use myrmdb.Storage.Disk.{Result, ok, err, Error, unix_error}
use myrmdb.Recovery.Log.{LogRecord}
use myrmdb.Recovery.Log.Layout.{record_bytes}
use myrmdb.Recovery.Manager.{LogManager, LogBuffer, write_log, empty_buffer, drain, drained}

abbrev pub log_bytes : List LogRecord → List ℕ
log_bytes [] = []
log_bytes (r ∷ rs) = record_bytes r ++ log_bytes rs

pub log_bytes-append :
    (rs ss : List LogRecord) → log_bytes (rs ++ ss) ≡ log_bytes rs ++ log_bytes ss
log_bytes-append [] ss = refl
log_bytes-append (r ∷ rs) ss =
    ap (λ xs. record_bytes r ++ xs) (log_bytes-append rs ss)
    ∙ sym (append_assoc (record_bytes r) (log_bytes rs) (log_bytes ss))

-- The records on file and in the buffer, in their order.
pub record Holds (rs : List LogRecord) (l : LogManager) : Type 0 where
  pub bytes : l.log_file ++ take l.log_buffer.offset l.log_buffer.buffer ≡ log_bytes rs
  pub inside : l.log_buffer.offset ≤ length l.log_buffer.buffer

no_bytes :
    (capacity : ℕ) (xs : List ℕ)
    → xs ++ take (empty_buffer capacity).offset (empty_buffer capacity).buffer ≡ xs
unfolding empty_buffer
no_bytes capacity xs = append-nil xs

empty_inside :
    (capacity : ℕ) → (empty_buffer capacity).offset ≤ length (empty_buffer capacity).buffer
unfolding empty_buffer
empty_inside capacity = omega arith

pub ok_inj : {a b : LogRecord} → ok a ≡ ok b → a ≡ b
ok_inj {a} e = ap (λ (r : Result LogRecord). from a r) e
  where
    from : LogRecord → Result LogRecord → LogRecord
    from d (ok x) = x
    from d (err x) = d

pub err_ne_ok : {x : Error} {r : LogRecord} → err x ≢ ok r
err_ne_ok e = cc

module _ (capacity : ℕ) where
  -- Emptying the buffer into the file.
  drained_ok :
      (l : LogManager) (r : Result (Unit {0})) (file : List ℕ)
      → (drained capacity l (r, file)).0 ≡ ok tt
      → (r ≡ ok tt)
        × ((drained capacity l (r, file)).1.log_file ≡ file)
        × ((drained capacity l (r, file)).1.log_buffer ≡ empty_buffer capacity)
        × ((drained capacity l (r, file)).1.global_lsn ≡ l.global_lsn)
  unfolding drained
  drained_ok l (ok u) file e = (refl, refl, refl, refl)
  drained_ok l (err x) file e = cc

  written_all :
      (outcome n : ℕ) (data_ file : List ℕ)
      → (write_log outcome data_ n file).0 ≡ ok tt
      → (write_log outcome data_ n file).1 ≡ file ++ take n data_
  unfolding write_log
  written_all outcome n data_ file e = elim (Bool-cases (outcome == n)) [
    | inl same ↦
        let k : outcome ≡ n = ground arith in
        ap (λ m. file ++ take m (take n data_)) k
        ∙ ap (λ xs. file ++ xs) (take-take n n data_ (omega arith))
    | inr ne ↦
        let fails : (write_log outcome data_ n file).0 ≡ err unix_error = rw (write_log, ne) refl in
        let bad : err unix_error ≡ ok tt = sym fails ∙ e in cc
  ]

  pub drain-Holds :
      (outcome : ℕ) (rs : List LogRecord) (l : LogManager)
      → Holds rs l
      → (drain capacity outcome l).0 ≡ ok tt
      → Holds rs (drain capacity outcome l).1
        × ((drain capacity outcome l).1.log_file ≡ log_bytes rs)
        × ((drain capacity outcome l).1.global_lsn ≡ l.global_lsn)
  unfolding drain
  drain-Holds outcome rs l h e =
      let b = l.log_buffer in
      let w = write_log outcome b.buffer b.offset l.log_file in
      let d = drained_ok l w.0 w.1 e in
      let on_file = d.1 ∙ written_all outcome b.offset b.buffer l.log_file d.0 ∙ h.bytes in
      (
        record {
          bytes =
              ap
                (λ (c : LogBuffer). (drain capacity outcome l).1.log_file ++ take c.offset c.buffer)
                d.2
              ∙ no_bytes capacity (drain capacity outcome l).1.log_file
              ∙ on_file;
          inside =
              subst (λ (c : LogBuffer). c.offset ≤ length c.buffer) (sym d.2)
                (empty_inside capacity);
        },
        on_file,
        d.3,
      )
