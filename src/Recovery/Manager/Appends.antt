-- ===== src/Recovery/Manager/Appends.antt =====
-- Adding a record to the log and flushing it keep the records in the file and the buffer.
use mathlib.Core.Path.{subst}
use myrmdb.Prelude.{
  ℕ, suc, ◌+◌, ◌≡◌, ◌≢◌, ◌≤◌, refl, sym, ap, ◌∙◌, true, false, List, [], ◌∷◌, ◌++◌, length, take,
  drop, arith, append-nil, append_assoc, length-append, length-take, take-append, Bool-cases, inl,
  inr, ltb, ◌==◌,
}
use myrmdb.Prelude.Int.{ℤ, pos}
use myrmdb.Storage.Disk.{Result, ok, err, Error, internal_error}
use myrmdb.Recovery.Log.{LogRecord, serialize}
use myrmdb.Recovery.Log.Layout.{record_bytes, serialize-written}
use myrmdb.Recovery.Manager.{
  LogManager, new_manager, empty_buffer, drain, append, add_log_to_buffer, flush_log_to_disk,
  is_full,
}
use myrmdb.Recovery.Manager.Drain.{
  log_bytes, log_bytes-append, Holds, ok_inj, err_ne_ok, drain-Holds,
}

module _ (capacity : ℕ) where
  appended_lsn :
      (r : LogRecord) (l : LogManager)
      → (append capacity r (ok tt, l)).1.global_lsn ≡ suc l.global_lsn
  unfolding append
  appended_lsn r l = refl

  append_fails :
      (r r' : LogRecord) (x : Error) (l : LogManager) → (append capacity r (err x, l)).0 ≢ ok r'
  unfolding append
  append_fails r r' x l e = err_ne_ok e

  -- Serialising behind the first `at` bytes of the buffer.
  serialize_behind :
      (r : LogRecord) (buffer : List ℕ) (at : ℕ)
      → at ≤ length buffer
      → r.log_tot_len ≡ length (record_bytes r)
      → let after = take at buffer ++ serialize r (drop at buffer) in
        (take (at + r.log_tot_len) after ≡ take at buffer ++ record_bytes r)
        × (at + r.log_tot_len ≤ length after)
  serialize_behind r buffer at inside len =
      let pre = take at buffer in
      let bytes = record_bytes r in
      let rest = drop (length bytes) (drop at buffer) in
      let after = pre ++ serialize r (drop at buffer) in
      let shape : after ≡ pre ++ bytes ++ rest =
        ap (λ xs. pre ++ xs) (serialize-written r (drop at buffer))
        ∙ sym (append_assoc pre bytes rest) in
      let a = length-take at buffer inside in
      let b = length-append pre bytes in
      let c = length-append (pre ++ bytes) rest in
      let n : at + r.log_tot_len ≡ length (pre ++ bytes) = omega (arith, a, b, len) in
      (
        ap (take (at + r.log_tot_len)) shape
            ∙ ap (λ k. take k (pre ++ bytes ++ rest)) n
            ∙ take-append (pre ++ bytes) rest,
        (let d : length after ≡ length (pre ++ bytes ++ rest) = ap length shape in
            omega (arith, n, c, d)),
      )

  append-Holds :
      (r r' : LogRecord) (rs : List LogRecord) (l : LogManager)
      → Holds rs l
      → r.log_tot_len ≡ length (record_bytes r)
      → (append capacity r (ok tt, l)).0 ≡ ok r'
      → Holds (rs ++ r' ∷ []) (append capacity r (ok tt, l)).1
        × (r' ≡ record r { lsn = pos l.global_lsn })
  unfolding append
  append-Holds r r' rs l h len e =
      let r'' : LogRecord = record r { lsn = pos l.global_lsn } in
      let same : r'' ≡ r' = ok_inj e in
      let at = l.log_buffer.offset in
      let s = serialize_behind r'' l.log_buffer.buffer at h.inside len in
      let pre = take at l.log_buffer.buffer in
      let q = (append capacity r (ok tt, l)).1 in
      let done : Holds (rs ++ r'' ∷ []) q = record {
        bytes =
            ap (λ xs. l.log_file ++ xs) s.0
            ∙ sym (append_assoc l.log_file pre (record_bytes r''))
            ∙ ap (λ xs. xs ++ record_bytes r'') h.bytes
            ∙ ap (λ xs. log_bytes rs ++ xs) (sym (append-nil (record_bytes r'')))
            ∙ sym (log_bytes-append rs (r'' ∷ []));
        inside = s.1;
      } in
      (subst (λ x. Holds (rs ++ x ∷ []) q) same done, sym same)

  -- A record has been added: it came back with the next log sequence number and stands last.
  abbrev pub Added : LogRecord → LogRecord → List LogRecord → ℕ → LogManager → Type 0
  Added r r' rs n q =
      Holds (rs ++ r' ∷ []) q × (r' ≡ record r { lsn = pos n }) × (q.global_lsn ≡ suc n)

  append-Added :
      (r r' : LogRecord) (rs : List LogRecord) (n : ℕ) (w : Result (Unit {0}) × LogManager)
      → (w.0 ≡ ok tt → Holds rs w.1 × (w.1.global_lsn ≡ n))
      → r.log_tot_len ≡ length (record_bytes r)
      → (append capacity r w).0 ≡ ok r'
      → Added r r' rs n (append capacity r w).1
  append-Added r r' rs n (ok u, l) ready len e =
      let h = ready refl in
      let a = append-Holds r r' rs l h.0 len e in
      (a.0, a.1 ∙ ap (λ k. record r { lsn = pos k }) h.1, appended_lsn r l ∙ ap suc h.1)
  append-Added r r' rs n (err x, l) ready len e = absurd (append_fails r r' x l e)

  add_large :
      (outcome : ℕ) (r : LogRecord) (l : LogManager)
      → ltb capacity r.log_tot_len ≡ true
      → add_log_to_buffer capacity outcome r l ≡ (err internal_error, l)
  unfolding add_log_to_buffer
  add_large outcome r l e = rw (add_log_to_buffer, e) refl

  add_full :
      (outcome : ℕ) (r : LogRecord) (l : LogManager)
      → ltb capacity r.log_tot_len ≡ false
      → is_full capacity r.log_tot_len l.log_buffer ≡ true
      → add_log_to_buffer capacity outcome r l ≡ append capacity r (drain capacity outcome l)
  unfolding add_log_to_buffer
  add_full outcome r l e f = rw (add_log_to_buffer, e, f) refl

  add_room :
      (outcome : ℕ) (r : LogRecord) (l : LogManager)
      → ltb capacity r.log_tot_len ≡ false
      → is_full capacity r.log_tot_len l.log_buffer ≡ false
      → add_log_to_buffer capacity outcome r l ≡ append capacity r (ok tt, l)
  unfolding add_log_to_buffer
  add_room outcome r l e f = rw (add_log_to_buffer, e, f) refl

  -- A call that returns adds its record behind those that were there, whether or not the buffer had
  -- to be written out first, and only a record that the buffer can hold.
  pub add_log_to_buffer-Added :
      (outcome : ℕ) (r r' : LogRecord) (rs : List LogRecord) (l : LogManager)
      → Holds rs l
      → r.log_tot_len ≡ length (record_bytes r)
      → (add_log_to_buffer capacity outcome r l).0 ≡ ok r'
      → Added r r' rs l.global_lsn (add_log_to_buffer capacity outcome r l).1
        × (r.log_tot_len ≤ capacity)
  add_log_to_buffer-Added outcome r r' rs l h len e =
      elim (Bool-cases (ltb capacity r.log_tot_len)) [
        | inl large ↦ absurd (
            err_ne_ok (
              sym (ap (λ (o : Result LogRecord × LogManager). o.0) (add_large outcome r l large))
              ∙ e))
        | inr fits ↦
            let small : r.log_tot_len ≤ capacity = ground arith in
            let by : (w : Result (Unit {0}) × LogManager)
                → (w.0 ≡ ok tt → Holds rs w.1 × (w.1.global_lsn ≡ l.global_lsn))
                → add_log_to_buffer capacity outcome r l ≡ append capacity r w
                → Added r r' rs l.global_lsn (add_log_to_buffer capacity outcome r l).1 =
              λ w ready same.
                subst (λ (o : Result LogRecord × LogManager). Added r r' rs l.global_lsn o.1)
                  (sym same)
                  (append-Added r r' rs l.global_lsn w ready len
                    (sym (ap (λ (o : Result LogRecord × LogManager). o.0) same) ∙ e)) in
            elim (Bool-cases (is_full capacity r.log_tot_len l.log_buffer)) [
              | inl full ↦ (
                by (drain capacity outcome l)
                    (λ done. let d = drain-Holds capacity outcome rs l h done in (d.0, d.2))
                    (add_full outcome r l fits full),
                small,
              )
              | inr room ↦ (by (ok tt, l) (λ _. (h, refl)) (add_room outcome r l fits room), small)
            ]
      ]

  flush_empty :
      (outcome : ℕ) (l : LogManager)
      → (l.log_buffer.offset == 0) ≡ true
      → flush_log_to_disk capacity outcome l ≡ (ok tt, l)
  unfolding flush_log_to_disk
  flush_empty outcome l e = rw (flush_log_to_disk, e) refl

  flush_drain :
      (outcome : ℕ) (l : LogManager)
      → (l.log_buffer.offset == 0) ≡ false
      → flush_log_to_disk capacity outcome l ≡ drain capacity outcome l
  unfolding flush_log_to_disk
  flush_drain outcome l e = rw (flush_log_to_disk, e) refl

  -- A flush that returns leaves every record on file.
  pub flush_log_to_disk-Holds :
      (outcome : ℕ) (rs : List LogRecord) (l : LogManager)
      → Holds rs l
      → (flush_log_to_disk capacity outcome l).0 ≡ ok tt
      → (flush_log_to_disk capacity outcome l).1.log_file ≡ log_bytes rs
  flush_log_to_disk-Holds outcome rs l h e = elim (Bool-cases (l.log_buffer.offset == 0)) [
    | inl zero_ ↦
        let none_left : l.log_buffer.offset ≡ 0 = ground arith in
        ap (λ (o : Result (Unit {0}) × LogManager). o.1.log_file) (flush_empty outcome l zero_)
        ∙ sym (append-nil l.log_file)
        ∙ ap (λ n. l.log_file ++ take n l.log_buffer.buffer) (sym none_left)
        ∙ h.bytes
    | inr some_ ↦
        let same = flush_drain outcome l some_ in
        ap (λ (o : Result (Unit {0}) × LogManager). o.1.log_file) same
        ∙ (drain-Holds capacity outcome rs l h
            (sym (ap (λ (o : Result (Unit {0}) × LogManager). o.0) same) ∙ e)).1
  ]

  -- The manager that starts over an empty file holds no record.
  pub new_manager-Holds : (persist : ℤ) → Holds [] (new_manager capacity persist [])
  unfolding new_manager empty_buffer
  new_manager-Holds persist = record { bytes = refl; inside = omega arith }
