-- ===== src/Recovery/Manager/Rounds.antt =====
-- One round of `analyze` over the bytes of a log file that is shorter than 2^31 bytes: `read_log`
-- takes sizes and offsets of type `int`.

use myrmdb.Prelude.{
  ℕ, ◌≡◌, ◌≤◌, ◌<◌, refl, sym, ap, ◌∙◌, true, false, List, [], ◌++◌, none, some, length, take, drop,
  arith, append-nil, length-append, take-append, Bool-cases, inl, inr, ltb, ◌==◌, ◌||◌,
  if◌then◌else◌, take_all, take-take, length-take, length-drop, ◌⊎◌, leb, ◌-◌,
}
use myrmdb.Prelude.Int.{ℤ, pos, negsuc, to_int, to_int_small, to_int_large}
use myrmdb.Recovery.Bytes.{un_le-le, read_unsigned}
use myrmdb.Recovery.Log.{LogRecord, build_log_record, built, log_header_size}
use myrmdb.Recovery.Log.RoundTrip.{Fits, build-record_bytes}
use myrmdb.Recovery.Log.Layout.{header_bytes, record_bytes}
use myrmdb.Recovery.Manager.{read_log, next_log, of_header, of_data, of_built, stop, found}

read_log_at :
    (file : List ℕ) (size offset : ℕ)
    → length file < 2147483648
    → offset ≤ length file
    → read_log file (pos size) (pos offset) ≡ some (take size (drop offset file))
unfolding read_log
read_log_at file size offset short h =
    let e : ltb (length file) offset ≡ false = ground (arith, h) in
    let len = length-drop offset file h in
    rw (to_int_small (length file) short, e)
      (elim (Bool-cases (ltb (length file - offset) size)) [
        | inl more ↦
            let all : length (drop offset file) ≤ length file - offset = omega (arith, len) in
            let less : length file - offset < size = ground (arith, more) in
            ap some (
              ap (λ b. take (if b then length file - offset else size) (drop offset file)) more
              ∙ take_all (length file - offset) (drop offset file) all
              ∙ sym (take_all size (drop offset file) (omega (arith, len, less))))
        | inr enough ↦
            ap (λ b. some (take (if b then length file - offset else size) (drop offset file)))
              enough
      ])

read_log_long :
    (file : List ℕ) (size offset : ℕ)
    → 2147483648 ≤ length file
    → length file < 4294967296
    → read_log file (pos size) (pos offset) ≡ none
unfolding read_log
read_log_long file size offset long wide = rw (to_int_large (length file) long wide) refl

read_log_negative : (file : List ℕ) (k : ℕ) (offset : ℤ) → read_log file (negsuc k) offset ≡ none
unfolding read_log
read_log_negative file k offset = refl

module _ (capacity : ℕ) where
  -- A record that the log can hold and that reads back.
  pub record IsLogged (r : LogRecord) : Type 0 where
    pub fits : Fits r
    pub sized : r.log_tot_len ≡ length (record_bytes r)
    pub small : r.log_tot_len ≤ capacity

  data_found :
      (r : LogRecord) (rest : List ℕ)
      → IsLogged r
      → of_data capacity r.log_tot_len (some (take r.log_tot_len (record_bytes r ++ rest)))
        ≡ found r r.log_tot_len
  unfolding of_data of_built
  data_found r rest h =
      let n = r.log_tot_len in
      let bytes = record_bytes r in
      let cut : take n (bytes ++ rest) ≡ bytes =
        ap (λ k. take k (bytes ++ rest)) h.sized ∙ take-append bytes rest in
      let same : (length bytes == n) ≡ true = let s = h.sized in ground (arith, s) in
      let build : build_log_record bytes ≡ built r =
        ap build_log_record (sym (append-nil bytes)) ∙ build-record_bytes r [] h.fits in
      ap (λ xs. of_data capacity n (some xs)) cut ∙ rw (of_data, same, build) refl

  -- Where a record stands in the file, one round of `analyze` finds it.
  pub next_found :
      (file : List ℕ) (offset : ℕ) (r : LogRecord) (rest : List ℕ)
      → length file < 2147483648
      → offset ≤ length file
      → drop offset file ≡ record_bytes r ++ rest
      → IsLogged r
      → next_log capacity file (pos offset) ≡ found r r.log_tot_len
  unfolding next_log of_header
  next_found file offset r rest short inside e h =
      let n = r.log_tot_len in
      let len : read_unsigned 4 (header_bytes r) 8 ≡ n = un_le-le 4 n h.fits.len in
      let sized = h.sized in
      let small = h.small in
      let low : ltb n log_header_size ≡ false = ground (arith, sized) in
      let high : ltb capacity n ≡ false = ground (arith, small) in
      let first : read_log file (pos 20) (pos offset) ≡ some (header_bytes r) =
        read_log_at file 20 offset short inside ∙ ap (λ xs. some (take 20 xs)) e in
      let len_ = length-drop offset file inside in
      let a1 = ap length e in
      let a2 = length-append (record_bytes r) rest in
      let below : n < 2147483648 = omega (arith, short, inside, sized, len_, a1, a2) in
      let second : read_log file (to_int n) (pos offset) ≡ some (take n (record_bytes r ++ rest)) =
        ap (λ z. read_log file z (pos offset)) (to_int_small n below)
        ∙ read_log_at file n offset short inside
        ∙ ap (λ xs. some (take n xs)) e in
      ap (of_header capacity file (pos offset)) first
      ∙ ap
          (λ k.
            if ltb k log_header_size || ltb capacity k
            then stop
            else of_data capacity k (read_log file (to_int k) (pos offset)))
          len
      ∙ rw (low, high) (ap (of_data capacity n) second ∙ data_found r rest h)

  -- The file ends inside a record, or between two.
  unfoldable pub IsTail : List ℕ → Type 0
  IsTail tail =
      (tail ≡ [])
      ⊎ ((r : LogRecord) × IsLogged r
          × (k : ℕ) × (k < r.log_tot_len)
          × (tail ≡ take k (record_bytes r)))

  pub no-IsTail : IsTail []
  unfolding IsTail
  no-IsTail = inl refl

  next_short :
      (file : List ℕ) (offset : ℕ) (tail : List ℕ)
      → length file < 2147483648
      → offset ≤ length file
      → drop offset file ≡ tail
      → length tail < 20
      → next_log capacity file (pos offset) ≡ stop
  unfolding next_log of_header
  next_short file offset tail short inside e few =
      let first : read_log file (pos 20) (pos offset) ≡ some tail =
        read_log_at file 20 offset short inside
        ∙ ap (λ xs. some (take 20 xs)) e
        ∙ ap some (take_all 20 tail (omega (arith, few))) in
      let low : ltb (length tail) log_header_size ≡ true = ground (arith, few) in
      ap (of_header capacity file (pos offset)) first ∙ rw (of_header, low) refl

  -- A file whose size is no `int` has no record.
  pub next_long :
      (file : List ℕ) (offset : ℕ)
      → 2147483648 ≤ length file
      → length file < 4294967296
      → next_log capacity file (pos offset) ≡ stop
  unfolding next_log of_header
  next_long file offset long wide =
      ap (of_header capacity file (pos offset)) (read_log_long file 20 offset long wide)

  -- A record that the file cuts is not read, whether or not its length is an `int`.
  data_cut :
      (file : List ℕ) (offset n : ℕ) (tail : List ℕ)
      → length file < 2147483648
      → offset ≤ length file
      → drop offset file ≡ tail
      → length tail < n
      → n < 4294967296
      → of_data capacity n (read_log file (to_int n) (pos offset)) ≡ stop
  unfolding of_data
  data_cut file offset n tail short inside e cut wide = elim (Bool-cases (ltb n 2147483648)) [
    | inl below_ ↦
        let below : n < 2147483648 = ground (arith, below_) in
        let missing : (length tail == n) ≡ false = ground (arith, cut) in
        let all = take_all n tail (omega (arith, cut)) in
        ap (of_data capacity n) (
          ap (λ z. read_log file z (pos offset)) (to_int_small n below)
          ∙ read_log_at file n offset short inside
          ∙ ap (λ xs. some (take n xs)) e
          ∙ ap some all)
        ∙ rw (of_data, missing) refl
    | inr above_ ↦
        let above : 2147483648 ≤ n = ground (arith, above_) in
        ap (λ z. of_data capacity n (read_log file z (pos offset))) (to_int_large n above wide)
        ∙ ap (of_data capacity n) (read_log_negative file (4294967295 - n) (pos offset))
  ]

  next_cut :
      (file : List ℕ) (offset : ℕ) (r : LogRecord) (k : ℕ)
      → length file < 2147483648
      → offset ≤ length file
      → IsLogged r
      → k < r.log_tot_len
      → 20 ≤ k
      → drop offset file ≡ take k (record_bytes r)
      → next_log capacity file (pos offset) ≡ stop
  unfolding next_log of_header of_data
  next_cut file offset r k short inside h cut long e =
      let n = r.log_tot_len in
      let tail = take k (record_bytes r) in
      let sized = h.sized in
      let small = h.small in
      let size : length tail ≡ k = length-take k (record_bytes r) (omega (arith, sized, cut)) in
      let len : read_unsigned 4 (header_bytes r) 8 ≡ n = un_le-le 4 n h.fits.len in
      let low : ltb n log_header_size ≡ false = ground (arith, sized) in
      let high : ltb capacity n ≡ false = ground (arith, small) in
      let first : read_log file (pos 20) (pos offset) ≡ some (header_bytes r) =
        read_log_at file 20 offset short inside
        ∙ ap (λ xs. some (take 20 xs)) e
        ∙ ap some (take-take 20 k (record_bytes r) long) in
      let second =
        data_cut file offset n tail short inside e (omega (arith, size, cut)) h.fits.len in
      ap (of_header capacity file (pos offset)) first
      ∙ ap
          (λ m.
            if ltb m log_header_size || ltb capacity m
            then stop
            else of_data capacity m (read_log file (to_int m) (pos offset)))
          len
      ∙ rw (low, high) second

  pub next_tail :
      (file : List ℕ) (offset : ℕ) (tail : List ℕ)
      → length file < 2147483648
      → offset ≤ length file
      → drop offset file ≡ tail
      → IsTail tail
      → next_log capacity file (pos offset) ≡ stop
  unfolding IsTail
  next_tail file offset tail short inside e (inl none_) =
      next_short file offset tail short inside e (omega (arith, ap length none_))
  next_tail file offset tail short inside e (inr (r, h, k, cut, same)) =
      elim (Bool-cases (leb 20 k)) [
        | inl long ↦ next_cut file offset r k short inside h cut (ground (arith, long)) (e ∙ same)
        | inr few ↦
            let sized = h.sized in
            let size : length (take k (record_bytes r)) ≡ k =
              length-take k (record_bytes r) (omega (arith, sized, cut)) in
            let low : k < 20 = ground (arith, few) in
            next_short file offset tail short inside e (omega (arith, ap length same, size, low))
      ]
