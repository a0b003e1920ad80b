-- ===== src/Recovery/Log/RoundTrip.antt =====
-- What `serialize` writes, `build_log_record` reads back.
use myrmdb.Prelude.{
  ℕ, ◌+◌, ◌%◌, ◌^◌, ◌≡◌, ◌<◌, refl, sym, ap, ◌∙◌, List, [], ◌++◌, some, length, take, drop, arith,
  take-append, drop-append, drop_add, length-append, append_assoc,
}
use myrmdb.Prelude.Int.{ℤ, pos}
use myrmdb.Concurrency.Transaction.{Rid}
use myrmdb.Recovery.Bytes.{
  le, un_le, bits, of_bits, IsInt, int_bytes, read_int, read_unsigned, un_le-le, of_bits-bits,
  bits_below,
}
use myrmdb.Recovery.Log.{
  RmRecord, Body, LogRecord, update, insert, delete, begin, commit, abort, total, new_record,
  rid_bytes, serialize, read_value, read_rid, read_name, built, build_log_record,
  deserialize_header, value_of, one_value, two_values, first_value, build_as, log_header_size,
}
use myrmdb.Recovery.Log.Layout.{
  place_fields, body_fields, join, header_bytes, record_bytes, serialize-written,
}

-- What a record must be for its fields to fit their widths.
abbrev pub IsValue : RmRecord → Type 0
IsValue v = length v < 2147483648

abbrev pub IsPlace : Rid → List ℕ → Type 0
IsPlace r name = IsInt r.page_no × IsInt r.slot_no × (length name < 256 ^ 8)

abbrev pub FitsBody : Body → Type 0
FitsBody (update v w r name) = IsValue v × IsValue w × IsPlace r name
FitsBody (insert v r name) = IsValue v × IsPlace r name
FitsBody (delete v r name) = IsValue v × IsPlace r name
FitsBody begin = Unit {0}
FitsBody commit = Unit {0}
FitsBody abort = Unit {0}

pub record Fits (r : LogRecord) : Type 0 where
  pub lsn : IsInt r.lsn
  pub tid : IsInt r.log_tid
  pub prev : IsInt r.prev_lsn
  pub len : r.log_tot_len < 2 ^ 32
  pub body : FitsBody r.body

read_back : (z : ℤ) → IsInt z → of_bits (un_le (int_bytes z)) ≡ z
read_back z h = ap of_bits (un_le-le 4 (bits z) (bits_below z)) ∙ of_bits-bits z h

size_back : (n : ℕ) → n < 2147483648 → of_bits (un_le (le 4 n)) ≡ pos n
size_back n h =
    let small : n ≡ n % 4294967296 = omega (arith, h) in
    ap of_bits (un_le-le 4 n (omega (arith, h)) ∙ small) ∙ of_bits-bits (pos n) h

value_back :
    (src : List ℕ) (offset : ℕ) (v tail : List ℕ)
    → drop offset src ≡ le 4 (length v) ++ v ++ tail
    → IsValue v
    → (read_value src offset ≡ some v) × (drop (offset + (4 + length v)) src ≡ tail)
unfolding read_value
value_back src offset v tail e h =
    let size : read_int src offset ≡ pos (length v) =
      ap (λ xs. of_bits (un_le (take 4 xs))) e ∙ size_back (length v) h in
    let after : drop (offset + 4) src ≡ v ++ tail = drop_add offset 4 src ∙ ap (drop 4) e in
    (
      ap (λ z. value_of z src offset) size
          ∙ ap (λ xs. some (take (length v) xs)) after
          ∙ ap some (take-append v tail),
      drop_add offset (4 + length v) src
          ∙ ap (drop (4 + length v)) e
          ∙ drop_add 4 (length v) (le 4 (length v) ++ v ++ tail)
          ∙ drop-append v tail,
    )

place_back :
    (src : List ℕ) (offset : ℕ) (r : Rid) (name tail : List ℕ)
    → drop offset src ≡ rid_bytes r ++ le 8 (length name) ++ name ++ tail
    → IsPlace r name
    → (read_rid src offset ≡ r) × (read_name src (offset + 8) ≡ name)
unfolding read_rid read_name
place_back src offset r name tail e h =
    let page : read_int src offset ≡ r.page_no =
      ap (λ xs. of_bits (un_le (take 4 xs))) e ∙ read_back r.page_no h.0 in
    let slot : read_int src (offset + 4) ≡ r.slot_no =
      ap (λ xs. of_bits (un_le (take 4 xs))) (drop_add offset 4 src ∙ ap (drop 4) e)
      ∙ read_back r.slot_no h.1 in
    let named : drop (offset + 8) src ≡ le 8 (length name) ++ name ++ tail =
      drop_add offset 8 src ∙ ap (drop 8) e in
    let size : read_unsigned 8 src (offset + 8) ≡ length name =
      ap (λ xs. un_le (take 8 xs)) named ∙ un_le-le 8 (length name) h.2 in
    let after : drop (offset + 8 + 8) src ≡ name ++ tail =
      drop_add (offset + 8) 8 src ∙ ap (drop 8) named in
    (
      ap (λ z. record { page_no = z; slot_no = read_int src (offset + 4) }) page
          ∙ ap (λ z. record { page_no = r.page_no; slot_no = z }) slot,
      ap (λ n. take n (drop (offset + 8 + 8) src)) size
          ∙ ap (take (length name)) after
          ∙ take-append name tail,
    )

header_back :
    (r : LogRecord) (b : Body) (rest : List ℕ)
    → Fits r
    → deserialize_header (header_bytes r ++ rest) b ≡ record r { body = b }
unfolding deserialize_header
header_back r b rest fits =
    let src = header_bytes r ++ rest in
    let make : ℤ → ℕ → ℤ → ℤ → LogRecord =
      λ l n t p. record { lsn = l; log_tot_len = n; log_tid = t; prev_lsn = p; body = b } in
    ap (λ l. make l (read_unsigned 4 src 8) (read_int src 12) (read_int src 16))
      (read_back r.lsn fits.lsn)
    ∙ ap (λ n. make r.lsn n (read_int src 12) (read_int src 16)) (un_le-le 4 r.log_tot_len fits.len)
    ∙ ap (λ t. make r.lsn r.log_tot_len t (read_int src 16)) (read_back r.log_tid fits.tid)
    ∙ ap (make r.lsn r.log_tot_len r.log_tid) (read_back r.prev_lsn fits.prev)

one_back :
    (make : RmRecord → Rid → List ℕ → Body) (src v : List ℕ) (r : Rid) (name rest : List ℕ)
    → drop 20 src ≡ le 4 (length v) ++ v ++ (join (place_fields r name) ++ rest)
    → IsValue v
    → IsPlace r name
    → one_value make src (read_value src log_header_size)
      ≡ built (deserialize_header src (make v r name))
unfolding one_value
one_back make src v r name rest e value place =
    let tail = join (place_fields r name) ++ rest in
    let first = value_back src 20 v tail e value in
    let off : 20 + (4 + length v) ≡ 20 + length v + 4 = omega arith in
    let e' : drop (20 + length v + 4) src ≡ rid_bytes r ++ le 8 (length name) ++ name ++ rest =
      ap (λ n. drop n src) (sym off)
      ∙ first.1
      ∙ ap (λ xs. rid_bytes r ++ le 8 (length name) ++ xs) (append_assoc name [] rest) in
    let second = place_back src (20 + length v + 4) r name rest e' place in
    ap (one_value make src) first.0
    ∙ ap (λ i. built (deserialize_header src (make v i (read_name src (20 + length v + 4 + 8)))))
        second.0
    ∙ ap (λ n. built (deserialize_header src (make v r n))) second.1

two_back :
    (src v w : List ℕ) (r : Rid) (name rest : List ℕ)
    → drop 20 src
      ≡ le 4 (length v) ++ v ++ (le 4 (length w) ++ w ++ (join (place_fields r name) ++ rest))
    → IsValue v
    → IsValue w
    → IsPlace r name
    → first_value src (read_value src log_header_size)
      ≡ built (deserialize_header src (update v w r name))
unfolding first_value two_values
two_back src v w r name rest e value value' place =
    let tail = join (place_fields r name) ++ rest in
    let first = value_back src 20 v (le 4 (length w) ++ w ++ tail) e value in
    let off : 24 + length v ≡ 20 + (4 + length v) = omega arith in
    let e' : drop (24 + length v) src ≡ le 4 (length w) ++ w ++ tail =
      ap (λ n. drop n src) off ∙ first.1 in
    let next = value_back src (24 + length v) w tail e' value' in
    let e'' : drop (24 + length v + (4 + length w)) src
        ≡ rid_bytes r ++ le 8 (length name) ++ name ++ rest =
      next.1 ∙ ap (λ xs. rid_bytes r ++ le 8 (length name) ++ xs) (append_assoc name [] rest) in
    let last = place_back src (24 + length v + (4 + length w)) r name rest e'' place in
    ap (first_value src) first.0
    ∙ ap (two_values src v) next.0
    ∙ ap
        (λ i. built (
          deserialize_header src
            (update v w i (read_name src (24 + length v + (4 + length w) + 8)))))
        last.0
    ∙ ap (λ n. built (deserialize_header src (update v w r n))) last.1

abbrev with_body : LogRecord → Body → LogRecord
with_body r b = record r { body = b }

build_bytes :
    (r : LogRecord) (b : Body) (rest : List ℕ)
    → FitsBody b
    → build_log_record (record_bytes (with_body r b) ++ rest)
      ≡ built (deserialize_header (record_bytes (with_body r b) ++ rest) b)
unfolding build_log_record build_as
build_bytes r (update v w i name) rest h =
    let src = record_bytes (with_body r (update v w i name)) ++ rest in
    let last = join (place_fields i name) in
    let fields : drop 20 src ≡ le 4 (length v) ++ v ++ (le 4 (length w) ++ w ++ (last ++ rest)) =
      ap (λ xs. le 4 (length v) ++ xs) (append_assoc v (le 4 (length w) ++ (w ++ last)) rest)
      ∙ ap (λ xs. le 4 (length v) ++ v ++ (le 4 (length w) ++ xs)) (append_assoc w last rest) in
    two_back src v w i name rest fields h.0 h.1 h.2
build_bytes r (insert v i name) rest h =
    one_back insert (record_bytes (with_body r (insert v i name)) ++ rest) v i name rest
      (ap (λ xs. le 4 (length v) ++ xs) (append_assoc v (join (place_fields i name)) rest)) h.0 h.1
build_bytes r (delete v i name) rest h =
    one_back delete (record_bytes (with_body r (delete v i name)) ++ rest) v i name rest
      (ap (λ xs. le 4 (length v) ++ xs) (append_assoc v (join (place_fields i name)) rest)) h.0 h.1
build_bytes r begin rest h = refl
build_bytes r commit rest h = refl
build_bytes r abort rest h = refl

-- A record whose fields fit their widths is what `build_log_record` makes of the bytes that
-- `serialize` writes for it, whatever the buffer holds behind them.
pub build_log_record-serialize :
    (r : LogRecord) (dest : List ℕ) → Fits r → build_log_record (serialize r dest) ≡ built r
build_log_record-serialize r dest fits =
    let rest = drop (length (record_bytes r)) dest in
    ap build_log_record (serialize-written r dest)
    ∙ build_bytes r r.body rest fits.body
    ∙ ap built (header_back r r.body (join (body_fields r.body) ++ rest) fits)

-- The same for the bytes themselves.
pub build-record_bytes :
    (r : LogRecord) (rest : List ℕ) → Fits r → build_log_record (record_bytes r ++ rest) ≡ built r
build-record_bytes r rest fits =
    build_bytes r r.body rest fits.body
    ∙ ap built (header_back r r.body (join (body_fields r.body) ++ rest) fits)

total-join :
    (b : Body)
    → 20 + length (join (body_fields b)) < 2 ^ 32
    → total b ≡ 20 + length (join (body_fields b))
unfolding total
total-join (update v w i name) h =
    let last = join (place_fields i name) in
    let a = length-append v (le 4 (length w) ++ (w ++ last)) in
    let b = length-append w last in let c = length-append name [] in omega (arith, h, a, b, c)
total-join (insert v i name) h =
    let a = length-append v (join (place_fields i name)) in
    let c = length-append name [] in omega (arith, h, a, c)
total-join (delete v i name) h =
    let a = length-append v (join (place_fields i name)) in
    let c = length-append name [] in omega (arith, h, a, c)
total-join begin h = refl
total-join commit h = refl
total-join abort h = refl

-- If a record of a constructor has fewer than 2^32 bytes, its `log_tot_len_` is their number.
pub total-length :
    (txn_id : ℤ) (b : Body)
    → length (record_bytes (new_record txn_id b)) < 2 ^ 32
    → (new_record txn_id b).log_tot_len ≡ length (record_bytes (new_record txn_id b))
unfolding new_record
total-length txn_id b h = let e = total-join b (omega (arith, h)) in omega (arith, e)
