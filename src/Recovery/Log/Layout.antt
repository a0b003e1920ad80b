-- ===== src/Recovery/Log/Layout.antt =====
-- The bytes that `serialize` writes, one field behind the other.
use myrmdb.Prelude.{
  ℕ, ◌+◌, ◌≡◌, refl, sym, ap, ◌∙◌, List, [], ◌∷◌, ◌++◌, length, length-append, append_assoc,
  append-nil,
}
use myrmdb.Concurrency.Transaction.{Rid}
use myrmdb.Recovery.Bytes.{memcpy, le, int_bytes, written, memcpy-written}
use myrmdb.Recovery.Log.{
  RmRecord, Body, LogRecord, update, insert, delete, begin, commit, abort, log_type, put, rid_bytes,
  serialize_header, serialize_body, serialize, log_header_size,
}

-- The fields that `serialize` copies, in order.
abbrev pub value_fields : RmRecord → List (List ℕ)
value_fields v = le 4 (length v) ∷ v ∷ []

abbrev pub place_fields : Rid → List ℕ → List (List ℕ)
place_fields r name = rid_bytes r ∷ le 8 (length name) ∷ name ∷ []

abbrev pub body_fields : Body → List (List ℕ)
body_fields (update v w r name) = le 4 (length v) ∷ v ∷ le 4 (length w) ∷ w ∷ place_fields r name
body_fields (insert v r name) = le 4 (length v) ∷ v ∷ place_fields r name
body_fields (delete v r name) = le 4 (length v) ∷ v ∷ place_fields r name
body_fields begin = []
body_fields commit = []
body_fields abort = []

abbrev pub join : List (List ℕ) → List ℕ
join [] = []
join (f ∷ fs) = f ++ join fs

abbrev pub header_bytes : LogRecord → List ℕ
header_bytes r =
    le 4 (log_type r.body)
    ++ int_bytes r.lsn
    ++ le 4 r.log_tot_len
    ++ int_bytes r.log_tid
    ++ int_bytes r.prev_lsn

abbrev pub record_bytes : LogRecord → List ℕ
record_bytes r = header_bytes r ++ join (body_fields r.body)

put_all : List (List ℕ) → List ℕ × ℕ → List ℕ × ℕ
put_all [] d = d
put_all (f ∷ fs) d = put_all fs (put f d)

put_all-written :
    (fs : List (List ℕ)) (done dest : List ℕ)
    → put_all fs (written done dest, length done)
      ≡ (written (done ++ join fs) dest, length (done ++ join fs))
unfolding put_all
put_all-written [] done dest = ap (λ xs. (written xs dest, length xs)) (sym (append-nil done))
put_all-written (f ∷ fs) done dest =
    let at : memcpy (written done dest) (length done) f ≡ written (done ++ f) dest =
      memcpy-written done f dest (length done) refl in
    ap (λ xs. put_all fs (xs, length done + length f)) at
    ∙ ap (λ n. put_all fs (written (done ++ f) dest, n)) (sym (length-append done f))
    ∙ put_all-written fs (done ++ f) dest
    ∙ ap (λ xs. (written xs dest, length xs)) (append_assoc done f (join fs))

body-put_all : (b : Body) (d : List ℕ × ℕ) → serialize_body b d ≡ put_all (body_fields b) d
unfolding serialize_body put_all
body-put_all (update v w r name) d = refl
body-put_all (insert v r name) d = refl
body-put_all (delete v r name) d = refl
body-put_all begin d = refl
body-put_all commit d = refl
body-put_all abort d = refl

header-written :
    (r : LogRecord) (dest : List ℕ) → serialize_header r dest ≡ written (header_bytes r) dest
unfolding serialize_header
header-written r dest =
    let a = le 4 (log_type r.body) in
    let b = int_bytes r.lsn in
    let c = le 4 r.log_tot_len in
    let d = int_bytes r.log_tid in
    let e = int_bytes r.prev_lsn in
    ap (λ m. memcpy (memcpy (memcpy (memcpy m 4 b) 8 c) 12 d) 16 e)
      (memcpy-written [] a dest 0 refl)
    ∙ ap (λ m. memcpy (memcpy (memcpy m 8 c) 12 d) 16 e) (memcpy-written a b dest 4 refl)
    ∙ ap (λ m. memcpy (memcpy m 12 d) 16 e) (memcpy-written (a ++ b) c dest 8 refl)
    ∙ ap (λ m. memcpy m 16 e) (memcpy-written (a ++ b ++ c) d dest 12 refl)
    ∙ memcpy-written (a ++ b ++ c ++ d) e dest 16 refl

-- `serialize` overwrites the start of the buffer with the fields of the record in their order, and
-- leaves the rest of the buffer alone.
pub serialize-written :
    (r : LogRecord) (dest : List ℕ) → serialize r dest ≡ written (record_bytes r) dest
unfolding serialize
serialize-written r dest =
    ap (λ xs. (serialize_body r.body (xs, log_header_size)).0) (header-written r dest)
    ∙ ap (λ (d : List ℕ × ℕ). d.0)
        (body-put_all r.body (written (header_bytes r) dest, log_header_size)
          ∙ put_all-written (body_fields r.body) (header_bytes r) dest)
