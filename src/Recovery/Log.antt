-- ===== src/Recovery/Log.antt =====
-- src/recovery/log_manager.h and log_defs.h: the log records, their constructors, `serialize` and
-- `deserialize`; `build_log_record` of log_recovery.cpp. Offsets and layouts are those of a 64-bit
-- little-endian machine. A record's class and its `log_type_` are one constructor, as in every
-- record that a constructor of the source or `build_log_record` makes. A read past the end of the
-- memory gives the bytes that there are.
pub mod Layout
pub mod RoundTrip
use myrmdb.Prelude.{
  ℕ, zero, suc, ◌+◌, ◌%◌, ◌^◌, ◌≡◌, ◌<◌, List, [], ◌∷◌, ◌++◌, Option, none, some, length, take,
  drop, ◌==◌, if◌then◌else◌,
}
use myrmdb.Prelude.Int.{ℤ, pos, negsuc}
use myrmdb.Concurrency.Transaction.{Rid}
use myrmdb.Recovery.Bytes.{memcpy, le, bits, int_bytes, read_int, read_unsigned}

-- The bytes of a record (`RmRecord::data`); `size` is their number.
abbrev pub RmRecord : Type 0
RmRecord = List ℕ

abbrev pub log_header_size : ℕ
log_header_size = 20

-- What a record holds besides its header, by its type. A table name is its characters.
pub data Body : Type 0 where
  update : RmRecord → RmRecord → Rid → List ℕ → Body
  insert : RmRecord → Rid → List ℕ → Body
  delete : RmRecord → Rid → List ℕ → Body
  begin : Body
  commit : Body
  abort : Body

pub record LogRecord : Type 0 where
  pub lsn : ℤ
  pub log_tot_len : ℕ
  pub log_tid : ℤ
  pub prev_lsn : ℤ
  pub body : Body

-- The numbers of `enum LogType`.
abbrev pub log_type : Body → ℕ
log_type (update v w r n) = 0
log_type (insert v r n) = 1
log_type (delete v r n) = 2
log_type begin = 3
log_type commit = 4
log_type abort = 5

-- `log_tot_len_` as the constructors add it up, in a `uint32_t`.
unfoldable pub total : Body → ℕ
total (update v w r n) =
    (log_header_size + (4 + length v + 4 + length w + 8) + (8 + length n)) % 2 ^ 32
total (insert v r n) = (log_header_size + 4 + length v + 8 + (8 + length n)) % 2 ^ 32
total (delete v r n) = (log_header_size + (4 + length v + 8) + (8 + length n)) % 2 ^ 32
total begin = log_header_size
total commit = log_header_size
total abort = log_header_size

-- The constructor of each class.
unfoldable pub new_record : ℤ → Body → LogRecord
new_record txn_id b = record {
  lsn = negsuc 0;
  log_tot_len = total b;
  log_tid = txn_id;
  prev_lsn = negsuc 0;
  body = b;
}

-- `LogRecord::serialize`
unfoldable pub serialize_header : LogRecord → List ℕ → List ℕ
serialize_header r dest =
    let d = memcpy dest 0 (le 4 (log_type r.body)) in
    let d = memcpy d 4 (int_bytes r.lsn) in
    let d = memcpy d 8 (le 4 r.log_tot_len) in
    let d = memcpy d 12 (int_bytes r.log_tid) in memcpy d 16 (int_bytes r.prev_lsn)

-- `memcpy(dest + offset, field, size); offset += size;`
abbrev pub put : List ℕ → List ℕ × ℕ → List ℕ × ℕ
put field (dest, offset) = (memcpy dest offset field, offset + length field)

abbrev pub rid_bytes : Rid → List ℕ
rid_bytes r = int_bytes r.page_no ++ int_bytes r.slot_no

abbrev put_value : RmRecord → List ℕ × ℕ → List ℕ × ℕ
put_value v d = put v (put (le 4 (length v)) d)

abbrev put_place : Rid → List ℕ → List ℕ × ℕ → List ℕ × ℕ
put_place r name d = put name (put (le 8 (length name)) (put (rid_bytes r) d))

-- The rest of `serialize` in each class, from the offset of the log data.
unfoldable pub serialize_body : Body → List ℕ × ℕ → List ℕ × ℕ
serialize_body (update v w r name) d = put_place r name (put_value w (put_value v d))
serialize_body (insert v r name) d = put_place r name (put_value v d)
serialize_body (delete v r name) d = put_place r name (put_value v d)
serialize_body begin d = d
serialize_body commit d = d
serialize_body abort d = d

unfoldable pub serialize : LogRecord → List ℕ → List ℕ
serialize r dest = (serialize_body r.body (serialize_header r dest, log_header_size)).0

-- `RmRecord::Deserialize`: `none` where `new char[size]` throws for a negative size.
abbrev value_of : ℤ → List ℕ → ℕ → Option RmRecord
value_of (pos n) src offset = some (take n (drop (offset + 4) src))
value_of (negsuc n) src offset = none

unfoldable pub read_value : List ℕ → ℕ → Option RmRecord
read_value src offset = value_of (read_int src offset) src offset

unfoldable pub read_rid : List ℕ → ℕ → Rid
read_rid src offset = record { page_no = read_int src offset; slot_no = read_int src (offset + 4) }

-- The table name with its size in front.
unfoldable pub read_name : List ℕ → ℕ → List ℕ
read_name src offset = take (read_unsigned 8 src offset) (drop (offset + 8) src)

-- What `build_log_record` gives: a record, the null pointer, or an exception.
pub data Built : Type 0 where
  built : LogRecord → Built
  null : Built
  bad_size : Built

-- `LogRecord::deserialize`
unfoldable pub deserialize_header : List ℕ → Body → LogRecord
deserialize_header src b = record {
  lsn = read_int src 4;
  log_tot_len = read_unsigned 4 src 8;
  log_tid = read_int src 12;
  prev_lsn = read_int src 16;
  body = b;
}

-- `deserialize` of an insertion or a deletion.
one_value : (RmRecord → Rid → List ℕ → Body) → List ℕ → Option RmRecord → Built
one_value make src none = bad_size
one_value make src (some v) =
    let offset = log_header_size + length v + 4 in
    built (deserialize_header src (make v (read_rid src offset) (read_name src (offset + 8))))

two_values : List ℕ → RmRecord → Option RmRecord → Built
two_values src v none = bad_size
two_values src v (some w) =
    let offset = log_header_size + 4 + length v + (4 + length w) in
    built (deserialize_header src (update v w (read_rid src offset) (read_name src (offset + 8))))

first_value : List ℕ → Option RmRecord → Built
unfolding two_values
first_value src none = bad_size
first_value src (some v) = two_values src v (read_value src (log_header_size + 4 + length v))

-- The `switch` of `build_log_record` with the `deserialize` that follows.
build_as : ℕ → List ℕ → Built
unfolding first_value one_value
build_as type src =
    if type == 0
    then first_value src (read_value src log_header_size)
    else if type == 1
    then one_value insert src (read_value src log_header_size)
    else if type == 2
    then one_value delete src (read_value src log_header_size)
    else if type == 3
    then built (deserialize_header src begin)
    else if type == 4
    then built (deserialize_header src commit)
    else if type == 5
    then built (deserialize_header src abort)
    else null

unfoldable pub build_log_record : List ℕ → Built
unfolding build_as
build_log_record src = build_as (read_unsigned 4 src 0) src
