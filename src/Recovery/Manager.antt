-- ===== src/Recovery/Manager.antt =====
-- src/recovery/log_manager.cpp, `LogBuffer` of log_manager.h, `read_log` and `write_log` of
-- src/storage/disk_manager.cpp, and `analyze` of log_recovery.cpp. The log file is its bytes. The
-- result of write(2) is an argument, `outcome`: so many bytes have been appended, none if it is
-- negative. `capacity` is LOG_BUFFER_SIZE. Each method of the manager runs under `latch_`.
pub mod Drain
pub mod Appends
pub mod Rounds
pub mod Analysis
pub mod Durable
pub mod Transactions
use myrmdb.Prelude.{
  ℕ, zero, suc, ◌+◌, ◌-◌, ◌*◌, ◌≡◌, Bool, true, false, List, [], ◌∷◌, ◌++◌, Option, none, some,
  length, take, drop, replicate, ◌||◌, ltb, ◌==◌, if◌then◌else◌, ite, ℕ_discrete,
}
use myrmdb.Prelude.Int.{ℤ, pos, negsuc, ℤ-discrete, to_int, add_int}
use myrmdb.Storage.Disk.{Result, ok, err, unix_error, internal_error}
use myrmdb.Recovery.Bytes.{read_unsigned}
use myrmdb.Recovery.Log.{
  LogRecord, Body, begin, commit, abort, serialize, log_header_size, Built, built, null, bad_size,
  build_log_record,
}

abbrev pub log_buffer_size : ℕ
log_buffer_size = 1024 * 4096

pub record LogBuffer : Type 0 where
  pub buffer : List ℕ
  pub offset : ℕ

pub record LogManager : Type 0 where
  pub global_lsn : ℕ
  pub log_buffer : LogBuffer
  pub persist_lsn : ℤ
  pub log_file : List ℕ

-- `global_lsn_ - 1`
abbrev pub before : ℕ → ℤ
before zero = negsuc 0
before (suc n) = pos n

-- `DiskManager::write_log`: what was written stays written when it throws.
unfoldable pub write_log : ℕ → List ℕ → ℕ → List ℕ → Result (Unit {0}) × List ℕ
write_log outcome log_data size file =
    (if outcome == size then ok tt else err unix_error, file ++ take outcome (take size log_data))

-- The bytes that are there, from a file whose size is the first argument as an `int`.
read_part : ℤ → List ℕ → ℕ → ℕ → Option (List ℕ)
read_part (negsuc _) file size offset = none
read_part (pos file_size) file size offset =
    let rest = file_size - offset in
    if ltb file_size offset
    then none
    else some (take (if ltb rest size then rest else size) (drop offset file))

-- `DiskManager::read_log`, with the file's size, `size` and `offset` of type `int`: `none` stands
-- for -1. It also stands for a size or an offset below 0, which `analyze` does not ask for with the
-- code's `log_buffer_size`.
unfoldable pub read_log : List ℕ → ℤ → ℤ → Option (List ℕ)
unfolding read_part
read_log file (pos size) (pos offset) = read_part (to_int (length file)) file size offset
read_log file (pos size) (negsuc _) = none
read_log file (negsuc _) offset = none

module _ (capacity : ℕ) where
  -- The constructor of the buffer.
  unfoldable pub empty_buffer : LogBuffer
  empty_buffer = record { buffer = replicate (capacity + 1) 0; offset = 0 }

  unfoldable pub is_full : ℕ → LogBuffer → Bool
  is_full append_size b = ltb capacity (b.offset + append_size)

  -- The constructor; `persist_lsn_` has no initial value there.
  unfoldable pub new_manager : ℤ → List ℕ → LogManager
  new_manager persist file = record {
    global_lsn = 0;
    log_buffer = empty_buffer;
    persist_lsn = persist;
    log_file = file;
  }

  drained : LogManager → Result (Unit {0}) × List ℕ → Result (Unit {0}) × LogManager
  drained l (ok _, file) = (
    ok tt,
    record l { log_file = file; persist_lsn = before l.global_lsn; log_buffer = empty_buffer },
  )
  drained l (err e, file) = (err e, record l { log_file = file })

  -- `write_log`, the new `persist_lsn_` and the empty buffer.
  unfoldable pub drain : ℕ → LogManager → Result (Unit {0}) × LogManager
  unfolding drained
  drain outcome l = drained l (write_log outcome l.log_buffer.buffer l.log_buffer.offset l.log_file)

  append : LogRecord → Result (Unit {0}) × LogManager → Result LogRecord × LogManager
  append r (err e, l) = (err e, l)
  append r (ok _, l) =
      let r' : LogRecord = record r { lsn = pos l.global_lsn } in
      let at = l.log_buffer.offset in
      (
        ok r',
        record l {
          global_lsn = suc l.global_lsn;
          log_buffer = record {
            buffer = take at l.log_buffer.buffer ++ serialize r' (drop at l.log_buffer.buffer);
            offset = at + r.log_tot_len;
          };
        },
      )

  -- The record comes back with its `lsn_`, which is the result.
  unfoldable pub add_log_to_buffer : ℕ → LogRecord → LogManager → Result LogRecord × LogManager
  unfolding append
  add_log_to_buffer outcome r l =
      if ltb capacity r.log_tot_len
      then (err internal_error, l)
      else if is_full r.log_tot_len l.log_buffer
      then append r (drain outcome l)
      else append r (ok tt, l)

  unfoldable pub flush_log_to_disk : ℕ → LogManager → Result (Unit {0}) × LogManager
  flush_log_to_disk outcome l = if l.log_buffer.offset == 0 then (ok tt, l) else drain outcome l

  -- What one round of the loop of `analyze` meets: the end, an exception, or a record.
  pub data Next : Type 0 where
    stop : Next
    throws : Next
    found : LogRecord → ℕ → Next

  of_built : ℕ → Built → Next
  of_built n (built r) = found r n
  of_built n null = stop
  of_built n bad_size = throws

  of_data : ℕ → Option (List ℕ) → Next
  unfolding of_built
  of_data n none = stop
  of_data n (some log_data) =
      if length log_data == n then of_built n (build_log_record log_data) else stop

  of_header : List ℕ → ℤ → Option (List ℕ) → Next
  unfolding of_data
  of_header file offset none = stop
  of_header file offset (some header) =
      let n = read_unsigned 4 header 8 in
      if ltb (length header) log_header_size
      then stop
      else if ltb n log_header_size || ltb capacity n
      then stop
      else of_data n (read_log file (to_int n) offset)

  unfoldable pub next_log : List ℕ → ℤ → Next
  unfolding of_header
  next_log file offset = of_header file offset (read_log file (pos log_header_size) offset)

-- `unordered_set` of transaction ids.
unfoldable pub insert_id : ℤ → List ℤ → List ℤ
insert_id t [] = t ∷ []
insert_id t (u ∷ us) = ite (ℤ-discrete u t) (u ∷ us) (u ∷ insert_id t us)

unfoldable pub erase_id : ℤ → List ℤ → List ℤ
erase_id t [] = []
erase_id t (u ∷ us) = ite (ℤ-discrete u t) us (u ∷ erase_id t us)

pub record RecoveryState : Type 0 where
  pub logs : List LogRecord
  pub committed_txns : List ℤ
  pub active_txns : List ℤ

-- The sets after a record: an ABORT record counts as active.
unfoldable pub sort_txn : Body → ℤ → RecoveryState → RecoveryState
sort_txn commit tid a = record a {
  committed_txns = insert_id tid a.committed_txns;
  active_txns = erase_id tid a.active_txns;
}
sort_txn _ tid a = record a { active_txns = insert_id tid a.active_txns }

unfoldable pub note : LogRecord → RecoveryState → RecoveryState
note r a = let b = sort_txn r.body r.log_tid a in record b { logs = b.logs ++ r ∷ [] }

module _ (capacity : ℕ) where
  -- The loop of `analyze`; `none` stands for an exception. The fuel is a number of rounds.
  unfoldable pub analyze_from : ℕ → List ℕ → ℤ → RecoveryState → Option RecoveryState
  analyze_from zero file offset a = some a
  analyze_from (suc rounds) file offset a = elim (next_log capacity file offset) [
    | stop ↦ some a
    | throws ↦ none
    | found r n ↦ analyze_from rounds file (add_int offset n) (note r a)
  ]

  -- Every round but the last consumes at least a header.
  unfoldable pub analyze : List ℕ → Option RecoveryState
  analyze file =
      analyze_from (suc (length file)) file (pos 0)
        (record { logs = []; committed_txns = []; active_txns = [] })
