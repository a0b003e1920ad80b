-- ===== src/Tests/Logs.antt =====
-- The log on concrete records, with a buffer of 50 bytes.
use myrmdb.Prelude.{true, ℕ, ◌≡◌, refl, List, [], ◌∷◌, ◌++◌, none, some, arith, take, inr, length}
use myrmdb.Prelude.Int.{pos, negsuc}
use myrmdb.Concurrency.Transaction.{Rid}
use myrmdb.Storage.Disk.{ok}
use myrmdb.Recovery.Bytes.{memcpy}
use myrmdb.Recovery.Log.{
  LogRecord, insert, begin, commit, abort, total, new_record, serialize, serialize_header,
  serialize_body, build_log_record, built,
}
use myrmdb.Recovery.Log.RoundTrip.{Fits, build_log_record-serialize}
use myrmdb.Recovery.Log.Layout.{record_bytes}
use myrmdb.Recovery.Manager.{
  LogManager, RecoveryState, new_manager, empty_buffer, is_full, write_log, drain,
  add_log_to_buffer, flush_log_to_disk, analyze,
}
use myrmdb.Recovery.Manager.Drain.{log_bytes}
use myrmdb.Recovery.Manager.Analysis.{analyze-reads}
use myrmdb.Recovery.Manager.Rounds.{IsLogged, IsTail}
use myrmdb.Recovery.Manager.Transactions.{has_id, has_commit, analyze-committed, analyze-aborted}
use myrmdb.Recovery.Manager.Durable.{add_all, analyze-flushed}

abbrev place : Rid
place = record { page_no = pos 1; slot_no = pos 2 }

abbrev begun : LogRecord
begun = new_record (pos 1) begin

abbrev inserted : LogRecord
inserted = new_record (pos 1) (insert (7 ∷ 8 ∷ []) place (65 ∷ []))

begun-Fits : Fits begun
unfolding new_record total
begun-Fits = record {
  lsn = omega arith;
  tid = omega arith;
  prev = omega arith;
  len = omega arith;
  body = tt;
}

inserted-Fits : Fits inserted
unfolding new_record total
inserted-Fits = record {
  lsn = omega arith;
  tid = omega arith;
  prev = omega arith;
  len = omega arith;
  body = (omega arith, (omega arith, omega arith, omega arith));
}

build_log_record-serialize_example :
    build_log_record (serialize inserted (1 ∷ 2 ∷ 3 ∷ [])) ≡ built inserted
build_log_record-serialize_example =
    build_log_record-serialize inserted (1 ∷ 2 ∷ 3 ∷ []) inserted-Fits

begun-IsLogged : IsLogged 50 begun
unfolding new_record total
begun-IsLogged = record { fits = begun-Fits; sized = refl; small = omega arith }

inserted-IsLogged : IsLogged 50 inserted
unfolding new_record total
inserted-IsLogged = record { fits = inserted-Fits; sized = refl; small = omega arith }

-- The second record is cut after 30 bytes.
cut-IsTail : IsTail 50 (take 30 (record_bytes inserted))
unfolding IsTail new_record total
cut-IsTail = inr (inserted, inserted-IsLogged, 30, omega arith, refl)

analyze-reads_example :
    (a : RecoveryState) × (analyze 50 (log_bytes (begun ∷ []) ++ take 30 (record_bytes inserted))
      ≡ some a)
    × (a.logs ≡ begun ∷ [])
unfolding new_record
analyze-reads_example =
    analyze-reads 50 (begun ∷ []) (take 30 (record_bytes inserted)) (begun-IsLogged, tt) cut-IsTail
      (omega arith)

-- The second record does not fit behind the first: the first is written out, 20 bytes.
abbrev calls : List (ℕ × LogRecord)
calls = (0, begun) ∷ (20, inserted) ∷ []

abbrev logged : List LogRecord × LogManager
logged = elim (add_all 50 calls (new_manager 50 (negsuc 0) [])) [
  | none ↦ ([], new_manager 50 (negsuc 0) [])
  | some x ↦ x
]

calls_logged : add_all 50 calls (new_manager 50 (negsuc 0) []) ≡ some (logged.0, logged.1)
unfolding add_all add_log_to_buffer drain write_log is_full empty_buffer new_manager serialize
    serialize_header serialize_body memcpy total new_record
calls_logged = refl

calls_flushed : (flush_log_to_disk 50 43 logged.1).0 ≡ ok tt
unfolding add_all flush_log_to_disk add_log_to_buffer drain write_log is_full empty_buffer
    new_manager serialize serialize_header serialize_body memcpy total new_record
calls_flushed = refl

calls_short : length (flush_log_to_disk 50 43 logged.1).1.log_file ≡ 63
unfolding add_all flush_log_to_disk add_log_to_buffer drain write_log is_full empty_buffer
    new_manager serialize serialize_header serialize_body memcpy total new_record
calls_short = refl

analyze-flushed_example :
    (a : RecoveryState) × (analyze 50 (flush_log_to_disk 50 43 logged.1).1.log_file ≡ some a)
    × (a.logs ≡ logged.0)
analyze-flushed_example =
    analyze-flushed 50 calls (negsuc 0) 43 logged.0 logged.1
      ((begun-Fits, begun-IsLogged.sized), ((inserted-Fits, inserted-IsLogged.sized), tt))
      (omega arith) calls_logged calls_flushed (omega (arith, calls_short))

abbrev committed : LogRecord
committed = new_record (pos 1) commit

abbrev aborted : LogRecord
aborted = new_record (pos 2) abort

committed-IsLogged : IsLogged 50 committed
unfolding new_record total
committed-IsLogged = record {
  fits = record {
    lsn = omega arith;
    tid = omega arith;
    prev = omega arith;
    len = omega arith;
    body = tt;
  };
  sized = refl;
  small = omega arith;
}

aborted-IsLogged : IsLogged 50 aborted
unfolding new_record total
aborted-IsLogged = record {
  fits = record {
    lsn = omega arith;
    tid = omega arith;
    prev = omega arith;
    len = omega arith;
    body = tt;
  };
  sized = refl;
  small = omega arith;
}

analyze-committed_example :
    (a : RecoveryState) × (analyze 50
        (log_bytes (begun ∷ committed ∷ []) ++ take 30 (record_bytes inserted))
      ≡ some a)
    × (has_id (pos 1) a.committed_txns ≡ has_commit (pos 1) (begun ∷ committed ∷ []))
unfolding new_record
analyze-committed_example =
    analyze-committed 50 (pos 1) (begun ∷ committed ∷ []) (take 30 (record_bytes inserted))
      (begun-IsLogged, (committed-IsLogged, tt)) cut-IsTail (omega arith)

aborted_body : aborted.body ≡ abort
unfolding new_record
aborted_body = refl

analyze-aborted_example :
    (a : RecoveryState) × (analyze 50 (log_bytes ((begun ∷ []) ++ aborted ∷ []) ++ []) ≡ some a)
    × (has_id aborted.log_tid a.active_txns ≡ true)
unfolding new_record
analyze-aborted_example =
    analyze-aborted 50 (begun ∷ []) aborted (begun-IsLogged, tt) aborted-IsLogged aborted_body
      (omega arith)
