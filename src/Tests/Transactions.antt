-- ===== src/Tests/Transactions.antt =====
-- Transactions over tables that are a map in memory.
use myrmdb.Prelude.{
  ◌≡◌, refl, ◌∙◌, true, false, List, [], ◌∷◌, Option, none, some, inl, inr, ite, if_pos, if_neg,
  ℕ_discrete,
}
use myrmdb.Prelude.Assoc
use myrmdb.Prelude.Int.{ℤ-discrete, pos, negsuc}
use myrmdb.Concurrency.Transaction.{Rid, growing, committed, aborted}
use myrmdb.Errors.{Result, ok, err, and_then, ok_inj, ok_ne_err, record_not_found}
use myrmdb.Recovery.Log.{RmRecord, LogRecord, new_record, insert, update}
use myrmdb.Recovery.Manager.Transactions.{has_id}
use myrmdb.Recovery.Manager.{new_manager}
use myrmdb.Transactions.Tables.{Tables, TableName, Records, SetsAt, Same, is_some}
use myrmdb.Transactions.Writes.{insert_tuple, roll_back, went_on, take_back, revert}
use myrmdb.Transactions.Writes.Restore.{TableName-discrete, Rid-discrete, WroteAll}
use myrmdb.Transactions.Replay.{
  redo, redo_body, in_table, put_row, record_exists, undo, undo_logs, undo_body,
}
use myrmdb.Transactions.Replay.Outcome.{IsHonest, value_or_old}
use myrmdb.Transactions.Replay.Whole.{last_said, first_said, redo-last, undo-first}
use myrmdb.Transactions.Manager.{
  Txn, TransactionManager, commit, abort, write_log_record, flush_log,
}
use myrmdb.Transactions.Manager.Finish.{IsOwner, IsOut, commit-IsOut, abort-IsOut}

set_at : TableName → Rid → Option RmRecord → Records → Records
set_at n rid x f m r = ite (TableName-discrete m n) (ite (Rid-discrete r rid) x (f m r)) (f m r)

set_at-SetsAt :
    (n : TableName) (rid : Rid) (x : Option RmRecord) (f : Records)
    → SetsAt n rid x f (set_at n rid x f)
unfolding set_at
set_at-SetsAt n rid x f = (
  if_pos (TableName-discrete n n) refl _ (f n rid) ∙ if_pos (Rid-discrete rid rid) refl x (f n rid),
  λ m r ne. elim ne [
    | inl name ↦ if_neg (TableName-discrete m n) name _ (f m r)
    | inr at ↦ elim (TableName-discrete m n) [
      | yes same ↦
          if_pos (TableName-discrete m n) same _ (f m r) ∙ if_neg (Rid-discrete r rid) at x (f m r)
      | no name ↦ if_neg (TableName-discrete m n) name _ (f m r)
    ]
  ],
)

abbrev found : Option RmRecord → Result RmRecord
found none = err record_not_found
found (some x) = ok x

abbrev map_tables : Tables
map_tables = record {
  State = Records;
  records = λ s. s;
  fit = λ n x. x;
  has_table = λ n s. true;
  is_record = λ n rid s. (ok (is_some (s n rid)), s);
  get_record = λ n rid s. (found (s n rid), s);
  insert_record = λ n rid buf s. (ok tt, set_at n rid (some buf) s);
  delete_record = λ n rid s. (ok tt, set_at n rid none s);
  update_record = λ n rid buf s. (ok tt, set_at n rid (some buf) s);
  insert_index_entries = λ n x rid s. (ok tt, s);
  delete_index_entries = λ n x rid s. (ok tt, s);
  update_index_entries = λ n x y rid s. (ok tt, s);
  rebuild_runtime_indexes = λ s. (ok tt, s);
  flush_all_tables = λ s. (ok tt, s);
  records-is_record = λ n rid s b e. ok_inj e;
  records-is_record_same = λ n rid s m r. refl;
  records-get_record = λ n rid s x e m r. refl;
  records-insert_record = λ n rid buf s e. set_at-SetsAt n rid (some buf) s;
  records-delete_record = λ n rid s e. set_at-SetsAt n rid none s;
  records-update_record = λ n rid buf s e. set_at-SetsAt n rid (some buf) s;
  records-insert_index = λ n x rid s m r. refl;
  records-delete_index = λ n x rid s m r. refl;
  records-update_index = λ n x y rid s m r. refl;
  records-rebuild = λ s m r. refl;
  records-flush = λ s m r. refl;
}

abbrev table_name : TableName
table_name = 116 ∷ []

abbrev row_rid : Rid
row_rid = record { page_no = pos 1; slot_no = pos 0 }

abbrev empty_records : Records
empty_records n rid = none

abbrev one_row : Records
one_row = set_at table_name row_rid (some (7 ∷ [])) empty_records

-- A transaction that has inserted a row and holds no lock.
abbrev writer : Txn
writer = record {
  locking = record { txn_id = 4; state = growing; lock_set = [] };
  prev_lsn = negsuc 0;
  start_ts = 9;
  write_set = record { wtype = insert_tuple; tab_name = table_name; rid = row_rid; old = [] } ∷ [];
}

abbrev one_writer : TransactionManager map_tables 64
one_writer = record {
  next_txn_id = 5;
  next_timestamp = 10;
  txn_map = 4 ∷ [];
  locks = [];
  log = new_manager 64 (negsuc 0) [];
  data_ = one_row;
}

no_locks : IsOwner map_tables 64 writer []
unfolding Assoc.lookup
no_locks = ((λ i q e. cc), (λ i q e. cc))

wrote_row : WroteAll map_tables writer.write_set empty_records one_row
wrote_row = (
  one_row,
  (refl, (7 ∷ [], set_at-SetsAt table_name row_rid (some (7 ∷ [])) empty_records)),
  λ n rid. refl,
)

commit_is_ok : (commit map_tables 64 false 0 0 writer one_writer).0 ≡ ok tt
unfolding commit and_then write_log_record flush_log
commit_is_ok = refl

commit-IsOut_example :
    let u = (commit map_tables 64 false 0 0 writer one_writer).1 in
    IsOut map_tables 64 committed 4 u × (u.0.write_set ≡ []) × (u.1.data_ ≡ one_row)
commit-IsOut_example = commit-IsOut map_tables 64 false 0 0 writer one_writer no_locks commit_is_ok

abort_is_ok : (abort map_tables 64 false 0 0 writer one_writer).0 ≡ ok tt
unfolding abort and_then write_log_record flush_log roll_back went_on take_back revert set_at
    TableName-discrete Rid-discrete ℕ_discrete ℤ-discrete
abort_is_ok = refl

abort-IsOut_example :
    let u = (abort map_tables 64 false 0 0 writer one_writer).1 in
    IsOut map_tables 64 aborted 4 u × (u.0.write_set ≡ []) × Same u.1.data_ empty_records
abort-IsOut_example =
    abort-IsOut map_tables 64 false 0 0 writer one_writer empty_records no_locks wrote_row
      abort_is_ok

map_tables-IsHonest : IsHonest map_tables
map_tables-IsHonest n rid s e bad = absurd (ok_ne_err bad)

-- A committed insertion, and its record again as a change of a transaction that is active.
abbrev row_logs : List LogRecord
row_logs =
    new_record (pos 4) (insert (7 ∷ []) row_rid table_name)
    ∷ new_record (pos 5) (update (7 ∷ []) (8 ∷ []) row_rid table_name)
    ∷ []

redo_is_ok : (redo map_tables (pos 4 ∷ []) row_logs empty_records).0 ≡ ok tt
unfolding redo and_then redo_body in_table put_row record_exists new_record has_id ℤ-discrete
    ℕ_discrete
redo_is_ok = refl

redo-last_example :
    (redo map_tables (pos 4 ∷ []) row_logs empty_records).1 table_name row_rid
    ≡ value_or_old (last_said map_tables (pos 4 ∷ []) row_logs table_name row_rid) none
redo-last_example =
    redo-last map_tables (pos 4 ∷ []) row_logs empty_records table_name row_rid map_tables-IsHonest
      redo_is_ok

undo_is_ok : (undo map_tables (pos 5 ∷ []) row_logs one_row).0 ≡ ok tt
unfolding undo undo_logs and_then undo_body in_table put_row record_exists new_record has_id
    ℤ-discrete set_at TableName-discrete Rid-discrete ℕ_discrete
undo_is_ok = refl

undo-first_example :
    (undo map_tables (pos 5 ∷ []) row_logs one_row).1 table_name row_rid
    ≡ value_or_old
        (first_said map_tables (pos 5 ∷ []) row_logs table_name row_rid)
        (one_row table_name row_rid)
undo-first_example =
    undo-first map_tables (pos 5 ∷ []) row_logs one_row table_name row_rid map_tables-IsHonest
      undo_is_ok
