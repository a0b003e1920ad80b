-- ===== src/Transactions/Tables.antt =====
-- What transactions and recovery ask of the tables of src/system/sm_manager.h (`fhs_`) and of their
-- indexes. The records are seen as one map from a table's name and a position to bytes.
use myrmdb.Prelude.{ℕ, ◌≡◌, ◌≢◌, Bool, true, false, ◌⊎◌, List, Option, none, some}
use myrmdb.Concurrency.Transaction.{Rid}
use myrmdb.Errors.{Result, ok}
use myrmdb.Recovery.Log.{RmRecord}

-- The characters of a table's name.
abbrev pub TableName : Type 0
TableName = List ℕ

abbrev pub Records : Type 0
Records = TableName → Rid → Option RmRecord

-- `g` is `f` but at one position.
abbrev pub SetsAt : TableName → Rid → Option RmRecord → Records → Records → Type 0
SetsAt n rid x f g =
    (g n rid ≡ x) × ((m : TableName) (r : Rid) → (m ≢ n) ⊎ (r ≢ rid) → g m r ≡ f m r)

abbrev pub Same : Records → Records → Type 0
Same f g = (n : TableName) (rid : Rid) → f n rid ≡ g n rid

abbrev pub is_some : Option RmRecord → Bool
is_some none = false
is_some (some x) = true

-- The operations of a table file, by the name of its table, with what they do if they return.
pub record Tables : Type 1 where
  pub State : Type 0
  pub records : State → Records
  -- The bytes of a buffer that a record of the table has.
  pub fit : TableName → List ℕ → RmRecord
  -- `fhs_.count(tab_name)`
  pub has_table : TableName → State → Bool
  pub is_record : TableName → Rid → State → Result Bool × State
  pub get_record : TableName → Rid → State → Result RmRecord × State
  pub insert_record : TableName → Rid → List ℕ → State → Result (Unit {0}) × State
  pub delete_record : TableName → Rid → State → Result (Unit {0}) × State
  pub update_record : TableName → Rid → List ℕ → State → Result (Unit {0}) × State
  pub insert_index_entries : TableName → RmRecord → Rid → State → Result (Unit {0}) × State
  pub delete_index_entries : TableName → RmRecord → Rid → State → Result (Unit {0}) × State
  pub update_index_entries :
      TableName → RmRecord → RmRecord → Rid → State → Result (Unit {0}) × State
  pub rebuild_runtime_indexes : State → Result (Unit {0}) × State
  pub flush_all_tables : State → Result (Unit {0}) × State
  pub records-is_record :
      (n : TableName) (rid : Rid) (s : State) (b : Bool)
      → (is_record n rid s).0 ≡ ok b
      → is_some (records s n rid) ≡ b
  -- Looking for a record changes none, also where it throws.
  pub records-is_record_same :
      (n : TableName) (rid : Rid) (s : State) → Same (records (is_record n rid s).1) (records s)
  pub records-get_record :
      (n : TableName) (rid : Rid) (s : State) (x : RmRecord)
      → (get_record n rid s).0 ≡ ok x
      → Same (records (get_record n rid s).1) (records s)
  pub records-insert_record :
      (n : TableName) (rid : Rid) (buf : List ℕ) (s : State)
      → (insert_record n rid buf s).0 ≡ ok tt
      → SetsAt n rid (some (fit n buf)) (records s) (records (insert_record n rid buf s).1)
  pub records-delete_record :
      (n : TableName) (rid : Rid) (s : State)
      → (delete_record n rid s).0 ≡ ok tt
      → SetsAt n rid none (records s) (records (delete_record n rid s).1)
  pub records-update_record :
      (n : TableName) (rid : Rid) (buf : List ℕ) (s : State)
      → (update_record n rid buf s).0 ≡ ok tt
      → SetsAt n rid (some (fit n buf)) (records s) (records (update_record n rid buf s).1)
  -- The indexes hold no records.
  pub records-insert_index :
      (n : TableName) (x : RmRecord) (rid : Rid) (s : State)
      → Same (records (insert_index_entries n x rid s).1) (records s)
  pub records-delete_index :
      (n : TableName) (x : RmRecord) (rid : Rid) (s : State)
      → Same (records (delete_index_entries n x rid s).1) (records s)
  pub records-update_index :
      (n : TableName) (x y : RmRecord) (rid : Rid) (s : State)
      → Same (records (update_index_entries n x y rid s).1) (records s)
  pub records-rebuild : (s : State) → Same (records (rebuild_runtime_indexes s).1) (records s)
  pub records-flush : (s : State) → Same (records (flush_all_tables s).1) (records s)
