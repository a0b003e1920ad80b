-- ===== src/Transactions.antt =====
-- src/transaction/transaction_manager.cpp, and redo and undo of src/recovery/log_recovery.cpp: what
-- transactions do to the tables.
pub mod Tables
pub mod Writes
pub mod Replay
pub mod Manager
