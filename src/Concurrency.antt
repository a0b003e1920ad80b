-- ===== src/Concurrency.antt =====
-- src/transaction/concurrency and src/transaction: table and record locks, and transactions.
pub mod Transaction
pub mod Locks
