-- ===== src/Execution.antt =====
-- src/execution: the executors that a query is made of.
pub mod Scans
