-- ===== src/Recovery.antt =====
-- src/recovery: the write-ahead log.
pub mod Bytes
pub mod Log
pub mod Manager
