-- ===== src/System.antt =====
-- src/system and the comparisons of src/execution/execution_defs.h: values, keys and the indexes.
pub mod Values
pub mod Keys
pub mod Entries
pub mod IndexScan
pub mod Manager
