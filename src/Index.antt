-- ===== src/Index.antt =====
-- src/index: what an index writes to disk.
pub mod Header
