-- ===== src/Storage.antt =====
-- The storage layer, src/storage and src/replacer: which pages stand in which frame, and the files on disk.
pub mod Replacer
pub mod Page
pub mod Disk
pub mod Posix
pub mod Files
pub mod Pool
