-- ===== src/Record.antt =====
-- src/record: the bitmap of a page, the layout of a page, and table files.
pub mod Bitmap
pub mod Pages
pub mod Table
pub mod Manager
pub mod Scan
