-- ===== src/Record/Manager.antt =====
-- `RmManager::create_file` of src/record/rm_manager.h: the header of a new table file.
pub mod Layout
use myrmdb.Prelude.{
  ℕ, ◌+◌, ◌-◌, ◌*◌, ◌/◌, ◌≤◌, ◌≡◌, refl, Bool, true, false, ltb, ◌||◌, if◌then◌else◌, arith,
}
use myrmdb.Errors.{Result, ok, err, invalid_record_size}
use myrmdb.Record.Bitmap.{bitmap_width}
use myrmdb.Record.Pages.{RmFileHdr, rm_no_page, rm_max_record_size}

abbrev pub page_size : ℕ
page_size = 4096

-- `sizeof(RmFileHdr)`, of five `int`s.
abbrev pub file_hdr_size : ℕ
file_hdr_size = 20

-- Where the slots start: behind the page's lsn, its header of two `int`s, and the bitmap.
abbrev pub slots_offset : RmFileHdr → ℕ
slots_offset hdr = 4 + 8 + hdr.bitmap_size

unfoldable pub new_file_hdr : ℕ → RmFileHdr
new_file_hdr record_size =
    let n =
      (bitmap_width * (page_size - 1 - file_hdr_size) + 1) / (1 + record_size * bitmap_width) in
    record {
      record_size = record_size;
      num_pages = 1;
      num_records_per_page = n;
      first_free_page_no = rm_no_page;
      bitmap_size = (n + bitmap_width - 1) / bitmap_width;
    }

-- The header that `create_file` writes, or its refusal.
unfoldable pub checked_hdr : ℕ → Result RmFileHdr
checked_hdr record_size =
    if ltb record_size 1 || ltb rm_max_record_size record_size
    then err invalid_record_size
    else ok (new_file_hdr record_size)
