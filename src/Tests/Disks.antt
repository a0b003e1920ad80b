-- ===== src/Tests/Disks.antt =====
-- A disk of numbers for the witnesses: a page is one number, a file has two readable pages.
use myrmdb.Prelude.{ℕ, refl, ap, List, Option, none, some}
use myrmdb.Prelude.Assoc
use myrmdb.Prelude.Int.{pos}
use myrmdb.Storage.Page.{PageId, PageId-discrete}
use myrmdb.Storage.Disk.{Disk, Result, ok, err, unix_error}

abbrev pub Cells : Type 0
Cells = List (PageId × ℕ)

abbrev found : Option ℕ → Result ℕ
found none = err unix_error
found (some d) = ok d

-- A page that was never written cannot be read.
abbrev pub number_disk : Disk
number_disk = record {
  State = Cells;
  Data = ℕ;
  zero = 0;
  read_page = λ i s. found (Assoc.lookup PageId-discrete i s);
  partial = λ i s. 0;
  write_page = λ i d s. (ok tt, Assoc.insert PageId-discrete i d s);
  allocate_page = λ fd s. (pos 0, s);
  read-write_self = λ i d s _. ap found (Assoc.lookup-insert_self PageId-discrete i i d s refl);
  read-write_ne = λ i j d s ne. ap found (Assoc.lookup-insert_ne PageId-discrete i j d s ne);
  read-allocate = λ fd i s. refl;
}

abbrev pub page : ℕ → PageId
page n = record { fd = 3; page_no = pos n }
