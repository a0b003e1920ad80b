-- ===== src/Record/Scan.antt =====
-- src/record/rm_scan.cpp: the records of a table file, one after the other. The state of a scan is
-- its position, and a call of `next` that throws leaves it as it was.
pub mod First
pub mod Next
use myrmdb.Prelude.{ℕ, zero, suc, ◌-◌, Bool, true, false, not, ltb}
use myrmdb.Prelude.Int.{ℤ, pos, negsuc, pos_part, neg_part, ltb_ℤ, suc_ℤ}
use myrmdb.Concurrency.Transaction.{Rid}
use myrmdb.Errors.{Result, ok, err}
use myrmdb.Record.Bitmap.{next_bit}
use myrmdb.Record.Pages.{RmFileHdr, Pages, rm_first_record_page}
use myrmdb.Record.Table.{RmFileHandle, Exec, page_of, unpinned, fetch_page_handle, then_}

-- The pages from `page_no` on.
abbrev pub pages_left : ℤ → RmFileHdr → ℕ
pages_left page_no hdr = hdr.num_pages - pos_part page_no

abbrev pub end_rid : RmFileHdr → Rid
end_rid hdr = record { page_no = pos hdr.num_pages; slot_no = negsuc 0 }

module _ (pages : Pages) where
  -- The loop of `next`, with so many pages left.
  unfoldable pub next_in : ℕ → ℤ → ℤ → Exec pages Rid
  next_in zero page_no slot_no t = (ok (end_rid t.file_hdr), t)
  next_in (suc rounds) page_no slot_no t = then_ pages (fetch_page_handle pages page_no t) λ _ u.
      let n = u.file_hdr.num_records_per_page in
      let next_slot = next_bit true (page_of pages page_no u).bitmap n slot_no in
      let w = unpinned pages page_no false u in
      elim (ltb next_slot n) [
        | true ↦ (ok (record { page_no = page_no; slot_no = pos next_slot }), w)
        | false ↦ next_in rounds (suc_ℤ page_no) (negsuc 0) w
      ]

  -- The position after `next`.
  unfoldable pub next : Rid → Exec pages Rid
  unfolding next_in
  next rid t = next_in (pages_left rid.page_no t.file_hdr) rid.page_no rid.slot_no t

  -- The position of a new scan.
  unfoldable pub rm_scan : Exec pages Rid
  unfolding next
  rm_scan t = next (record { page_no = rm_first_record_page; slot_no = negsuc 0 }) t

unfoldable pub is_end : RmFileHdr → Rid → Bool
is_end hdr rid = not (ltb_ℤ rid.page_no (pos hdr.num_pages))
