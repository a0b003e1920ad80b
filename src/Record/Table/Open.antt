-- ===== src/Record/Table/Open.antt =====
-- An open table file under updates and deletions.
use mathlib.Core.Path.{subst}
use myrmdb.Prelude.{
  ℕ, ◌≤◌, ◌<◌, ◌≡◌, refl, sym, ◌∙◌, true, false, ◌==◌, if_both, ite_both, inl, inr, List, arith,
}
use myrmdb.Prelude.Int.{ℤ, pos, pos_part, ℤ-discrete}
use myrmdb.Concurrency.Transaction.{Rid}
use myrmdb.Record.Bitmap.{is_set}
use myrmdb.Record.Pages.{RmFileHdr, RmPage, Pages, update}
use myrmdb.Record.Table.{
  RmFileHandle, outside, page_of, fill_slot, delete_from, release_page_handle, update_record,
  delete_record,
}
use myrmdb.Record.Table.Access.{view_of, Untouched}
use myrmdb.Record.Table.Calls.{Becomes, outside-false, update_record-Ends, delete_record-Ends}
use myrmdb.Record.Table.FreeList.{IsTable}
use myrmdb.Record.Table.Keeps.{
  IsOpen, page_at_pos, slot_at_pos, fill_slot-IsTable, delete_from-IsTable,
}

-- The sizes of a file never change.
abbrev SameSizes : RmFileHdr → RmFileHdr → Type 0
SameSizes a b =
    (a.num_pages ≡ b.num_pages)
    × (a.num_records_per_page ≡ b.num_records_per_page)
    × (a.bitmap_size ≡ b.bitmap_size)

same_sizes :
    (i : ℤ) (s : ℕ) (p : RmPage) (hdr : RmFileHdr) → SameSizes (delete_from i s p hdr).1 hdr
unfolding delete_from release_page_handle
same_sizes i s p hdr =
    let Same : RmPage × RmFileHdr → Type 0 = λ r. SameSizes r.1 hdr in
    if_both Same (p.num_records == hdr.num_records_per_page) _ _
      (ite_both Same (ℤ-discrete hdr.first_free_page_no i) _ _ (refl, refl, refl)
        (refl, refl, refl))
      (refl, refl, refl)

module _ (pages : Pages) where
  -- The free list of an open file.
  abbrev pub IsOpenFile : RmFileHandle pages → List ℕ → Type 0
  IsOpenFile t ks = IsOpen t.file_hdr (view_of pages t) ks

  pub Untouched-IsOpenFile :
      (t u : RmFileHandle pages) (ks : List ℕ)
      → IsOpenFile t ks
      → Untouched pages t u
      → IsOpenFile u ks
  Untouched-IsOpenFile t u ks h same =
      subst (λ hdr. IsOpen hdr (view_of pages u) ks) (sym same.1)
        (subst (λ v. IsOpen t.file_hdr v ks) (sym same.0) h)

  module _ (rid : Rid) (t : RmFileHandle pages) (ks : List ℕ) (h : IsOpenFile t ks) where
    -- The page and the slot of a record that is there.
    pub at_page :
        outside t.file_hdr rid ≡ false
        → (k : ℕ) × (rid.page_no ≡ pos k) × (1 ≤ k) × (k < t.file_hdr.num_pages)
    at_page inside = page_at_pos t.file_hdr rid.page_no (outside-false t.file_hdr rid inside).0

    pub in_slot :
        outside t.file_hdr rid ≡ false → pos_part rid.slot_no < t.file_hdr.num_records_per_page
    in_slot inside = slot_at_pos t.file_hdr rid.slot_no (outside-false t.file_hdr rid inside).1

    Becomes-IsOpenFile :
        (q : RmPage) (hdr : RmFileHdr) (js : List ℕ) (u : RmFileHandle pages)
        → IsTable hdr (update rid.page_no q (view_of pages t).page) js
        → hdr.num_pages ≡ t.file_hdr.num_pages
        → hdr.num_records_per_page ≡ t.file_hdr.num_records_per_page
        → hdr.bitmap_size ≡ t.file_hdr.bitmap_size
        → Becomes pages rid t q hdr u
        → IsOpenFile u js
    Becomes-IsOpenFile q hdr js u table num n size (same, hdr_is) =
        let sized = h.sized in
        subst (λ k. IsOpen k (view_of pages u) js) (sym hdr_is)
          (subst (λ v. IsOpen hdr v js) (sym same)
            (record {
              table = table;
              numbered = h.numbered ∙ sym num;
              calm = h.calm;
              sized = omega (arith, sized, n, size);
            }))

    -- Whether it returns or throws, `update_record` on an open file keeps its free list.
    pub update_record-IsOpen : (buf : List ℕ) → IsOpenFile (update_record pages rid buf t).1 ks
    update_record-IsOpen buf = elim (update_record-Ends pages rid t buf h.calm) [
      | inl (e, _, _, same) ↦ Untouched-IsOpenFile t _ ks h same
      | inr (_, _, (there, becomes)) ↦
          let i = at_page there.0 in
          let s = pos_part rid.slot_no in
          let table : IsTable t.file_hdr
              (update rid.page_no (fill_slot t.file_hdr s buf (page_of pages rid.page_no t))
                (view_of pages t).page)
              ks =
            subst
              (λ j.
                IsTable t.file_hdr
                  (update j (fill_slot t.file_hdr s buf (page_of pages j t)) (view_of pages t).page)
                  ks)
              (sym i.1)
              (fill_slot-IsTable t.file_hdr (view_of pages t).page ks h.table i.0 s i.2 i.3
                (in_slot there.0) buf) in
          Becomes-IsOpenFile _ t.file_hdr ks _ table refl refl refl becomes
    ]

    -- Whether it returns or throws, `delete_record` on an open file leaves an open file.
    pub delete_record-IsOpen : (js : List ℕ) × IsOpenFile (delete_record pages rid t).1 js
    delete_record-IsOpen = elim (delete_record-Ends pages rid t h.calm) [
      | inl (e, _, _, same) ↦ (ks, Untouched-IsOpenFile t _ ks h same)
      | inr (_, _, (there, becomes)) ↦
          let i = at_page there.0 in
          let s = pos_part rid.slot_no in
          let After : ℤ → Type 0 = λ j.
            let r = delete_from j s (page_of pages j t) t.file_hdr in
            (js : List ℕ) × IsTable r.1 (update j r.0 (view_of pages t).page) js in
          let on = subst (λ j. is_set (page_of pages j t).bitmap s ≡ true) i.1 there.1 in
          let table : After rid.page_no = subst After (sym i.1) (
            delete_from-IsTable t.file_hdr (view_of pages t).page ks h.table i.0 s i.2 i.3
              (in_slot there.0) on) in
          let same = same_sizes rid.page_no s (page_of pages rid.page_no t) t.file_hdr in
          (table.0, Becomes-IsOpenFile _ _ table.0 _ table.1 same.0 same.1 same.2 becomes)
    ]
