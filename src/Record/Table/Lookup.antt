-- ===== src/Record/Table/Lookup.antt =====
-- A table file as a map: what each operation on an open file does to the record at each position.
use mathlib.Core.Path.{subst}
use myrmdb.Prelude.{
  if_both, ite_both, ℕ, ◌≡◌, ◌≢◌, refl, sym, ap, ◌∙◌, false, ◌==◌, ◌⊎◌, inl, inr, List, [], Option,
  none, some, take,
}
use myrmdb.Prelude.Int.{ℤ, pos_part, ℤ-discrete}
use myrmdb.Concurrency.Transaction.{Rid}
use myrmdb.Errors.{Error, record_not_found}
use myrmdb.Record.Pages.{RmFileHdr, RmPage, View, Pages}
use myrmdb.Record.Table.{
  RmFileHandle, outside, page_of, vacate, delete_from, release_page_handle, get_record,
  update_record, delete_record,
}
use myrmdb.Record.Table.Access.{view_of, Untouched, Ends, PoolFails}
use myrmdb.Record.Table.Calls.{
  NoRecord, IsThere, Becomes, value, get_record-Ends, update_record-Ends, delete_record-Ends,
}
use myrmdb.Record.Table.FreeList.{IsPage}
use myrmdb.Record.Table.Open.{
  IsOpenFile, at_page, in_slot, update_record-IsOpen, delete_record-IsOpen,
}
use myrmdb.Record.Table.Records.{
  record_at, record_at-some, record_at-none, Sets, SetsSlot, SameRoom, store-Sets, vacate-SetsSlot,
  fill_slot-SetsSlot,
}

module _ (pages : Pages) where
  -- The record at a position.
  unfoldable pub lookup : RmFileHandle pages → Rid → Option (List ℕ)
  lookup t = record_at t.file_hdr (view_of pages t).page

  -- Why an operation on a record throws.
  abbrev pub Missing : Rid → RmFileHandle pages → Error → Type 0
  Missing rid t e = ((e ≡ record_not_found) × (lookup t rid ≡ none)) ⊎ PoolFails pages rid.page_no t

  module _ (rid : Rid) (t : RmFileHandle pages) where
    has-Missing : (e : Error) → NoRecord pages rid t e → Missing rid t e
    unfolding lookup
    has-Missing e (inl (same, why)) =
        inl (same, record_at-none t.file_hdr (view_of pages t).page rid why)
    has-Missing e (inr fails) = inr fails

    found : IsThere pages rid t → lookup t rid ≡ some (value pages rid t)
    unfolding lookup
    found there = record_at-some t.file_hdr (view_of pages t).page rid there.0 there.1

    -- A page stored with one record changed.
    Becomes-Sets :
        (q : RmPage) (hdr : RmFileHdr) (x : Option (List ℕ)) (u : RmFileHandle pages)
        → SameRoom hdr t.file_hdr
        → outside t.file_hdr rid ≡ false
        → SetsSlot t.file_hdr.record_size (pos_part rid.slot_no) x (page_of pages rid.page_no t) q
        → Becomes pages rid t q hdr u
        → Sets rid x (lookup t) (lookup u)
    unfolding lookup
    Becomes-Sets q hdr x u room inside slots (same, hdr_is) =
        subst (λ f. Sets rid x (record_at t.file_hdr (view_of pages t).page) f)
          (sym (
            ap (λ h. record_at h (view_of pages u).page) hdr_is
            ∙ ap (λ (v : View). record_at hdr v.page) same))
          (store-Sets t.file_hdr hdr (view_of pages t).page q rid x room inside slots)

    delete_from-SetsSlot :
        (i : ℤ) (s size : ℕ) (x : Option (List ℕ)) (p : RmPage) (hdr : RmFileHdr)
        → SetsSlot size s x p (vacate s p)
        → SetsSlot size s x p (delete_from i s p hdr).0 × SameRoom (delete_from i s p hdr).1 hdr
    unfolding delete_from release_page_handle
    delete_from-SetsSlot i s size x p hdr h =
        let P : RmPage × RmFileHdr → Type 0 = λ r. SetsSlot size s x p r.0 × SameRoom r.1 hdr in
        if_both P (p.num_records == hdr.num_records_per_page) _ _
          (ite_both P (ℤ-discrete hdr.first_free_page_no i) _ _ (h, (refl, refl, refl))
            (h, (refl, refl, refl)))
          (h, (refl, refl, refl))

    module _ (ks : List ℕ) (h : IsOpenFile pages t ks) where
      sound :
          outside t.file_hdr rid ≡ false
          → IsPage t.file_hdr.num_records_per_page (page_of pages rid.page_no t)
      sound inside =
          let i = at_page pages rid t ks h inside in
          subst (λ j. IsPage t.file_hdr.num_records_per_page (page_of pages j t)) (sym i.1)
            (h.table.shape i.0 i.2 i.3)

      -- `get_record` on an open file returns the record that is there and changes nothing, or
      -- throws and changes nothing because there is none or the buffer pool fails.
      pub get_record-Lookup :
          Ends pages t
            (get_record pages rid t)
            (Missing rid t)
            (λ r u. (lookup t rid ≡ some r) × Untouched pages t u)
      get_record-Lookup = elim (get_record-Ends pages rid t h.calm) [
        | inl (e, same, why, left) ↦ inl (e, same, has-Missing e why, left)
        | inr (r, same, (there, (is_value, left))) ↦
            inr (r, same, (found there ∙ ap some (sym is_value), left))
      ]

      -- `update_record` on an open file replaces the record that is there by `record_size` bytes of
      -- `buf` and leaves every other one and the free list, or throws and changes nothing because
      -- there is none or the buffer pool fails.
      pub update_record-Sets :
          (buf : List ℕ)
          → Ends pages t (update_record pages rid buf t) (Missing rid t) (λ _ u.
            (lookup t rid ≢ none)
            × IsOpenFile pages u ks
            × Sets rid (some (take t.file_hdr.record_size buf)) (lookup t) (lookup u))
      update_record-Sets buf =
          let open_ = update_record-IsOpen pages rid t ks h buf in
          elim (update_record-Ends pages rid t buf h.calm) [
            | inl (e, same, why, left) ↦ inl (e, same, has-Missing e why, left)
            | inr (a, same, (there, becomes)) ↦ inr (
              a,
              same,
              (
                λ (bad : lookup t rid ≡ none). let f = found there in cc,
                open_,
                Becomes-Sets _ t.file_hdr _ _ (refl, refl, refl) there.0
                    (fill_slot-SetsSlot t.file_hdr t.file_hdr.num_records_per_page
                      (pos_part rid.slot_no) buf (page_of pages rid.page_no t) (sound there.0)
                      (in_slot pages rid t ks h there.0) there.1)
                    becomes,
              ),
            )
          ]

      -- `delete_record` on an open file removes the record that is there, leaves every other one,
      -- and leaves an open file, or throws and changes nothing because there is none or the buffer
      -- pool fails.
      pub delete_record-Sets : Ends pages t (delete_record pages rid t) (Missing rid t) (λ _ u.
          (lookup t rid ≢ none)
          × ((js : List ℕ) × IsOpenFile pages u js)
          × Sets rid none (lookup t) (lookup u))
      delete_record-Sets =
          let open_ = delete_record-IsOpen pages rid t ks h in
          elim (delete_record-Ends pages rid t h.calm) [
            | inl (e, same, why, left) ↦ inl (e, same, has-Missing e why, left)
            | inr (a, same, (there, becomes)) ↦
                let p = page_of pages rid.page_no t in
                let s = pos_part rid.slot_no in
                let slots =
                  delete_from-SetsSlot rid.page_no s t.file_hdr.record_size none p t.file_hdr (
                    vacate-SetsSlot t.file_hdr t.file_hdr.num_records_per_page s [] p
                      (sound there.0) (in_slot pages rid t ks h there.0)) in
                inr (
                  a,
                  same,
                  (
                    λ (bad : lookup t rid ≡ none). let f = found there in cc,
                    open_,
                    Becomes-Sets _ _ none _ slots.1 there.0 slots.0 becomes,
                  ),
                )
          ]
