-- ===== src/Record/Table.antt =====
-- `RmFileHandle` of src/record/rm_file_handle.h and rm_file_handle.cpp, over the pages of its file.
-- A `RmPageHandle` is the number of its page; what is read through it is read from the view. The
-- context of a call is not used by the code.
pub mod Access
pub mod Calls
pub mod FreeList
pub mod Keeps
pub mod Open
pub mod Held
pub mod Append
pub mod Insert
pub mod Lookup
pub mod Grown
pub mod Create
pub mod Records
use myrmdb.Prelude.{
  ℕ, zero, suc, ◌+◌, ◌-◌, Bool, true, false, not, ◌||◌, ◌&&◌, List, Option, none, some, take, set,
  ltb, ◌==◌, if◌then◌else◌, ite, ℕ_discrete,
}
use myrmdb.Prelude.Int.{ℤ, pos, negsuc, ℤ-discrete, pos_part, ltb_ℤ}
use myrmdb.Concurrency.Transaction.{Rid}
use myrmdb.Errors.{Result, ok, err, internal_error, record_not_found, page_not_exist}
use myrmdb.Record.Bitmap.{init, set_bit, reset, is_set, first_bit}
use myrmdb.Record.Pages.{RmFileHdr, RmPage, View, Pages, get_slot, rm_no_page, rm_first_record_page}

-- The tests of a record's position.
unfoldable pub page_outside : RmFileHdr → ℤ → Bool
page_outside hdr page_no =
    ltb_ℤ page_no rm_first_record_page || not (ltb_ℤ page_no (pos hdr.num_pages))

unfoldable pub slot_outside : RmFileHdr → ℤ → Bool
slot_outside hdr slot_no =
    ltb_ℤ slot_no (pos 0) || not (ltb_ℤ slot_no (pos hdr.num_records_per_page))

unfoldable pub outside : RmFileHdr → Rid → Bool
unfolding page_outside slot_outside
outside hdr rid = page_outside hdr rid.page_no || slot_outside hdr rid.slot_no

-- The slot that `memcpy(get_slot(slot_no), buf, record_size)` fills.
unfoldable pub fill_slot : RmFileHdr → ℕ → List ℕ → RmPage → RmPage
fill_slot hdr slot_no buf p = record p { slots = set p.slots slot_no (take hdr.record_size buf) }

-- The page after a record has been put into a free slot, before the free list is looked at.
unfoldable pub occupy : RmFileHdr → ℕ → List ℕ → RmPage → RmPage
unfolding fill_slot
occupy hdr slot_no buf p = record (fill_slot hdr slot_no buf p) {
  bitmap = set_bit p.bitmap slot_no;
  num_records = p.num_records + 1;
}

unfoldable pub vacate : ℕ → RmPage → RmPage
vacate slot_no p = record p { bitmap = reset p.bitmap slot_no; num_records = p.num_records - 1 }

-- `release_page_handle`: the page goes to the head of the free list.
unfoldable pub release_page_handle : ℤ → RmPage → RmFileHdr → RmPage × RmFileHdr
release_page_handle i p hdr =
    ite (ℤ-discrete hdr.first_free_page_no i) (p, hdr)
      (
        record p { next_free_page_no = hdr.first_free_page_no },
        record hdr { first_free_page_no = i },
      )

-- The page and the file header after a record has been deleted.
unfoldable pub delete_from : ℤ → ℕ → RmPage → RmFileHdr → RmPage × RmFileHdr
delete_from i slot_no p hdr =
    if p.num_records == hdr.num_records_per_page
    then release_page_handle i (vacate slot_no p) hdr
    else (vacate slot_no p, hdr)

-- The page and the file header after a record has been put into a page of the free list.
unfoldable pub insert_into : ℕ → List ℕ → RmPage → RmFileHdr → RmPage × RmFileHdr
insert_into slot_no buf p hdr =
    let q = occupy hdr slot_no buf p in
    if q.num_records == hdr.num_records_per_page
    then (
      record q { next_free_page_no = rm_no_page },
      record hdr { first_free_page_no = q.next_free_page_no },
    )
    else (q, hdr)

-- The page and the file header after a record has been put at a given position.
unfoldable pub insert_at : ℤ → ℕ → List ℕ → RmPage → RmFileHdr → RmPage × RmFileHdr
insert_at i slot_no buf p hdr =
    let q = occupy hdr slot_no buf p in
    if q.num_records == hdr.num_records_per_page
    then (
      record q { next_free_page_no = rm_no_page },
      ite (ℤ-discrete hdr.first_free_page_no i)
          (record hdr { first_free_page_no = q.next_free_page_no }) hdr,
    )
    else (q, hdr)

-- The pages that are missing for a page number.
abbrev pub missing : ℤ → RmFileHdr → ℕ
missing page_no hdr = (pos_part page_no + 1) - hdr.num_pages

module _ (pages : Pages) where
  open pages use {State, view, fetch_page, unpin_page, new_page, write_frame}

  pub record RmFileHandle : Type 0 where
    pub file_hdr : RmFileHdr
    pub state : State

  abbrev pub Exec : Type 0 → Type 0
  Exec A = RmFileHandle → Result A × RmFileHandle

  -- The bytes of a page.
  abbrev pub page_of : ℤ → RmFileHandle → RmPage
  page_of i t = (view t.state).page i

  abbrev pub unpinned : ℤ → Bool → RmFileHandle → RmFileHandle
  unpinned i is_dirty t = record t { state = unpin_page i is_dirty t.state }

  abbrev pub written : ℤ → RmPage → RmFileHandle → RmFileHandle
  written i p t = record t { state = write_frame i p t.state }

  unfoldable pub fetched : RmFileHandle → Result Bool × State → Result (Unit {0}) × RmFileHandle
  fetched t (ok true, s) = (ok tt, record t { state = s })
  fetched t (ok false, s) = (err internal_error, record t { state = s })
  fetched t (err e, s) = (err e, record t { state = s })

  unfoldable pub fetch_page_handle : ℤ → Exec (Unit {0})
  unfolding fetched
  fetch_page_handle page_no t =
      if page_outside t.file_hdr page_no
      then (err page_not_exist, t)
      else fetched t (fetch_page page_no t.state)

  -- What follows a call that returns.
  unfoldable pub then_ {ℓ} :
      {A : Type ℓ} {B : Type 0}
      → Result A × RmFileHandle
      → (A → RmFileHandle → Result B × RmFileHandle)
      → Result B × RmFileHandle
  then_ (ok a, t) k = k a t
  then_ (err e, t) k = (err e, t)

  unfoldable pub made : RmFileHandle → Result (Option ℤ) × State → Result ℤ × RmFileHandle
  made t (ok (some i), s) =
      let p = (view s).page i in
      let hdr = t.file_hdr in
      let q : RmPage = record p {
        next_free_page_no = hdr.first_free_page_no;
        num_records = 0;
        bitmap = init hdr.bitmap_size;
      } in
      (
        ok i,
        record {
          file_hdr = record hdr { num_pages = suc hdr.num_pages; first_free_page_no = i };
          state = write_frame i q s;
        },
      )
  made t (ok none, s) = (err internal_error, record t { state = s })
  made t (err e, s) = (err e, record t { state = s })

  -- The result is the number of the page.
  unfoldable pub create_new_page_handle : Exec ℤ
  unfolding made
  create_new_page_handle t = made t (new_page t.state)

  unfoldable pub create_page_handle : Exec ℤ
  create_page_handle t =
      let i = t.file_hdr.first_free_page_no in
      ite (ℤ-discrete i rm_no_page) (create_new_page_handle t)
        (then_ (fetch_page_handle i t) (λ _ t. (ok i, t)))

  unfoldable pub is_record : Rid → Exec Bool
  is_record rid t = then_ (fetch_page_handle rid.page_no t) λ _ t. (
    ok (is_set (page_of rid.page_no t).bitmap (pos_part rid.slot_no)),
    unpinned rid.page_no false t,
  )

  unfoldable pub get_record : Rid → Exec (List ℕ)
  get_record rid t =
      if outside t.file_hdr rid
      then (err record_not_found, t)
      else then_ (fetch_page_handle rid.page_no t) λ _ t.
        let p = page_of rid.page_no t in
        let slot_no = pos_part rid.slot_no in
        if is_set p.bitmap slot_no
        then (ok (take t.file_hdr.record_size (get_slot slot_no p)), unpinned rid.page_no false t)
        else (err record_not_found, unpinned rid.page_no false t)

  unfoldable pub update_record : Rid → List ℕ → Exec (Unit {0})
  update_record rid buf t =
      if outside t.file_hdr rid
      then (err record_not_found, t)
      else then_ (fetch_page_handle rid.page_no t) λ _ t.
        let p = page_of rid.page_no t in
        let slot_no = pos_part rid.slot_no in
        if is_set p.bitmap slot_no
        then (
          ok tt,
          unpinned rid.page_no true (written rid.page_no (fill_slot t.file_hdr slot_no buf p) t),
        )
        else (err record_not_found, unpinned rid.page_no false t)

  unfoldable pub delete_record : Rid → Exec (Unit {0})
  delete_record rid t =
      if outside t.file_hdr rid
      then (err record_not_found, t)
      else then_ (fetch_page_handle rid.page_no t) λ _ t.
        let p = page_of rid.page_no t in
        let slot_no = pos_part rid.slot_no in
        let r = delete_from rid.page_no slot_no p t.file_hdr in
        if is_set p.bitmap slot_no
        then (
          ok tt,
          unpinned rid.page_no true (record (written rid.page_no r.0 t) { file_hdr = r.1 }),
        )
        else (err record_not_found, unpinned rid.page_no false t)

  unfoldable pub insert_record : List ℕ → Exec Rid
  insert_record buf t = then_ (create_page_handle t) λ i t.
      let p = page_of i t in
      let hdr = t.file_hdr in
      let slot_no = first_bit false p.bitmap hdr.num_records_per_page in
      let r = insert_into slot_no buf p hdr in
      if ltb slot_no hdr.num_records_per_page
      then (
        ok (record { page_no = i; slot_no = pos slot_no }),
        unpinned i true (record (written i r.0 t) { file_hdr = r.1 }),
      )
      else (err internal_error, unpinned i false t)

  -- The loop of `insert_record(rid, buf)` that appends pages, with so many rounds left.
  unfoldable pub append_pages : ℕ → Exec (Unit {0})
  append_pages zero t = (ok tt, t)
  append_pages (suc rounds) t =
      then_ (create_new_page_handle t) λ i t. append_pages rounds (unpinned i true t)

  -- `insert_record(rid, buf)`
  unfoldable pub insert_record_at : Rid → List ℕ → Exec (Unit {0})
  insert_record_at rid buf t =
      if ltb_ℤ rid.page_no rm_first_record_page || slot_outside t.file_hdr rid.slot_no
      then (err record_not_found, t)
      else then_ (append_pages (missing rid.page_no t.file_hdr) t) λ _ t.
        then_ (fetch_page_handle rid.page_no t) λ _ t.
          let p = page_of rid.page_no t in
          let slot_no = pos_part rid.slot_no in
          let r = insert_at rid.page_no slot_no buf p t.file_hdr in
          if is_set p.bitmap slot_no then (err internal_error, unpinned rid.page_no false t) else (
            ok tt,
            unpinned rid.page_no true (record (written rid.page_no r.0 t) { file_hdr = r.1 }),
          )
