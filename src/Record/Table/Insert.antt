-- ===== src/Record/Table/Insert.antt =====
-- `insert_record` on an open file.
use mathlib.Core.Path.{subst}
use myrmdb.Prelude.{
  if_both, ℕ, ◌*◌, ◌≤◌, ◌<◌, ◌≡◌, refl, sym, ap, ◌∙◌, true, false, ltb, ◌==◌, if◌then◌else◌, inl,
  ◌⊎◌, inr, List, ◌∷◌, Option, none, some, take, arith, length,
}
use myrmdb.Prelude.Int.{ℤ, pos}
use myrmdb.Concurrency.Transaction.{Rid}
use myrmdb.Errors.{Result, ok, err, internal_error}
use myrmdb.Record.Bitmap.{is_set, first_bit}
use myrmdb.Record.Bitmap.Count.{first_bit_free}
use myrmdb.Record.Pages.{RmFileHdr, RmPage, View, Pages, update}
use myrmdb.Record.Table.{
  RmFileHandle, outside, slot_outside, page_of, then_, occupy, insert_into, create_page_handle,
  insert_record, unpinned, written,
}
use myrmdb.Record.Table.Access.{store, view_of, Ends, Ends-then_}
use myrmdb.Record.Table.Create.{NoRoom, Skips, Skips-then_, create_page_handle-Ends}
use myrmdb.Record.Table.Grown.{Ready}
use myrmdb.Record.Table.FreeList.{IsPage}
use myrmdb.Record.Table.Held.{Held, store-Held}
use myrmdb.Record.Table.Keeps.{IsOpen, first_inside, insert_into-IsTable}
use myrmdb.Record.Table.Lookup.{lookup}
use myrmdb.Record.Table.Open.{IsOpenFile}
use myrmdb.Record.Table.Records.{
  record_at, record_at-none, Sets, SetsSlot, SameRoom, store-Sets, occupy-SetsSlot,
}

-- What an insertion does to the page, and what it leaves of the header.
insert_into-SetsSlot :
    (s size : ℕ) (buf : List ℕ) (x : Option (List ℕ)) (p : RmPage) (hdr : RmFileHdr)
    → SetsSlot size s x p (occupy hdr s buf p)
    → SetsSlot size s x p (insert_into s buf p hdr).0
      × SameRoom (insert_into s buf p hdr).1 hdr
      × ((insert_into s buf p hdr).1.bitmap_size ≡ hdr.bitmap_size)
unfolding insert_into
insert_into-SetsSlot s size buf x p hdr h =
    let P : RmPage × RmFileHdr → Type 0 =
      λ r. SetsSlot size s x p r.0 × SameRoom r.1 hdr × (r.1.bitmap_size ≡ hdr.bitmap_size) in
    if_both P ((occupy hdr s buf p).num_records == hdr.num_records_per_page) _ _
      (h, (refl, refl, refl), refl) (h, (refl, refl, refl), refl)

slot_inside :
    (hdr : RmFileHdr) (s : ℕ) → s < hdr.num_records_per_page → slot_outside hdr (pos s) ≡ false
unfolding slot_outside
slot_inside hdr s l = ground (arith, l)

inside_ :
    (hdr : RmFileHdr) (k s : ℕ)
    → 1 ≤ k
    → k < hdr.num_pages
    → s < hdr.num_records_per_page
    → outside hdr (record { page_no = pos k; slot_no = pos s }) ≡ false
unfolding outside
inside_ hdr k s low high l = rw (first_inside hdr k low high, slot_inside hdr s l) refl

module _ (pages : Pages) (t : RmFileHandle pages) (buf : List ℕ) where
  open pages use {view}

  -- The record was put where there was none, and the file is open.
  abbrev pub Inserted : Rid → RmFileHandle pages → Type 0
  Inserted rid u =
      (lookup pages t rid ≡ none)
      × ((js : List ℕ) × IsOpenFile pages u js)
      × Sets rid (some (take t.file_hdr.record_size buf)) (lookup pages t) (lookup pages u)

  -- What `insert_record` does with its page.
  abbrev put_record : ℤ → RmPage → RmFileHandle pages → Result Rid × RmFileHandle pages
  put_record i p u =
      let hdr = u.file_hdr in
      let slot_no = first_bit false p.bitmap hdr.num_records_per_page in
      let r = insert_into slot_no buf p hdr in
      if ltb slot_no hdr.num_records_per_page
      then (
        ok (record { page_no = i; slot_no = pos slot_no }),
        unpinned pages i true (record (written pages i r.0 u) { file_hdr = r.1 }),
      )
      else (err internal_error, unpinned pages i false u)

  module _ (u : RmFileHandle pages) (v : View) (k : ℕ) (ks : List ℕ)
      (open_ : IsOpen u.file_hdr v (k ∷ ks))
      (size : u.file_hdr.record_size ≡ t.file_hdr.record_size)
      (records : (rid : Rid)
        → record_at u.file_hdr v.page rid ≡ record_at t.file_hdr (view_of pages t).page rid) where
    abbrev hdr : RmFileHdr
    hdr = u.file_hdr

    abbrev n : ℕ
    n = hdr.num_records_per_page

    abbrev p : RmPage
    p = v.page (pos k)

    abbrev s : ℕ
    s = first_bit false p.bitmap n

    abbrev result : RmPage × RmFileHdr
    result = insert_into s buf p hdr

    sound : IsPage n p
    sound = open_.table.shape k open_.table.free.0.0 open_.table.free.0.1

    free_slot : (s < n) × (is_set p.bitmap s ≡ false)
    free_slot = first_bit_free p.bitmap n (λ e. open_.table.free.0.2 (sound.counted ∙ e))

    after-Inserted :
        (w : RmFileHandle pages)
        → view_of pages w ≡ store (pos k) result.0 v
        → w.file_hdr ≡ result.1
        → Inserted (record { page_no = pos k; slot_no = pos s }) w
    unfolding lookup
    after-Inserted w same hdr_is =
        let rid : Rid = record { page_no = pos k; slot_no = pos s } in
        let low = open_.table.free.0.0 in
        let high = open_.table.free.0.1 in
        let inside = inside_ hdr k s low high free_slot.0 in
        let page =
          insert_into-SetsSlot s hdr.record_size buf (some (take hdr.record_size buf)) p hdr
            (occupy-SetsSlot hdr n s buf p sound free_slot.0) in
        let table =
          insert_into-IsTable hdr v.page (k ∷ ks) open_.table k s low high free_slot.0 buf ks refl
            free_slot.1 in
        let sets =
          store-Sets hdr result.1 v.page result.0 rid (some (take hdr.record_size buf)) page.1
            inside page.0 in
        let sized : n ≤ hdr.bitmap_size * 8 = open_.sized in
        let count_ : result.1.num_records_per_page ≡ n = page.1.1 in
        let bytes_ : result.1.bitmap_size ≡ hdr.bitmap_size = page.2 in
        let open_after : IsOpen result.1 (store (pos k) result.0 v) table.0 = record {
          table = table.1;
          numbered = open_.numbered ∙ sym page.1.0;
          calm = open_.calm;
          sized = omega (arith, sized, count_, bytes_);
        } in
        let looked : lookup pages w ≡ record_at result.1 (update (pos k) result.0 v.page) =
          ap (λ h. record_at h (view_of pages w).page) hdr_is
          ∙ ap (λ (x : View). record_at result.1 x.page) same in
        (
          sym (records rid) ∙ record_at-none hdr v.page rid (inr free_slot.1),
          (
            table.0,
            subst (λ h. IsOpen h (view_of pages w) table.0) (sym hdr_is)
                (subst (λ x. IsOpen result.1 x table.0) (sym same) open_after),
          ),
          (
            ap (λ f. f rid) looked ∙ sets.0 ∙ ap (λ m. some (take m buf)) size,
            λ r ne. ap (λ f. f r) looked ∙ sets.1 r ne ∙ records r,
          ),
        )

    put_record-Ends :
        Held (pos k) v (view_of pages u) → Ends pages t (put_record (pos k) p u) (λ _. ⊥) Inserted
    put_record-Ends held =
        let w : RmFileHandle pages =
          unpinned pages (pos k) true
            (record (written pages (pos k) result.0 u) { file_hdr = result.1 }) in
        let rid : Rid = record { page_no = pos k; slot_no = pos s } in
        let there : ltb s n ≡ true = let l = free_slot.0 in ground (arith, l) in
        let End : Result Rid × RmFileHandle pages → Type 0 =
          λ x. Ends pages t x (λ _. ⊥) Inserted in
        let done : End (ok rid, w) =
          inr
            (rid, refl, after-Inserted w (store-Held pages (pos k) result.0 u.state v held) refl) in
        subst
          (λ b.
            End (if b then (ok rid, w) else (err internal_error, unpinned pages (pos k) false u)))
          (sym there) done

  -- With a page to insert into.
  created-Inserted :
      (x : Result ℤ × RmFileHandle pages)
      → Ends pages t x (NoRoom pages t) (Ready pages t)
      → Ends pages t
          (then_ pages x (λ i u. put_record i (page_of pages i u) u))
          (NoRoom pages t)
          Inserted
  created-Inserted x ends =
      Ends-then_ pages t (NoRoom pages t) (Ready pages t) (NoRoom pages t) Inserted x
        (λ i u. put_record i (page_of pages i u) u) ends (λ e why. why)
        λ i u ready.
          let Q : ℤ → RmPage → Type 0 =
            λ j p. Ends pages t (put_record j p u) (NoRoom pages t) Inserted in
          let held =
            subst (λ j. Held j ready.settled (view_of pages u)) ready.is_number ready.held in
          let same = ready.same_page ∙ ap ready.settled.page ready.is_number in
          let end =
            put_record-Ends u ready.settled ready.number ready.others ready.is_open ready.same_size
              ready.same_records held in
          let here : Q (pos ready.number) (ready.settled.page (pos ready.number)) = elim end [
            | inl (e, _, impossible, _) ↦ absurd impossible
            | inr done ↦ inr done
          ] in
          subst (λ j. Q j (page_of pages i u)) (sym ready.is_number)
            (subst (Q (pos ready.number)) (sym same) here)

  -- On an open file whose new pages come with the file's number of slots, `insert_record` ends in one
  -- of three ways. It puts `record_size` bytes of `buf` at a position that had no record, leaves every
  -- other record, and leaves an open file. It throws and changes nothing, because there is no free
  -- page and the buffer pool gives the null pointer for a new one, or because the buffer pool fails
  -- to fetch the free page. Or there is no free page and the buffer pool throws for a new one, with
  -- the same error, and nothing changes but the number that the next new page gets, which is one
  -- higher. It never fails to find a free slot.
  pub insert_record-Inserted :
      (ks : List ℕ)
      → IsOpenFile pages t ks
      → length pages.blank.slots ≡ t.file_hdr.num_records_per_page
      → Ends pages t (insert_record pages buf t) (NoRoom pages t) Inserted
        ⊎ Skips pages t (insert_record pages buf t)
  unfolding insert_record
  insert_record-Inserted ks h room = elim (create_page_handle-Ends pages t ks h room) [
    | inl ends ↦ inl (created-Inserted (create_page_handle pages t) ends)
    | inr skips ↦ inr (
        Skips-then_ pages t (create_page_handle pages t) (λ i u. put_record i (page_of pages i u) u)
          skips)
  ]
