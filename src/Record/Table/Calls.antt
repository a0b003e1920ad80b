-- ===== src/Record/Table/Calls.antt =====
-- Each operation on a record that is named by its position, on every branch.
use myrmdb.Prelude.{
  ℕ, ◌≡◌, refl, sym, ap, ◌∙◌, Bool, true, false, ◌||◌, ◌⊎◌, inl, inr, List, take, if◌then◌else◌,
}
use myrmdb.Prelude.Int.{pos_part}
use myrmdb.Concurrency.Transaction.{Rid}
use myrmdb.Errors.{Error, Result, ok, err, record_not_found}
use myrmdb.Record.Bitmap.{is_set}
use myrmdb.Record.Pages.{RmFileHdr, RmPage, View, Pages, get_slot}
use myrmdb.Record.Table.{
  RmFileHandle, page_outside, slot_outside, outside, fetch_page_handle, then_, unpinned, page_of,
  fill_slot, delete_from, get_record, update_record, delete_record,
}
use myrmdb.Record.Table.Access.{
  IsCalm, store, view_of, Untouched, Ends, Ends-then_, Ends-guard, Ends_if, NoPage, Inside, Pinned,
  PoolFails, fetch_page_handle-Ends, unpinned-Untouched, written-store,
}

pub outside-false :
    (hdr : RmFileHdr) (rid : Rid)
    → outside hdr rid ≡ false
    → (page_outside hdr rid.page_no ≡ false) × (slot_outside hdr rid.slot_no ≡ false)
unfolding outside
outside-false hdr rid h = go (page_outside hdr rid.page_no) (slot_outside hdr rid.slot_no) h
  where
    go : (a b : Bool) → (a || b) ≡ false → (a ≡ false) × (b ≡ false)
    go true b e = cc
    go false b e = (refl, e)

pair_path :
    {h k : RmFileHdr} {p q : RmPage} → h ≡ k → p ≡ q → ◌≡◌ {A = RmFileHdr × RmPage} (h, p) (k, q)
pair_path {h} {k} {p} {q} a b =
    let with_hdr : RmFileHdr → RmFileHdr × RmPage = λ x. (x, p) in
    let with_page : RmPage → RmFileHdr × RmPage = λ x. (k, x) in ap with_hdr a ∙ ap with_page b

module _ (pages : Pages) where
  -- The record's bit, and its bytes.
  abbrev pub has : Rid → RmFileHandle pages → Bool
  has rid t = is_set (page_of pages rid.page_no t).bitmap (pos_part rid.slot_no)

  abbrev pub value : Rid → RmFileHandle pages → List ℕ
  value rid t =
      take t.file_hdr.record_size (get_slot (pos_part rid.slot_no) (page_of pages rid.page_no t))

  -- Why a call on a record throws: there is no such record, or the buffer pool fails.
  abbrev pub NoRecord : Rid → RmFileHandle pages → Error → Type 0
  NoRecord rid t e =
      ((e ≡ record_not_found) × ((outside t.file_hdr rid ≡ true) ⊎ (has rid t ≡ false)))
      ⊎ PoolFails pages rid.page_no t

  module _ (rid : Rid) (t : RmFileHandle pages) where
    -- The record is there.
    abbrev pub IsThere : Type 0
    IsThere = (outside t.file_hdr rid ≡ false) × (has rid t ≡ true)

    weaken :
        (e : Error)
        → outside t.file_hdr rid ≡ false
        → NoPage pages rid.page_no t e
        → NoRecord rid t e
    weaken e inside (inl (same, out)) =
        let bad : true ≡ false = sym out ∙ (outside-false t.file_hdr rid inside).0 in cc
    weaken e inside (inr fails) = inr fails

    -- What a fetch leaves to read.
    same_page :
        (u : RmFileHandle pages)
        → Pinned pages rid.page_no t u
        → page_of pages rid.page_no u ≡ page_of pages rid.page_no t
    same_page u p = ap (λ (v : View). v.page rid.page_no) p.0

    abbrev not_found : {A : Type 0} → RmFileHandle pages → Result A × RmFileHandle pages
    not_found u = (err record_not_found, unpinned pages rid.page_no false u)

    -- What the three operations share: they look for the record in its page, and go on as `good`.
    record_call :
        {A : Type 0} (P : A → RmFileHandle pages → Type 0)
        (good : RmFileHandle pages → Result A × RmFileHandle pages)
        → IsCalm (view_of pages t)
        → ((u : RmFileHandle pages)
            → Pinned pages rid.page_no t u
            → (a : A) × ((good u).0 ≡ ok a) × P a (good u).1)
        → Ends pages t
            (if outside t.file_hdr rid
              then (err record_not_found, t)
              else then_ pages
                  (fetch_page_handle pages rid.page_no t)
                  λ _ u. if has rid u then good u else not_found u)
            (NoRecord rid t)
            (λ a u. IsThere × P a u)
    record_call {A = A} P good calm f =
        let Q : A → RmFileHandle pages → Type 0 = λ a u. IsThere × P a u in
        Ends-guard pages t (NoRecord rid t) Q (outside t.file_hdr rid) record_not_found _
          (λ out. inl (refl, inl out))
          λ inside.
            Ends-then_ pages t (NoPage pages rid.page_no t) (λ _ u. Inside pages rid.page_no t u)
              (NoRecord rid t) Q (fetch_page_handle pages rid.page_no t) _
              (fetch_page_handle-Ends pages rid.page_no t) (λ e why. weaken e inside why)
              λ _ u h.
                let same : has rid u ≡ has rid t =
                  ap (λ (p : RmPage). is_set p.bitmap (pos_part rid.slot_no)) (same_page u h.1) in
                Ends_if pages t (NoRecord rid t) Q (has rid u) (good u) (not_found u)
                  (λ yes_. let g = f u h.1 in inr (g.0, g.1, ((inside, sym same ∙ yes_), g.2)))
                  (λ no_. inl (
                    record_not_found,
                    refl,
                    inl (refl, inr (sym same ∙ no_)),
                    unpinned-Untouched pages rid.page_no t u calm h.1,
                  ))

    -- `get_record` returns the record's bytes if the record is there and the buffer pool gives the
    -- page, else it throws; the pages are as before, their pins included.
    pub get_record-Ends :
        IsCalm (view_of pages t)
        → Ends pages t
            (get_record pages rid t)
            (NoRecord rid t)
            (λ r u. IsThere × ((r ≡ value rid t) × Untouched pages t u))
    unfolding get_record
    get_record-Ends calm =
        record_call (λ r u. (r ≡ value rid t) × Untouched pages t u) _ calm
          λ u p. (
            _,
            refl,
            (
              ap
                    (λ (h : RmFileHdr).
                      take h.record_size
                        (get_slot (pos_part rid.slot_no) (page_of pages rid.page_no u)))
                    p.1
                  ∙ ap
                      (λ (q : RmPage).
                        take t.file_hdr.record_size (get_slot (pos_part rid.slot_no) q))
                      (same_page u p),
              unpinned-Untouched pages rid.page_no t u calm p,
            ),
          )

    -- The pages and the file header after a call.
    abbrev pub Becomes : RmPage → RmFileHdr → RmFileHandle pages → Type 0
    Becomes q hdr u = (view_of pages u ≡ store rid.page_no q (view_of pages t)) × (u.file_hdr ≡ hdr)

    -- `update_record` replaces the record's bytes if the record is there and the buffer pool gives
    -- the page, else it throws and changes nothing; the pins are as before.
    pub update_record-Ends :
        (buf : List ℕ)
        → IsCalm (view_of pages t)
        → Ends pages t (update_record pages rid buf t) (NoRecord rid t) (λ _ u.
          IsThere
          × Becomes
              (fill_slot t.file_hdr (pos_part rid.slot_no) buf (page_of pages rid.page_no t))
              t.file_hdr
              u)
    unfolding update_record
    update_record-Ends buf calm =
        record_call
          (λ _ u.
            Becomes (fill_slot t.file_hdr (pos_part rid.slot_no) buf (page_of pages rid.page_no t))
              t.file_hdr u)
          _ calm
          λ u p. (
            tt,
            refl,
            (
              written-store pages rid.page_no _ t u (view_of pages t) calm p.0
                  ∙ ap
                      (λ (x : RmFileHdr × RmPage).
                        store rid.page_no (fill_slot x.0 (pos_part rid.slot_no) buf x.1)
                          (view_of pages t))
                      (pair_path p.1 (same_page u p)),
              p.1,
            ),
          )

    -- `delete_record` clears the record's bit and gives a page that was full back to the free list,
    -- if the record is there and the buffer pool gives the page, else it throws and changes nothing;
    -- the pins are as before.
    pub delete_record-Ends :
        IsCalm (view_of pages t)
        → Ends pages t (delete_record pages rid t) (NoRecord rid t) (λ _ u.
          let r =
            delete_from rid.page_no
              (pos_part rid.slot_no)
              (page_of pages rid.page_no t)
              t.file_hdr in
          IsThere × Becomes r.0 r.1 u)
    unfolding delete_record
    delete_record-Ends calm =
        let from : RmFileHdr × RmPage → RmPage × RmFileHdr =
          λ x. delete_from rid.page_no (pos_part rid.slot_no) x.1 x.0 in
        let r = from (t.file_hdr, page_of pages rid.page_no t) in
        record_call (λ _ u. Becomes r.0 r.1 u) _ calm
          λ u p.
            let same = ap from (pair_path p.1 (same_page u p)) in
            (
              tt,
              refl,
              (
                written-store pages rid.page_no _ t u (view_of pages t) calm p.0
                    ∙ ap (λ (x : RmPage × RmFileHdr). store rid.page_no x.0 (view_of pages t)) same,
                ap (λ (x : RmPage × RmFileHdr). x.1) same,
              ),
            )
