-- ===== src/Record/Table/Create.antt =====
-- The page that a new record goes into: the first of the free list, or a new one.
use mathlib.Core.Path.{subst}
use myrmdb.Prelude.{
  ℕ, suc, ◌≡◌, ◌≢◌, refl, sym, ap, ◌∙◌, true, false, ◌⊎◌, inl, inr, List, ◌∷◌, Option, none, some,
  length, if_pos, if_neg,
}
use myrmdb.Prelude.Int.{ℤ, pos, ℤ-discrete}
use myrmdb.Errors.{Error, Result, ok, err, internal_error, ok_ne_err, err_inj}
use myrmdb.Record.Pages.{RmPage, View, Pages, rm_no_page, pin, put, update, update_self}
use myrmdb.Record.Table.{
  RmFileHandle, page_outside, fetch_page_handle, then_, create_page_handle, create_new_page_handle,
  made,
}
use myrmdb.Record.Table.Access.{
  store, view_of, Ends, Ends-then_, PoolFails, NoPage, Inside, fetch_page_handle-Ends,
}
use myrmdb.Record.Table.Held.{Held, pin-Held, Held-put, Held_some}
use myrmdb.Record.Table.Keeps.{IsOpen, first_inside}
use myrmdb.Record.Table.Open.{IsOpenFile}
use myrmdb.Record.Table.Records.{record_at}
use myrmdb.Record.Table.Grown.{
  Held-store, Ready, first-Ready, fresh, grown, grown-IsOpen, some_free, grown_records,
}

module _ (pages : Pages) where
  open pages use {State, view, fetch_page, new_page}

  -- No page of the file has a free slot.
  abbrev pub IsFull : RmFileHandle pages → Type 0
  IsFull t = t.file_hdr.first_free_page_no ≡ rm_no_page

  -- Why there is no page for a new record, and nothing is changed: the pool gives the null pointer
  -- for a new page, or fails to fetch the first page of the free list.
  abbrev pub NoRoom : RmFileHandle pages → Error → Type 0
  NoRoom t e =
      (IsFull t × ((new_page t.state).0 ≡ ok none))
      ⊎ ((¬ IsFull t) × PoolFails pages t.file_hdr.first_free_page_no t)

  -- The pool threw when it was to make a new page. The number that the page would have had is lost.
  abbrev pub Skips : {A : Type 0} → RmFileHandle pages → Result A × RmFileHandle pages → Type 0
  Skips t x =
      (e : Error) × (x.0 ≡ err e)
      × IsFull t
      × ((new_page t.state).0 ≡ err e)
      × (view_of pages x.1
          ≡ record (view_of pages t) { next_page = suc (view_of pages t).next_page })
      × (x.1.file_hdr ≡ t.file_hdr)

  -- A call after a call that threw so.
  pub Skips-then_ :
      {A B : Type 0} (t : RmFileHandle pages) (x : Result A × RmFileHandle pages)
      (k : A → RmFileHandle pages → Result B × RmFileHandle pages)
      → Skips t x
      → Skips t (then_ pages x k)
  unfolding then_
  Skips-then_ t (ok a, u) k (e, bad, full, why, same_view, same_hdr) = absurd (ok_ne_err bad)
  Skips-then_ t (err e', u) k (e, same, full, why, same_view, same_hdr) =
      (e, ap err (err_inj same), full, why, same_view, same_hdr)

  module _ (t : RmFileHandle pages) (ks : List ℕ) (h : IsOpenFile pages t ks)
      (room : length pages.blank.slots ≡ t.file_hdr.num_records_per_page) where
    abbrev v0 : View
    v0 = record (view_of pages t) { next_page = suc (view_of pages t).next_page }

    abbrev next : ℤ → View
    next i = pin i (put i pages.blank v0)

    made-Ready :
        (i : ℤ) (s : State)
        → i ≡ pos (view_of pages t).next_page
        → view s ≡ next i
        → Ready pages t i (made pages t (ok (some i), s)).1
    unfolding made
    made-Ready i s first same =
        let hdr = t.file_hdr in
        let num : i ≡ pos hdr.num_pages = first ∙ ap pos h.numbered in
        let p = (view s).page i in
        let blank_ : p ≡ pages.blank =
          ap (λ (w : View). w.page i) same ∙ update_self i pages.blank v0.page in
        let q = fresh pages hdr p in
        let ready = pin-Held i v0 h.calm in
        let twice = Held-put i v0 (next i) (Held-put i v0 (pin i v0) ready pages.blank) q in
        let some_ : (view s).pins i ≢ 0 =
          λ e. Held_some i v0 (pin i v0) ready (ap (λ (w : View). w.pins i) (sym same) ∙ e) in
        let w = pages.view-write_frame i q s some_ in
        record {
          settled = store i q v0;
          number = hdr.num_pages;
          others = ks;
          is_number = num;
          is_open =
              subst (λ j. IsOpen (grown pages hdr j) (store j q v0) (hdr.num_pages ∷ ks)) (sym num)
                (grown-IsOpen pages hdr (view_of pages t) ks p h
                  (ap (λ (x : RmPage). length x.slots) blank_ ∙ room));
          held =
              subst (Held i (store i q v0)) (sym (w ∙ ap (put i q) same))
                (Held-store i q v0 (put i q (next i)) twice);
          same_page =
              ap (λ (x : View). x.page i) w
              ∙ update_self i q (view s).page
              ∙ sym (update_self i q v0.page);
          same_size = refl;
          same_records = λ rid.
              subst
                (λ j.
                  record_at (grown pages hdr j) (update j q v0.page) rid
                  ≡ record_at hdr (view_of pages t).page rid)
                (sym num) (grown_records pages hdr (view_of pages t) p rid);
        }

    made-Ends :
        (r : Result (Option ℤ) × State)
        → ((i : ℤ)
            → r.0 ≡ ok (some i)
            → (i ≡ pos (view_of pages t).next_page) × (view r.1 ≡ next i))
        → (r.0 ≡ ok none → view r.1 ≡ view_of pages t)
        → ((e : Error) → r.0 ≡ err e → view r.1 ≡ v0)
        → Ends pages t (made pages t r) (λ _. r.0 ≡ ok none) (Ready pages t)
          ⊎ ((e : Error) × ((made pages t r).0 ≡ err e)
              × (r.0 ≡ err e)
              × (view_of pages (made pages t r).1 ≡ v0)
              × ((made pages t r).1.file_hdr ≡ t.file_hdr))
    unfolding made
    made-Ends (ok (some i), s) some_ null_ throws =
        let y = some_ i refl in inl (inr (i, refl, made-Ready i s y.0 y.1))
    made-Ends (ok none, s) some_ null_ throws =
        inl (inl (internal_error, refl, refl, (null_ refl, refl)))
    made-Ends (err e, s) some_ null_ throws = inr (e, refl, refl, throws e refl, refl)

    -- On an open file `create_page_handle` gives a page with a free slot, the first of the free
    -- list or a new one, unless the buffer pool fails.
    pub create_page_handle-Ends :
        Ends pages t (create_page_handle pages t) (NoRoom t) (Ready pages t)
        ⊎ Skips t (create_page_handle pages t)
    unfolding create_page_handle create_new_page_handle
    create_page_handle-Ends =
        let i = t.file_hdr.first_free_page_no in
        let End : Result ℤ × RmFileHandle pages → Type 0 =
          λ x. Ends pages t x (NoRoom t) (Ready pages t) ⊎ Skips t x in
        let new_ = made pages t (new_page t.state) in
        let old = then_ pages (fetch_page_handle pages i t) (λ _ u. (ok i, u)) in
        elim (ℤ-discrete i rm_no_page) [
          | yes e ↦
              subst End (sym (if_pos (ℤ-discrete i rm_no_page) e new_ old))
                (elim (made-Ends (new_page t.state) (λ j. pages.view-new_page j t.state)
                  (pages.view-new_page_null t.state) (λ x. pages.view-new_page_throws x t.state)) [
                    | inl (inl (x, same, why, left)) ↦ inl (inl (x, same, inl (e, why), left))
                    | inl (inr ready) ↦ inl (inr ready)
                    | inr (x, same, why, same_view, same_hdr) ↦
                        inr (x, same, e, why, same_view, same_hdr)
                  ])
          | no ne ↦
              let cons = some_free pages (view_of pages t).page i ks h.table.chain ne in
              let open_ = subst (IsOpenFile pages t) cons.2 h in
              let free = open_.table.free.0 in
              subst End (sym (if_neg (ℤ-discrete i rm_no_page) ne new_ old)) (
                inl (
                  Ends-then_ pages t (NoPage pages i t) (λ _ u. Inside pages i t u) (NoRoom t)
                    (Ready pages t) (fetch_page_handle pages i t) (λ _ u. (ok i, u))
                    (fetch_page_handle-Ends pages i t)
                    (λ x why. elim why [
                      | inl (_, out) ↦
                          let in_ : page_outside t.file_hdr i ≡ false =
                            subst (λ j. page_outside t.file_hdr j ≡ false) (sym open_.table.chain.0)
                              (first_inside t.file_hdr cons.0 free.0 free.1) in
                          let bad : true ≡ false = sym out ∙ in_ in cc
                      | inr fails ↦ inr (ne, fails)
                    ])
                    (λ _ u inside.
                      inr (i, refl, first-Ready pages t u cons.0 cons.1 open_ inside))))
        ]
