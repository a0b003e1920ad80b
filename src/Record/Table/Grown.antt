-- ===== src/Record/Table/Grown.antt =====
-- A page with a free slot: the first of the free list, or one that the file grows by.
use mathlib.Core.Path.{subst}
use myrmdb.Prelude.{
  ℕ, suc, ◌*◌, ◌≤◌, ◌≡◌, ◌≢◌, refl, sym, ap, ◌∙◌, true, false, ltb, inl, inr, List, [], ◌∷◌, arith,
  length, length-replicate, All, All-both,
}
use myrmdb.Prelude.Int.{ℤ, pos, negsuc, pos_part, ℤ-discrete}
use myrmdb.Concurrency.Transaction.{Rid}
use myrmdb.Record.Bitmap.{init, is_set}
use myrmdb.Record.Bitmap.Bits.{init-IsBytes, is_set-init}
use myrmdb.Record.Bitmap.Count.{count-init}
use myrmdb.Record.Pages.{
  RmFileHdr, RmPage, View, Pages, rm_no_page, update, update_self, update_ne, update-update,
}
use myrmdb.Record.Table.{RmFileHandle, page_of, page_outside, slot_outside, outside}
use myrmdb.Record.Table.Access.{store, view_of, Inside}
use myrmdb.Record.Table.FreeList.{IsPage, IsFree, Chain, IsTable-push}
use myrmdb.Record.Table.Held.{Held, pin-Held}
use myrmdb.Record.Table.Keeps.{IsOpen}
use myrmdb.Record.Table.Open.{IsOpenFile}
use myrmdb.Record.Table.Records.{record_at, record_at-none}

-- A page that will be stored may just as well be stored already.
pub Held-store : (i : ℤ) (q : RmPage) (v w : View) → Held i v w → Held i (store i q v) w
Held-store i q v w h = record {
  pinned = h.pinned;
  settled = h.settled;
  rest = λ r. h.rest r ∙ sym (update-update i q r v.page);
  numbered = h.numbered;
}

module _ (pages : Pages) where
  open pages use {State, view, fetch_page, new_page}

  -- The page `i` is pinned and has a free slot; with it stored the file `u` is an open one, with the
  -- records of `t`.
  pub record Ready (t : RmFileHandle pages) (i : ℤ) (u : RmFileHandle pages) : Type 0 where
    pub settled : View
    pub number : ℕ
    pub others : List ℕ
    pub is_number : i ≡ pos number
    pub is_open : IsOpen u.file_hdr settled (number ∷ others)
    pub held : Held i settled (view_of pages u)
    pub same_page : page_of pages i u ≡ settled.page i
    pub same_size : u.file_hdr.record_size ≡ t.file_hdr.record_size
    pub same_records :
        (rid : Rid)
        → record_at u.file_hdr settled.page rid ≡ record_at t.file_hdr (view_of pages t).page rid

  -- The first page of the free list is fetched.
  pub first-Ready :
      (t u : RmFileHandle pages) (k : ℕ) (ks : List ℕ)
      → IsOpenFile pages t (k ∷ ks)
      → Inside pages t.file_hdr.first_free_page_no t u
      → Ready t t.file_hdr.first_free_page_no u
  first-Ready t u k ks h (inside, (same, hdr)) =
      let i = t.file_hdr.first_free_page_no in
      let v = view_of pages t in
      record {
        settled = v;
        number = k;
        others = ks;
        is_number = h.table.chain.0;
        is_open = subst (λ x. IsOpen x v (k ∷ ks)) (sym hdr) h;
        held = subst (Held i v) (sym same) (pin-Held i v h.calm);
        same_page = ap (λ (w : View). w.page i) same;
        same_size = ap (λ (x : RmFileHdr). x.record_size) hdr;
        same_records = λ rid. ap (λ x. record_at x v.page rid) hdr;
      }

  -- The bytes and the header that a new page gets.
  abbrev pub fresh : RmFileHdr → RmPage → RmPage
  fresh hdr p = record p {
    next_free_page_no = hdr.first_free_page_no;
    num_records = 0;
    bitmap = init hdr.bitmap_size;
  }

  abbrev pub grown : RmFileHdr → ℤ → RmFileHdr
  grown hdr i = record hdr { num_pages = suc hdr.num_pages; first_free_page_no = i }

  fresh-IsPage :
      (hdr : RmFileHdr) (p : RmPage)
      → hdr.num_records_per_page ≤ hdr.bitmap_size * 8
      → length p.slots ≡ hdr.num_records_per_page
      → IsPage hdr.num_records_per_page (fresh hdr p)
  unfolding init
  fresh-IsPage hdr p sized room =
      let len = length-replicate hdr.bitmap_size 0 in
      record {
        bytes = init-IsBytes hdr.bitmap_size;
        bits = subst (λ m. hdr.num_records_per_page ≤ m * 8) (sym len) sized;
        room = room;
        counted = sym (count-init hdr.bitmap_size hdr.num_records_per_page);
      }

  below-apart :
      (num n : ℕ) (page : ℤ → RmPage) (ks : List ℕ)
      → All (IsFree num n page) ks
      → All (λ j. j ≢ num) ks
  below-apart num n page ks free =
      All-both (IsFree num n page) (λ j. j ≢ num) (λ j h e. let l = h.1 in omega (arith, l, e)) ks
        free

  -- A file with a new page.
  pub grown-IsOpen :
      (hdr : RmFileHdr) (v : View) (ks : List ℕ) (p : RmPage)
      → IsOpen hdr v ks
      → length p.slots ≡ hdr.num_records_per_page
      → IsOpen
          (grown hdr (pos hdr.num_pages))
          (store (pos hdr.num_pages) (fresh hdr p) (record v { next_page = suc v.next_page }))
          (hdr.num_pages ∷ ks)
  grown-IsOpen hdr v ks p h room =
      let some_ = h.table.some_slot in
      let one = h.table.has_header in
      record {
        table =
            IsTable-push hdr v.page ks h.table hdr.num_pages (fresh hdr p)
              (fresh-IsPage hdr p h.sized room) (suc hdr.num_pages) (omega arith)
              (omega (arith, one)) (omega arith) (λ j l ne. omega (arith, l, ne))
              (below-apart hdr.num_pages hdr.num_records_per_page v.page ks h.table.free) refl
              (λ e. omega (arith, e, some_));
        numbered = ap suc h.numbered;
        calm = h.calm;
        sized = h.sized;
      }

  after_last : (hdr : RmFileHdr) → page_outside hdr (pos hdr.num_pages) ≡ true
  unfolding page_outside
  after_last hdr = ground arith

  grown_page :
      (hdr : RmFileHdr) (i : ℤ)
      → pos hdr.num_pages ≢ i
      → page_outside (grown hdr (pos hdr.num_pages)) i ≡ page_outside hdr i
  unfolding page_outside
  grown_page hdr (pos k) ne =
      let apart : k ≢ hdr.num_pages = λ e. ne (ap pos (sym e)) in
      let same : ltb k (suc hdr.num_pages) ≡ ltb k hdr.num_pages = ground (arith, apart) in
      ground (arith, same)
  grown_page hdr (negsuc k) ne = ground arith

  outside-grown :
      (hdr : RmFileHdr) (rid : Rid)
      → pos hdr.num_pages ≢ rid.page_no
      → outside (grown hdr (pos hdr.num_pages)) rid ≡ outside hdr rid
  unfolding outside slot_outside
  outside-grown hdr rid ne = rw (grown_page hdr rid.page_no ne) refl

  pub some_free :
      (page : ℤ → RmPage) (i : ℤ) (ks : List ℕ)
      → Chain page i ks
      → i ≢ rm_no_page
      → (k : ℕ) × (rest : List ℕ) × (ks ≡ k ∷ rest)
  some_free page i [] c ne = absurd (ne c)
  some_free page i (k ∷ ks) c ne = (k, ks, refl)

  -- A new page has no records.
  pub grown_records :
      (hdr : RmFileHdr) (v : View) (p : RmPage) (rid : Rid)
      → record_at
          (grown hdr (pos hdr.num_pages))
          (update (pos hdr.num_pages) (fresh hdr p) v.page)
          rid
        ≡ record_at hdr v.page rid
  unfolding record_at outside
  grown_records hdr v p rid = elim (ℤ-discrete (pos hdr.num_pages) rid.page_no) [
    | yes e ↦
        let off : is_set (update (pos hdr.num_pages) (fresh hdr p) v.page rid.page_no).bitmap
              (pos_part rid.slot_no)
            ≡ false =
          subst
            (λ j.
              is_set (update (pos hdr.num_pages) (fresh hdr p) v.page j).bitmap
                (pos_part rid.slot_no)
              ≡ false)
            e
            (rw (update_self (pos hdr.num_pages) (fresh hdr p) v.page)
              (is_set-init hdr.bitmap_size (pos_part rid.slot_no))) in
        let out : page_outside hdr rid.page_no ≡ true =
          subst (λ j. page_outside hdr j ≡ true) e (after_last hdr) in
        record_at-none (grown hdr (pos hdr.num_pages))
          (update (pos hdr.num_pages) (fresh hdr p) v.page) rid (inr off)
        ∙ sym (record_at-none hdr v.page rid (inl (rw out refl)))
    | no ne ↦
        rw
          (
            outside-grown hdr rid ne,
            update_ne (pos hdr.num_pages) rid.page_no (fresh hdr p) v.page ne,
          )
          refl
  ]
