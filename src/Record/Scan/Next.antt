-- ===== src/Record/Scan/Next.antt =====
-- `next` goes to the next record, and ends.
use mathlib.Core.Path.{subst}
use myrmdb.Prelude.{
  ℕ, zero, suc, ◌+◌, ◌-◌, ◌≤◌, ◌<◌, ◌≡◌, refl, sym, ap, ◌∙◌, Bool, true, false, ltb, inl, inr,
  arith,
}
use myrmdb.Prelude.Int.{ℤ, pos, negsuc}
use myrmdb.Concurrency.Transaction.{Rid}
use myrmdb.Errors.{Error, Result, ok}
use myrmdb.Record.Bitmap.{next_bit, after}
use myrmdb.Record.Bitmap.Scan.{IsNext, next_bit-IsNext}
use myrmdb.Record.Pages.{RmFileHdr, View, Pages}
use myrmdb.Record.Scan.{end_rid, pages_left, next_in, next}
use myrmdb.Record.Table.{RmFileHandle, page_of, unpinned, fetch_page_handle}
use myrmdb.Record.Table.Access.{
  IsCalm, view_of, Untouched, Ends, Ends-then_, PoolFails, NoPage, Inside, fetch_page_handle-Ends,
  unpinned-Untouched,
}
use myrmdb.Record.Table.Keeps.{first_inside}
use myrmdb.Record.Table.Lookup.{lookup}
use myrmdb.Record.Table.Records.{record_at, record_at-none}
use myrmdb.Record.Scan.First.{at, IsFirst, page_beyond, hit, miss}

module _ (pages : Pages) where
  -- The buffer pool fails to fetch a page of the file, the page `k` or one after it, in a state that
  -- shows the same pages.
  abbrev pub Fails : ℕ → RmFileHandle pages → Error → Type 0
  Fails k t e =
      (i : ℕ) × (u : RmFileHandle pages) × Untouched pages t u
      × (k ≤ i)
      × (i < t.file_hdr.num_pages)
      × PoolFails pages (pos i) u

  abbrev pub Arrives : ℕ → ℕ → RmFileHandle pages → Rid → RmFileHandle pages → Type 0
  Arrives k d t r u = Untouched pages t u × IsFirst (lookup pages t) t.file_hdr k d r

  Untouched-trans :
      (t w u : RmFileHandle pages) → Untouched pages t w → Untouched pages w u → Untouched pages t u
  Untouched-trans t w u a b = (b.0 ∙ a.0, b.1 ∙ a.1)

  lookup-Untouched :
      (t w : RmFileHandle pages) → Untouched pages t w → lookup pages w ≡ lookup pages t
  unfolding lookup
  lookup-Untouched t w (same, hdr) =
      ap (λ h. record_at h (view_of pages w).page) hdr
      ∙ ap (λ (v : View). record_at t.file_hdr v.page) same

  -- A scan of a file that looks like `t` is a scan of `t`.
  Ends-Untouched :
      (k d : ℕ) (t w : RmFileHandle pages) (x : Result Rid × RmFileHandle pages)
      → Untouched pages t w
      → Ends pages w x (Fails k w) (Arrives k d w)
      → Ends pages t x (Fails k t) (Arrives k d t)
  Ends-Untouched k d t w x same (inl (e, is_err, (i, u, left, from, in_, fails), after_)) = inl (
    e,
    is_err,
    (
      i,
      u,
      Untouched-trans t w u same left,
      from,
      (let pages_ = ap (λ (h : RmFileHdr). h.num_pages) same.1 in omega (arith, in_, pages_)),
      fails,
    ),
    Untouched-trans t w x.1 same after_,
  )
  Ends-Untouched k d t w x same (inr (r, is_ok, (left, first))) = inr (
    r,
    is_ok,
    (
      Untouched-trans t w x.1 same left,
      subst (λ f. IsFirst f t.file_hdr k d r) (lookup-Untouched t w same)
          (subst (λ h. IsFirst (lookup pages w) h k d r) same.1 first),
    ),
  )

  -- One round, given what the rounds after it do.
  module _ (k d : ℕ) (slot_no : ℤ) (t u : RmFileHandle pages) (calm : IsCalm (view_of pages t))
      (low : 1 ≤ k) (high : k < t.file_hdr.num_pages) (start : after slot_no ≡ d)
      (most : d ≤ t.file_hdr.num_records_per_page) (inside : Inside pages (pos k) t u)
      (rest : RmFileHandle pages → Result Rid × RmFileHandle pages)
      (later : (w : RmFileHandle pages)
        → Untouched pages t w
        → Ends pages w (rest w) (Fails (k + 1) w) (Arrives (k + 1) 0 w)) where
    abbrev found : ℕ
    found = next_bit true (page_of pages (pos k) u).bitmap u.file_hdr.num_records_per_page slot_no

    abbrev left_page : RmFileHandle pages
    left_page = unpinned pages (pos k) false u

    left : Untouched pages t left_page
    left = unpinned-Untouched pages (pos k) t u calm inside.1

    same_room : u.file_hdr.num_records_per_page ≡ t.file_hdr.num_records_per_page
    same_room = ap (λ (h : RmFileHdr). h.num_records_per_page) inside.1.1

    search : IsNext true (page_of pages (pos k) t).bitmap t.file_hdr.num_records_per_page d found
    search =
        subst (λ bm. IsNext true bm t.file_hdr.num_records_per_page d found)
          (ap (λ (v : View). (v.page (pos k)).bitmap) inside.1.0)
          (subst (λ n. IsNext true (page_of pages (pos k) u).bitmap n d found) same_room
            (subst
              (λ m.
                IsNext true (page_of pages (pos k) u).bitmap u.file_hdr.num_records_per_page m
                  found)
              start
              (next_bit-IsNext true (page_of pages (pos k) u).bitmap u.file_hdr.num_records_per_page
                slot_no (omega (arith, start, most, same_room)))))

    round-Arrives :
        (b : Bool)
        → ltb found u.file_hdr.num_records_per_page ≡ b
        → Ends pages t
            (elim b [ true ↦ (ok (at k found), left_page) | false ↦ rest left_page ])
            (Fails k t)
            (Arrives k d t)
    unfolding lookup
    round-Arrives true is_hit = inr (
      at k found,
      refl,
      (
        left,
        hit t.file_hdr (view_of pages t).page k d found low high search
            (ground (arith, is_hit, same_room)),
      ),
    )
    round-Arrives false is_miss =
        let n = t.file_hdr.num_records_per_page in
        let full : n ≤ found = ground (arith, is_miss, same_room) in
        elim (Ends-Untouched (k + 1) 0 t left_page (rest left_page) left (later left_page left)) [
          | inl (e, is_err, (i, w, same, from, in_, fails), after_) ↦
              inl (e, is_err, (i, w, same, omega (arith, from), in_, fails), after_)
          | inr (r, is_ok, (same, first)) ↦ inr (
            r,
            is_ok,
            (same, miss t.file_hdr (view_of pages t).page k d found low high search full r first),
          )
        ]

  next_in-Arrives :
      (rounds k d : ℕ) (slot_no : ℤ) (t : RmFileHandle pages)
      → IsCalm (view_of pages t)
      → 1 ≤ k
      → rounds ≡ t.file_hdr.num_pages - k
      → after slot_no ≡ d
      → d ≤ t.file_hdr.num_records_per_page
      → Ends pages t (next_in pages rounds (pos k) slot_no t) (Fails k t) (Arrives k d t)
  unfolding next_in lookup
  next_in-Arrives zero k d slot_no t calm low left start most = inr (
    end_rid t.file_hdr,
    refl,
    (
      (refl, refl),
      inr (
        refl,
        λ a b from. record_at-none t.file_hdr (view_of pages t).page (at a b) (
            inl (
              page_beyond t.file_hdr a b (elim from [
                | inl past ↦ omega (arith, past, left)
                | inr (here, _) ↦ omega (arith, here, left)
              ]))),
      ),
    ),
  )
  next_in-Arrives (suc rounds) k d slot_no t calm low left start most =
      Ends-then_ pages t (NoPage pages (pos k) t) (λ _ u. Inside pages (pos k) t u) (Fails k t)
        (Arrives k d t) (fetch_page_handle pages (pos k) t) _
        (fetch_page_handle-Ends pages (pos k) t)
        (λ e why. elim why [
          | inl (_, out) ↦
              let bad : true ≡ false =
                sym out ∙ first_inside t.file_hdr k low (omega (arith, left)) in
              cc
          | inr fails ↦ (k, t, (refl, refl), omega arith, omega (arith, left), fails)
        ])
        λ _ u inside.
          let later : (w : RmFileHandle pages)
              → Untouched pages t w
              → Ends pages w (next_in pages rounds (pos (k + 1)) (negsuc 0) w) (Fails (k + 1) w)
                  (Arrives (k + 1) 0 w) =
            λ w same.
              let pages_ = ap (λ (h : RmFileHdr). h.num_pages) same.1 in
              next_in-Arrives rounds (k + 1) 0 (negsuc 0) w
                (λ i. ap (λ (v : View). v.unsaved i) same.0 ∙ calm i) (omega arith)
                (omega (arith, left, pages_)) refl (omega arith) in
          round-Arrives k d slot_no t u calm low (omega (arith, left)) start most inside
            (λ w. next_in pages rounds (pos (k + 1)) (negsuc 0) w) later
            (ltb
              (next_bit true (page_of pages (pos k) u).bitmap u.file_hdr.num_records_per_page
                slot_no)
              u.file_hdr.num_records_per_page)
            refl

  -- From a position before the end whose slot is one of its page, or -1, `next` goes to the first
  -- record after it, or to the end if there is none, and leaves the pages and their pins as they
  -- were; or it throws and leaves them so because the buffer pool fails to fetch a page of the file,
  -- the one of the position or one after it.
  pub next-Arrives :
      (rid : Rid) (k : ℕ) (t : RmFileHandle pages)
      → IsCalm (view_of pages t)
      → rid.page_no ≡ pos k
      → 1 ≤ k
      → after rid.slot_no ≤ t.file_hdr.num_records_per_page
      → Ends pages t (next pages rid t) (Fails k t) (Arrives k (after rid.slot_no) t)
  unfolding next
  next-Arrives rid k t calm here low most =
      subst
        (λ i.
          Ends pages t (next_in pages (pages_left i t.file_hdr) i rid.slot_no t) (Fails k t)
            (Arrives k (after rid.slot_no) t))
        (sym here)
        (next_in-Arrives (pages_left (pos k) t.file_hdr) k (after rid.slot_no) rid.slot_no t calm
          low refl refl most)
