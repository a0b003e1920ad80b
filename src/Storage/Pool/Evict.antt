-- ===== src/Storage/Pool/Evict.antt =====
-- The page in a frame that is taken leaves it, and its bytes are on disk.
use myrmdb.Prelude.{
  ℕ, ◌<◌, ◌≡◌, refl, sym, ap, ◌∙◌, ◌≢◌, Bool, true, false, Option, none, some, arith, length,
  if_pos, if_neg,
}
use mathlib.Core.Path.{subst}
use myrmdb.Prelude.Assoc
use myrmdb.Prelude.Int.{ℤ-discrete}
use myrmdb.Storage.Page.{PageId, PageId-discrete, invalid_page_id}
use myrmdb.Storage.Disk.{Disk, Result, ok, err}
use myrmdb.Storage.Pool.{Pool, page_at, find, evict, evict_step, write_back, write_out}
use myrmdb.Storage.Pool.Valid.{content, content_at, seen, number, IsValid, IsValidBut, IsTaken}

module _ (disk : Disk) where
  -- What is on disk after a page has been written back, or did not need to be.
  record Wrote (i : PageId) (d : disk.Data) (p : Pool disk) (q : Pool disk) : Type 0 where
    shape : q ≡ record p { disk_state = q.disk_state }
    self : disk.read_page i q.disk_state ≡ ok d
    others : (j : PageId) → i ≢ j → disk.read_page j q.disk_state ≡ disk.read_page j p.disk_state

  write_back-Wrote :
      (dirty : Bool) (i : PageId) (d : disk.Data) (p : Pool disk)
      → (dirty ≡ false → disk.read_page i p.disk_state ≡ ok d)
      → (write_back disk dirty i d p).0 ≡ ok tt
      → Wrote i d p (write_back disk dirty i d p).1
  unfolding write_back write_out
  write_back-Wrote true i d p clean e = record {
    shape = refl;
    self = disk.read-write_self i d p.disk_state e;
    others = λ j ne. disk.read-write_ne i j d p.disk_state ne;
  }
  write_back-Wrote false i d p clean e = record {
    shape = refl;
    self = clean refl;
    others = λ j ne. refl;
  }

  module _ (f : ℕ) (p : Pool disk) (t : IsTaken disk f p) where
    abbrev old : PageId
    old = (page_at disk f p).id

    v : IsValid disk p
    v = t.valid

    -- The frame held no page.
    keep_empty : number disk p f ≡ invalid_page_id → IsValidBut disk f p
    keep_empty e = record {
      inside = t.inside;
      table = λ i g l.
          let h = v.table i g l in
          (h, λ same. h.2 (ap (λ (x : PageId). x.page_no) (sym h.1) ∙ ap (number disk p) same ∙ e));
      resident = λ g inside ne. v.resident g inside;
      free = v.free;
      not_free = t.not_free;
      free_once = v.free_once;
      lru = v.lru;
      evictable = v.evictable;
      not_evictable = t.not_evictable;
      saved = λ g inside ne. v.saved g inside;
    }

    module _ (held : number disk p f ≢ invalid_page_id) where
      old_here : find disk old p ≡ some f
      old_here = v.resident f t.inside held

      -- No other frame holds the old page.
      other_page :
          (g : ℕ)
          → g < length p.pages
          → g ≢ f
          → number disk p g ≢ invalid_page_id
          → old ≢ (page_at disk g p).id
      other_page g inside ne valid same =
          let e : find disk old p ≡ some g = rw same (v.resident g inside valid) in
          let e' : some f ≡ some g = sym old_here ∙ e in ne (ground arith)

      module _ (s : disk.State)
          (wrote : Wrote old (page_at disk f p).data_ p (record p { disk_state = s })) where
        abbrev evicted : Pool disk
        evicted = record p {
          disk_state = s;
          page_table = Assoc.erase PageId-discrete old p.page_table;
        }

        keep_evicted : IsValidBut disk f evicted
        keep_evicted = record {
          inside = t.inside;
          table = λ i g l. elim (PageId-discrete old i) [
            | yes same ↦
                let e : none ≡ some g =
                  sym (Assoc.lookup-erase_self PageId-discrete old i p.page_table same) ∙ l in
                cc
            | no ne ↦
                let h =
                  v.table i g
                    (sym (Assoc.lookup-erase_ne PageId-discrete old i p.page_table ne) ∙ l) in
                (h, λ same. ne (ap (λ k. (page_at disk k p).id) (sym same) ∙ h.1))
          ];
          resident = λ g inside ne valid.
              Assoc.lookup-erase_ne PageId-discrete old _ p.page_table
                (other_page g inside ne valid)
              ∙ v.resident g inside valid;
          free = v.free;
          not_free = t.not_free;
          free_once = v.free_once;
          lru = v.lru;
          evictable = v.evictable;
          not_evictable = t.not_evictable;
          saved = λ g inside ne valid pin clean.
              wrote.others _ (other_page g inside ne valid) ∙ v.saved g inside valid pin clean;
        }

        same_seen : (o : Option ℕ) (j : PageId) → old ≢ j → seen disk o j evicted ≡ seen disk o j p
        same_seen none j ne = wrote.others j ne
        same_seen (some g) j ne = refl

        same_content : (j : PageId) → content disk j evicted ≡ content disk j p
        same_content j = elim (PageId-discrete old j) [
          | yes same ↦
              content_at disk j evicted none
                (Assoc.lookup-erase_self PageId-discrete old j p.page_table same)
              ∙ ap (λ k. disk.read_page k s) (sym same)
              ∙ wrote.self
              ∙ sym (content_at disk j p (some f) (ap (λ k. find disk k p) (sym same) ∙ old_here))
          | no ne ↦
              let e = Assoc.lookup-erase_ne PageId-discrete old j p.page_table ne in
              content_at disk j evicted (find disk j p) e
              ∙ same_seen (find disk j p) j ne
              ∙ sym (content_at disk j p (find disk j p) refl)
        ]

  still_absent :
      (i : PageId) (p : Pool disk) (s : disk.State) (j : PageId)
      → find disk j p ≡ none
      → find disk j
          (record p { disk_state = s; page_table = Assoc.erase PageId-discrete i p.page_table })
        ≡ none
  still_absent i p s j e = elim (PageId-discrete i j) [
    | yes same ↦ Assoc.lookup-erase_self PageId-discrete i j p.page_table same
    | no ne ↦ Assoc.lookup-erase_ne PageId-discrete i j p.page_table ne ∙ e
  ]

  evict_step_ok :
      (i : PageId) (r : Result (Unit {0})) (q : Pool disk)
      → (evict_step disk i (r, q)).0 ≡ ok tt
      → (r ≡ ok tt)
        × ((evict_step disk i (r, q)).1
            ≡ record q { page_table = Assoc.erase PageId-discrete i q.page_table })
  unfolding evict_step
  evict_step_ok i (ok u) q e = (refl, refl)
  evict_step_ok i (err x) q e = cc

  -- `evict` with a result: no page's content changes, and the frame's old page has left the table.
  abbrev pub Kept : ℕ → Pool disk → Pool disk → Type 0
  Kept f p q =
      IsValidBut disk f q
      × ((j : PageId) → content disk j q ≡ content disk j p)
      × ((j : PageId) → find disk j p ≡ none → find disk j q ≡ none)

  module _ (f : ℕ) (p : Pool disk) (t : IsTaken disk f p) where
    abbrev written_back : Result (Unit {0}) × Pool disk
    written_back = let x = page_at disk f p in write_back disk x.is_dirty x.id x.data_ p

    evict_empty : number disk p f ≡ invalid_page_id → evict disk f p ≡ (ok tt, p)
    unfolding evict
    evict_empty empty =
        if_pos (ℤ-discrete (number disk p f) invalid_page_id) empty (ok tt, p)
          (evict_step disk (page_at disk f p).id written_back)

    evict_by_step :
        number disk p f ≢ invalid_page_id
        → evict disk f p ≡ evict_step disk (page_at disk f p).id written_back
    unfolding evict
    evict_by_step held =
        if_neg (ℤ-discrete (number disk p f) invalid_page_id) held (ok tt, p)
          (evict_step disk (page_at disk f p).id written_back)

    evict_held :
        number disk p f ≢ invalid_page_id → (evict disk f p).0 ≡ ok tt → Kept f p (evict disk f p).1
    evict_held held e =
        let x = page_at disk f p in
        let wb = written_back in
        let same = evict_by_step held in
        let parts =
          evict_step_ok x.id wb.0 wb.1
            (sym (ap (λ (r : Result (Unit {0}) × Pool disk). r.0) same) ∙ e) in
        let w =
          write_back-Wrote x.is_dirty x.id x.data_ p (t.valid.saved f t.inside held t.unpinned)
            parts.0 in
        let w' : Wrote x.id x.data_ p (record p { disk_state = wb.1.disk_state }) = record {
          shape = refl;
          self = w.self;
          others = w.others;
        } in
        let final : record p {
          disk_state = wb.1.disk_state;
          page_table = Assoc.erase PageId-discrete x.id p.page_table;
        }
            ≡ (evict disk f p).1 =
          ap
            (λ (q : Pool disk). record q {
              page_table = Assoc.erase PageId-discrete x.id q.page_table;
            })
            (sym w.shape)
          ∙ sym parts.1
          ∙ sym (ap (λ (r : Result (Unit {0}) × Pool disk). r.1) same) in
        subst (Kept f p) final (
          keep_evicted f p t held wb.1.disk_state w',
          same_content f p t held wb.1.disk_state w',
          still_absent x.id p wb.1.disk_state,
        )

    pub evict-keeps : (evict disk f p).0 ≡ ok tt → Kept f p (evict disk f p).1
    evict-keeps e = elim (ℤ-discrete (number disk p f) invalid_page_id) [
      | yes empty ↦
          let same : (evict disk f p).1 ≡ p =
            ap (λ (r : Result (Unit {0}) × Pool disk). r.1) (evict_empty empty) in
          subst (Kept f p) (sym same) (keep_empty f p t empty, λ j. refl, λ j e. e)
      | no held ↦ evict_held held e
    ]
