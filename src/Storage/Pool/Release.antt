-- ===== src/Storage/Pool/Release.antt =====
-- What a client does to a page that it has fetched: writing its bytes, `unpin_page`, `flush_page`.
use mathlib.Core.Path.{subst}
use myrmdb.Prelude.{
  ℕ, ◌-◌, ◌<◌, ◌≡◌, refl, sym, ap, ◌∙◌, ◌≢◌, Bool, true, false, none, some, arith, length, All,
  All-both, Option-cases, inl, inr, Bool-cases, ◌==◌, if◌then◌else◌,
}
use myrmdb.Storage.Page.{PageId, PageId-discrete, invalid_page_id}
use myrmdb.Storage.Replacer
use myrmdb.Storage.Replacer.{LruReplacer}
use myrmdb.Storage.Replacer.Nodes.{frames, IsValid as IsValidReplacer}
use myrmdb.Storage.Replacer.Frames.{unpin-frames}
use myrmdb.Storage.Disk.{Disk, Result, ok, err}
use myrmdb.Storage.Pool.{
  Page, Pool, page_at, put_page, find, unpin_page, unpin_frame, flush_page, clean_step, write_out,
}
use myrmdb.Storage.Pool.Valid.{content, content_at, IsEvictable, IsValid}
use myrmdb.Storage.Pool.Repaint.{
  CanRepaint, repainted, repainted-IsValid, repainted_self, repainted-others,
}

module _ (disk : Disk) where
  -- The invariant and every page's bytes outlive the call.
  abbrev pub Keeps : Pool disk → Pool disk → Type 0
  Keeps p q = IsValid disk q × ((j : PageId) → content disk j q ≡ content disk j p)

  -- The client writes through the pointer that `fetch_page` gave it.
  unfoldable pub write_frame : ℕ → disk.Data → Pool disk → Pool disk
  write_frame f d p = put_page disk f (record (page_at disk f p) { data_ = d }) p

  module _ (i : PageId) (f : ℕ) (p : Pool disk) (v : IsValid disk p)
      (here : find disk i p ≡ some f) where
    entry : (f < length p.pages) × ((page_at disk f p).id ≡ i) × (i.page_no ≢ invalid_page_id)
    entry = v.table i f here

    held : (page_at disk f p).id.page_no ≢ invalid_page_id
    held bad = entry.2 (ap (λ (j : PageId). j.page_no) (sym entry.1) ∙ bad)

    -- Bytes that stay the same in a frame that is repainted.
    repaint-Keeps :
        (x : Page disk) (r : LruReplacer) (s : disk.State)
        → CanRepaint disk p v f x r s
        → x.data_ ≡ (page_at disk f p).data_
        → Keeps p (repainted disk p v f x r s)
    repaint-Keeps x r s c same = (
      repainted-IsValid disk p v f x r s c,
      λ j. elim (PageId-discrete x.id j) [
        | yes e ↦
            subst (λ k. content disk k (repainted disk p v f x r s) ≡ content disk k p) e
              (repainted_self disk p v f x r s c
                ∙ ap ok same
                ∙ sym (
                    content_at disk x.id p (some f)
                      (ap (λ k. find disk k p) (c.same_id ∙ entry.1) ∙ here)))
        | no ne ↦ repainted-others disk p v f x r s c j ne
      ],
    )

    module _ (pinned : (page_at disk f p).pin_count ≢ 0) where
      -- A pinned frame is not in the replacer.
      unlisted :
          (x : Page disk) (g : ℕ)
          → IsEvictable disk p g
          → (g ≢ f → IsEvictable disk p g) × (g ≡ f → x.pin_count ≡ 0)
      unlisted x g h = (
        λ _. h,
        λ same. absurd (pinned (ap (λ k. (page_at disk k p).pin_count) (sym same) ∙ h.2)),
      )

      pub write_frame_lem :
          (d : disk.Data)
          → IsValid disk (write_frame f d p)
            × (content disk i (write_frame f d p) ≡ ok d)
            × ((j : PageId) → i ≢ j → content disk j (write_frame f d p) ≡ content disk j p)
      unfolding write_frame
      write_frame_lem d =
          let x : Page disk = record (page_at disk f p) { data_ = d } in
          let c : CanRepaint disk p v f x p.replacer p.disk_state = record {
            inside = entry.0;
            held = held;
            same_id = refl;
            lru = v.lru;
            evictable =
                All-both (IsEvictable disk p) _ (unlisted x) (frames p.replacer) v.evictable;
            saved = λ zero _. absurd (pinned zero);
            others = λ j _. refl;
          } in
          (
            repainted-IsValid disk p v f x p.replacer p.disk_state c,
            ap (λ k. content disk k (put_page disk f x p)) (sym entry.1)
                ∙ repainted_self disk p v f x p.replacer p.disk_state c,
            λ j ne.
                repainted-others disk p v f x p.replacer p.disk_state c j
                  (λ same. ne (sym entry.1 ∙ same)),
          )

      module _ (is_dirty : Bool)
          (told : is_dirty ≡ false
            → (page_at disk f p).is_dirty ≡ false
            → disk.read_page (page_at disk f p).id p.disk_state ≡ ok (page_at disk f p).data_) where
        abbrev unpinned : Page disk
        unpinned = record (page_at disk f p) {
          is_dirty = if is_dirty then true else (page_at disk f p).is_dirty;
          pin_count = (page_at disk f p).pin_count - 1;
        }

        told_clean :
            (b : Bool)
            → is_dirty ≡ b
            → (if b then true else (page_at disk f p).is_dirty) ≡ false
            → disk.read_page (page_at disk f p).id p.disk_state ≡ ok (page_at disk f p).data_
        told_clean true e clean = cc
        told_clean false e clean = told e clean

        can_unpin :
            (r : LruReplacer)
            → IsValidReplacer r
            → All
                (λ g. (g ≢ f → IsEvictable disk p g) × (g ≡ f → unpinned.pin_count ≡ 0))
                (frames r)
            → CanRepaint disk p v f unpinned r p.disk_state
        can_unpin r lru listed = record {
          inside = entry.0;
          held = held;
          same_id = refl;
          lru = lru;
          evictable = listed;
          saved = λ _ clean. told_clean is_dirty refl clean;
          others = λ j _. refl;
        }

        unpin_last :
            (unpinned.pin_count == 0) ≡ true
            → repainted disk p v f unpinned (Replacer.unpin f p.replacer) p.disk_state
              ≡ unpin_frame disk f is_dirty p
        unfolding unpin_frame
        unpin_last e = rw e refl

        unpin_more :
            (unpinned.pin_count == 0) ≡ false
            → repainted disk p v f unpinned p.replacer p.disk_state ≡ unpin_frame disk f is_dirty p
        unfolding unpin_frame
        unpin_more e = rw e refl

        pub unpin_frame-Keeps : Keeps p (unpin_frame disk f is_dirty p)
        unpin_frame-Keeps =
            let listed =
              All-both (IsEvictable disk p) _ (unlisted unpinned) (frames p.replacer) v.evictable in
            elim (Bool-cases (unpinned.pin_count == 0)) [
              | inl e ↦
                  let last : unpinned.pin_count ≡ 0 = ground arith in
                  let u =
                    unpin-frames _ f p.replacer v.lru listed
                      ((λ (ne : f ≢ f). absurd (ne refl)), λ _. last) in
                  subst (Keeps p) (unpin_last e) (
                    repaint-Keeps unpinned (Replacer.unpin f p.replacer) p.disk_state
                      (can_unpin (Replacer.unpin f p.replacer) u.0 u.1) refl)
              | inr e ↦ subst (Keeps p) (unpin_more e) (
                  repaint-Keeps unpinned p.replacer p.disk_state (can_unpin p.replacer v.lru listed)
                    refl)
            ]

    -- Writing the frame out and clearing its flag.
    abbrev flushed : disk.State → Pool disk
    flushed s = repainted disk p v f (record (page_at disk f p) { is_dirty = false }) p.replacer s

    can_flush :
        (disk.write_page i (page_at disk f p).data_ p.disk_state).0 ≡ ok tt
        → CanRepaint disk p v f
            (record (page_at disk f p) { is_dirty = false })
            p.replacer
            (disk.write_page i (page_at disk f p).data_ p.disk_state).1
    can_flush written =
        let d = (page_at disk f p).data_ in
        record {
          inside = entry.0;
          held = held;
          same_id = refl;
          lru = v.lru;
          evictable =
              All-both (IsEvictable disk p) _
                (λ g h. (λ _. h, λ same. ap (λ k. (page_at disk k p).pin_count) (sym same) ∙ h.2))
                (frames p.replacer) v.evictable;
          saved = λ _ _.
              ap (λ k. disk.read_page k (disk.write_page i d p.disk_state).1) entry.1
              ∙ disk.read-write_self i d p.disk_state written;
          others = λ j ne. disk.read-write_ne i j d p.disk_state (λ same. ne (entry.1 ∙ same));
        }

  clean_step_ok :
      (f : ℕ) (b : Bool) (r : Result (Unit {0})) (q : Pool disk)
      → (clean_step disk f (r, q)).0 ≡ ok b
      → (r ≡ ok tt)
        × ((clean_step disk f (r, q)).1
            ≡ put_page disk f (record (page_at disk f q) { is_dirty = false }) q)
  unfolding clean_step
  clean_step_ok f b (ok u) q e = (refl, refl)
  clean_step_ok f b (err x) q e = cc

  unpin_by_hit :
      (i : PageId) (is_dirty : Bool) (f : ℕ) (p : Pool disk)
      → find disk i p ≡ some f
      → unpin_page disk i is_dirty p ≡ (
          if (page_at disk f p).pin_count == 0
          then (false, p)
          else (true, unpin_frame disk f is_dirty p))
  unfolding unpin_page
  unpin_by_hit i is_dirty f p e = rw (unpin_page, e) refl

  unpin_by_miss :
      (i : PageId) (is_dirty : Bool) (p : Pool disk)
      → find disk i p ≡ none
      → unpin_page disk i is_dirty p ≡ (false, p)
  unfolding unpin_page
  unpin_by_miss i is_dirty p e = rw (unpin_page, e) refl

  -- Let the pool satisfy its invariant, and let a client that unpins `i` as clean, in a frame whose
  -- flag is clear, not have changed the bytes that stand on disk. Then `unpin_page` keeps the
  -- invariant and every page's bytes, whatever it returns.
  pub unpin_page-Keeps :
      (i : PageId) (is_dirty : Bool) (p : Pool disk)
      → IsValid disk p
      → ((f : ℕ)
          → find disk i p ≡ some f
          → is_dirty ≡ false
          → (page_at disk f p).is_dirty ≡ false
          → disk.read_page i p.disk_state ≡ ok (page_at disk f p).data_)
      → Keeps p (unpin_page disk i is_dirty p).1
  unpin_page-Keeps i is_dirty p v told = elim (Option-cases (find disk i p)) [
    | inl e ↦
        subst (λ (o : Bool × Pool disk). Keeps p o.1) (sym (unpin_by_miss i is_dirty p e))
          (v, λ j. refl)
    | inr (f, e) ↦
        subst (λ (o : Bool × Pool disk). Keeps p o.1) (sym (unpin_by_hit i is_dirty f p e))
          (elim (Bool-cases ((page_at disk f p).pin_count == 0)) [
            | inl zero ↦ rw zero (v, λ j. refl)
            | inr more ↦
                let pinned : (page_at disk f p).pin_count ≢ 0 = ground arith in
                rw more (
                  unpin_frame-Keeps i f p v e pinned is_dirty (λ clean flag.
                    ap (λ k. disk.read_page k p.disk_state) (v.table i f e).1
                    ∙ told f e clean flag))
          ])
  ]

  flush_by_hit :
      (i : PageId) (f : ℕ) (p : Pool disk)
      → find disk i p ≡ some f
      → flush_page disk i p ≡ clean_step disk f (write_out disk i (page_at disk f p).data_ p)
  unfolding flush_page
  flush_by_hit i f p e = rw (flush_page, e) refl

  flush_by_miss :
      (i : PageId) (p : Pool disk) → find disk i p ≡ none → flush_page disk i p ≡ (ok false, p)
  unfolding flush_page
  flush_by_miss i p e = rw (flush_page, e) refl

  flush_hit :
      (i : PageId) (f : ℕ) (b : Bool) (p : Pool disk)
      → IsValid disk p
      → find disk i p ≡ some f
      → (clean_step disk f (write_out disk i (page_at disk f p).data_ p)).0 ≡ ok b
      → (q : Pool disk) × ((clean_step disk f (write_out disk i (page_at disk f p).data_ p)).1 ≡ q)
        × Keeps p q
        × (disk.read_page i q.disk_state ≡ content disk i p)
  unfolding write_out
  flush_hit i f b p v e done =
      let d = (page_at disk f p).data_ in
      let w = disk.write_page i d p.disk_state in
      let h = clean_step_ok f b w.0 (record p { disk_state = w.1 }) done in
      (
        flushed i f p v e w.1,
        h.1,
        repaint-Keeps i f p v e _ p.replacer w.1 (can_flush i f p v e h.0) refl,
        disk.read-write_self i d p.disk_state h.0 ∙ sym (content_at disk i p (some f) e),
      )

  -- Let the pool satisfy its invariant. If `flush_page` returns, it keeps the invariant and every
  -- page's bytes, and if it returns true, the bytes on disk are those of the page.
  pub flush_page-Keeps :
      (i : PageId) (b : Bool) (p : Pool disk)
      → IsValid disk p
      → (flush_page disk i p).0 ≡ ok b
      → Keeps p (flush_page disk i p).1
        × (b ≡ true → disk.read_page i (flush_page disk i p).1.disk_state ≡ content disk i p)
  flush_page-Keeps i b p v done = elim (Option-cases (find disk i p)) [
    | inl e ↦
        let same = flush_by_miss i p e in
        let bad : ok false ≡ ok b = ap (λ (o : Result Bool × Pool disk). o.0) (sym same) ∙ done in
        subst
          (λ (o : Result Bool × Pool disk).
            Keeps p o.1 × (b ≡ true → disk.read_page i o.1.disk_state ≡ content disk i p))
          (sym same) ((v, λ j. refl), λ yes_. cc)
    | inr (f, e) ↦
        let same = flush_by_hit i f p e in
        let h =
          flush_hit i f b p v e (ap (λ (o : Result Bool × Pool disk). o.0) (sym same) ∙ done) in
        subst
          (λ (q : Pool disk).
            Keeps p q × (b ≡ true → disk.read_page i q.disk_state ≡ content disk i p))
          (sym h.1 ∙ sym (ap (λ (o : Result Bool × Pool disk). o.1) same)) (h.2, λ _. h.3)
  ]
