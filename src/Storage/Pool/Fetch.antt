-- ===== src/Storage/Pool/Fetch.antt =====
-- `fetch_page`: what a client gets, whether or not the page was in a frame.
use mathlib.Core.Path.{subst}
use myrmdb.Prelude.{
  ℕ, ◌+◌, ◌<◌, ◌≡◌, refl, sym, ap, ◌∙◌, ◌≢◌, false, List, Option, none, some, arith, length,
  All-meet, Option-cases, inl, inr, if_neg, set, set-set, get_or,
}
use myrmdb.Prelude.Assoc
use myrmdb.Prelude.Int.{ℤ-discrete}
use myrmdb.Storage.Page.{PageId, PageId-discrete, invalid_page_id}
use myrmdb.Storage.Replacer
use myrmdb.Storage.Replacer.Nodes.{frames}
use myrmdb.Storage.Replacer.Frames.{pin-frames}
use myrmdb.Storage.Disk.{Disk, Result, ok, err}
use myrmdb.Storage.Pool.{
  Page, Pool, blank, page_at, put_page, find, find_victim_page, fetch_page, fetch_hit, fetch_miss,
  load, load_step, update_page, update_step, evict, install, hold,
}
use myrmdb.Storage.Pool.Valid.{content, content_at, IsEvictable, IsValid, IsValidBut, IsTaken}
use myrmdb.Storage.Pool.Evict.{evict-keeps}
use myrmdb.Storage.Pool.Victim.{SamePages, find_victim_page-IsTaken}
use myrmdb.Storage.Pool.Repaint.{
  page_put_self, CanRepaint, repainted-IsValid, repainted_self, repainted-others,
}
use myrmdb.Storage.Pool.Settle.{settled, settled-IsValid, settled_self, settled-others}

ok_some_inj : {g f : ℕ} → ok (some g) ≡ ok (some f) → g ≡ f
ok_some_inj e = ground arith

module _ (disk : Disk) where
  -- The frame `f` of `q` holds the page `i` of `p` and is pinned; no page's content differs.
  pub record Fetched (i : PageId) (f : ℕ) (p q : Pool disk) : Type 0 where
    pub valid : IsValid disk q
    pub entry : find disk i q ≡ some f
    pub bytes : content disk i p ≡ ok (page_at disk f q).data_
    pub pinned : (page_at disk f q).pin_count ≢ 0
    pub contents : (j : PageId) → content disk j q ≡ content disk j p

  pub fetch_by_hit :
      (i : PageId) (f : ℕ) (p : Pool disk)
      → find disk i p ≡ some f
      → fetch_page disk i p ≡ (ok (some f), fetch_hit disk f p)
  unfolding fetch_page
  fetch_by_hit i f p e = rw (fetch_page, e) refl

  pub fetch_by_miss :
      (i : PageId) (p : Pool disk)
      → find disk i p ≡ none
      → fetch_page disk i p ≡ fetch_miss disk i (find_victim_page disk p)
  unfolding fetch_page
  fetch_by_miss i p e = rw (fetch_page, e) refl

  hit_Fetched :
      (i : PageId) (f : ℕ) (p : Pool disk)
      → IsValid disk p
      → find disk i p ≡ some f
      → Fetched i f p (fetch_hit disk f p)
  unfolding fetch_hit
  hit_Fetched i f p v e =
      let entry = v.table i f e in
      let x : Page disk = record (page_at disk f p) {
        pin_count = (page_at disk f p).pin_count + 1;
      } in
      let q = pin-frames (IsEvictable disk p) f p.replacer v.lru v.evictable in
      let positive : x.pin_count ≢ 0 = omega arith in
      let c : CanRepaint disk p v f x (Replacer.pin f p.replacer) p.disk_state = record {
        inside = entry.0;
        held = λ bad. entry.2 (ap (λ (j : PageId). j.page_no) (sym entry.1) ∙ bad);
        same_id = refl;
        lru = q.0;
        evictable =
            All-meet (IsEvictable disk p) (λ g. g ≢ f) _
              (λ g h ne. (λ _. h, λ same. absurd (ne same))) (frames (Replacer.pin f p.replacer))
              q.1 q.2;
        saved = λ zero _. absurd (positive zero);
        others = λ j _. refl;
      } in
      let here = page_put_self disk f x p entry.0 in
      record {
        valid = repainted-IsValid disk p v f x (Replacer.pin f p.replacer) p.disk_state c;
        entry = e;
        bytes = content_at disk i p (some f) e ∙ ap (λ (y : Page disk). ok y.data_) (sym here);
        pinned = λ zero. positive (ap (λ (y : Page disk). y.pin_count) (sym here) ∙ zero);
        contents = λ j. elim (PageId-discrete x.id j) [
          | yes same ↦
              subst (λ k. content disk k (fetch_hit disk f p) ≡ content disk k p) same
                (repainted_self disk p v f x (Replacer.pin f p.replacer) p.disk_state c
                  ∙ sym (content_at disk x.id p (some f) (ap (λ k. find disk k p) entry.1 ∙ e)))
          | no ne ↦ repainted-others disk p v f x (Replacer.pin f p.replacer) p.disk_state c j ne
        ];
      }

  load_step_parts :
      (f g : ℕ) (i : PageId) (r : Result disk.Data) (p : Pool disk)
      → (load_step disk f i r p).0 ≡ ok (some g)
      → (d : disk.Data) × (r ≡ ok d)
        × (f ≡ g)
        × ((load_step disk f i r p).1 ≡ hold disk f (record (page_at disk f p) { data_ = d }) p)
  unfolding load_step
  load_step_parts f g i (ok d) p e = (d, refl, ground arith, refl)
  load_step_parts f g i (err x) p e = cc

  update_parts :
      (f g : ℕ) (i : PageId) (p : Pool disk) (r : Result (Unit {0}) × Pool disk)
      → (load disk f i (update_step disk f i r)).0 ≡ ok (some g)
      → (r.0 ≡ ok tt)
        × (load disk f i (update_step disk f i r)
            ≡ load_step disk f i
                (disk.read_page i (install disk f i r.1).disk_state)
                (install disk f i r.1))
  unfolding load update_step
  update_parts f g i p (ok u, q) e = (refl, refl)
  update_parts f g i p (err x, q) e = cc

  -- The page that a miss puts in its frame.
  abbrev loaded : PageId → disk.Data → Page disk
  loaded i d = record { id = i; data_ = d; is_dirty = false; pin_count = 1 }

  pub install_valid :
      (f : ℕ) (i : PageId) (p : Pool disk)
      → i.page_no ≢ invalid_page_id
      → install disk f i p ≡ record p {
        pages = set p.pages f (record (loaded i disk.zero) { pin_count = 0 });
        page_table = Assoc.insert PageId-discrete i f p.page_table;
      }
  unfolding install
  install_valid f i p valid =
      let y : Page disk = record (loaded i disk.zero) { pin_count = 0 } in
      if_neg (ℤ-discrete i.page_no invalid_page_id) valid (put_page disk f y p)
        (record (put_page disk f y p) {
          page_table = Assoc.insert PageId-discrete i f p.page_table;
        })

  -- Reading into the frame and pinning it settles it.
  hold-settled :
      (f : ℕ) (i : PageId) (d : disk.Data) (p q : Pool disk)
      → f < length p.pages
      → q ≡ record p {
        pages = set p.pages f (record (loaded i disk.zero) { pin_count = 0 });
        page_table = Assoc.insert PageId-discrete i f p.page_table;
      }
      → hold disk f (record (page_at disk f q) { data_ = d }) q ≡ settled disk p f (loaded i d)
  unfolding hold
  hold-settled f i d p q inside e =
      let y : Page disk = record (loaded i disk.zero) { pin_count = 0 } in
      let q' : Pool disk = record p {
        pages = set p.pages f y;
        page_table = Assoc.insert PageId-discrete i f p.page_table;
      } in
      let held : Pool disk → Page disk → Pool disk = λ (b : Pool disk) (z : Page disk). record b {
        pages = set b.pages f (record z { data_ = d; pin_count = 1 });
        replacer = Replacer.pin f b.replacer;
      } in
      ap (λ (b : Pool disk). held b (page_at disk f b)) e
      ∙ ap (held q') (page_put_self disk f y p inside)
      ∙ ap (λ xs. record q' { pages = xs; replacer = Replacer.pin f p.replacer })
          (set-set p.pages f y (loaded i d))

  -- What a frame that settles over the pool `b` gives a client of `p`.
  settled-Fetched :
      (i : PageId) (f : ℕ) (d : disk.Data) (p b : Pool disk)
      → IsValidBut disk f b
      → i.page_no ≢ invalid_page_id
      → find disk i b ≡ none
      → disk.read_page i b.disk_state ≡ ok d
      → ((j : PageId) → content disk j b ≡ content disk j p)
      → Fetched i f p (settled disk b f (loaded i d))
  settled-Fetched i f d p b v valid absent read same =
      let x = loaded i d in
      let here = page_put_self disk f x b v.inside in
      let before : content disk i b ≡ ok d = content_at disk i b none absent ∙ read in
      record {
        valid = settled-IsValid disk b f x v valid absent (λ (bad : 1 ≡ 0). omega (arith, bad));
        entry = Assoc.lookup-insert_self PageId-discrete i i f b.page_table refl;
        bytes = sym (same i) ∙ before ∙ ap (λ (y : Page disk). ok y.data_) (sym here);
        pinned = λ zero.
            let bad : 1 ≡ 0 = ap (λ (y : Page disk). y.pin_count) (sym here) ∙ zero in
            omega (arith, bad);
        contents = λ j. elim (PageId-discrete i j) [
          | yes e ↦
              subst (λ k. content disk k (settled disk b f x) ≡ content disk k p) e
                (settled_self disk b f x v ∙ sym before ∙ same i)
          | no ne ↦ settled-others disk b f x v j ne ∙ same j
        ];
      }

  SamePages-content :
      (p q : Pool disk) (j : PageId) → SamePages disk p q → content disk j q ≡ content disk j p
  SamePages-content p q j s =
      let t : find disk j q ≡ find disk j p = ap (Assoc.lookup PageId-discrete j) s.1 in
      elim (Option-cases (find disk j p)) [
        | inl e ↦
            content_at disk j q none (t ∙ e)
            ∙ ap (disk.read_page j) s.2
            ∙ sym (content_at disk j p none e)
        | inr (g, e) ↦
            content_at disk j q (some g) (t ∙ e)
            ∙ ap (λ (xs : List (Page disk)). ok (get_or xs g (blank disk)).data_) s.0
            ∙ sym (content_at disk j p (some g) e)
      ]

  -- A miss that has a victim and gives a frame.
  load-Fetched :
      (i : PageId) (f g : ℕ) (p q : Pool disk)
      → IsTaken disk f q
      → SamePages disk p q
      → i.page_no ≢ invalid_page_id
      → find disk i p ≡ none
      → (load disk f i (update_page disk f i q)).0 ≡ ok (some g)
      → Fetched i g p (load disk f i (update_page disk f i q)).1
  unfolding update_page
  load-Fetched i f g p q t same valid absent e =
      let u = update_parts f g i q (evict disk f q) e in
      let k = evict-keeps disk f q t u.0 in
      let b = (evict disk f q).1 in
      let inst = install disk f i b in
      let r = disk.read_page i inst.disk_state in
      let l =
        load_step_parts f g i r inst
          (sym (ap (λ (o : Result (Option ℕ) × Pool disk). o.0) u.1) ∙ e) in
      let inst_is = install_valid f i b valid in
      let read : disk.read_page i b.disk_state ≡ ok l.0 =
        ap (λ (z : Pool disk). disk.read_page i z.disk_state) (sym inst_is) ∙ l.1 in
      let final : settled disk b f (loaded i l.0) ≡ (load disk f i (update_page disk f i q)).1 =
        sym (hold-settled f i l.0 b inst k.0.inside inst_is)
        ∙ sym l.3
        ∙ sym (ap (λ (o : Result (Option ℕ) × Pool disk). o.1) u.1) in
      let absent' = k.2 i (ap (Assoc.lookup PageId-discrete i) same.1 ∙ absent) in
      let done =
        settled-Fetched i f l.0 p b k.0 valid absent' read
          (λ j. k.1 j ∙ SamePages-content p q j same) in
      subst (λ h. Fetched i h p (load disk f i (update_page disk f i q)).1) l.2
        (subst (Fetched i f p) final done)

  miss_Fetched :
      (i : PageId) (g : ℕ) (p : Pool disk) (r : Option ℕ × Pool disk)
      → ((f : ℕ) → r.0 ≡ some f → IsTaken disk f r.1 × SamePages disk p r.1)
      → i.page_no ≢ invalid_page_id
      → find disk i p ≡ none
      → (fetch_miss disk i r).0 ≡ ok (some g)
      → Fetched i g p (fetch_miss disk i r).1
  unfolding fetch_miss
  miss_Fetched i g p (none, q) taken valid absent e = cc
  miss_Fetched i g p (some f, q) taken valid absent e =
      let h = taken f refl in load-Fetched i f g p q h.0 h.1 valid absent e

  -- Let the pool satisfy its invariant and let `i` be a page. If `fetch_page` returns a frame, the
  -- table names that frame for `i`, the frame is pinned and holds the bytes that belonged to `i`
  -- before the call, whether the page was in a frame or on disk; the pool still satisfies its
  -- invariant, and no page's bytes have changed, those of an evicted page included.
  pub fetch_page-Fetched :
      (i : PageId) (f : ℕ) (p : Pool disk)
      → IsValid disk p
      → i.page_no ≢ invalid_page_id
      → (fetch_page disk i p).0 ≡ ok (some f)
      → Fetched i f p (fetch_page disk i p).1
  fetch_page-Fetched i f p v valid e = elim (Option-cases (find disk i p)) [
    | inl absent ↦
        let same = fetch_by_miss i p absent in
        subst (λ (o : Result (Option ℕ) × Pool disk). Fetched i f p o.1) (sym same)
          (miss_Fetched i f p (find_victim_page disk p) (λ g. find_victim_page-IsTaken disk p g v)
            valid absent (ap (λ (o : Result (Option ℕ) × Pool disk). o.0) (sym same) ∙ e))
    | inr (g, here) ↦
        let same = fetch_by_hit i g p here in
        let e' : ok (some g) ≡ ok (some f) =
          ap (λ (o : Result (Option ℕ) × Pool disk). o.0) (sym same) ∙ e in
        subst (λ (o : Result (Option ℕ) × Pool disk). Fetched i f p o.1) (sym same)
          (subst (λ h. Fetched i h p (fetch_hit disk g p)) (ok_some_inj e')
            (hit_Fetched i g p v here))
  ]
