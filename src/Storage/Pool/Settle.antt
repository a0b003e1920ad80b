-- ===== src/Storage/Pool/Settle.antt =====
-- A taken frame settles: it gets its new page, the table its entry, and the replacer forgets it.
use mathlib.Core.Path.{subst}
use myrmdb.Prelude.{
  ℕ, ◌<◌, ◌≡◌, refl, sym, ap, ◌∙◌, ◌≢◌, false, Option, none, some, arith, length, All-meet,
  ℕ_discrete, set, length-set,
}
use myrmdb.Prelude.Assoc
use myrmdb.Storage.Page.{PageId, PageId-discrete, invalid_page_id}
use myrmdb.Storage.Replacer
use myrmdb.Storage.Replacer.Nodes.{frames}
use myrmdb.Storage.Replacer.Frames.{pin-frames}
use myrmdb.Storage.Disk.{Disk, ok}
use myrmdb.Storage.Pool.{Page, Pool, page_at, find}
use myrmdb.Storage.Pool.Valid.{
  content, content_at, seen, number, IsFree, IsEvictable, IsEntry, IsSaved, IsValid, IsValidBut,
}
use myrmdb.Storage.Pool.Repaint.{page_put_self, page_put_ne}

module _ (disk : Disk) (p : Pool disk) (f : ℕ) (x : Page disk) where
  abbrev pub settled : Pool disk
  settled = record p {
    pages = set p.pages f x;
    page_table = Assoc.insert PageId-discrete x.id f p.page_table;
    replacer = Replacer.pin f p.replacer;
  }

  module _ (b : IsValidBut disk f p) where
    here : page_at disk f settled ≡ x
    here = page_put_self disk f x p b.inside

    there : (g : ℕ) → f ≢ g → page_at disk g settled ≡ page_at disk g p
    there g ne = page_put_ne disk f g x p ne

    same_length : length settled.pages ≡ length p.pages
    same_length = length-set p.pages f x

    inside_of : (g : ℕ) → g < length p.pages → g < length settled.pages
    inside_of g h = omega (arith, same_length)

    inside_was : (g : ℕ) → g < length settled.pages → g < length p.pages
    inside_was g h = omega (arith, same_length)

    IsFree-after : (g : ℕ) → IsFree disk p g → g ≢ f → IsFree disk settled g
    IsFree-after g h ne =
        subst
          (λ (y : Page disk).
            (g < length settled.pages) × (y.id.page_no ≡ invalid_page_id) × (y.pin_count ≡ 0))
          (sym (there g (λ e. ne (sym e)))) (inside_of g h.0, h.1, h.2)

    IsEvictable-after : (g : ℕ) → IsEvictable disk p g → g ≢ f → IsEvictable disk settled g
    IsEvictable-after g h ne =
        subst
          (λ (y : Page disk).
            (g < length settled.pages) × (y.id.page_no ≢ invalid_page_id) × (y.pin_count ≡ 0))
          (sym (there g (λ e. ne (sym e)))) (inside_of g h.0, h.1, h.2)

    -- The page that comes in is a page, is in no frame yet, and will not be evicted.
    module _ (valid : x.id.page_no ≢ invalid_page_id) (absent : find disk x.id p ≡ none)
        (pinned : x.pin_count ≢ 0) where
      table_after : Assoc.Everywhere PageId-discrete (IsEntry disk settled) settled.page_table
      table_after i g l = elim (PageId-discrete x.id i) [
        | yes same ↦
            let e : f ≡ g =
              Assoc.some_inj
                (sym (Assoc.lookup-insert_self PageId-discrete x.id i f p.page_table same) ∙ l) in
            subst (λ k. IsEntry disk settled i k) e
              (
                inside_of f b.inside,
                ap (λ (y : Page disk). y.id) here ∙ same,
                subst (λ (j : PageId). j.page_no ≢ invalid_page_id) same valid,
              )
        | no ne ↦
            let h =
              b.table i g
                (sym (Assoc.lookup-insert_ne PageId-discrete x.id i f p.page_table ne) ∙ l) in
            (
              inside_of g h.0.0,
              ap (λ (y : Page disk). y.id) (there g (λ e. h.1 (sym e))) ∙ h.0.1,
              h.0.2,
            )
      ]

      -- No frame held the page that comes in.
      new_id :
          (g : ℕ)
          → g < length p.pages
          → g ≢ f
          → number disk p g ≢ invalid_page_id
          → x.id ≢ (page_at disk g p).id
      new_id g inside ne held e =
          let l : none ≡ some g =
            sym absent ∙ ap (λ i. find disk i p) e ∙ b.resident g inside ne held in
          cc

      resident_after :
          (g : ℕ)
          → g < length p.pages
          → number disk settled g ≢ invalid_page_id
          → find disk (page_at disk g settled).id settled ≡ some g
      resident_after g inside held = elim (ℕ_discrete g f) [
        | yes e ↦
            Assoc.lookup-insert_self PageId-discrete x.id _ f p.page_table (
              ap (λ (y : Page disk). y.id) (sym here)
              ∙ ap (λ k. (page_at disk k settled).id) (sym e))
            ∙ ap some (sym e)
        | no ne ↦
            let same = there g (λ e. ne (sym e)) in
            let held' : number disk p g ≢ invalid_page_id =
              λ bad. held (ap (λ (y : Page disk). y.id.page_no) same ∙ bad) in
            ap (λ (y : Page disk). find disk y.id settled) same
            ∙ Assoc.lookup-insert_ne PageId-discrete x.id _ f p.page_table
                (new_id g inside ne held')
            ∙ b.resident g inside ne held'
      ]

      IsSaved-after : (g : ℕ) → g < length p.pages → IsSaved disk settled g
      IsSaved-after g inside held pin clean = elim (ℕ_discrete g f) [
        | yes e ↦ absurd (
            pinned (
              ap (λ (y : Page disk). y.pin_count) (sym here)
              ∙ ap (λ k. (page_at disk k settled).pin_count) (sym e)
              ∙ pin))
        | no ne ↦
            subst
              (λ (y : Page disk).
                y.id.page_no ≢ invalid_page_id
                → y.pin_count ≡ 0
                → y.is_dirty ≡ false
                → disk.read_page y.id p.disk_state ≡ ok y.data_)
              (sym (there g (λ e. ne (sym e)))) (b.saved g inside ne) held pin clean
      ]

      pub settled-IsValid : IsValid disk settled
      settled-IsValid =
          let q = pin-frames (IsEvictable disk p) f p.replacer b.lru b.evictable in
          record {
            table = table_after;
            resident = λ g inside. resident_after g (inside_was g inside);
            free =
                All-meet (IsFree disk p) (λ g. g ≢ f) (IsFree disk settled) IsFree-after p.free_list
                  b.free b.not_free;
            free_once = b.free_once;
            lru = q.0;
            evictable =
                All-meet (IsEvictable disk p) (λ g. g ≢ f) (IsEvictable disk settled)
                  IsEvictable-after (frames (Replacer.pin f p.replacer)) q.1 q.2;
            saved = λ g inside. IsSaved-after g (inside_was g inside);
          }

    pub settled_self : content disk x.id settled ≡ ok x.data_
    settled_self =
        content_at disk x.id settled (some f)
          (Assoc.lookup-insert_self PageId-discrete x.id x.id f p.page_table refl)
        ∙ ap (λ (y : Page disk). ok y.data_) here

    pub settled-others : (j : PageId) → x.id ≢ j → content disk j settled ≡ content disk j p
    settled-others j ne =
        let e = Assoc.lookup-insert_ne PageId-discrete x.id j f p.page_table ne in
        content_at disk j settled (find disk j p) e ∙ same_seen (find disk j p) refl
      where
        same_seen : (o : Option ℕ) → find disk j p ≡ o → seen disk o j settled ≡ content disk j p
        same_seen none l = sym (content_at disk j p none l)
        same_seen (some g) l =
            ap (λ (y : Page disk). ok y.data_) (there g (λ e. (b.table j g l).1 (sym e)))
            ∙ sym (content_at disk j p (some g) l)
