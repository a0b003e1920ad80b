-- ===== src/Storage/Pool/Repaint.antt =====
-- A resident page changes in its frame: its counters, its flag or its bytes.
use mathlib.Core.Path.{subst}
use myrmdb.Prelude.{
  ℕ, ◌<◌, ◌≡◌, sym, ap, ◌∙◌, ◌≢◌, false, none, some, arith, length, All, All-both, Option-cases,
  inl, inr, ℕ_discrete, set, get_or-set_self, get_or-set_ne, length-set,
}
use myrmdb.Storage.Page.{PageId, invalid_page_id}
use myrmdb.Storage.Replacer.{LruReplacer}
use myrmdb.Storage.Replacer.Nodes.{frames, IsValid as IsValidReplacer}
use myrmdb.Storage.Disk.{Disk, ok}
use myrmdb.Storage.Pool.Valid.{content, content_at, number, IsFree, IsEvictable, IsSaved, IsValid}
use myrmdb.Storage.Pool.{Page, Pool, page_at, put_page, find}

module _ (disk : Disk) where
  pub page_put_self :
      (f : ℕ) (x : Page disk) (p : Pool disk)
      → f < length p.pages
      → page_at disk f (put_page disk f x p) ≡ x
  page_put_self f x p h = get_or-set_self p.pages f x _ h

  pub page_put_ne :
      (f g : ℕ) (x : Page disk) (p : Pool disk)
      → f ≢ g
      → page_at disk g (put_page disk f x p) ≡ page_at disk g p
  page_put_ne f g x p ne = get_or-set_ne p.pages f g x _ ne

  -- The frame `f` holds a page of `p` and gets the page `x`, with the same id; the replacer becomes
  -- `r` and the disk `s`.
  module _ (p : Pool disk) (v : IsValid disk p) (f : ℕ) (x : Page disk) (r : LruReplacer)
      (s : disk.State) where
    abbrev pub repainted : Pool disk
    repainted = record p { pages = set p.pages f x; replacer = r; disk_state = s }

    pub record CanRepaint : Type 0 where
      pub inside : f < length p.pages
      pub held : number disk p f ≢ invalid_page_id
      pub same_id : x.id ≡ (page_at disk f p).id
      pub lru : IsValidReplacer r
      pub evictable :
          All (λ g. (g ≢ f → IsEvictable disk p g) × (g ≡ f → x.pin_count ≡ 0)) (frames r)
      pub saved : x.pin_count ≡ 0 → x.is_dirty ≡ false → disk.read_page x.id s ≡ ok x.data_
      pub others : (j : PageId) → x.id ≢ j → disk.read_page j s ≡ disk.read_page j p.disk_state

    module _ (c : CanRepaint) where
      at_self : page_at disk f repainted ≡ x
      at_self = page_put_self f x p c.inside

      at_other : (g : ℕ) → f ≢ g → page_at disk g repainted ≡ page_at disk g p
      at_other g ne = page_put_ne f g x p ne

      same_ids : (g : ℕ) → (page_at disk g repainted).id ≡ (page_at disk g p).id
      same_ids g = elim (ℕ_discrete f g) [
        | yes e ↦
            subst (λ k. (page_at disk k repainted).id ≡ (page_at disk k p).id) e
              (ap (λ (y : Page disk). y.id) at_self ∙ c.same_id)
        | no ne ↦ ap (λ (y : Page disk). y.id) (at_other g ne)
      ]

      same_number : (g : ℕ) → number disk repainted g ≡ number disk p g
      same_number g = ap (λ (i : PageId). i.page_no) (same_ids g)

      same_length : length repainted.pages ≡ length p.pages
      same_length = length-set p.pages f x

      inside_of : (g : ℕ) → g < length p.pages → g < length repainted.pages
      inside_of g h = omega (arith, same_length)

      inside_was : (g : ℕ) → g < length repainted.pages → g < length p.pages
      inside_was g h = omega (arith, same_length)

      IsFree-other : (g : ℕ) → IsFree disk p g → IsFree disk repainted g
      IsFree-other g h = elim (ℕ_discrete f g) [
        | yes e ↦ absurd (c.held (ap (number disk p) e ∙ h.1))
        | no ne ↦ (
          inside_of g h.0,
          same_number g ∙ h.1,
          ap (λ (y : Page disk). y.pin_count) (at_other g ne) ∙ h.2,
        )
      ]

      IsEvictable-now :
          (g : ℕ)
          → (g ≢ f → IsEvictable disk p g) × (g ≡ f → x.pin_count ≡ 0)
          → IsEvictable disk repainted g
      IsEvictable-now g h = elim (ℕ_discrete f g) [
        | yes e ↦ (
          inside_of g (subst (λ k. k < length p.pages) e c.inside),
          λ bad. c.held (ap (number disk p) e ∙ sym (same_number g) ∙ bad),
          ap (λ k. (page_at disk k repainted).pin_count) (sym e)
              ∙ ap (λ (y : Page disk). y.pin_count) at_self
              ∙ h.1 (sym e),
        )
        | no ne ↦
            let k = h.0 (λ e. ne (sym e)) in
            (
              inside_of g k.0,
              λ bad. k.1 (sym (same_number g) ∙ bad),
              ap (λ (y : Page disk). y.pin_count) (at_other g ne) ∙ k.2,
            )
      ]

      -- Of one frame the ids differ from those of every other.
      id_apart :
          (g : ℕ)
          → g < length p.pages
          → f ≢ g
          → number disk p g ≢ invalid_page_id
          → x.id ≢ (page_at disk g p).id
      id_apart g inside ne valid e =
          let one = v.resident f c.inside c.held in
          let two : find disk (page_at disk f p).id p ≡ some g =
            ap (λ i. find disk i p) (sym c.same_id ∙ e) ∙ v.resident g inside valid in
          let both : some f ≡ some g = sym one ∙ two in ne (ground arith)

      IsSaved-now : (g : ℕ) → g < length p.pages → IsSaved disk repainted g
      IsSaved-now g inside valid pin clean = elim (ℕ_discrete f g) [
        | yes e ↦
            let here : page_at disk g repainted ≡ x =
              ap (λ k. page_at disk k repainted) (sym e) ∙ at_self in
            subst
              (λ (y : Page disk).
                y.pin_count ≡ 0 → y.is_dirty ≡ false → disk.read_page y.id s ≡ ok y.data_)
              (sym here) c.saved pin clean
        | no ne ↦
            let held : number disk p g ≢ invalid_page_id = λ bad. valid (same_number g ∙ bad) in
            let unchanged : (page_at disk g p).pin_count ≡ 0
                → (page_at disk g p).is_dirty ≡ false
                → disk.read_page (page_at disk g p).id s ≡ ok (page_at disk g p).data_ =
              λ pin' clean'.
                c.others _ (id_apart g inside ne held) ∙ v.saved g inside held pin' clean' in
            subst
              (λ (y : Page disk).
                y.pin_count ≡ 0 → y.is_dirty ≡ false → disk.read_page y.id s ≡ ok y.data_)
              (sym (at_other g ne)) unchanged pin clean
      ]

      pub repainted-IsValid : IsValid disk repainted
      repainted-IsValid = record {
        table = λ i g l. let h = v.table i g l in (inside_of g h.0, same_ids g ∙ h.1, h.2);
        resident = λ g inside valid.
            ap (λ i. find disk i p) (same_ids g)
            ∙ v.resident g (inside_was g inside) (λ bad. valid (same_number g ∙ bad));
        free = All-both (IsFree disk p) (IsFree disk repainted) IsFree-other p.free_list v.free;
        free_once = v.free_once;
        lru = c.lru;
        evictable = All-both _ (IsEvictable disk repainted) IsEvictable-now (frames r) c.evictable;
        saved = λ g inside. IsSaved-now g (inside_was g inside);
      }

      pub repainted_self : content disk x.id repainted ≡ ok x.data_
      repainted_self =
          content_at disk x.id repainted (some f)
            (ap (λ i. find disk i p) c.same_id ∙ v.resident f c.inside c.held)
          ∙ ap (λ (y : Page disk). ok y.data_) at_self

      pub repainted-others : (j : PageId) → x.id ≢ j → content disk j repainted ≡ content disk j p
      repainted-others j ne = elim (Option-cases (find disk j p)) [
        | inl e ↦
            content_at disk j repainted none e ∙ c.others j ne ∙ sym (content_at disk j p none e)
        | inr (g, e) ↦
            let h = v.table j g e in
            let apart : f ≢ g =
              λ same. ne (c.same_id ∙ ap (λ k. (page_at disk k p).id) same ∙ h.1) in
            content_at disk j repainted (some g) e
            ∙ ap (λ (y : Page disk). ok y.data_) (at_other g apart)
            ∙ sym (content_at disk j p (some g) e)
      ]
