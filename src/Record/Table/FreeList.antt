-- ===== src/Record/Table/FreeList.antt =====
-- The free list of a table file: the pages with a free slot, chained by `next_free_page_no`.
use mathlib.Core.Path.{subst}
use myrmdb.Prelude.{
  ℕ, ◌*◌, ◌≤◌, ◌<◌, ◌≡◌, ◌≢◌, refl, sym, ap, ◌∙◌, List, [], ◌∷◌, arith, length, All, All-both,
  NoRepeat, ℕ_discrete, if_pos,
}
use myrmdb.Prelude.Int.{ℤ, pos, pos_part, ℤ-discrete}
use myrmdb.Record.Bitmap.Bits.{IsBytes}
use myrmdb.Record.Bitmap.Count.{count}
use myrmdb.Record.Pages.{RmFileHdr, RmPage, rm_no_page, update, update_self, update_ne}

-- A page with room for `n` records, whose bitmap and slots have the sizes for them, and whose `num_records` is the
-- number of its records.
pub record IsPage (n : ℕ) (p : RmPage) : Type 0 where
  pub bytes : IsBytes p.bitmap
  pub bits : n ≤ length p.bitmap * 8
  pub room : length p.slots ≡ n
  pub counted : p.num_records ≡ count p.bitmap n

-- The pages that `next_free_page_no` leads to from `i`, up to RM_NO_PAGE.
abbrev pub Chain : (ℤ → RmPage) → ℤ → List ℕ → Type 0
Chain page i [] = i ≡ rm_no_page
Chain page i (k ∷ ks) = (i ≡ pos k) × Chain page (page (pos k)).next_free_page_no ks

-- A page of records that has a free slot.
abbrev pub IsFree : ℕ → ℕ → (ℤ → RmPage) → ℕ → Type 0
IsFree num_pages n page k = (1 ≤ k) × (k < num_pages) × ((page (pos k)).num_records ≢ n)

-- The free list of the file is `ks`: it holds every page with a free slot, once, and no other.
pub record IsTable (hdr : RmFileHdr) (page : ℤ → RmPage) (ks : List ℕ) : Type 0 where
  pub some_slot : 1 ≤ hdr.num_records_per_page
  pub has_header : 1 ≤ hdr.num_pages
  pub shape : (k : ℕ) → 1 ≤ k → k < hdr.num_pages → IsPage hdr.num_records_per_page (page (pos k))
  pub chain : Chain page hdr.first_free_page_no ks
  pub free : All (IsFree hdr.num_pages hdr.num_records_per_page page) ks
  pub once : NoRepeat ks
  pub complete :
      (k : ℕ)
      → 1 ≤ k
      → k < hdr.num_pages
      → All (λ j. j ≢ k) ks
      → (page (pos k)).num_records ≡ hdr.num_records_per_page

pos_inj : {a b : ℕ} → pos a ≡ pos b → a ≡ b
pos_inj e = ap pos_part e

-- A chain that does not meet the page `k` does not feel an update of it.
Chain-update :
    (page : ℤ → RmPage) (k : ℕ) (q : RmPage) (i : ℤ) (ks : List ℕ)
    → All (λ j. j ≢ k) ks
    → Chain page i ks
    → Chain (update (pos k) q page) i ks
Chain-update page k q i [] apart c = c
Chain-update page k q i (j ∷ ks) apart c =
    let same : update (pos k) q page (pos j) ≡ page (pos j) =
      update_ne (pos k) (pos j) q page (λ e. apart.0 (sym (pos_inj e))) in
    (
      c.0,
      subst (λ (p : RmPage). Chain (update (pos k) q page) p.next_free_page_no ks) (sym same)
          (Chain-update page k q (page (pos j)).next_free_page_no ks apart.1 c.1),
    )

-- A chain feels an update of its pages that keeps `next_free_page_no` no more.
Chain-keep :
    (page : ℤ → RmPage) (k : ℕ) (q : RmPage) (i : ℤ) (ks : List ℕ)
    → q.next_free_page_no ≡ (page (pos k)).next_free_page_no
    → Chain page i ks
    → Chain (update (pos k) q page) i ks
Chain-keep page k q i [] next c = c
Chain-keep page k q i (j ∷ ks) next c =
    let same : (update (pos k) q page (pos j)).next_free_page_no
        ≡ (page (pos j)).next_free_page_no =
      elim (ℕ_discrete k j) [
        | yes e ↦
            ap (λ (p : RmPage). p.next_free_page_no)
              (if_pos (ℤ-discrete (pos k) (pos j)) (ap pos e) q (page (pos j)))
            ∙ next
            ∙ ap (λ m. (page (pos m)).next_free_page_no) e
        | no ne ↦
            ap (λ (p : RmPage). p.next_free_page_no)
              (update_ne (pos k) (pos j) q page (λ e. ne (pos_inj e)))
      ] in
    (
      c.0,
      subst (λ m. Chain (update (pos k) q page) m ks) (sym same)
          (Chain-keep page k q (page (pos j)).next_free_page_no ks next c.1),
    )

-- The page of a store, looked up at any number.
at_update :
    (P : ℕ → RmPage → Type 0) (page : ℤ → RmPage) (k : ℕ) (q : RmPage) (j : ℕ)
    → (k ≡ j → P j q)
    → (k ≢ j → P j (page (pos j)))
    → P j (update (pos k) q page (pos j))
at_update P page k q j self other = elim (ℕ_discrete k j) [
  | yes e ↦
      subst (P j) (sym (if_pos (ℤ-discrete (pos k) (pos j)) (ap pos e) q (page (pos j)))) (self e)
  | no ne ↦ subst (P j) (sym (update_ne (pos k) (pos j) q page (λ e. ne (pos_inj e)))) (other ne)
]

module _ (hdr : RmFileHdr) (page : ℤ → RmPage) (ks : List ℕ) (t : IsTable hdr page ks) (k : ℕ)
    (q : RmPage) (sound : IsPage hdr.num_records_per_page q) where
  abbrev stored : ℤ → RmPage
  stored = update (pos k) q page

  abbrev n : ℕ
  n = hdr.num_records_per_page

  abbrev Full : RmPage → Type 0
  Full p = p.num_records ≡ n

  shape_after : (j : ℕ) → (k ≢ j → IsPage n (page (pos j))) → IsPage n (stored (pos j))
  shape_after j other = at_update (λ j p. IsPage n p) page k q j (λ _. sound) other

  -- The pages of the free list but `k` are as they were.
  apart-IsFree :
      (num : ℕ) (js : List ℕ)
      → ((j : ℕ) → j < hdr.num_pages → j < num)
      → All (λ j. j ≢ k) js
      → All (IsFree hdr.num_pages n page) js
      → All (IsFree num n stored) js
  apart-IsFree num [] more a h = tt
  apart-IsFree num (j ∷ js) more a h = (
    (
      h.0.0,
      more j h.0.1,
      at_update (λ j p. j ≢ k → (Full (page (pos j)) → ⊥) → Full p → ⊥) page k q j
          (λ e ne _ _. ne (sym e)) (λ _ _ g. g) a.0 h.0.2,
    ),
    apart-IsFree num js more a.1 h.1,
  )

  -- The page stays in the free list, or outside it.
  pub IsTable-keep :
      q.next_free_page_no ≡ (page (pos k)).next_free_page_no
      → (Full q → Full (page (pos k)))
      → (Full (page (pos k)) → Full q)
      → IsTable hdr stored ks
  IsTable-keep next down up = record {
    some_slot = t.some_slot;
    has_header = t.has_header;
    shape = λ j low high. shape_after j (λ _. t.shape j low high);
    chain = Chain-keep page k q hdr.first_free_page_no ks next t.chain;
    free =
        All-both (IsFree hdr.num_pages n page) (IsFree hdr.num_pages n stored)
          (λ j h. (
            h.0,
            h.1,
            λ f. h.2 (
                at_update (λ j p. Full p → Full (page (pos j))) page k q j
                  (λ e g. ap (λ m. (page (pos m)).num_records) (sym e) ∙ down g) (λ _ g. g) f),
          ))
          ks t.free;
    once = t.once;
    complete = λ j low high apart.
        at_update (λ j p. Full (page (pos j)) → Full p) page k q j
          (λ e f. up (ap (λ m. (page (pos m)).num_records) e ∙ f)) (λ _ f. f)
          (t.complete j low high apart);
  }

  -- The first page of the free list has become full and leaves it.
  pub IsTable-pop :
      (rest : List ℕ)
      → ks ≡ k ∷ rest
      → Full q
      → IsTable (record hdr { first_free_page_no = (page (pos k)).next_free_page_no }) stored rest
  IsTable-pop rest e filled =
      let chain : Chain page hdr.first_free_page_no (k ∷ rest) =
        subst (Chain page hdr.first_free_page_no) e t.chain in
      let once : NoRepeat (k ∷ rest) = subst NoRepeat e t.once in
      let free = subst (All (IsFree hdr.num_pages n page)) e t.free in
      record {
        some_slot = t.some_slot;
        has_header = t.has_header;
        shape = λ j low high. shape_after j (λ _. t.shape j low high);
        chain = Chain-update page k q (page (pos k)).next_free_page_no rest once.0 chain.1;
        free = apart-IsFree hdr.num_pages rest (λ j h. h) once.0 free.1;
        once = once.1;
        complete = λ j low high apart.
            at_update (λ j p. Full p) page k q j (λ _. filled)
              λ ne. t.complete j low high (subst (All (λ m. m ≢ j)) (sym e) (ne, apart));
      }

  -- A page that was full, or did not exist, has a free slot and comes first.
  pub IsTable-push :
      (num : ℕ)
      → (k < num)
      → 1 ≤ k
      → hdr.num_pages ≤ num
      → ((j : ℕ) → j < num → k ≢ j → j < hdr.num_pages)
      → All (λ j. j ≢ k) ks
      → q.next_free_page_no ≡ hdr.first_free_page_no
      → q.num_records ≢ n
      → IsTable (record hdr { num_pages = num; first_free_page_no = pos k }) stored (k ∷ ks)
  IsTable-push num high low more below apart next room =
      let here : stored (pos k) ≡ q = update_self (pos k) q page in
      record {
        some_slot = t.some_slot;
        has_header = omega (arith, t.has_header, more);
        shape = λ j low_ high_. shape_after j (λ ne. t.shape j low_ (below j high_ ne));
        chain = (
          refl,
          subst (λ (p : RmPage). Chain stored p.next_free_page_no ks) (sym here)
              (subst (λ i. Chain stored i ks) (sym next)
                (Chain-update page k q hdr.first_free_page_no ks apart t.chain)),
        );
        free = (
          (low, high, λ e. room (ap (λ (p : RmPage). p.num_records) (sym here) ∙ e)),
          apart-IsFree num ks (λ j h. omega (arith, h, more)) apart t.free,
        );
        once = (apart, t.once);
        complete = λ j low_ high_ others.
            at_update (λ j p. Full p) page k q j (λ e. absurd (others.0 e))
              λ ne. t.complete j low_ (below j high_ ne) others.1;
      }
