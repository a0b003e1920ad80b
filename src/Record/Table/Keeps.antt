-- ===== src/Record/Table/Keeps.antt =====
-- The operations on records that are there, and the free list of the file.
use mathlib.Core.Path.{subst}
use myrmdb.Prelude.{
  ℕ, ◌+◌, ◌-◌, ◌*◌, ◌≤◌, ◌<◌, ◌≡◌, ◌≢◌, refl, sym, ap, ◌∙◌, true, false, inl, inr, List, [], ◌∷◌,
  arith, length, length-set, All, All-both, Bool-cases, ◌==◌, if_neg,
}
use myrmdb.Prelude.Int.{ℤ, pos, negsuc, pos_part, ℤ-discrete}
use myrmdb.Record.Bitmap.{is_set}
use myrmdb.Record.Bitmap.Bits.{set_bit-IsBytes, reset-IsBytes, length-set_bit, length-reset}
use myrmdb.Record.Bitmap.Count.{holds_le, count-set_bit, count-reset}
use myrmdb.Record.Pages.{RmFileHdr, RmPage, View, rm_no_page, update}
use myrmdb.Record.Table.{
  page_outside, slot_outside, occupy, vacate, fill_slot, insert_into, delete_from,
  release_page_handle,
}
use myrmdb.Record.Table.Access.{IsCalm}
use myrmdb.Record.Table.FreeList.{
  IsPage, IsTable, IsFree, Chain, IsTable-keep, IsTable-push, IsTable-pop,
}

-- A file handle whose free list is `ks`, over pages that nobody has left unsaved.
pub record IsOpen (hdr : RmFileHdr) (v : View) (ks : List ℕ) : Type 0 where
  pub table : IsTable hdr v.page ks
  pub numbered : v.next_page ≡ hdr.num_pages
  pub calm : IsCalm v
  pub sized : hdr.num_records_per_page ≤ hdr.bitmap_size * 8

-- A position that is not outside is a page of records and a slot.
pub page_at_pos :
    (hdr : RmFileHdr) (i : ℤ)
    → page_outside hdr i ≡ false
    → (k : ℕ) × (i ≡ pos k) × (1 ≤ k) × (k < hdr.num_pages)
unfolding page_outside
page_at_pos hdr (pos k) h = (k, refl, ground (arith, h), ground (arith, h))
page_at_pos hdr (negsuc k) h = absurd (ground (arith, h))

pub first_inside :
    (hdr : RmFileHdr) (k : ℕ) → 1 ≤ k → k < hdr.num_pages → page_outside hdr (pos k) ≡ false
unfolding page_outside
first_inside hdr k low high = ground (arith, low, high)

pub slot_at_pos :
    (hdr : RmFileHdr) (i : ℤ) → slot_outside hdr i ≡ false → (pos_part i < hdr.num_records_per_page)
unfolding slot_outside
slot_at_pos hdr (pos k) h = ground (arith, h)
slot_at_pos hdr (negsuc k) h = absurd (ground (arith, h))

module _ (hdr : RmFileHdr) (n s : ℕ) (buf : List ℕ) (p : RmPage) (h : IsPage n p)
    (low : s < n) where
  bits : n ≤ length p.bitmap * 8
  bits = h.bits

  pub occupy-IsPage : is_set p.bitmap s ≡ false → IsPage n (occupy hdr s buf p)
  unfolding occupy fill_slot
  occupy-IsPage off = record {
    bytes = set_bit-IsBytes p.bitmap s h.bytes;
    bits = subst (λ m. n ≤ m * 8) (sym (length-set_bit p.bitmap s)) h.bits;
    room = length-set p.slots s _ ∙ h.room;
    counted =
        let c = count-set_bit p.bitmap s n h.bytes (omega (arith, low, bits)) off low in
        let d = h.counted in omega (arith, c, d);
  }

  pub vacate-IsPage : is_set p.bitmap s ≡ true → IsPage n (vacate s p)
  unfolding vacate
  vacate-IsPage on = record {
    bytes = reset-IsBytes p.bitmap s h.bytes;
    bits = subst (λ m. n ≤ m * 8) (sym (length-reset p.bitmap s)) h.bits;
    room = h.room;
    counted =
        let c = count-reset p.bitmap s n h.bytes (omega (arith, low, bits)) on low in
        let d = h.counted in omega (arith, c, d);
  }

  -- A page with a record is not empty.
  pub some_record : is_set p.bitmap s ≡ true → 1 ≤ p.num_records
  some_record on =
      let c = count-reset p.bitmap s n h.bytes (omega (arith, low, bits)) on low in
      let d = h.counted in omega (arith, c, d)

  pub fill_slot-IsPage : IsPage n (fill_slot hdr s buf p)
  unfolding fill_slot
  fill_slot-IsPage = record {
    bytes = h.bytes;
    bits = h.bits;
    room = length-set p.slots s _ ∙ h.room;
    counted = h.counted;
  }

-- A full page is not in the free list.
pub full_apart :
    (num n : ℕ) (page : ℤ → RmPage) (ks : List ℕ) (k : ℕ)
    → (page (pos k)).num_records ≡ n
    → All (IsFree num n page) ks
    → All (λ j. j ≢ k) ks
full_apart num n page ks k full free =
    All-both (IsFree num n page) (λ j. j ≢ k)
      (λ j h e. h.2 (ap (λ m. (page (pos m)).num_records) e ∙ full)) ks free

-- Nor is it the first one.
not_first :
    (page : ℤ → RmPage) (i : ℤ) (k : ℕ) (ks : List ℕ)
    → Chain page i ks
    → All (λ j. j ≢ k) ks
    → i ≢ pos k
not_first page i k [] c apart e = let bad : negsuc 0 ≡ pos k = sym c ∙ e in cc
not_first page i k (j ∷ ks) c apart e = apart.0 (ap pos_part (sym c.0 ∙ e))

module _ (hdr : RmFileHdr) (page : ℤ → RmPage) (ks : List ℕ) (t : IsTable hdr page ks) (k s : ℕ)
    (low : 1 ≤ k) (high : k < hdr.num_pages) (slot : s < hdr.num_records_per_page) where
  abbrev p : RmPage
  p = page (pos k)

  abbrev n : ℕ
  n = hdr.num_records_per_page

  sound : IsPage n p
  sound = t.shape k low high

  pub fill_slot-IsTable :
      (buf : List ℕ) → IsTable hdr (update (pos k) (fill_slot hdr s buf p) page) ks
  unfolding fill_slot
  fill_slot-IsTable buf =
      IsTable-keep hdr page ks t k (fill_slot hdr s buf p)
        (fill_slot-IsPage hdr n s buf p sound slot) refl (λ f. f) (λ f. f)

  abbrev deleted : RmPage × RmFileHdr
  deleted = delete_from (pos k) s p hdr

  deleted_full :
      (p.num_records == n) ≡ true
      → hdr.first_free_page_no ≢ pos k
      → deleted ≡ (
        record (vacate s p) { next_free_page_no = hdr.first_free_page_no },
        record hdr { first_free_page_no = pos k },
      )
  unfolding delete_from release_page_handle
  deleted_full full apart = rw full (
      if_neg (ℤ-discrete hdr.first_free_page_no (pos k)) apart (vacate s p, hdr)
        (
          record (vacate s p) { next_free_page_no = hdr.first_free_page_no },
          record hdr { first_free_page_no = pos k },
        ))

  deleted_room : (p.num_records == n) ≡ false → deleted ≡ (vacate s p, hdr)
  unfolding delete_from
  deleted_room room = rw room refl

  vacated : (vacate s p).num_records ≡ p.num_records - 1
  unfolding vacate
  vacated = refl

  vacated_next : (vacate s p).next_free_page_no ≡ p.next_free_page_no
  unfolding vacate
  vacated_next = refl

  with_next : (i : ℤ) (q : RmPage) → IsPage n q → IsPage n (record q { next_free_page_no = i })
  with_next i q h = record { bytes = h.bytes; bits = h.bits; room = h.room; counted = h.counted }

  -- The free list after a deletion.
  pub delete_from-IsTable :
      is_set p.bitmap s ≡ true
      → (js : List ℕ) × IsTable deleted.1 (update (pos k) deleted.0 page) js
  delete_from-IsTable on =
      let q = vacate s p in
      let vacant = vacate-IsPage hdr n s [] p sound slot on in
      let some_ = some_record hdr n s [] p sound slot on in
      let After : RmPage × RmFileHdr → Type 0 =
        λ r. (js : List ℕ) × IsTable r.1 (update (pos k) r.0 page) js in
      elim (Bool-cases (p.num_records == n)) [
        | inl full ↦
            let at_n : p.num_records ≡ n = ground (arith, full) in
            let apart = full_apart hdr.num_pages n page ks k at_n t.free in
            subst After
              (sym (deleted_full full (not_first page hdr.first_free_page_no k ks t.chain apart)))
              (
                k ∷ ks,
                IsTable-push hdr page ks t k
                    (record q { next_free_page_no = hdr.first_free_page_no })
                    (with_next hdr.first_free_page_no q vacant) hdr.num_pages high low (omega arith)
                    (λ j l _. l) apart refl (λ e. omega (arith, e, vacated, at_n, some_)),
              )
        | inr room ↦
            let less : p.num_records ≢ n = ground (arith, room) in
            let most = holds_le (is_set p.bitmap) n in
            let counted = sound.counted in
            subst After (sym (deleted_room room)) (
              ks,
              IsTable-keep hdr page ks t k q vacant vacated_next
                  (λ f. absurd (omega (arith, f, vacated, most, counted, some_)))
                  (λ f. absurd (less f)),
            )
      ]

  -- The page is the first of the free list.
  module _ (buf : List ℕ) (rest : List ℕ) (first : ks ≡ k ∷ rest) where
    abbrev inserted : RmPage × RmFileHdr
    inserted = insert_into s buf p hdr

    occupied : (occupy hdr s buf p).num_records ≡ p.num_records + 1
    unfolding occupy
    occupied = refl

    occupied_next : (occupy hdr s buf p).next_free_page_no ≡ p.next_free_page_no
    unfolding occupy fill_slot
    occupied_next = refl

    inserted_full :
        ((occupy hdr s buf p).num_records == n) ≡ true
        → inserted ≡ (
          record (occupy hdr s buf p) { next_free_page_no = rm_no_page },
          record hdr { first_free_page_no = (occupy hdr s buf p).next_free_page_no },
        )
    unfolding insert_into
    inserted_full full = rw full refl

    inserted_room :
        ((occupy hdr s buf p).num_records == n) ≡ false → inserted ≡ (occupy hdr s buf p, hdr)
    unfolding insert_into
    inserted_room room = rw room refl

    -- The free list after an insertion.
    pub insert_into-IsTable :
        is_set p.bitmap s ≡ false
        → (js : List ℕ) × IsTable inserted.1 (update (pos k) inserted.0 page) js
    insert_into-IsTable off =
        let q = occupy hdr s buf p in
        let solid = occupy-IsPage hdr n s buf p sound slot off in
        let After : RmPage × RmFileHdr → Type 0 =
          λ r. (js : List ℕ) × IsTable r.1 (update (pos k) r.0 page) js in
        let free = subst (All (IsFree hdr.num_pages n page)) first t.free in
        elim (Bool-cases (q.num_records == n)) [
          | inl full ↦
              let at_n : q.num_records ≡ n = ground (arith, full) in
              subst After (sym (inserted_full full)) (
                rest,
                subst
                    (λ i.
                      IsTable (record hdr { first_free_page_no = i })
                        (update (pos k) (record q { next_free_page_no = rm_no_page }) page) rest)
                    (sym occupied_next)
                    (IsTable-pop hdr page ks t k (record q { next_free_page_no = rm_no_page })
                      (with_next rm_no_page q solid) rest first at_n),
              )
          | inr room ↦
              let less : q.num_records ≢ n = ground (arith, room) in
              subst After (sym (inserted_room room)) (
                ks,
                IsTable-keep hdr page ks t k q solid occupied_next (λ f. absurd (less f))
                    (λ f. absurd (free.0.2 f)),
              )
        ]
