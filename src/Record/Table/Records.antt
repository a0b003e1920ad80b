-- ===== src/Record/Table/Records.antt =====
-- The records of a table file, as a map from positions to bytes.
use mathlib.Core.Path.{subst}
use myrmdb.Prelude.{
  ℕ, ◌*◌, ◌<◌, ◌≡◌, ◌≢◌, refl, sym, ap, ◌∙◌, true, false, ◌==◌, ◌⊎◌, inl, inr, take-take, List,
  Option, none, some, take, arith, Bool-cases, if◌then◌else◌, length, [], get_or-set_self,
  get_or-set_ne,
}
use myrmdb.Prelude.Int.{ℤ, pos, negsuc, pos_part, ℤ-discrete}
use myrmdb.Concurrency.Transaction.{Rid}
use myrmdb.Record.Bitmap.{is_set}
use myrmdb.Record.Bitmap.Bits.{is_set-set_bit, is_set-reset}
use myrmdb.Record.Pages.{RmFileHdr, RmPage, get_slot, update, update_self, update_ne}
use myrmdb.Record.Table.{outside, slot_outside, page_outside, occupy, vacate, fill_slot}
use myrmdb.Record.Table.Calls.{outside-false}
use myrmdb.Record.Table.FreeList.{IsPage}

-- The bytes in a slot, if it has a record.
abbrev pub slot_at : ℕ → RmPage → ℕ → Option (List ℕ)
slot_at size p s = if is_set p.bitmap s then some (take size (get_slot s p)) else none

unfoldable pub record_at : RmFileHdr → (ℤ → RmPage) → Rid → Option (List ℕ)
record_at hdr page rid =
    if outside hdr rid
    then none
    else slot_at hdr.record_size (page rid.page_no) (pos_part rid.slot_no)

-- The map `new` is `old` but at one position.
abbrev pub Sets : Rid → Option (List ℕ) → (Rid → Option (List ℕ)) → (Rid → Option (List ℕ)) → Type 0
Sets rid x old new = (new rid ≡ x) × ((r : Rid) → r ≢ rid → new r ≡ old r)

-- Likewise for the slots of one page.
abbrev pub SetsSlot : ℕ → ℕ → Option (List ℕ) → RmPage → RmPage → Type 0
SetsSlot size s x p q =
    (slot_at size q s ≡ x) × ((j : ℕ) → j ≢ s → slot_at size q j ≡ slot_at size p j)

-- What a position's tests read of a header.
abbrev pub SameRoom : RmFileHdr → RmFileHdr → Type 0
SameRoom a b =
    (a.num_pages ≡ b.num_pages)
    × (a.num_records_per_page ≡ b.num_records_per_page)
    × (a.record_size ≡ b.record_size)

slot_pos : (hdr : RmFileHdr) (i : ℤ) → slot_outside hdr i ≡ false → i ≡ pos (pos_part i)
unfolding slot_outside
slot_pos hdr (pos k) h = refl
slot_pos hdr (negsuc k) h = absurd (ground (arith, h))

apart_slots :
    (hdr : RmFileHdr) (r rid : Rid)
    → outside hdr r ≡ false
    → outside hdr rid ≡ false
    → rid.page_no ≡ r.page_no
    → r ≢ rid
    → pos_part r.slot_no ≢ pos_part rid.slot_no
apart_slots hdr r rid a b pages ne e =
    let slots : r.slot_no ≡ rid.slot_no =
      slot_pos hdr r.slot_no (outside-false hdr r a).1
      ∙ ap pos e
      ∙ sym (slot_pos hdr rid.slot_no (outside-false hdr rid b).1) in
    ne (λ k. record { page_no = sym pages k; slot_no = slots k })

same_outside : (a b : RmFileHdr) → SameRoom a b → (r : Rid) → outside a r ≡ outside b r
unfolding outside page_outside slot_outside
same_outside a b h r = rw (h.0, h.1) refl

-- A page stored with one slot changed changes one record.
pub store-Sets :
    (hdr hdr' : RmFileHdr) (page : ℤ → RmPage) (q : RmPage) (rid : Rid) (x : Option (List ℕ))
    → SameRoom hdr' hdr
    → outside hdr rid ≡ false
    → SetsSlot hdr.record_size (pos_part rid.slot_no) x (page rid.page_no) q
    → Sets rid x (record_at hdr page) (record_at hdr' (update rid.page_no q page))
unfolding record_at
store-Sets hdr hdr' page q rid x same inside slots = (
  rw (same_outside hdr' hdr same rid, inside, same.2, update_self rid.page_no q page) slots.0,
  λ r ne. elim (Bool-cases (outside hdr r)) [
    | inl out ↦ rw (same_outside hdr' hdr same r, out) refl
    | inr in_ ↦ elim (ℤ-discrete rid.page_no r.page_no) [
      | yes e ↦
          rw (same_outside hdr' hdr same r, in_, same.2)
            (subst
              (λ i.
                slot_at hdr.record_size (update rid.page_no q page i) (pos_part r.slot_no)
                ≡ slot_at hdr.record_size (page i) (pos_part r.slot_no))
              e
              (rw (update_self rid.page_no q page)
                (slots.1 (pos_part r.slot_no) (apart_slots hdr r rid in_ inside e ne))))
      | no away ↦
          rw
            (same_outside hdr' hdr same r, in_, same.2, update_ne rid.page_no r.page_no q page away)
            refl
    ]
  ],
)

fill_slot-bitmap :
    (hdr : RmFileHdr) (s : ℕ) (buf : List ℕ) (p : RmPage)
    → (fill_slot hdr s buf p).bitmap ≡ p.bitmap
unfolding fill_slot
fill_slot-bitmap hdr s buf p = refl

eq_same : (s : ℕ) → (s == s) ≡ true
eq_same s = ground arith

eq_apart : (s j : ℕ) → j ≢ s → (s == j) ≡ false
eq_apart s j ne = ground arith

module _ (hdr : RmFileHdr) (n s : ℕ) (buf : List ℕ) (p : RmPage) (h : IsPage n p)
    (low : s < n) where
  in_bits : s < length p.bitmap * 8
  in_bits = let b = h.bits in omega (arith, low, b)

  in_room : s < length p.slots
  in_room = let r = h.room in omega (arith, low, r)

  abbrev new_bytes : List ℕ
  new_bytes = take hdr.record_size buf

  filled : take hdr.record_size (get_slot s (fill_slot hdr s buf p)) ≡ new_bytes
  unfolding fill_slot
  filled =
      rw (get_or-set_self p.slots s new_bytes [] in_room)
        (take-take hdr.record_size hdr.record_size buf (omega arith))

  not_filled : (j : ℕ) → j ≢ s → get_slot j (fill_slot hdr s buf p) ≡ get_slot j p
  unfolding fill_slot
  not_filled j ne = get_or-set_ne p.slots s j new_bytes [] (λ e. ne (sym e))

  pub occupy-SetsSlot : SetsSlot hdr.record_size s (some new_bytes) p (occupy hdr s buf p)
  unfolding occupy
  occupy-SetsSlot = (
    rw (is_set-set_bit p.bitmap s s h.bytes in_bits, eq_same s, filled) refl,
    λ j ne. rw (is_set-set_bit p.bitmap s j h.bytes in_bits, eq_apart s j ne, not_filled j ne) refl,
  )

  pub vacate-SetsSlot : SetsSlot hdr.record_size s none p (vacate s p)
  unfolding vacate
  vacate-SetsSlot = (
    rw (is_set-reset p.bitmap s s h.bytes in_bits, eq_same s) refl,
    λ j ne. rw (is_set-reset p.bitmap s j h.bytes in_bits, eq_apart s j ne) refl,
  )

  pub fill_slot-SetsSlot :
      is_set p.bitmap s ≡ true
      → SetsSlot hdr.record_size s (some new_bytes) p (fill_slot hdr s buf p)
  fill_slot-SetsSlot on =
      (rw (filled_bitmap, on, filled) refl, λ j ne. rw (filled_bitmap, not_filled j ne) refl)
    where
      filled_bitmap : (fill_slot hdr s buf p).bitmap ≡ p.bitmap
      filled_bitmap = fill_slot-bitmap hdr s buf p

-- A record that is there is found.
pub record_at-some :
    (hdr : RmFileHdr) (page : ℤ → RmPage) (rid : Rid)
    → outside hdr rid ≡ false
    → is_set (page rid.page_no).bitmap (pos_part rid.slot_no) ≡ true
    → record_at hdr page rid
      ≡ some (take hdr.record_size (get_slot (pos_part rid.slot_no) (page rid.page_no)))
unfolding record_at
record_at-some hdr page rid inside on = rw (inside, on) refl

-- And one that is not there is not.
pub record_at-none :
    (hdr : RmFileHdr) (page : ℤ → RmPage) (rid : Rid)
    → (outside hdr rid ≡ true) ⊎ (is_set (page rid.page_no).bitmap (pos_part rid.slot_no) ≡ false)
    → record_at hdr page rid ≡ none
unfolding record_at
record_at-none hdr page rid (inl out) = rw out refl
record_at-none hdr page rid (inr off) = elim (Bool-cases (outside hdr rid)) [
  | inl out ↦ rw out refl
  | inr inside ↦ rw (inside, off) refl
]
