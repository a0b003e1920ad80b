-- ===== src/Record/Manager/Layout.antt =====
-- The header of a new table file: its pages hold what it says, and the file is an open one.
use mathlib.Core.Path.{subst}
use native.Mathlib.Nat.{div-mul-le_self, le-div_iff_mul-le}
use myrmdb.Prelude.{
  ℕ, ◌+◌, ◌-◌, ◌*◌, ◌/◌, ◌≤◌, ◌≡◌, refl, sym, Bool, true, false, ltb, ◌||◌, if◌then◌else◌, [],
  arith,
}
use myrmdb.Errors.{ok, err, invalid_record_size, ok_inj, ok_ne_err}
use myrmdb.Record.Pages.{RmFileHdr, View, rm_no_page, rm_max_record_size}
use myrmdb.Record.Manager.{page_size, slots_offset, new_file_hdr, checked_hdr}
use myrmdb.Record.Table.Access.{IsCalm}
use myrmdb.Record.Table.Keeps.{IsOpen}

-- The slots of `n` records of `size` bytes fit behind the bitmap.
slots_fit : (size n : ℕ) → n * (1 + size * 8) ≤ 32601 → 4 + 8 + (n + 8 - 1) / 8 + n * size ≤ 4096
slots_fit size n h =
    let k = n * size in
    let expand : n * (1 + size * 8) ≡ n + k * 8 = grind arith in omega (arith, h, expand)

module _ (size : ℕ) (low : 1 ≤ size) (high : size ≤ 512) where
  abbrev made_hdr : RmFileHdr
  made_hdr = new_file_hdr size

  abbrev n : ℕ
  n = made_hdr.num_records_per_page

  fits : slots_offset made_hdr + n * size ≤ page_size
  unfolding new_file_hdr
  fits = slots_fit size n (div-mul-le_self 32601 (1 + size * 8))

  some_slot : 1 ≤ n
  unfolding new_file_hdr
  some_slot = (le-div_iff_mul-le (omega arith)).1 (omega (arith, high))

  sized : n ≤ made_hdr.bitmap_size * 8
  unfolding new_file_hdr
  sized = omega arith

  one_page : made_hdr.num_pages ≡ 1
  unfolding new_file_hdr
  one_page = refl

  no_free : made_hdr.first_free_page_no ≡ rm_no_page
  unfolding new_file_hdr
  no_free = refl

  new_IsOpen : (v : View) → v.next_page ≡ made_hdr.num_pages → IsCalm v → IsOpen made_hdr v []
  new_IsOpen v numbered calm = record {
    table = record {
      some_slot = some_slot;
      has_header = omega (arith, one_page);
      shape = λ k l h. absurd (omega (arith, l, h, one_page));
      chain = no_free;
      free = tt;
      once = tt;
      complete = λ k l h _. absurd (omega (arith, l, h, one_page));
    };
    numbered = numbered;
    calm = calm;
    sized = sized;
  }

accepted :
    (size : ℕ) (bad : Bool) (hdr : RmFileHdr)
    → (if bad then err invalid_record_size else ok (new_file_hdr size)) ≡ ok hdr
    → (bad ≡ false) × (hdr ≡ new_file_hdr size)
accepted size true hdr e = absurd (ok_ne_err (sym e))
accepted size false hdr e = (refl, sym (ok_inj e))

in_range :
    (size : ℕ) → (ltb size 1 || ltb rm_max_record_size size) ≡ false → (1 ≤ size) × (size ≤ 512)
in_range size h = (ground (arith, h), ground (arith, h))

size_kept : (size : ℕ) → (new_file_hdr size).record_size ≡ size
unfolding new_file_hdr
size_kept size = refl

-- If `create_file` accepts a record size, a page has room for its lsn, its header, the bitmap and
-- all slots, and the new file is an open one without records, whatever is on its pages.
pub checked_hdr-IsOpen :
    (size : ℕ) (hdr : RmFileHdr) (v : View)
    → checked_hdr size ≡ ok hdr
    → v.next_page ≡ hdr.num_pages
    → IsCalm v
    → (slots_offset hdr + hdr.num_records_per_page * hdr.record_size ≤ page_size) × IsOpen hdr v []
unfolding checked_hdr
checked_hdr-IsOpen size hdr v e numbered calm =
    let a = accepted size (ltb size 1 || ltb rm_max_record_size size) hdr e in
    let within = in_range size a.0 in
    let new = new_file_hdr size in
    let P : RmFileHdr → Type 0 = λ h.
      v.next_page ≡ h.num_pages
      → (slots_offset h + h.num_records_per_page * h.record_size ≤ page_size) × IsOpen h v [] in
    let proof : P new = λ next. (
      subst (λ m. slots_offset new + new.num_records_per_page * m ≤ page_size)
          (sym (size_kept size)) (fits size within.0 within.1),
      new_IsOpen size within.0 within.1 v next calm,
    ) in
    subst P (sym a.1) proof numbered
