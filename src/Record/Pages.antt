-- ===== src/Record/Pages.antt =====
-- src/record/rm_defs.h and `RmPageHandle` of rm_file_handle.h: the header of a table file, the page
-- of a table file as its three parts, and what a table file asks of the buffer pool.
use mathlib.Core.Path.{fun_ext}
use myrmdb.Prelude.{
  ℕ, suc, ◌-◌, ◌≡◌, refl, sym, ap, ◌∙◌, ◌≢◌, Bool, true, false, List, [], Option, none, some,
  get_or, ite, if_pos, if_neg,
}
use myrmdb.Prelude.Int.{ℤ, pos, negsuc, ℤ-discrete}
use myrmdb.Errors.{Error, Result, ok, err}

abbrev pub rm_no_page : ℤ
rm_no_page = negsuc 0

abbrev pub rm_file_hdr_page : ℤ
rm_file_hdr_page = pos 0

abbrev pub rm_first_record_page : ℤ
rm_first_record_page = pos 1

abbrev pub rm_max_record_size : ℕ
rm_max_record_size = 512

pub record RmFileHdr : Type 0 where
  pub record_size : ℕ
  pub num_pages : ℕ
  pub num_records_per_page : ℕ
  pub first_free_page_no : ℤ
  pub bitmap_size : ℕ

-- A page's bytes: its header (`RmPageHdr`), its bitmap, and its slots of `record_size` bytes each.
pub record RmPage : Type 0 where
  pub next_free_page_no : ℤ
  pub num_records : ℕ
  pub bitmap : List ℕ
  pub slots : List (List ℕ)

-- `get_slot(slot_no)`
abbrev pub get_slot : ℕ → RmPage → List ℕ
get_slot slot_no p = get_or p.slots slot_no []

-- What the pages of one file look like to its client: the bytes that belong to each page, how often
-- the page is pinned, whether bytes were written that no `unpin_page` has reported, and the number
-- that the next new page gets.
pub record View : Type 0 where
  pub page : ℤ → RmPage
  pub pins : ℤ → ℕ
  pub unsaved : ℤ → Bool
  pub next_page : ℕ

module _ {ℓ} {A : Type ℓ} where
  abbrev pub update : ℤ → A → (ℤ → A) → ℤ → A
  update i a f j = ite (ℤ-discrete i j) a (f j)

  pub update_self : (i : ℤ) (a : A) (f : ℤ → A) → update i a f i ≡ a
  update_self i a f = if_pos (ℤ-discrete i i) refl a (f i)

  pub update_ne : (i j : ℤ) (a : A) (f : ℤ → A) → i ≢ j → update i a f j ≡ f j
  update_ne i j a f ne = if_neg (ℤ-discrete i j) ne a (f j)

  -- The last update wins, and an update to the value that is there changes nothing.
  pub update-update : (i : ℤ) (a b : A) (f : ℤ → A) → update i b (update i a f) ≡ update i b f
  update-update i a b f = fun_ext λ j. elim (ℤ-discrete i j) [
    | yes e ↦ if_pos (ℤ-discrete i j) e b _ ∙ sym (if_pos (ℤ-discrete i j) e b (f j))
    | no ne ↦
        if_neg (ℤ-discrete i j) ne b _
        ∙ if_neg (ℤ-discrete i j) ne a (f j)
        ∙ sym (if_neg (ℤ-discrete i j) ne b (f j))
  ]

  pub update_same : (i : ℤ) (a : A) (f : ℤ → A) → f i ≡ a → update i a f ≡ f
  update_same i a f h = fun_ext λ j. elim (ℤ-discrete i j) [
    | yes e ↦ if_pos (ℤ-discrete i j) e a (f j) ∙ sym h ∙ ap f e
    | no ne ↦ if_neg (ℤ-discrete i j) ne a (f j)
  ]

abbrev pub pin : ℤ → View → View
pin i v = record v { pins = update i (suc (v.pins i)) v.pins }

abbrev pub unpin : ℤ → Bool → View → View
unpin i is_dirty v = record v {
  pins = update i (v.pins i - 1) v.pins;
  unsaved = elim is_dirty [ true ↦ update i false v.unsaved | false ↦ v.unsaved ];
}

abbrev pub put : ℤ → RmPage → View → View
put i p v = record v { page = update i p v.page; unsaved = update i true v.unsaved }

-- A page of zeros.
abbrev pub zero_page : List ℕ → List (List ℕ) → RmPage
zero_page bitmap slots = record {
  next_free_page_no = pos 0;
  num_records = 0;
  bitmap = bitmap;
  slots = slots;
}

-- The operations of the buffer pool on one file, by what they do to the view. `ok false` and `none`
-- stand for the null pointer. The laws are about a file whose pages can be read: a fetch throws
-- where writing back another page fails, but not because the page that it asks for cannot be read.
-- What such a read leaves in the pool is in Storage/Pool/Faults.antt.
pub record Pages : Type 1 where
  pub State : Type 0
  pub view : State → View
  pub blank : RmPage
  pub fetch_page : ℤ → State → Result Bool × State
  pub unpin_page : ℤ → Bool → State → State
  pub new_page : State → Result (Option ℤ) × State
  -- Bytes written through the pointer to a frame.
  pub write_frame : ℤ → RmPage → State → State
  pub view-fetch_page :
      (i : ℤ) (s : State) → (fetch_page i s).0 ≡ ok true → view (fetch_page i s).1 ≡ pin i (view s)
  pub view-fetch_page_null :
      (i : ℤ) (s : State) → (fetch_page i s).0 ≢ ok true → view (fetch_page i s).1 ≡ view s
  -- A page that is unpinned as clean must not have been written.
  pub view-unpin_page :
      (i : ℤ) (is_dirty : Bool) (s : State)
      → (view s).pins i ≢ 0
      → (is_dirty ≡ false → (view s).unsaved i ≡ false)
      → view (unpin_page i is_dirty s) ≡ unpin i is_dirty (view s)
  pub view-write_frame :
      (i : ℤ) (p : RmPage) (s : State)
      → (view s).pins i ≢ 0
      → view (write_frame i p s) ≡ put i p (view s)
  -- A new page is one of zeros that is not on disk yet.
  pub view-new_page :
      (i : ℤ) (s : State)
      → (new_page s).0 ≡ ok (some i)
      → (i ≡ pos (view s).next_page)
        × (view (new_page s).1
            ≡ pin i (put i blank (record (view s) { next_page = suc (view s).next_page })))
  -- Where every frame is pinned there is no page, and no number is taken for it.
  pub view-new_page_null : (s : State) → (new_page s).0 ≡ ok none → view (new_page s).1 ≡ view s
  -- The number is taken before the page that leaves the frame is written back, which may throw.
  pub view-new_page_throws :
      (e : Error) (s : State)
      → (new_page s).0 ≡ err e
      → view (new_page s).1 ≡ record (view s) { next_page = suc (view s).next_page }
