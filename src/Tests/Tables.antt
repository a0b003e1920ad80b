-- ===== src/Tests/Tables.antt =====
-- Table files over pages that are kept in memory and never run out.
use myrmdb.Prelude.{
  ℕ, ◌+◌, ◌*◌, ◌≤◌, suc, ◌≡◌, ◌≢◌, refl, sym, ap, true, false, List, [], ◌∷◌, none, some, arith,
  ℕ_discrete, ◌⊎◌,
}
use myrmdb.Prelude.Assoc
use myrmdb.Prelude.Int.{ℤ, ℤ-discrete, pos, negsuc}
use myrmdb.Concurrency.Transaction.{Rid}
use myrmdb.Errors.{ok, err, ok_inj, ok_ne_err, unix_error}
use myrmdb.Record.Bitmap.{is_set, init, set_bit, first_bit, next_bit, scan}
use myrmdb.Record.Pages.{RmPage, View, Pages, pin, unpin, put, zero_page}
use myrmdb.Record.Table.{
  then_, create_page_handle, create_new_page_handle, made, fetch_page_handle, fetched, outside,
  page_outside, slot_outside, insert_into, occupy, fill_slot, RmFileHandle, get_record,
  update_record, delete_record, insert_record,
}
use myrmdb.Record.Manager.{page_size, slots_offset, new_file_hdr, checked_hdr}
use myrmdb.Record.Manager.Layout.{checked_hdr-IsOpen}
use myrmdb.Record.Scan.{next}
use myrmdb.Record.Scan.Next.{Fails, Arrives, next-Arrives}
use myrmdb.Record.Table.Append.{Ended, append_pages-ends}
use myrmdb.Record.Table.Access.{Ends, Untouched}
use myrmdb.Record.Table.Create.{NoRoom, Skips}
use myrmdb.Record.Table.FreeList.{IsPage}
use myrmdb.Record.Table.Insert.{Inserted, insert_record-Inserted}
use myrmdb.Record.Table.Keeps.{IsOpen}
use myrmdb.Record.Table.Lookup.{
  Missing, lookup, get_record-Lookup, update_record-Sets, delete_record-Sets,
}
use myrmdb.Record.Table.Open.{IsOpenFile}
use myrmdb.Record.Table.Records.{Sets}

abbrev blank_page : RmPage
blank_page = zero_page (0 ∷ []) ((0 ∷ 0 ∷ []) ∷ (0 ∷ 0 ∷ []) ∷ [])

abbrev fresh_view : View → View
fresh_view v =
    pin (pos v.next_page)
      (put (pos v.next_page) blank_page (record v { next_page = suc v.next_page }))

abbrev memory : Pages
memory = record {
  State = View;
  view = λ v. v;
  blank = blank_page;
  fetch_page = λ i v. (ok true, pin i v);
  unpin_page = λ i is_dirty v. unpin i is_dirty v;
  new_page = λ v. (ok (some (pos v.next_page)), fresh_view v);
  write_frame = λ i p v. put i p v;
  view-fetch_page = λ i v e. refl;
  view-fetch_page_null = λ i v e. absurd (e refl);
  view-unpin_page = λ i is_dirty v e h. refl;
  view-write_frame = λ i p v e. refl;
  view-new_page = λ i v e.
      let first : pos v.next_page ≡ i = Assoc.some_inj (ok_inj e) in
      (
        sym first,
        ap (λ j. pin j (put j blank_page (record v { next_page = suc v.next_page }))) first,
      );
  view-new_page_null = λ v e. let bad : some (pos v.next_page) ≡ none = ok_inj e in cc;
  view-new_page_throws = λ x v e. absurd (ok_ne_err e);
}

abbrev view_with : (ℤ → RmPage) → ℕ → View
view_with page next = record { page = page; pins = λ _. 0; unsaved = λ _. false; next_page = next }

-- A file without records, with room for two on a page.
abbrev no_records : RmFileHandle memory
no_records = record {
  file_hdr = record {
    record_size = 2;
    num_pages = 1;
    num_records_per_page = 2;
    first_free_page_no = negsuc 0;
    bitmap_size = 1;
  };
  state = view_with (λ _. blank_page) 1;
}

no_records-IsOpen : IsOpenFile memory no_records []
no_records-IsOpen = record {
  table = record {
    some_slot = omega arith;
    has_header = omega arith;
    shape = λ k low high. absurd (omega (arith, low, high));
    chain = refl;
    free = tt;
    once = tt;
    complete = λ k low high _. absurd (omega (arith, low, high));
  };
  numbered = refl;
  calm = λ i. refl;
  sized = omega arith;
}

abbrev full_slot : RmPage
full_slot = record {
  next_free_page_no = negsuc 0;
  num_records = 1;
  bitmap = 128 ∷ [];
  slots = (7 ∷ 8 ∷ []) ∷ (0 ∷ 0 ∷ []) ∷ [];
}

-- A file with one record, in the first slot of its page.
abbrev one_record : RmFileHandle memory
one_record = record {
  file_hdr = record {
    record_size = 2;
    num_pages = 2;
    num_records_per_page = 2;
    first_free_page_no = pos 1;
    bitmap_size = 1;
  };
  state = view_with (λ _. full_slot) 2;
}

full_slot-IsPage : IsPage 2 full_slot
unfolding is_set
full_slot-IsPage = record {
  bytes = (omega arith, tt);
  bits = omega arith;
  room = refl;
  counted = refl;
}

one_record-IsOpen : IsOpenFile memory one_record (1 ∷ [])
one_record-IsOpen = record {
  table = record {
    some_slot = omega arith;
    has_header = omega arith;
    shape = λ k low high. full_slot-IsPage;
    chain = (refl, refl);
    free = ((omega arith, omega arith, λ e. omega (arith, e)), tt);
    once = (tt, tt);
    complete = λ k low high apart. absurd (apart.0 (omega (arith, low, high)));
  };
  numbered = refl;
  calm = λ i. refl;
  sized = omega arith;
}

abbrev first_rid : Rid
first_rid = record { page_no = pos 1; slot_no = pos 0 }

insert_record-Inserted_example :
    Ends memory no_records
      (insert_record memory (7 ∷ 8 ∷ []) no_records)
      (NoRoom memory no_records)
      (Inserted memory no_records (7 ∷ 8 ∷ []))
    ⊎ Skips memory no_records (insert_record memory (7 ∷ 8 ∷ []) no_records)
insert_record-Inserted_example =
    insert_record-Inserted memory no_records (7 ∷ 8 ∷ []) [] no_records-IsOpen refl

get_record-Lookup_example :
    Ends memory one_record
      (get_record memory first_rid one_record)
      (Missing memory first_rid one_record)
      (λ r u. (lookup memory one_record first_rid ≡ some r) × Untouched memory one_record u)
get_record-Lookup_example = get_record-Lookup memory first_rid one_record (1 ∷ []) one_record-IsOpen

update_record-Sets_example :
    Ends memory one_record
      (update_record memory first_rid (9 ∷ 9 ∷ []) one_record)
      (Missing memory first_rid one_record)
      (λ _ u.
        (lookup memory one_record first_rid ≢ none)
        × IsOpenFile memory u (1 ∷ [])
        × Sets first_rid (some (9 ∷ 9 ∷ [])) (lookup memory one_record) (lookup memory u))
update_record-Sets_example =
    update_record-Sets memory first_rid one_record (1 ∷ []) one_record-IsOpen (9 ∷ 9 ∷ [])

delete_record-Sets_example :
    Ends memory one_record
      (delete_record memory first_rid one_record)
      (Missing memory first_rid one_record)
      (λ _ u.
        (lookup memory one_record first_rid ≢ none)
        × ((js : List ℕ) × IsOpenFile memory u js)
        × Sets first_rid none (lookup memory one_record) (lookup memory u))
delete_record-Sets_example =
    delete_record-Sets memory first_rid one_record (1 ∷ []) one_record-IsOpen

next-Arrives_example :
    Ends memory one_record
      (next memory (record { page_no = pos 1; slot_no = negsuc 0 }) one_record)
      (Fails memory 1 one_record)
      (Arrives memory 1 0 one_record)
next-Arrives_example =
    next-Arrives memory (record { page_no = pos 1; slot_no = negsuc 0 }) 1 one_record (λ i. refl)
      refl (omega arith) (omega arith)

append_pages-ends_example : Ended memory 3 no_records
append_pages-ends_example = append_pages-ends memory 3 no_records

checked_hdr-IsOpen_example :
    (slots_offset (new_file_hdr 64)
        + (new_file_hdr 64).num_records_per_page * (new_file_hdr 64).record_size
      ≤ page_size)
    × IsOpen (new_file_hdr 64) (view_with (λ _. blank_page) 1) []
unfolding checked_hdr new_file_hdr
checked_hdr-IsOpen_example =
    checked_hdr-IsOpen 64 (new_file_hdr 64) (view_with (λ _. blank_page) 1) refl refl (λ i. refl)

-- What was inserted is read back, at the first slot of the first page.
reads_back :
    (get_record memory first_rid (insert_record memory (7 ∷ 8 ∷ []) no_records).1).0
    ≡ ok (7 ∷ 8 ∷ [])
unfolding get_record insert_record then_ create_page_handle create_new_page_handle made
    fetch_page_handle fetched outside page_outside slot_outside insert_into occupy fill_slot set_bit
    init is_set first_bit next_bit ℤ-discrete ℕ_discrete scan
reads_back = refl

-- Pages whose pool cannot write a page back, so that it throws where it is to make a new page.
abbrev full_disk : Pages
full_disk = record {
  State = View;
  view = λ v. v;
  blank = blank_page;
  fetch_page = λ i v. (ok true, pin i v);
  unpin_page = λ i is_dirty v. unpin i is_dirty v;
  new_page = λ v. (err unix_error, record v { next_page = suc v.next_page });
  write_frame = λ i p v. put i p v;
  view-fetch_page = λ i v e. refl;
  view-fetch_page_null = λ i v e. absurd (e refl);
  view-unpin_page = λ i is_dirty v e h. refl;
  view-write_frame = λ i p v e. refl;
  view-new_page = λ i v e. absurd (ok_ne_err (sym e));
  view-new_page_null = λ v e. absurd (ok_ne_err (sym e));
  view-new_page_throws = λ x v e. refl;
}

abbrev no_room : RmFileHandle full_disk
no_room = record { file_hdr = no_records.file_hdr; state = no_records.state }

-- The insertion throws, and the number of a page is lost.
loses_number :
    ((insert_record full_disk (7 ∷ 8 ∷ []) no_room).0 ≡ err unix_error)
    × ((insert_record full_disk (7 ∷ 8 ∷ []) no_room).1.state.next_page ≡ 2)
    × ((insert_record full_disk (7 ∷ 8 ∷ []) no_room).1.file_hdr.num_pages ≡ 1)
unfolding insert_record then_ create_page_handle create_new_page_handle made ℤ-discrete ℕ_discrete
loses_number = (refl, refl, refl)
