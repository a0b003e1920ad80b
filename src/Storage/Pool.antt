-- ===== src/Storage/Pool.antt =====
-- src/storage/buffer_pool_manager.h and buffer_pool_manager.cpp, over any disk manager. Each method
-- runs under `latch_`: it takes the pool to a pool, with a result or the exception that it lets
-- through, and what it wrote before the exception stays written. A `Page*` is the number of its
-- frame. `deallocate_page` of the disk manager has an empty body and is left out.
pub mod Valid
pub mod Victim
pub mod Evict
pub mod Repaint
pub mod Settle
pub mod Fetch
pub mod Release
pub mod Runs
pub mod Faults
use myrmdb.Prelude.{
  ℕ, zero, suc, ◌+◌, ◌-◌, Bool, true, false, List, [], ◌∷◌, ◌++◌, Option, none, some, get_or, set,
  replicate, ◌==◌, if◌then◌else◌, ite, ℕ_discrete,
}
use myrmdb.Prelude.Assoc
use myrmdb.Prelude.Int.{ℤ-discrete}
use myrmdb.Storage.Page.{PageId, PageId-discrete, invalid_page_id}
use myrmdb.Storage.Replacer
use myrmdb.Storage.Replacer.{LruReplacer, lru_replacer}
use myrmdb.Storage.Disk.{Disk, Result, ok, err}

-- The values 0, …, n - 1.
abbrev pub upto : ℕ → List ℕ
upto zero = []
upto (suc n) = upto n ++ n ∷ []

module _ (disk : Disk) where
  open disk use {State, Data, partial, read_page, write_page, allocate_page}

  pub record Page : Type 0 where
    pub id : PageId
    pub data_ : Data
    pub is_dirty : Bool
    pub pin_count : ℕ

  pub record Pool : Type 0 where
    pub pages : List Page
    pub page_table : List (PageId × ℕ)
    pub free_list : List ℕ
    pub replacer : LruReplacer
    pub disk_state : State

  -- A page as its constructor leaves it. `fd` has no initial value there.
  abbrev pub blank : Page
  blank = record {
    id = record { fd = 0; page_no = invalid_page_id };
    data_ = disk.zero;
    is_dirty = false;
    pin_count = 0;
  }

  -- The constructor.
  unfoldable pub new_pool : ℕ → State → Pool
  new_pool pool_size s = record {
    pages = replicate pool_size blank;
    page_table = [];
    free_list = upto pool_size;
    replacer = lru_replacer pool_size;
    disk_state = s;
  }

  -- `pages_[f]`
  abbrev pub page_at : ℕ → Pool → Page
  page_at f p = get_or p.pages f blank

  abbrev pub put_page : ℕ → Page → Pool → Pool
  put_page f x p = record p { pages = set p.pages f x }

  abbrev pub find : PageId → Pool → Option ℕ
  find i p = Assoc.lookup PageId-discrete i p.page_table

  abbrev pub Exec : Type 0 → Type 0
  Exec A = Pool → Result A × Pool

  pub take_frame : List ℕ → Pool → Option ℕ × Pool
  take_frame [] p = let (f, r) = Replacer.victim p.replacer in (f, record p { replacer = r })
  take_frame (f ∷ rest) p = (some f, record p { free_list = rest })

  -- `none` stands for false.
  unfoldable pub find_victim_page : Pool → Option ℕ × Pool
  unfolding take_frame
  find_victim_page p = take_frame p.free_list p

  -- `disk_manager_->write_page(i, x)`
  write_out : PageId → Data → Exec (Unit {0})
  write_out i d p = let (r, s) = write_page i d p.disk_state in (r, record p { disk_state = s })

  write_back : Bool → PageId → Data → Exec (Unit {0})
  unfolding write_out
  write_back true i d p = write_out i d p
  write_back false i d p = (ok tt, p)

  -- The part of `update_page` for a frame that holds a page: it is written back if it is dirty, and
  -- its entry is erased unless that throws.
  evict_step : PageId → Result (Unit {0}) × Pool → Result (Unit {0}) × Pool
  evict_step i (ok _, p) =
      (ok tt, record p { page_table = Assoc.erase PageId-discrete i p.page_table })
  evict_step i (err e, p) = (err e, p)

  unfoldable pub evict : ℕ → Exec (Unit {0})
  unfolding write_back evict_step
  evict f p =
      let x = page_at f p in
      ite (ℤ-discrete x.id.page_no invalid_page_id) (ok tt, p)
        (evict_step x.id (write_back x.is_dirty x.id x.data_ p))

  -- The rest of `update_page`.
  pub install : ℕ → PageId → Pool → Pool
  install f i p =
      let q =
        put_page f (record { id = i; data_ = disk.zero; is_dirty = false; pin_count = 0 }) p in
      ite (ℤ-discrete i.page_no invalid_page_id) q
        (record q { page_table = Assoc.insert PageId-discrete i f q.page_table })

  update_step : ℕ → PageId → Result (Unit {0}) × Pool → Result (Unit {0}) × Pool
  update_step f i (ok _, p) = (ok tt, install f i p)
  update_step f i (err e, p) = (err e, p)

  unfoldable pub update_page : ℕ → PageId → Exec (Unit {0})
  unfolding evict install update_step
  update_page f i p = update_step f i (evict f p)

  -- `pin_count_ = 1` and `replacer_->pin`, after the data is in the frame.
  pub hold : ℕ → Page → Pool → Pool
  hold f x p = record (put_page f (record x { pin_count = 1 }) p) {
    replacer = Replacer.pin f p.replacer;
  }

  -- `read_page` into the frame.
  load_step : ℕ → PageId → Result Data → Exec (Option ℕ)
  unfolding hold
  load_step f i (ok d) p = (ok (some f), hold f (record (page_at f p) { data_ = d }) p)
  load_step f i (err e) p =
      (err e, put_page f (record (page_at f p) { data_ = partial i p.disk_state }) p)

  load : ℕ → PageId → Result (Unit {0}) × Pool → Result (Option ℕ) × Pool
  unfolding load_step
  load f i (ok _, p) = load_step f i (read_page i p.disk_state) p
  load f i (err e, p) = (err e, p)

  pub fetch_miss : PageId → Option ℕ × Pool → Result (Option ℕ) × Pool
  unfolding load update_page
  fetch_miss i (none, p) = (ok none, p)
  fetch_miss i (some f, p) = load f i (update_page f i p)

  pub fetch_hit : ℕ → Pool → Pool
  fetch_hit f p =
      let x = page_at f p in
      record (put_page f (record x { pin_count = x.pin_count + 1 }) p) {
        replacer = Replacer.pin f p.replacer;
      }

  -- `ok none` stands for the null pointer.
  unfoldable pub fetch_page : PageId → Exec (Option ℕ)
  unfolding fetch_miss fetch_hit find_victim_page
  fetch_page i p = elim (find i p) [
    | some f ↦ (ok (some f), fetch_hit f p)
    | none ↦ fetch_miss i (find_victim_page p)
  ]

  pub unpin_frame : ℕ → Bool → Pool → Pool
  unpin_frame f is_dirty p =
      let x = page_at f p in
      let dirty = if is_dirty then true else x.is_dirty in
      let q = put_page f (record x { is_dirty = dirty; pin_count = x.pin_count - 1 }) p in
      if x.pin_count - 1 == 0 then record q { replacer = Replacer.unpin f p.replacer } else q

  unfoldable pub unpin_page : PageId → Bool → Pool → Bool × Pool
  unfolding unpin_frame
  unpin_page i is_dirty p = elim (find i p) [
    | none ↦ (false, p)
    | some f ↦ if (page_at f p).pin_count == 0 then (false, p) else (true, unpin_frame f is_dirty p)
  ]

  clean_step : ℕ → Result (Unit {0}) × Pool → Result Bool × Pool
  clean_step f (ok _, p) = (ok true, put_page f (record (page_at f p) { is_dirty = false }) p)
  clean_step f (err e, p) = (err e, p)

  unfoldable pub flush_page : PageId → Exec Bool
  unfolding clean_step write_out
  flush_page i p = elim (find i p) [
    | none ↦ (ok false, p)
    | some f ↦ clean_step f (write_out i (page_at f p).data_ p)
  ]

  -- `page_id->page_no` is the second part of the result.
  new_step : ℕ → PageId → Result (Unit {0}) × Pool → Result (Option (ℕ × PageId)) × Pool
  unfolding hold
  new_step f i (ok _, p) = (ok (some (f, i)), hold f (page_at f p) p)
  new_step f i (err e, p) = (err e, p)

  new_miss : ℕ → Option ℕ × Pool → Result (Option (ℕ × PageId)) × Pool
  unfolding new_step update_page
  new_miss fd (none, p) = (ok none, p)
  new_miss fd (some f, p) =
      let (n, s) = allocate_page fd p.disk_state in
      let i : PageId = record { fd = fd; page_no = n } in
      new_step f i (update_page f i (record p { disk_state = s }))

  unfoldable pub new_page : ℕ → Exec (Option (ℕ × PageId))
  unfolding new_miss find_victim_page
  new_page fd p = new_miss fd (find_victim_page p)

  delete_frame : ℕ → PageId → Pool → Pool
  delete_frame f i p = record p {
    pages = set p.pages f (record {
      id = record { fd = i.fd; page_no = invalid_page_id };
      data_ = disk.zero;
      is_dirty = false;
      pin_count = 0;
    });
    page_table = Assoc.erase PageId-discrete i p.page_table;
    free_list = p.free_list ++ f ∷ [];
    replacer = Replacer.pin f p.replacer;
  }

  unfoldable pub delete_page : PageId → Pool → Bool × Pool
  unfolding delete_frame
  delete_page i p = elim (find i p) [
    | none ↦ (true, p)
    | some f ↦ if (page_at f p).pin_count == 0 then (true, delete_frame f i p) else (false, p)
  ]

  flush_rest : Result Bool × Pool → (Pool → Result (Unit {0}) × Pool) → Result (Unit {0}) × Pool
  flush_rest (ok _, p) k = k p
  flush_rest (err e, p) k = (err e, p)

  -- The loop of `flush_all_pages` over the entries of the page table that are left.
  pub flush_entries : ℕ → List (PageId × ℕ) → Exec (Unit {0})
  unfolding flush_rest clean_step write_out
  flush_entries fd [] p = (ok tt, p)
  flush_entries fd ((i, f) ∷ es) p =
      ite (ℕ_discrete i.fd fd)
        (flush_rest (clean_step f (write_out i (page_at f p).data_ p)) (flush_entries fd es))
        (flush_entries fd es p)

  unfoldable pub flush_all_pages : ℕ → Exec (Unit {0})
  unfolding flush_entries
  flush_all_pages fd p = flush_entries fd p.page_table p
