-- ===== src/Tests/Pools.antt =====
-- The buffer pool on concrete inputs.
use mathlib.Core.Path.{subst}
use myrmdb.Prelude.{ℕ, ℕ_discrete, ◌≡◌, refl, ◌≢◌, true, false, List, [], ◌∷◌, none, some, arith}
use myrmdb.Prelude.Assoc
use myrmdb.Prelude.Int.{ℤ-discrete}
use myrmdb.Storage.Page.{PageId-discrete, invalid_page_id}
use myrmdb.Storage.Replacer.{lru_replacer}
use myrmdb.Storage.Replacer
use myrmdb.Storage.Disk.{ok, err, unix_error}
use myrmdb.Storage.Pool.{
  Pool, new_pool, fetch_page, unpin_page, flush_page, find, page_at, find_victim_page, update_page,
  evict,
}
use myrmdb.Storage.Pool.Valid.{content, IsValid}
use myrmdb.Storage.Pool.Fetch.{Fetched, fetch_page-Fetched}
use myrmdb.Storage.Pool.Faults.{new_pool-IsValid, fetch_page-stale}
use myrmdb.Storage.Pool.Runs.{
  Event, fetches, writes, unpins, run, spec, run-reads, step, AllPermitted, Permitted,
}
use myrmdb.Storage.Pool.Release.{write_frame, Keeps, unpin_page-Keeps, flush_page-Keeps}
use myrmdb.Tests.Disks.{Cells, number_disk, page}

-- Two pages on disk, and a pool of one frame.
abbrev cells : Cells
cells = (page 0, 10) ∷ (page 1, 20) ∷ []

abbrev small : Pool number_disk
small = new_pool number_disk 1 cells

abbrev calls : List (Event number_disk)
calls =
    fetches (page 0)
    ∷ writes (page 0) 99
    ∷ unpins (page 0) true
    ∷ fetches (page 1)
    ∷ unpins (page 1) false
    ∷ []

-- The pool after the first four calls.
abbrev second : Pool number_disk
second =
    run number_disk
      (fetches (page 0) ∷ writes (page 0) 99 ∷ unpins (page 0) true ∷ fetches (page 1) ∷ []) small

calls_fetched : (fetch_page number_disk (page 0) (run number_disk calls small)).0 ≡ ok (some 0)
unfolding run step fetch_page unpin_page flush_page new_pool write_frame find_victim_page evict
    Replacer.victim Replacer.pin Replacer.unpin lru_replacer update_page Assoc.lookup Assoc.insert
    Assoc.erase PageId-discrete ℤ-discrete ℕ_discrete
calls_fetched = refl

page_valid : (n : ℕ) → (page n).page_no ≢ invalid_page_id
page_valid n e = cc

small-IsValid : IsValid number_disk small
small-IsValid = new_pool-IsValid number_disk 1 cells

calls_permitted : AllPermitted number_disk calls small
unfolding run step fetch_page unpin_page flush_page new_pool write_frame find_victim_page evict
    Replacer.victim Replacer.pin Replacer.unpin lru_replacer update_page Assoc.lookup Assoc.insert
    Assoc.erase PageId-discrete ℤ-discrete ℕ_discrete AllPermitted Permitted
calls_permitted =
    let read : (f : ℕ)
        → find number_disk (page 1) second ≡ some f
        → ok 20 ≡ ok (page_at number_disk f second).data_ =
      λ f e. subst (λ g. ok 20 ≡ ok (page_at number_disk g second).data_) (Assoc.some_inj e) refl in
    (
      (page_valid 0, some 0, refl),
      (
        (0, refl, (λ (e : 1 ≡ 0). omega (arith, e))),
        ((λ f e clean. cc), ((page_valid 1, some 0, refl), ((λ f e clean flag. read f e), tt))),
      ),
    )

run-reads_example :
    spec number_disk calls (λ j. content number_disk j small) (page 0)
    ≡ ok
        (page_at number_disk 0
          (fetch_page number_disk (page 0) (run number_disk calls small)).1).data_
run-reads_example =
    run-reads number_disk calls small (page 0) 0 small-IsValid calls_permitted (page_valid 0)
      calls_fetched

first_fetch : (fetch_page number_disk (page 0) small).0 ≡ ok (some 0)
unfolding run step fetch_page unpin_page flush_page new_pool write_frame find_victim_page evict
    Replacer.victim Replacer.pin Replacer.unpin lru_replacer update_page Assoc.lookup Assoc.insert
    Assoc.erase PageId-discrete ℤ-discrete ℕ_discrete
first_fetch = refl

fetch_page-Fetched_example :
    Fetched number_disk (page 0) 0 small (fetch_page number_disk (page 0) small).1
fetch_page-Fetched_example =
    fetch_page-Fetched number_disk (page 0) 0 small small-IsValid (page_valid 0) first_fetch

-- The pool with the first page in its frame.
abbrev loaded : Pool number_disk
loaded = (fetch_page number_disk (page 0) small).1

loaded-IsValid : IsValid number_disk loaded
loaded-IsValid = fetch_page-Fetched_example.valid

loaded_clean :
    (f : ℕ)
    → find number_disk (page 0) loaded ≡ some f
    → false ≡ false
    → (page_at number_disk f loaded).is_dirty ≡ false
    → number_disk.read_page (page 0) loaded.disk_state ≡ ok (page_at number_disk f loaded).data_
unfolding run step fetch_page unpin_page flush_page new_pool write_frame find_victim_page evict
    Replacer.victim Replacer.pin Replacer.unpin lru_replacer update_page Assoc.lookup Assoc.insert
    Assoc.erase PageId-discrete ℤ-discrete ℕ_discrete
loaded_clean = λ f e clean flag.
    subst (λ g. ok 10 ≡ ok (page_at number_disk g loaded).data_) (Assoc.some_inj e) refl

unpin_page-Keeps_example : Keeps number_disk loaded (unpin_page number_disk (page 0) false loaded).1
unpin_page-Keeps_example =
    unpin_page-Keeps number_disk (page 0) false loaded loaded-IsValid loaded_clean

loaded_flushed : (flush_page number_disk (page 0) loaded).0 ≡ ok true
unfolding run step fetch_page unpin_page flush_page new_pool write_frame find_victim_page evict
    Replacer.victim Replacer.pin Replacer.unpin lru_replacer update_page Assoc.lookup Assoc.insert
    Assoc.erase PageId-discrete ℤ-discrete ℕ_discrete
loaded_flushed = refl

flush_page-Keeps_example :
    Keeps number_disk loaded (flush_page number_disk (page 0) loaded).1
    × (true ≡ true
        → number_disk.read_page (page 0) (flush_page number_disk (page 0) loaded).1.disk_state
          ≡ content number_disk (page 0) loaded)
flush_page-Keeps_example =
    flush_page-Keeps number_disk (page 0) true loaded loaded-IsValid loaded_flushed

-- Page 7 cannot be read.
absent_page : find number_disk (page 7) small ≡ none
unfolding run step fetch_page unpin_page flush_page new_pool write_frame find_victim_page evict
    Replacer.victim Replacer.pin Replacer.unpin lru_replacer update_page Assoc.lookup Assoc.insert
    Assoc.erase PageId-discrete ℤ-discrete ℕ_discrete
absent_page = refl

victim_found : (find_victim_page number_disk small).0 ≡ some 0
unfolding run step fetch_page unpin_page flush_page new_pool write_frame find_victim_page evict
    Replacer.victim Replacer.pin Replacer.unpin lru_replacer update_page Assoc.lookup Assoc.insert
    Assoc.erase PageId-discrete ℤ-discrete ℕ_discrete
victim_found = refl

victim_evicted : (evict number_disk 0 (find_victim_page number_disk small).1).0 ≡ ok tt
unfolding run step fetch_page unpin_page flush_page new_pool write_frame find_victim_page evict
    Replacer.victim Replacer.pin Replacer.unpin lru_replacer update_page Assoc.lookup Assoc.insert
    Assoc.erase PageId-discrete ℤ-discrete ℕ_discrete
victim_evicted = refl

read_fails :
    number_disk.read_page
      (page 7)
      (evict number_disk 0 (find_victim_page number_disk small).1).1.disk_state
    ≡ err unix_error
unfolding run step fetch_page unpin_page flush_page new_pool write_frame find_victim_page evict
    Replacer.victim Replacer.pin Replacer.unpin lru_replacer update_page Assoc.lookup Assoc.insert
    Assoc.erase PageId-discrete ℤ-discrete ℕ_discrete
read_fails = refl

fetch_page-stale_example :
    let q = (fetch_page number_disk (page 7) small).1 in
    ((fetch_page number_disk (page 7) small).0 ≡ err unix_error)
    × ((fetch_page number_disk (page 7) q).0 ≡ ok (some 0))
    × ((page_at number_disk 0 (fetch_page number_disk (page 7) q).1).data_ ≡ 0)
fetch_page-stale_example =
    fetch_page-stale number_disk (page 7) 0 unix_error small small-IsValid (page_valid 7)
      absent_page victim_found victim_evicted read_fails
