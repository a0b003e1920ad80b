-- ===== src/Storage/Disk.antt =====
-- What the buffer pool and the files above it ask of the disk manager, with what they rely on.
use myrmdb.Prelude.{ℕ, ◌≡◌, ◌≢◌}
use myrmdb.Prelude.Int.{ℤ}
use myrmdb.Storage.Page.{PageId}
pub use myrmdb.Errors.{Error, Result, ok, err, file_not_open, unix_error, internal_error}

-- A page's bytes are a value of `Data`; `zero` is the page of PAGE_SIZE zero bytes.
pub record Disk : Type 1 where
  pub State : Type 0
  pub Data : Type 0
  pub zero : Data
  pub read_page : PageId → State → Result Data
  -- What a read that fails leaves in a zeroed frame: the bytes that came, then zeros.
  pub partial : PageId → State → Data
  pub write_page : PageId → Data → State → Result (Unit {0}) × State
  pub allocate_page : ℕ → State → ℤ × State
  -- A write that succeeds is what the next read of the page returns.
  pub read-write_self :
      (i : PageId) (d : Data) (s : State)
      → (write_page i d s).0 ≡ ok tt
      → read_page i (write_page i d s).1 ≡ ok d
  -- A write changes no other page.
  pub read-write_ne :
      (i j : PageId) (d : Data) (s : State)
      → i ≢ j
      → read_page j (write_page i d s).1 ≡ read_page j s
  -- Handing out a page number changes no page.
  pub read-allocate :
      (fd : ℕ) (i : PageId) (s : State) → read_page i (allocate_page fd s).1 ≡ read_page i s
