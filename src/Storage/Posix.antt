-- ===== src/Storage/Posix.antt =====
-- The system calls that src/storage/disk_manager.cpp makes, with what it relies on: POSIX.
use myrmdb.Prelude.{ℕ, ◌≡◌, ◌≢◌, Bool, true, false, List, Option, some}
use myrmdb.Prelude.Int.{ℤ}

-- The characters of a path.
abbrev pub FileName : Type 0
FileName = List ℕ

-- `none` and `false` stand for a result of -1.
pub record Posix : Type 1 where
  -- The system's state: the files and the open descriptors.
  pub Os : Type 0
  -- stat(2): a regular file, a directory, `st_size`.
  pub is_reg : FileName → Os → Bool
  pub is_directory : FileName → Os → Bool
  pub st_size : FileName → Os → Option ℕ
  -- open(2) with O_RDWR, and with O_CREAT and O_EXCL.
  pub open_rdwr : FileName → Os → Option ℕ × Os
  pub open_excl : FileName → Os → Option ℕ × Os
  pub close : ℕ → Os → Bool × Os
  pub unlink : FileName → Os → Bool × Os
  -- system(3)
  pub system : List ℕ → Os → ℤ × Os
  pub lseek : ℕ → ℤ → Os → Bool × Os
  -- write(2): how many bytes were written.
  pub write : ℕ → List ℕ → Os → Option ℕ × Os
  -- read(2): the bytes that came.
  pub read : ℕ → ℕ → Os → Option (List ℕ) × Os
  -- A descriptor is open.
  pub in_use : ℕ → Os → Bool
  -- open(2) gives a descriptor that was not open, and it is open then.
  pub open_rdwr-new :
      (f : FileName) (s : Os) (fd : ℕ)
      → (open_rdwr f s).0 ≡ some fd
      → (in_use fd s ≡ false) × (in_use fd (open_rdwr f s).1 ≡ true)
  pub open_excl-new :
      (f : FileName) (s : Os) (fd : ℕ)
      → (open_excl f s).0 ≡ some fd
      → (in_use fd s ≡ false) × (in_use fd (open_excl f s).1 ≡ true)
  -- A descriptor that is open stays open, but for its own close(2).
  pub open_rdwr-keeps :
      (f : FileName) (s : Os) (j : ℕ) → in_use j s ≡ true → in_use j (open_rdwr f s).1 ≡ true
  pub open_excl-keeps :
      (f : FileName) (s : Os) (j : ℕ) → in_use j s ≡ true → in_use j (open_excl f s).1 ≡ true
  pub close-keeps :
      (fd : ℕ) (s : Os) (j : ℕ) → j ≢ fd → in_use j s ≡ true → in_use j (close fd s).1 ≡ true
  pub unlink-keeps :
      (f : FileName) (s : Os) (j : ℕ) → in_use j s ≡ true → in_use j (unlink f s).1 ≡ true
  pub system-keeps :
      (c : List ℕ) (s : Os) (j : ℕ) → in_use j s ≡ true → in_use j (system c s).1 ≡ true
  pub lseek-keeps :
      (fd : ℕ) (o : ℤ) (s : Os) (j : ℕ) → in_use j s ≡ true → in_use j (lseek fd o s).1 ≡ true
  pub write-keeps :
      (fd : ℕ) (b : List ℕ) (s : Os) (j : ℕ) → in_use j s ≡ true → in_use j (write fd b s).1 ≡ true
  pub read-keeps :
      (fd : ℕ) (n : ℕ) (s : Os) (j : ℕ) → in_use j s ≡ true → in_use j (read fd n s).1 ≡ true
