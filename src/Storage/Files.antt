-- ===== src/Storage/Files.antt =====
-- `DiskManager` of src/storage/disk_manager.cpp and disk_manager.h, but for the log file: the files
-- that are open, and pages read and written through their descriptors.
pub mod Opened
pub mod Calls
use myrmdb.Prelude.{
  ℕ, zero, suc, ◌+◌, ◌-◌, ◌*◌, ◌≡◌, Bool, true, false, not, List, [], ◌∷◌, ◌++◌, Option, none, some,
  length, if◌then◌else◌, ltb, ◌==◌, ℕ_discrete, ite,
}
use myrmdb.Prelude.Assoc
use myrmdb.Prelude.Int.{ℤ, pos, negsuc, suc_ℤ, pos_part, neg_part, ltb_ℤ, to_int}
use myrmdb.Errors.{
  Result, ok, err, file_not_open, file_not_closed, file_exists, file_not_found, unix_error,
  internal_error,
}
use myrmdb.Storage.Posix.{Posix, FileName}

unfoldable pub FileName-discrete : Discrete FileName
FileName-discrete = hlevel ℕ_discrete

abbrev pub max_fd : ℕ
max_fd = 8192

-- `static_cast<off_t>(page_no) * PAGE_SIZE`
abbrev pub page_offset : ℤ → ℤ
page_offset (pos n) = pos (n * 4096)
page_offset (negsuc n) = negsuc ((n + 1) * 4096 - 1)

abbrev pub is_some {ℓ} : {A : Type ℓ} → Option A → Bool
is_some none = false
is_some (some a) = true

-- "mkdir " and "rm -r "
abbrev pub mkdir : List ℕ
mkdir = 109 ∷ 107 ∷ 100 ∷ 105 ∷ 114 ∷ 32 ∷ []

abbrev pub rm_r : List ℕ
rm_r = 114 ∷ 109 ∷ 32 ∷ 45 ∷ 114 ∷ 32 ∷ []

module _ (posix : Posix) where
  open posix use {Os}

  pub record DiskManager : Type 0 where
    pub path2fd : List (FileName × ℕ)
    pub fd2path : List (ℕ × FileName)
    pub fd2pageno : ℕ → ℤ
    pub os : Os

  abbrev pub Exec : Type 0 → Type 0
  Exec A = DiskManager → Result A × DiskManager

  abbrev pub count_fd : ℕ → DiskManager → Bool
  count_fd fd m = is_some (Assoc.lookup ℕ_discrete fd m.fd2path)

  abbrev pub count_path : FileName → DiskManager → Bool
  count_path path m = is_some (Assoc.lookup FileName-discrete path m.path2fd)

  abbrev pub is_file : FileName → DiskManager → Bool
  is_file path m = posix.is_reg path m.os

  abbrev pub is_dir : FileName → DiskManager → Bool
  is_dir path m = posix.is_directory path m.os

  -- The end of a call that makes one system call more.
  abbrev pub ended {ℓ} : {A : Type ℓ} → Bool → A → Os → DiskManager → Result A × DiskManager
  ended good a s m = (elim good [ true ↦ ok a | false ↦ err unix_error ], record m { os = s })

  unfoldable pub write_page : ℕ → ℤ → List ℕ → Exec (Unit {0})
  write_page fd page_no bytes m =
      let sought = posix.lseek fd (page_offset page_no) m.os in
      let w = posix.write fd bytes sought.1 in
      if not (count_fd fd m)
      then (err file_not_open, m)
      else if not sought.0
      then (err unix_error, record m { os = sought.1 })
      else (
        elim w.0 [
          | none ↦ err internal_error
          | some n ↦ if n == length bytes then ok tt else err internal_error
        ],
        record m { os = w.1 },
      )

  -- The bytes are those that came into the buffer, also where the call throws.
  unfoldable pub read_page : ℕ → ℤ → ℕ → DiskManager → (Result (Unit {0}) × List ℕ) × DiskManager
  read_page fd page_no num_bytes m =
      let sought = posix.lseek fd (page_offset page_no) m.os in
      let r = posix.read fd num_bytes sought.1 in
      if not (count_fd fd m)
      then ((err file_not_open, []), m)
      else if not sought.0
      then ((err unix_error, []), record m { os = sought.1 })
      else (
        elim r.0 [
          | none ↦ (err internal_error, [])
          | some bytes ↦ (if length bytes == num_bytes then ok tt else err internal_error, bytes)
        ],
        record m { os = r.1 },
      )

  -- `none` is a failed assertion.
  unfoldable pub allocate_page : ℕ → DiskManager → Option (ℤ × DiskManager)
  allocate_page fd m =
      if ltb fd max_fd
      then some (
        m.fd2pageno fd,
        record m {
          fd2pageno = λ j. ite (ℕ_discrete fd j) (suc_ℤ (m.fd2pageno fd)) (m.fd2pageno j);
        },
      )
      else none

  unfoldable pub set_fd2pageno : ℕ → ℤ → DiskManager → DiskManager
  set_fd2pageno fd start m = record m {
    fd2pageno = λ j. ite (ℕ_discrete fd j) start (m.fd2pageno j);
  }

  unfoldable pub run_command : List ℕ → Exec (Unit {0})
  run_command cmd m = let r = posix.system cmd m.os in ended (not (ltb_ℤ r.0 (pos 0))) tt r.1 m

  unfoldable pub create_dir : FileName → Exec (Unit {0})
  create_dir path m = run_command (mkdir ++ path) m

  unfoldable pub destroy_dir : FileName → Exec (Unit {0})
  destroy_dir path m = run_command (rm_r ++ path) m

  unfoldable pub create_file : FileName → Exec (Unit {0})
  create_file path m =
      let r = posix.open_excl path m.os in
      if is_file path m then (err file_exists, m) else elim r.0 [
        | none ↦ (err unix_error, record m { os = r.1 })
        | some fd ↦ let c = posix.close fd r.1 in ended c.0 tt c.1 m
      ]

  unfoldable pub destroy_file : FileName → Exec (Unit {0})
  destroy_file path m =
      let r = posix.unlink path m.os in
      if not (is_file path m)
      then (err file_not_found, m)
      else if count_path path m
      then (err file_not_closed, m)
      else ended r.0 tt r.1 m

  unfoldable pub open_file : FileName → Exec ℕ
  open_file path m =
      let r = posix.open_rdwr path m.os in
      if not (is_file path m)
      then (err file_not_found, m)
      else if count_path path m
      then (err file_not_closed, m)
      else elim r.0 [
        | none ↦ (err unix_error, record m { os = r.1 })
        | some fd ↦ (
          ok fd,
          record m {
            path2fd = Assoc.insert FileName-discrete path fd m.path2fd;
            fd2path = Assoc.insert ℕ_discrete fd path m.fd2path;
            os = r.1;
          },
        )
      ]

  unfoldable pub close_file : ℕ → Exec (Unit {0})
  close_file fd m = elim (Assoc.lookup ℕ_discrete fd m.fd2path) [
    | none ↦ (err file_not_open, m)
    | some path ↦
        let c = posix.close fd m.os in
        if not c.0 then (err unix_error, record m { os = c.1 }) else (
          ok tt,
          record m {
            fd2path = Assoc.erase ℕ_discrete fd m.fd2path;
            path2fd = Assoc.erase FileName-discrete path m.path2fd;
            os = c.1;
          },
        )
  ]

  -- The size as an `int`, and -1 where there is no such file.
  unfoldable pub get_file_size : FileName → DiskManager → ℤ
  get_file_size path m = elim (posix.st_size path m.os) [ none ↦ negsuc 0 | some n ↦ to_int n ]

  unfoldable pub get_file_name : ℕ → DiskManager → Result FileName
  get_file_name fd m = elim (Assoc.lookup ℕ_discrete fd m.fd2path) [
    | none ↦ err file_not_open
    | some path ↦ ok path
  ]

  unfoldable pub get_file_fd : FileName → Exec ℕ
  unfolding open_file
  get_file_fd path m = elim (Assoc.lookup FileName-discrete path m.path2fd) [
    | none ↦ open_file path m
    | some fd ↦ (ok fd, m)
  ]
