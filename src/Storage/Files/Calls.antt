-- ===== src/Storage/Files/Calls.antt =====
-- Every call of the disk manager keeps its maps of open files, and so does every sequence of calls.
use mathlib.Core.Path.{subst}
use myrmdb.Prelude.{
  ℕ, ◌≡◌, ◌≢◌, refl, sym, ap, ◌∙◌, true, false, not, List, [], ◌∷◌, ◌++◌, Option, none, some,
  ℕ_discrete, if_both, if◌then◌else◌, Bool-cases, inl, inr,
}
use myrmdb.Prelude.Assoc
use myrmdb.Prelude.Int.{ℤ}
use myrmdb.Errors.{
  Error, Result, ok, err, unix_error, file_not_open, file_not_found, file_not_closed, file_exists,
  ok_inj, ok_ne_err,
}
use myrmdb.Storage.Posix.{Posix, FileName}
use myrmdb.Storage.Files.{
  FileName-discrete, DiskManager, is_some, count_path, count_fd, is_file, ended, write_page,
  read_page, run_command, create_dir, destroy_dir, create_file, destroy_file, open_file, close_file,
  get_file_fd, get_file_name, mkdir, rm_r, page_offset,
}
use myrmdb.Storage.Files.Opened.{
  IsOpened, os-IsOpened, insert-IsOpened, erase-IsOpened, Keeps, path_of, fd_of,
}

module _ (posix : Posix) where
  open posix use {Os, in_use}

  is_some-false : {A : Type 0} (x : Option A) → is_some x ≡ false → x ≡ none
  is_some-false none e = refl
  is_some-false (some a) e = cc

  name_of :
      (u : DiskManager posix) (fd : ℕ) (f : FileName)
      → path_of posix fd u ≡ some f
      → get_file_name posix fd u ≡ ok f
  unfolding get_file_name
  name_of u fd f e = rw (get_file_name, e) refl

  given :
      (u : DiskManager posix) (f : FileName) (fd : ℕ)
      → fd_of posix f u ≡ some fd
      → get_file_fd posix f u ≡ (ok fd, u)
  unfolding get_file_fd
  given u f fd e = rw (get_file_fd, e) refl

  module _ (m : DiskManager posix) (h : IsOpened posix m) where
    -- The state after a call.
    abbrev After : {A : Type 0} → A × DiskManager posix → Type 0
    After x = IsOpened posix x.1

    sought :
        (fd : ℕ) (o : ℤ) (j : ℕ) → in_use j m.os ≡ true → in_use j (posix.lseek fd o m.os).1 ≡ true
    sought fd o j = posix.lseek-keeps fd o m.os j

    write_page-IsOpened :
        (fd : ℕ) (page_no : ℤ) (bytes : List ℕ) → After (write_page posix fd page_no bytes m)
    unfolding write_page
    write_page-IsOpened fd page_no bytes =
        let o = page_offset page_no in
        let s = (posix.lseek fd o m.os).1 in
        if_both (After {A = Result (Unit {0})}) (not (count_fd posix fd m)) _ _ h (
          if_both (After {A = Result (Unit {0})}) (not (posix.lseek fd o m.os).0) _ _
            (os-IsOpened posix m s h (sought fd o))
            (os-IsOpened posix m (posix.write fd bytes s).1 h
              (λ j e. posix.write-keeps fd bytes s j (sought fd o j e))))

    read_page-IsOpened : (fd : ℕ) (page_no : ℤ) (n : ℕ) → After (read_page posix fd page_no n m)
    unfolding read_page
    read_page-IsOpened fd page_no n =
        let o = page_offset page_no in
        let s = (posix.lseek fd o m.os).1 in
        let P : (Result (Unit {0}) × List ℕ) × DiskManager posix → Type 0 =
          λ x. IsOpened posix x.1 in
        if_both P (not (count_fd posix fd m)) _ _ h (
          if_both P (not (posix.lseek fd o m.os).0) _ _ (os-IsOpened posix m s h (sought fd o)) (
            os-IsOpened posix m (posix.read fd n s).1 h
              (λ j e. posix.read-keeps fd n s j (sought fd o j e))))

    command-IsOpened : (c : List ℕ) → After (run_command posix c m)
    unfolding run_command
    command-IsOpened c = os-IsOpened posix m (posix.system c m.os).1 h (posix.system-keeps c m.os)

    -- What `create_file` makes of its open(2), and `open_file` of its.
    abbrev created : Option ℕ × Os → Result (Unit {0}) × DiskManager posix
    created r = elim r.0 [
      | none ↦ (err unix_error, record m { os = r.1 })
      | some fd ↦ let c = posix.close fd r.1 in ended posix c.0 tt c.1 m
    ]

    abbrev opened : FileName → Option ℕ × Os → Result ℕ × DiskManager posix
    opened f r = elim r.0 [
      | none ↦ (err unix_error, record m { os = r.1 })
      | some fd ↦ (
        ok fd,
        record m {
          path2fd = Assoc.insert FileName-discrete f fd m.path2fd;
          fd2path = Assoc.insert ℕ_discrete fd f m.fd2path;
          os = r.1;
        },
      )
    ]

    created-IsOpened :
        (r : Option ℕ × Os)
        → Keeps posix m.os r.1
        → ((fd : ℕ) → r.0 ≡ some fd → in_use fd m.os ≡ false)
        → After (created r)
    created-IsOpened (none, s) keeps unused = os-IsOpened posix m s h keeps
    created-IsOpened (some fd, s) keeps unused = os-IsOpened posix m (posix.close fd s).1 h λ j e.
        posix.close-keeps fd s j
          (λ same.
            let bad : true ≡ false = sym e ∙ ap (λ x. in_use x m.os) same ∙ unused fd refl in cc)
          (keeps j e)

    opened-After :
        (f : FileName) (r : Option ℕ × Os)
        → fd_of posix f m ≡ none
        → Keeps posix m.os r.1
        → ((fd : ℕ) → r.0 ≡ some fd → (in_use fd m.os ≡ false) × (in_use fd r.1 ≡ true))
        → After (opened f r)
    opened-After f (none, s) closed keeps new = os-IsOpened posix m s h keeps
    opened-After f (some fd, s) closed keeps new =
        insert-IsOpened posix m f fd s h closed (new fd refl).0 (new fd refl).1 keeps

    create_file-IsOpened : (f : FileName) → After (create_file posix f m)
    unfolding create_file
    create_file-IsOpened f =
        if_both (After {A = Result (Unit {0})}) (is_file posix f m) (err file_exists, m)
          (created (posix.open_excl f m.os)) h
          (created-IsOpened (posix.open_excl f m.os) (posix.open_excl-keeps f m.os)
            (λ fd e. (posix.open_excl-new f m.os fd e).0))

    destroy_file-IsOpened : (f : FileName) → After (destroy_file posix f m)
    unfolding destroy_file
    destroy_file-IsOpened f =
        let P = After {A = Result (Unit {0})} in
        if_both P (not (is_file posix f m)) _ _ h (
          if_both P (count_path posix f m) _ _ h
            (os-IsOpened posix m (posix.unlink f m.os).1 h (posix.unlink-keeps f m.os)))

    open_file-IsOpened : (f : FileName) → After (open_file posix f m)
    unfolding open_file
    open_file-IsOpened f =
        let P = After {A = Result ℕ} in
        let r = posix.open_rdwr f m.os in
        if_both P (not (is_file posix f m)) _ _ h (elim (Bool-cases (count_path posix f m)) [
          | inl is_open ↦
              subst (λ b. P (if b then (err file_not_closed, m) else opened f r)) (sym is_open) h
          | inr closed ↦
              subst (λ b. P (if b then (err file_not_closed, m) else opened f r)) (sym closed)
                (opened-After f r (is_some-false (fd_of posix f m) closed)
                  (posix.open_rdwr-keeps f m.os) (λ fd e. posix.open_rdwr-new f m.os fd e))
        ])

    get_file_fd-IsOpened : (f : FileName) → After (get_file_fd posix f m)
    unfolding get_file_fd
    get_file_fd-IsOpened f = go (fd_of posix f m)
      where
        go :
            (x : Option ℕ)
            → After {A = Result ℕ} (elim x as (λ _. Result ℕ × DiskManager posix) [
              | none ↦ open_file posix f m
              | some fd ↦ (ok fd, m)
            ])
        go none = open_file-IsOpened f
        go (some fd) = h

    -- What `close_file` does with the path of its descriptor.
    abbrev closed : ℕ → Option FileName → Result (Unit {0}) × DiskManager posix
    closed fd x = elim x [
      | none ↦ (err file_not_open, m)
      | some path ↦
          let c = posix.close fd m.os in
          if not c.0 then (err unix_error, record m { os = c.1 }) else (
            ok tt,
            record m {
              fd2path = Assoc.erase ℕ_discrete fd m.fd2path;
              path2fd = Assoc.erase FileName-discrete path m.path2fd;
              os = c.1;
            },
          )
    ]

    closed-After :
        (fd : ℕ) (x : Option FileName)
        → path_of posix fd m ≡ x
        → (closed fd x).0 ≢ err unix_error
        → After (closed fd x)
    closed-After fd none here well = h
    closed-After fd (some f) here well = elim (Bool-cases (posix.close fd m.os).0) [
      | inl good ↦ rw good (erase-IsOpened posix m f fd h here)
      | inr bad ↦ absurd (well (rw bad refl))
    ]

    close_file-IsOpened :
        (fd : ℕ) → (close_file posix fd m).0 ≢ err unix_error → After (close_file posix fd m)
    unfolding close_file
    close_file-IsOpened fd well = closed-After fd (path_of posix fd m) refl well

    -- A call that gives a descriptor leaves it as that of the path.
    abbrev Gives : FileName → ℕ → Result ℕ × DiskManager posix → Type 0
    Gives f fd x = x.0 ≡ ok fd → fd_of posix f x.1 ≡ some fd

    err-Gives : (f : FileName) (fd : ℕ) (e : Error) (u : DiskManager posix) → Gives f fd (err e, u)
    err-Gives f fd e u bad = absurd (ok_ne_err (sym bad))

    opened-Gives : (f : FileName) (fd : ℕ) (r : Option ℕ × Os) → Gives f fd (opened f r)
    opened-Gives f fd (none, s) e = err-Gives f fd unix_error (record m { os = s }) e
    opened-Gives f fd (some j, s) e =
        Assoc.lookup-insert_self FileName-discrete f f j m.path2fd refl ∙ ap some (ok_inj e)

    open_file-Gives : (f : FileName) (fd : ℕ) → Gives f fd (open_file posix f m)
    unfolding open_file
    open_file-Gives f fd =
        let P = Gives f fd in
        if_both P (not (is_file posix f m)) _ _ (err-Gives f fd file_not_found m) (
          if_both P (count_path posix f m) _ _ (err-Gives f fd file_not_closed m)
            (opened-Gives f fd (posix.open_rdwr f m.os)))

    get_file_fd-Gives : (f : FileName) (fd : ℕ) → Gives f fd (get_file_fd posix f m)
    unfolding get_file_fd
    get_file_fd-Gives f fd = go (fd_of posix f m) refl
      where
        go :
            (x : Option ℕ)
            → fd_of posix f m ≡ x
            → Gives f fd (elim x as (λ _. Result ℕ × DiskManager posix) [
              | none ↦ open_file posix f m
              | some j ↦ (ok j, m)
            ])
        go none e is_ok = open_file-Gives f fd is_ok
        go (some j) e is_ok = e ∙ ap some (ok_inj is_ok)

    -- On a disk manager whose two maps are inverse to each other and whose descriptors are open, the
    -- descriptor that `get_file_fd` gives for a path has that path as its name, and is given again,
    -- without a change, by the next call for the path.
    pub get_file_name-get_file_fd :
        (f : FileName) (fd : ℕ)
        → (get_file_fd posix f m).0 ≡ ok fd
        → let u = (get_file_fd posix f m).1 in
          (get_file_name posix fd u ≡ ok f) × (get_file_fd posix f u ≡ (ok fd, u))
    get_file_name-get_file_fd f fd e =
        let u = (get_file_fd posix f m).1 in
        let gives = get_file_fd-Gives f fd e in
        (name_of u fd f ((get_file_fd-IsOpened f).back fd f gives), given u f fd gives)

  -- The calls of the disk manager that change its state.
  pub data Call : Type 0 where
    writes : ℕ → ℤ → List ℕ → Call
    reads : ℕ → ℤ → ℕ → Call
    creates_dir destroys_dir creates destroys opens finds : FileName → Call
    closes : ℕ → Call

  abbrev pub step : Call → DiskManager posix → DiskManager posix
  step (writes fd page_no bytes) m = (write_page posix fd page_no bytes m).1
  step (reads fd page_no n) m = (read_page posix fd page_no n m).1
  step (creates_dir f) m = (create_dir posix f m).1
  step (destroys_dir f) m = (destroy_dir posix f m).1
  step (creates f) m = (create_file posix f m).1
  step (destroys f) m = (destroy_file posix f m).1
  step (opens f) m = (open_file posix f m).1
  step (finds f) m = (get_file_fd posix f m).1
  step (closes fd) m = (close_file posix fd m).1

  abbrev pub run : List Call → DiskManager posix → DiskManager posix
  run [] m = m
  run (c ∷ cs) m = run cs (step c m)

  -- No close(2) fails in a call of `close_file`.
  abbrev pub Closes : Call → DiskManager posix → Type 0
  Closes (closes fd) m = (close_file posix fd m).0 ≢ err unix_error
  Closes _ m = Unit {0}

  abbrev pub ClosesWell : List Call → DiskManager posix → Type 0
  ClosesWell [] m = Unit {0}
  ClosesWell (c ∷ cs) m = Closes c m × ClosesWell cs (step c m)

  step-IsOpened :
      (c : Call) (m : DiskManager posix) → IsOpened posix m → Closes c m → IsOpened posix (step c m)
  unfolding create_dir destroy_dir
  step-IsOpened (writes fd page_no bytes) m h w = write_page-IsOpened m h fd page_no bytes
  step-IsOpened (reads fd page_no n) m h w = read_page-IsOpened m h fd page_no n
  step-IsOpened (creates_dir f) m h w = command-IsOpened m h (mkdir ++ f)
  step-IsOpened (destroys_dir f) m h w = command-IsOpened m h (rm_r ++ f)
  step-IsOpened (creates f) m h w = create_file-IsOpened m h f
  step-IsOpened (destroys f) m h w = destroy_file-IsOpened m h f
  step-IsOpened (opens f) m h w = open_file-IsOpened m h f
  step-IsOpened (finds f) m h w = get_file_fd-IsOpened m h f
  step-IsOpened (closes fd) m h w = close_file-IsOpened m h fd w

  -- From a disk manager whose two maps are inverse to each other and whose descriptors are open,
  -- every sequence of calls in which no close(2) of `close_file` fails leads to such a one.
  pub run-IsOpened :
      (cs : List Call) (m : DiskManager posix)
      → IsOpened posix m
      → ClosesWell cs m
      → IsOpened posix (run cs m)
  run-IsOpened [] m h w = h
  run-IsOpened (c ∷ cs) m h w = run-IsOpened cs (step c m) (step-IsOpened c m h w.0) w.1
