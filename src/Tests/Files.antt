-- ===== src/Tests/Files.antt =====
-- The disk manager over a system in which every path but the empty one is a file.
use myrmdb.Prelude.{
  ℕ, suc, ◌≡◌, refl, sym, ◌∙◌, Bool, true, false, List, [], ◌∷◌, some, arith, ltb, length,
  ℕ_discrete,
}
use myrmdb.Prelude.Assoc
use myrmdb.Prelude.Int.{pos}
use myrmdb.Errors.{ok, err, unix_error}
use myrmdb.Storage.Posix.{Posix, FileName}
use myrmdb.Storage.Files.{
  FileName-discrete, DiskManager, open_file, close_file, write_page, get_file_fd, get_file_name,
}
use myrmdb.Storage.Files.Opened.{IsOpened}
use myrmdb.Storage.Files.Calls.{
  Call, ClosesWell, step, run, run-IsOpened, get_file_name-get_file_fd,
}

abbrev is_path : FileName → Bool
is_path [] = false
is_path (c ∷ cs) = true

some_inj_suc : (s fd : ℕ) → some s ≡ some fd → (ltb fd s ≡ false) × (ltb fd (suc s) ≡ true)
some_inj_suc s fd e =
    let same : s ≡ fd = Assoc.some_inj e in (ground (arith, same), ground (arith, same))

later : (s j : ℕ) → ltb j s ≡ true → ltb j (suc s) ≡ true
later s j e = ground (arith, e)

-- Its state is the next descriptor; none is given twice.
abbrev counter : Posix
counter = record {
  Os = ℕ;
  is_reg = λ f s. is_path f;
  is_directory = λ f s. false;
  st_size = λ f s. some 0;
  open_rdwr = λ f s. (some s, suc s);
  open_excl = λ f s. (some s, suc s);
  close = λ fd s. (true, s);
  unlink = λ f s. (true, s);
  system = λ c s. (pos 0, s);
  lseek = λ fd o s. (true, s);
  write = λ fd b s. (some (length b), s);
  read = λ fd n s. (some [], s);
  in_use = λ j s. ltb j s;
  open_rdwr-new = λ f s fd e. some_inj_suc s fd e;
  open_excl-new = λ f s fd e. some_inj_suc s fd e;
  open_rdwr-keeps = λ f s j e. later s j e;
  open_excl-keeps = λ f s j e. later s j e;
  close-keeps = λ fd s j ne e. e;
  unlink-keeps = λ f s j e. e;
  system-keeps = λ c s j e. e;
  lseek-keeps = λ fd o s j e. e;
  write-keeps = λ fd b s j e. e;
  read-keeps = λ fd n s j e. e;
}

abbrev no_files : DiskManager counter
no_files = record { path2fd = []; fd2path = []; fd2pageno = λ _. pos 0; os = 3 }

no_files-IsOpened : IsOpened counter no_files
unfolding Assoc.lookup
no_files-IsOpened = record { forth = λ fd f e. cc; back = λ fd f e. cc; used = λ fd f e. cc }

abbrev table_file : FileName
table_file = 116 ∷ []

abbrev file_calls : List (Call counter)
file_calls = Call.opens table_file ∷ Call.writes 3 (pos 1) (5 ∷ 6 ∷ []) ∷ Call.closes 3 ∷ []

abbrev two_calls : DiskManager counter
two_calls =
    step counter (Call.writes 3 (pos 1) (5 ∷ 6 ∷ []))
      (step counter (Call.opens table_file) no_files)

close_is_ok : (close_file counter 3 two_calls).0 ≡ ok tt
unfolding open_file close_file write_page Assoc.lookup Assoc.insert ℕ_discrete FileName-discrete
close_is_ok = refl

closes_well : ClosesWell counter file_calls no_files
closes_well = (tt, (tt, ((λ e. let bad : ok tt ≡ err unix_error = sym close_is_ok ∙ e in cc), tt)))

run-IsOpened_example : IsOpened counter (run counter file_calls no_files)
run-IsOpened_example = run-IsOpened counter file_calls no_files no_files-IsOpened closes_well

opens_three : (get_file_fd counter table_file no_files).0 ≡ ok 3
unfolding get_file_fd open_file Assoc.lookup
opens_three = refl

get_file_name-get_file_fd_example :
    let u = (get_file_fd counter table_file no_files).1 in
    (get_file_name counter 3 u ≡ ok table_file) × (get_file_fd counter table_file u ≡ (ok 3, u))
get_file_name-get_file_fd_example =
    get_file_name-get_file_fd counter no_files no_files-IsOpened table_file 3 opens_three
