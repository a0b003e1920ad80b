-- ===== src/Storage/Files/Opened.antt =====
-- The two hash maps of the open files, over any sequence of calls.
use mathlib.Core.Path.{subst}
use myrmdb.Prelude.{ℕ, ◌≡◌, ◌≢◌, sym, ap, ◌∙◌, true, false, Option, none, some, ℕ_discrete}
use myrmdb.Prelude.Assoc
use myrmdb.Storage.Posix.{Posix, FileName}
use myrmdb.Storage.Files.{FileName-discrete, DiskManager}

module _ (posix : Posix) where
  open posix use {Os, in_use}

  abbrev pub path_of : ℕ → DiskManager posix → Option FileName
  path_of fd m = Assoc.lookup ℕ_discrete fd m.fd2path

  abbrev pub fd_of : FileName → DiskManager posix → Option ℕ
  fd_of f m = Assoc.lookup FileName-discrete f m.path2fd

  -- The two maps are inverse to each other, and their descriptors are open.
  pub record IsOpened (m : DiskManager posix) : Type 0 where
    pub forth : (fd : ℕ) (f : FileName) → path_of fd m ≡ some f → fd_of f m ≡ some fd
    pub back : (fd : ℕ) (f : FileName) → fd_of f m ≡ some fd → path_of fd m ≡ some f
    pub used : (fd : ℕ) (f : FileName) → path_of fd m ≡ some f → in_use fd m.os ≡ true

  -- The descriptors that are open in `s` are open in `s'`.
  abbrev pub Keeps : Os → Os → Type 0
  Keeps s s' = (j : ℕ) → in_use j s ≡ true → in_use j s' ≡ true

  pub os-IsOpened :
      (m : DiskManager posix) (s : Os) → IsOpened m → Keeps m.os s → IsOpened (record m { os = s })
  os-IsOpened m s h keeps = record {
    forth = h.forth;
    back = h.back;
    used = λ fd f e. keeps fd (h.used fd f e);
  }

  -- A file that is not open gets a descriptor that was not.
  pub insert-IsOpened :
      (m : DiskManager posix) (f : FileName) (fd : ℕ) (s : Os)
      → IsOpened m
      → fd_of f m ≡ none
      → in_use fd m.os ≡ false
      → in_use fd s ≡ true
      → Keeps m.os s
      → IsOpened (record m {
        path2fd = Assoc.insert FileName-discrete f fd m.path2fd;
        fd2path = Assoc.insert ℕ_discrete fd f m.fd2path;
        os = s;
      })
  insert-IsOpened m f fd s h closed unused used keeps =
      let fresh : (g : FileName) → path_of fd m ≢ some g =
        λ g e. let bad = sym unused ∙ h.used fd g e in cc in
      record {
        forth = λ j g e. elim (ℕ_discrete fd j) [
          | yes same ↦
              let name : f ≡ g =
                Assoc.some_inj
                  (sym (Assoc.lookup-insert_self ℕ_discrete fd j f m.fd2path same) ∙ e) in
              Assoc.lookup-insert_self FileName-discrete f g fd m.path2fd name ∙ ap some same
          | no other ↦
              let old = sym (Assoc.lookup-insert_ne ℕ_discrete fd j f m.fd2path other) ∙ e in
              Assoc.lookup-insert_ne FileName-discrete f g fd m.path2fd (λ name.
                let bad : none ≡ some j = sym closed ∙ ap (λ x. fd_of x m) name ∙ h.forth j g old in
                cc)
              ∙ h.forth j g old
        ];
        back = λ j g e. elim (FileName-discrete f g) [
          | yes name ↦
              let same : fd ≡ j =
                Assoc.some_inj
                  (sym (Assoc.lookup-insert_self FileName-discrete f g fd m.path2fd name) ∙ e) in
              Assoc.lookup-insert_self ℕ_discrete fd j f m.fd2path same ∙ ap some name
          | no other ↦
              let old = sym (Assoc.lookup-insert_ne FileName-discrete f g fd m.path2fd other) ∙ e in
              Assoc.lookup-insert_ne ℕ_discrete fd j f m.fd2path
                (λ same. fresh g (ap (λ x. path_of x m) same ∙ h.back j g old))
              ∙ h.back j g old
        ];
        used = λ j g e. elim (ℕ_discrete fd j) [
          | yes same ↦ subst (λ x. in_use x s ≡ true) same used
          | no other ↦
              keeps j
                (h.used j g (sym (Assoc.lookup-insert_ne ℕ_discrete fd j f m.fd2path other) ∙ e))
        ];
      }

  -- A file that is open is closed.
  pub erase-IsOpened :
      (m : DiskManager posix) (f : FileName) (fd : ℕ)
      → IsOpened m
      → path_of fd m ≡ some f
      → IsOpened (record m {
        fd2path = Assoc.erase ℕ_discrete fd m.fd2path;
        path2fd = Assoc.erase FileName-discrete f m.path2fd;
        os = (posix.close fd m.os).1;
      })
  erase-IsOpened m f fd h here =
      let old_path : (j : ℕ) (g : FileName)
          → Assoc.lookup ℕ_discrete j (Assoc.erase ℕ_discrete fd m.fd2path) ≡ some g
          → (fd ≢ j) × (path_of j m ≡ some g) =
        λ j g e. elim (ℕ_discrete fd j) [
          | yes same ↦
              let bad : none ≡ some g =
                sym (Assoc.lookup-erase_self ℕ_discrete fd j m.fd2path same) ∙ e in
              cc
          | no other ↦ (other, sym (Assoc.lookup-erase_ne ℕ_discrete fd j m.fd2path other) ∙ e)
        ] in
      record {
        forth = λ j g e.
            let old = old_path j g e in
            Assoc.lookup-erase_ne FileName-discrete f g m.path2fd (λ name. old.0 (
              Assoc.some_inj
                (sym (h.forth fd f here) ∙ ap (λ x. fd_of x m) name ∙ h.forth j g old.1)))
            ∙ h.forth j g old.1;
        back = λ j g e. elim (FileName-discrete f g) [
          | yes name ↦
              let bad : none ≡ some j =
                sym (Assoc.lookup-erase_self FileName-discrete f g m.path2fd name) ∙ e in
              cc
          | no other ↦
              let old = sym (Assoc.lookup-erase_ne FileName-discrete f g m.path2fd other) ∙ e in
              Assoc.lookup-erase_ne ℕ_discrete fd j m.fd2path (λ same.
                other (Assoc.some_inj (sym here ∙ ap (λ x. path_of x m) same ∙ h.back j g old)))
              ∙ h.back j g old
        ];
        used = λ j g e.
            let old = old_path j g e in
            posix.close-keeps fd m.os j (λ same. old.0 (sym same)) (h.used j g old.1);
      }
