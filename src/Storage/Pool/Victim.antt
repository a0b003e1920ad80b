-- ===== src/Storage/Pool/Victim.antt =====
-- The frame that `find_victim_page` gives for a new page.
use myrmdb.Prelude.{ℕ, ◌≡◌, refl, ◌≢◌, List, [], ◌∷◌, some, arith, All, NoRepeat, All-both}
use mathlib.Core.Path.{subst}
use myrmdb.Storage.Replacer
use myrmdb.Storage.Replacer.{Node}
use myrmdb.Storage.Replacer.Nodes.{frames}
use myrmdb.Storage.Replacer.Frames.{victim-frames, frames-NoRepeat}
use myrmdb.Storage.Disk.{Disk}
use myrmdb.Storage.Pool.{Pool, find_victim_page, take_frame}
use myrmdb.Storage.Pool.Valid.{IsFree, IsEvictable, IsValid, IsTaken}

module _ (disk : Disk) where
  take_free :
      (f : ℕ) (rest : List ℕ) (p : Pool disk)
      → p.free_list ≡ f ∷ rest
      → IsValid disk p
      → IsTaken disk f (record p { free_list = rest })
  take_free f rest p e v =
      let free : All (IsFree disk p) (f ∷ rest) = subst (All (IsFree disk p)) e v.free in
      let once : NoRepeat (f ∷ rest) = subst NoRepeat e v.free_once in
      record {
        valid = record {
          table = v.table;
          resident = v.resident;
          free = free.1;
          free_once = once.1;
          lru = v.lru;
          evictable = v.evictable;
          saved = v.saved;
        };
        inside = free.0.0;
        unpinned = free.0.2;
        not_free = once.0;
        not_evictable =
            All-both (IsEvictable disk p) (λ g. g ≢ f) (λ g h same. h.1 (rw same free.0.1))
              (frames p.replacer) v.evictable;
      }

  take_victim :
      (f : ℕ) (p : Pool disk)
      → IsValid disk p
      → (Replacer.victim p.replacer).0 ≡ some f
      → IsTaken disk f (record p { replacer = (Replacer.victim p.replacer).1 })
  take_victim f p v e =
      let first = victim-frames p.replacer f v.lru e in
      let ev : All (IsEvictable disk p) (f ∷ frames (Replacer.victim p.replacer).1) =
        subst (All (IsEvictable disk p)) first.0 v.evictable in
      let once : NoRepeat (f ∷ frames (Replacer.victim p.replacer).1) =
        subst NoRepeat first.0 (frames-NoRepeat p.replacer v.lru) in
      record {
        valid = record {
          table = v.table;
          resident = v.resident;
          free = v.free;
          free_once = v.free_once;
          lru = first.1;
          evictable = ev.1;
          saved = v.saved;
        };
        inside = ev.0.0;
        unpinned = ev.0.2;
        not_free =
            All-both (IsFree disk p) (λ g. g ≢ f) (λ g h same. ev.0.1 (rw (← same) h.1)) p.free_list
              v.free;
        not_evictable = once.0;
      }

  -- The pages, the table and the disk are the same.
  abbrev pub SamePages : Pool disk → Pool disk → Type 0
  SamePages p q =
      (q.pages ≡ p.pages) × (q.page_table ≡ p.page_table) × (q.disk_state ≡ p.disk_state)

  take_frame-IsTaken :
      (l : List ℕ) (p : Pool disk) (f : ℕ)
      → p.free_list ≡ l
      → IsValid disk p
      → (take_frame disk l p).0 ≡ some f
      → IsTaken disk f (take_frame disk l p).1 × SamePages p (take_frame disk l p).1
  unfolding take_frame
  take_frame-IsTaken [] p f free v e = (take_victim f p v e, (refl, refl, refl))
  take_frame-IsTaken (g ∷ rest) p f free v e =
      let same : g ≡ f = ground arith in
      (
        subst (λ h. IsTaken disk h (record p { free_list = rest })) same
            (take_free g rest p free v),
        (refl, refl, refl),
      )

  -- A search that succeeds gives a frame that is neither pinned, nor free, nor in the replacer, and
  -- leaves the pages, the table and the disk as they were.
  pub find_victim_page-IsTaken :
      (p : Pool disk) (f : ℕ)
      → IsValid disk p
      → (find_victim_page disk p).0 ≡ some f
      → IsTaken disk f (find_victim_page disk p).1 × SamePages p (find_victim_page disk p).1
  unfolding find_victim_page
  find_victim_page-IsTaken p f v e = take_frame-IsTaken p.free_list p f refl v e
