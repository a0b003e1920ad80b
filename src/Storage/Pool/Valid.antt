-- ===== src/Storage/Pool/Valid.antt =====
-- The invariant of the buffer pool, and what a client sees through it.
use myrmdb.Prelude.{ℕ, ◌<◌, ◌≡◌, ap, ◌≢◌, false, Option, none, some, length, All, NoRepeat}
use myrmdb.Prelude.Assoc
use myrmdb.Prelude.Int.{ℤ}
use myrmdb.Storage.Page.{PageId, PageId-discrete, invalid_page_id}
use myrmdb.Storage.Replacer.Nodes.{frames, IsValid as IsValidReplacer}
use myrmdb.Storage.Disk.{Disk, Result, ok}
use myrmdb.Storage.Pool.{Pool, page_at, find}

module _ (disk : Disk) where
  abbrev pub seen : Option ℕ → PageId → Pool disk → Result disk.Data
  seen none i p = disk.read_page i p.disk_state
  seen (some f) i p = ok (page_at disk f p).data_

  -- The bytes that belong to a page: those in its frame, or else those on disk.
  unfoldable pub content : PageId → Pool disk → Result disk.Data
  content i p = seen (find disk i p) i p

  pub content_at :
      (i : PageId) (p : Pool disk) (o : Option ℕ) → find disk i p ≡ o → content i p ≡ seen o i p
  unfolding content
  content_at i p o e = ap (λ o. seen o i p) e

  abbrev pub number : Pool disk → ℕ → ℤ
  number p f = (page_at disk f p).id.page_no

  -- A free frame holds no page and is not pinned.
  abbrev pub IsFree : Pool disk → ℕ → Type 0
  IsFree p f =
      (f < length p.pages) × (number p f ≡ invalid_page_id) × ((page_at disk f p).pin_count ≡ 0)

  -- A frame that the replacer may give away holds a page that is not pinned.
  abbrev pub IsEvictable : Pool disk → ℕ → Type 0
  IsEvictable p f =
      (f < length p.pages) × (number p f ≢ invalid_page_id) × ((page_at disk f p).pin_count ≡ 0)

  -- An entry of the page table names the frame that holds the page.
  abbrev pub IsEntry : Pool disk → PageId → ℕ → Type 0
  IsEntry p i f = (f < length p.pages) × ((page_at disk f p).id ≡ i) × (i.page_no ≢ invalid_page_id)

  -- A page that is neither pinned nor dirty stands on disk as it is.
  abbrev pub IsSaved : Pool disk → ℕ → Type 0
  IsSaved p f =
      number p f ≢ invalid_page_id
      → (page_at disk f p).pin_count ≡ 0
      → (page_at disk f p).is_dirty ≡ false
      → disk.read_page (page_at disk f p).id p.disk_state ≡ ok (page_at disk f p).data_

  pub record IsValid (p : Pool disk) : Type 0 where
    pub table : Assoc.Everywhere PageId-discrete (IsEntry p) p.page_table
    pub resident :
        (f : ℕ)
        → f < length p.pages
        → number p f ≢ invalid_page_id
        → find disk (page_at disk f p).id p ≡ some f
    pub free : All (IsFree p) p.free_list
    pub free_once : NoRepeat p.free_list
    pub lru : IsValidReplacer p.replacer
    pub evictable : All (IsEvictable p) (frames p.replacer)
    pub saved : (f : ℕ) → f < length p.pages → IsSaved p f

  -- A frame that has been taken from the free list or the replacer, and what the pool keeps of the
  -- invariant while the frame changes hands.
  pub record IsValidBut (f : ℕ) (p : Pool disk) : Type 0 where
    pub inside : f < length p.pages
    pub table : Assoc.Everywhere PageId-discrete (λ i g. IsEntry p i g × (g ≢ f)) p.page_table
    pub resident :
        (g : ℕ)
        → g < length p.pages
        → g ≢ f
        → number p g ≢ invalid_page_id
        → find disk (page_at disk g p).id p ≡ some g
    pub free : All (IsFree p) p.free_list
    pub not_free : All (λ g. g ≢ f) p.free_list
    pub free_once : NoRepeat p.free_list
    pub lru : IsValidReplacer p.replacer
    pub evictable : All (IsEvictable p) (frames p.replacer)
    pub not_evictable : All (λ g. g ≢ f) (frames p.replacer)
    pub saved : (g : ℕ) → g < length p.pages → g ≢ f → IsSaved p g

  -- The frame that a search for a victim gives, and the pool that it leaves.
  pub record IsTaken (f : ℕ) (p : Pool disk) : Type 0 where
    pub valid : IsValid p
    pub inside : f < length p.pages
    pub unpinned : (page_at disk f p).pin_count ≡ 0
    pub not_free : All (λ g. g ≢ f) p.free_list
    pub not_evictable : All (λ g. g ≢ f) (frames p.replacer)
