-- ===== src/Storage/Pool/Faults.antt =====
-- What a failed read leaves behind in the pool, and the pool that the constructor makes.
use mathlib.Core.Path.{subst}
use myrmdb.Prelude.{
  ℕ, zero, suc, ◌+◌, ◌<◌, ◌≡◌, refl, sym, ap, ◌∙◌, ◌≢◌, List, [], ◌∷◌, ◌++◌, Option, none, some,
  arith, length, All, NoRepeat, All-both, length-set, length-replicate, get_or-replicate,
}
use myrmdb.Prelude.Assoc
use myrmdb.Storage.Page.{PageId, PageId-discrete, invalid_page_id}
use myrmdb.Storage.Replacer.{lru_replacer}
use myrmdb.Storage.Replacer.Refines.{lru_replacer-Implements}
use myrmdb.Storage.Disk.{Disk, Result, ok, err, Error}
use myrmdb.Storage.Pool.{
  Page, Pool, blank, page_at, put_page, find, find_victim_page, fetch_page, fetch_miss, fetch_hit,
  load, load_step, update_page, update_step, evict, install, new_pool, upto,
}
use myrmdb.Storage.Pool.Valid.{IsFree, IsValid}
use myrmdb.Storage.Pool.Evict.{evict-keeps}
use myrmdb.Storage.Pool.Victim.{find_victim_page-IsTaken}
use myrmdb.Storage.Pool.Repaint.{page_put_self}
use myrmdb.Storage.Pool.Fetch.{fetch_by_hit, fetch_by_miss, install_valid}

All-last : (P : ℕ → Type 0) (xs : List ℕ) (n : ℕ) → All P xs → P n → All P (xs ++ n ∷ [])
All-last P [] n h p = (p, tt)
All-last P (x ∷ xs) n h p = (h.0, All-last P xs n h.1 p)

upto_below : (n : ℕ) → All (λ k. k < n) (upto n)
upto_below zero = tt
upto_below (suc n) =
    All-last (λ k. k < suc n) (upto n) n
      (All-both (λ k. k < n) (λ k. k < suc n) (λ k h. omega arith) (upto n) (upto_below n))
      (omega arith)

NoRepeat-last : (xs : List ℕ) (n : ℕ) → All (λ k. k < n) xs → NoRepeat xs → NoRepeat (xs ++ n ∷ [])
NoRepeat-last [] n h once = (tt, tt)
NoRepeat-last (x ∷ xs) n h once =
    (All-last (λ y. y ≢ x) xs n once.0 (λ e. omega (arith, e, h.0)), NoRepeat-last xs n h.1 once.1)

upto-NoRepeat : (n : ℕ) → NoRepeat (upto n)
upto-NoRepeat zero = tt
upto-NoRepeat (suc n) = NoRepeat-last (upto n) n (upto_below n) (upto-NoRepeat n)

module _ (disk : Disk) where
  -- The pool that the constructor makes satisfies the invariant.
  pub new_pool-IsValid : (n : ℕ) (s : disk.State) → IsValid disk (new_pool disk n s)
  unfolding new_pool Assoc.lookup lru_replacer
  new_pool-IsValid n s =
      let p = new_pool disk n s in
      let empty : (f : ℕ) → page_at disk f p ≡ blank disk =
        λ f. get_or-replicate n f (blank disk) in
      let no_page : (f : ℕ) → (page_at disk f p).id.page_no ≡ invalid_page_id =
        λ f. ap (λ (y : Page disk). y.id.page_no) (empty f) in
      record {
        table = λ i f l. cc;
        resident = λ f inside held. absurd (held (no_page f));
        free =
            All-both (λ k. k < n) (IsFree disk p)
              (λ f h. (
                subst (λ m. f < m) (sym (length-replicate n (blank disk))) h,
                no_page f,
                ap (λ (y : Page disk). y.pin_count) (empty f),
              ))
              (upto n) (upto_below n);
        free_once = upto-NoRepeat n;
        lru = (lru_replacer-Implements n).valid;
        evictable = tt;
        saved = λ f inside held. absurd (held (no_page f));
      }

  -- The pool after the read into the frame `f` has thrown.
  abbrev left : ℕ → PageId → Pool disk → Pool disk
  left f i q =
      let inst = install disk f i q in
      put_page disk f (record (page_at disk f inst) { data_ = disk.partial i inst.disk_state }) inst

  update_ok :
      (f : ℕ) (i : PageId) (x : Error) (r : Result (Unit {0}) × Pool disk)
      → r.0 ≡ ok tt
      → disk.read_page i (install disk f i r.1).disk_state ≡ err x
      → load disk f i (update_step disk f i r) ≡ (err x, left f i r.1)
  unfolding load update_step load_step
  update_ok f i x (ok u, q) e fails = rw (load_step, fails) refl
  update_ok f i x (err y, q) e fails = cc

  miss_fails :
      (f : ℕ) (i : PageId) (x : Error) (r : Option ℕ × Pool disk)
      → r.0 ≡ some f
      → (evict disk f r.1).0 ≡ ok tt
      → disk.read_page i (install disk f i (evict disk f r.1).1).disk_state ≡ err x
      → fetch_miss disk i r ≡ (err x, left f i (evict disk f r.1).1)
  unfolding fetch_miss update_page
  miss_fails f i x (none, q) e evicted fails = cc
  miss_fails f i x (some g, q) e evicted fails =
      subst (λ h. load disk h i (update_page disk h i q) ≡ (err x, left f i (evict disk f q).1))
        (sym (Assoc.some_inj e)) (update_ok f i x (evict disk f q) evicted fails)

  hit_data :
      (f : ℕ) (p : Pool disk)
      → f < length p.pages
      → (page_at disk f (fetch_hit disk f p)).data_ ≡ (page_at disk f p).data_
  unfolding fetch_hit
  hit_data f p inside =
      let x : Page disk = record (page_at disk f p) {
        pin_count = (page_at disk f p).pin_count + 1;
      } in
      ap (λ (y : Page disk). y.data_) (page_put_self disk f x p inside)

  -- The next fetch of the page is a hit, on the bytes of the failed read.
  left_hit :
      (i : PageId) (f : ℕ) (b : Pool disk)
      → i.page_no ≢ invalid_page_id
      → f < length b.pages
      → ((fetch_page disk i (left f i b)).0 ≡ ok (some f))
        × ((page_at disk f (fetch_page disk i (left f i b)).1).data_ ≡ disk.partial i b.disk_state)
  left_hit i f b valid inside =
      let inst = install disk f i b in
      let inst_is = install_valid disk f i b valid in
      let entry : find disk i (left f i b) ≡ some f =
        ap (λ (z : Pool disk). find disk i z) inst_is
        ∙ Assoc.lookup-insert_self PageId-discrete i i f b.page_table refl in
      let again = fetch_by_hit disk i f (left f i b) entry in
      let long : length inst.pages ≡ length b.pages =
        ap (λ (z : Pool disk). length z.pages) inst_is ∙ length-set b.pages f _ in
      let inside' : f < length inst.pages = subst (λ n. f < n) (sym long) inside in
      let read : Page disk = record (page_at disk f inst) {
        data_ = disk.partial i inst.disk_state;
      } in
      let inside'' : f < length (left f i b).pages =
        subst (λ n. f < n) (sym (length-set inst.pages f read)) inside' in
      (
        ap (λ (o : Result (Option ℕ) × Pool disk). o.0) again,
        ap (λ (o : Result (Option ℕ) × Pool disk). (page_at disk f o.1).data_) again
            ∙ hit_data f (left f i b) inside''
            ∙ ap (λ (y : Page disk). y.data_) (page_put_self disk f read inst inside')
            ∙ ap (λ (z : Pool disk). disk.partial i z.disk_state) inst_is,
      )

  abbrev victim_pool : Pool disk → Pool disk
  victim_pool p = (find_victim_page disk p).1

  -- Let a miss in a valid pool find a frame whose old page leaves without an exception, and let the
  -- read of the new page throw. Then `fetch_page` throws, and a second call for the same page does
  -- not: it gives the frame, with the bytes that the failed read left there.
  pub fetch_page-stale :
      (i : PageId) (f : ℕ) (x : Error) (p : Pool disk)
      → IsValid disk p
      → i.page_no ≢ invalid_page_id
      → find disk i p ≡ none
      → (find_victim_page disk p).0 ≡ some f
      → (evict disk f (victim_pool p)).0 ≡ ok tt
      → disk.read_page i (evict disk f (victim_pool p)).1.disk_state ≡ err x
      → let q = (fetch_page disk i p).1 in
        ((fetch_page disk i p).0 ≡ err x)
        × ((fetch_page disk i q).0 ≡ ok (some f))
        × ((page_at disk f (fetch_page disk i q).1).data_
            ≡ disk.partial i (evict disk f (victim_pool p)).1.disk_state)
  fetch_page-stale i f x p v valid absent found evicted fails =
      let b = (evict disk f (victim_pool p)).1 in
      let t = (find_victim_page-IsTaken disk p f v found).0 in
      let kept = (evict-keeps disk f (victim_pool p) t evicted).0 in
      let reads =
        ap (λ (z : Pool disk). disk.read_page i z.disk_state) (install_valid disk f i b valid)
        ∙ fails in
      let same =
        fetch_by_miss disk i p absent
        ∙ miss_fails f i x (find_victim_page disk p) found evicted reads in
      subst
        (λ (o : Result (Option ℕ) × Pool disk).
          (o.0 ≡ err x)
          × ((fetch_page disk i o.1).0 ≡ ok (some f))
          × ((page_at disk f (fetch_page disk i o.1).1).data_ ≡ disk.partial i b.disk_state))
        (sym same) (let h = left_hit i f b valid kept.inside in (refl, h.0, h.1))
