-- ===== src/Storage/Pool/Runs.antt =====
-- A client's calls on the pool in any order, against a map from pages to bytes.
use mathlib.Core.Path.{subst}
use myrmdb.Prelude.{
  ℕ, ◌≡◌, refl, sym, ap, ◌∙◌, ◌≢◌, Bool, false, List, [], ◌∷◌, Option, none, some, arith,
  Option-cases, inl, inr, ite, if_pos, if_neg,
}
use myrmdb.Storage.Page.{PageId, PageId-discrete, invalid_page_id}
use myrmdb.Storage.Replacer
use myrmdb.Storage.Replacer.{Node}
use myrmdb.Storage.Replacer.Refines.{replacer_of}
use myrmdb.Storage.Disk.{Disk, Result, ok, err}
use myrmdb.Storage.Pool.{
  Pool, page_at, find, find_victim_page, take_frame, fetch_page, fetch_miss, load, load_step,
  update_page, unpin_page, flush_page,
}
use myrmdb.Storage.Pool.Valid.{content, IsValid}
use myrmdb.Storage.Pool.Fetch.{fetch_page-Fetched, fetch_by_hit, fetch_by_miss}
use myrmdb.Storage.Pool.Release.{
  Keeps, write_frame, write_frame_lem, unpin_page-Keeps, flush_page-Keeps,
}

ok_some_ne : {f : ℕ} → ok (some f) ≢ ok none
ok_some_ne e = ground arith

module _ (disk : Disk) where
  -- A full pool without a victim is left as it was.
  victim-none :
      (ns : List Node) (hash : List (ℕ × ℕ)) (cap next : ℕ)
      → (Replacer.victim (replacer_of ns hash cap next)).0 ≡ none
      → (Replacer.victim (replacer_of ns hash cap next)).1 ≡ replacer_of ns hash cap next
  unfolding Replacer.victim
  victim-none [] hash cap next e = refl
  victim-none (n ∷ ns) hash cap next e = cc

  take_none :
      (l : List ℕ) (p : Pool disk) → (take_frame disk l p).0 ≡ none → (take_frame disk l p).1 ≡ p
  unfolding take_frame
  take_none [] p e =
      ap (λ (r : Replacer.LruReplacer). record p { replacer = r })
        (victim-none p.replacer.lru_list p.replacer.lru_hash p.replacer.max_size
          p.replacer.next_node e)
  take_none (f ∷ rest) p e = cc

  read_not_null :
      (f : ℕ) (i : PageId) (r : Result disk.Data) (p : Pool disk)
      → (load_step disk f i r p).0 ≢ ok none
  unfolding load_step
  read_not_null f i (ok d) p e = ok_some_ne e
  read_not_null f i (err x) p e = cc

  load_not_null :
      (f : ℕ) (i : PageId) (r : Result (Unit {0}) × Pool disk) → (load disk f i r).0 ≢ ok none
  unfolding load
  load_not_null f i (err x, p) e = cc
  load_not_null f i (ok u, p) e = read_not_null f i (disk.read_page i p.disk_state) p e

  miss_null :
      (i : PageId) (r : Option ℕ × Pool disk)
      → (fetch_miss disk i r).0 ≡ ok none
      → (r.0 ≡ none) × ((fetch_miss disk i r).1 ≡ r.1)
  unfolding fetch_miss
  miss_null i (none, q) e = (refl, refl)
  miss_null i (some f, q) e = absurd (load_not_null f i (update_page disk f i q) e)

  -- A null pointer from `fetch_page` means that nothing has happened.
  fetch_null :
      (i : PageId) (p : Pool disk) → (fetch_page disk i p).0 ≡ ok none → (fetch_page disk i p).1 ≡ p
  unfolding find_victim_page
  fetch_null i p e = elim (Option-cases (find disk i p)) [
    | inl absent ↦
        let same = fetch_by_miss disk i p absent in
        let h =
          miss_null i (find_victim_page disk p)
            (ap (λ (o : Result (Option ℕ) × Pool disk). o.0) (sym same) ∙ e) in
        ap (λ (o : Result (Option ℕ) × Pool disk). o.1) same ∙ h.1 ∙ take_none p.free_list p h.0
    | inr (f, here) ↦
        let bad : ok (some f) ≡ ok none =
          ap (λ (o : Result (Option ℕ) × Pool disk). o.0) (sym (fetch_by_hit disk i f p here))
          ∙ e in
        absurd (ok_some_ne bad)
  ]

  -- A client's calls; `writes` goes through the frame that holds the page.
  pub data Event : Type 0 where
    fetches : PageId → Event
    writes : PageId → disk.Data → Event
    unpins : PageId → Bool → Event
    flushes : PageId → Event

  unfoldable pub step : Event → Pool disk → Pool disk
  step (fetches i) p = (fetch_page disk i p).1
  step (writes i d) p = elim (find disk i p) [ none ↦ p | some f ↦ write_frame disk f d p ]
  step (unpins i is_dirty) p = (unpin_page disk i is_dirty p).1
  step (flushes i) p = (flush_page disk i p).1

  unfoldable pub run : List Event → Pool disk → Pool disk
  run [] p = p
  run (e ∷ es) p = run es (step e p)

  -- What the calls mean without frames: only `writes` changes anything.
  unfoldable pub spec : List Event → (PageId → Result disk.Data) → PageId → Result disk.Data
  spec [] m = m
  spec (writes i d ∷ es) m = spec es (λ j. ite (PageId-discrete i j) (ok d) (m j))
  spec (fetches i ∷ es) m = spec es m
  spec (unpins i is_dirty ∷ es) m = spec es m
  spec (flushes i ∷ es) m = spec es m

  -- What a client owes the pool: it fetches pages, no call throws, it writes only to a page that is
  -- pinned, and it does not unpin as clean a page whose bytes it changed.
  unfoldable pub Permitted : Event → Pool disk → Type 0
  Permitted (fetches i) p =
      (i.page_no ≢ invalid_page_id) × (o : Option ℕ) × ((fetch_page disk i p).0 ≡ ok o)
  Permitted (writes i d) p = (f : ℕ) × (find disk i p ≡ some f) × ((page_at disk f p).pin_count ≢ 0)
  Permitted (unpins i is_dirty) p =
      (f : ℕ)
      → find disk i p ≡ some f
      → is_dirty ≡ false
      → (page_at disk f p).is_dirty ≡ false
      → disk.read_page i p.disk_state ≡ ok (page_at disk f p).data_
  Permitted (flushes i) p = (b : Bool) × ((flush_page disk i p).0 ≡ ok b)

  unfoldable pub AllPermitted : List Event → Pool disk → Type 0
  unfolding step
  AllPermitted [] p = Unit {0}
  AllPermitted (e ∷ es) p = Permitted e p × AllPermitted es (step e p)

  fetch-Keeps :
      (i : PageId) (p : Pool disk) (o : Option ℕ)
      → IsValid disk p
      → i.page_no ≢ invalid_page_id
      → (fetch_page disk i p).0 ≡ ok o
      → Keeps disk p (fetch_page disk i p).1
  fetch-Keeps i p none v valid e = subst (Keeps disk p) (sym (fetch_null i p e)) (v, λ j. refl)
  fetch-Keeps i p (some f) v valid e =
      let h = fetch_page-Fetched disk i f p v valid e in (h.valid, h.contents)

  -- A map that agrees with the pool agrees after a call.
  Agrees : (PageId → Result disk.Data) → Pool disk → Type 0
  Agrees m p = (j : PageId) → content disk j p ≡ m j

  write_step :
      (i : PageId) (d : disk.Data) (f : ℕ) (p : Pool disk)
      → find disk i p ≡ some f
      → step (writes i d) p ≡ write_frame disk f d p
  unfolding step
  write_step i d f p e = rw (step, e) refl

  write-Agrees :
      (i : PageId) (d : disk.Data) (p : Pool disk) (m : PageId → Result disk.Data)
      → IsValid disk p
      → Agrees m p
      → Permitted (writes i d) p
      → IsValid disk (step (writes i d) p)
        × Agrees (λ j. ite (PageId-discrete i j) (ok d) (m j)) (step (writes i d) p)
  unfolding Agrees Permitted
  write-Agrees i d p m v agrees (f, e, pinned) =
      let h = write_frame_lem disk i f p v e pinned d in
      subst
        (λ q.
          IsValid disk q
          × ((j : PageId) → content disk j q ≡ ite (PageId-discrete i j) (ok d) (m j)))
        (sym (write_step i d f p e))
        (
          h.0,
          λ j. elim (PageId-discrete i j) [
            | yes same ↦
                subst (λ k. content disk k (write_frame disk f d p) ≡ ok d) same h.1
                ∙ sym (if_pos (PageId-discrete i j) same (ok d) (m j))
            | no ne ↦ h.2 j ne ∙ agrees j ∙ sym (if_neg (PageId-discrete i j) ne (ok d) (m j))
          ],
        )

  Keeps-Agrees :
      (p q : Pool disk) (m : PageId → Result disk.Data) → Agrees m p → Keeps disk p q → Agrees m q
  unfolding Agrees
  Keeps-Agrees p q m agrees h j = h.1 j ∙ agrees j

  run-Agrees :
      (es : List Event) (p : Pool disk) (m : PageId → Result disk.Data)
      → IsValid disk p
      → Agrees m p
      → AllPermitted es p
      → IsValid disk (run es p) × Agrees (spec es m) (run es p)
  unfolding run spec AllPermitted step Permitted
  run-Agrees [] p m v agrees ok_ = (v, agrees)
  run-Agrees (fetches i ∷ es) p m v agrees ((valid, o, e), rest) =
      let k = fetch-Keeps i p o v valid e in
      run-Agrees es (fetch_page disk i p).1 m k.0 (Keeps-Agrees p _ m agrees k) rest
  run-Agrees (writes i d ∷ es) p m v agrees (allowed, rest) =
      let k = write-Agrees i d p m v agrees allowed in
      run-Agrees es (step (writes i d) p) (λ j. ite (PageId-discrete i j) (ok d) (m j)) k.0 k.1 rest
  run-Agrees (unpins i is_dirty ∷ es) p m v agrees (told, rest) =
      let k = unpin_page-Keeps disk i is_dirty p v told in
      run-Agrees es (unpin_page disk i is_dirty p).1 m k.0 (Keeps-Agrees p _ m agrees k) rest
  run-Agrees (flushes i ∷ es) p m v agrees ((b, e), rest) =
      let k = (flush_page-Keeps disk i b p v e).0 in
      run-Agrees es (flush_page disk i p).1 m k.0 (Keeps-Agrees p _ m agrees k) rest

  -- Let a client make any sequence of calls of `fetch_page`, `unpin_page` and `flush_page` and of
  -- writes to pinned pages, on a pool that satisfies its invariant: no call throws, and it unpins as
  -- clean no page that differs from the disk while its flag is clear. If it then fetches the page `i` and gets a frame, the
  -- frame holds what it last wrote to `i`, or what belonged to `i` at the start, whatever was evicted
  -- and read again on the way.
  pub run-reads :
      (es : List Event) (p : Pool disk) (i : PageId) (f : ℕ)
      → IsValid disk p
      → AllPermitted es p
      → i.page_no ≢ invalid_page_id
      → (fetch_page disk i (run es p)).0 ≡ ok (some f)
      → spec es (λ j. content disk j p) i
        ≡ ok (page_at disk f (fetch_page disk i (run es p)).1).data_
  unfolding Agrees
  run-reads es p i f v allowed valid e =
      let r = run-Agrees es p (λ j. content disk j p) v (λ j. refl) allowed in
      sym (r.1 i) ∙ (fetch_page-Fetched disk i f (run es p) r.0 valid e).bytes
