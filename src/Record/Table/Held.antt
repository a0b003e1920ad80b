-- ===== src/Record/Table/Held.antt =====
-- A page that is pinned, and may have been written since, over the pages it will be stored in.

use myrmdb.Prelude.{ℕ, suc, ◌-◌, ◌≡◌, ◌≢◌, refl, sym, ap, ◌∙◌, Bool, true, false, arith}
use myrmdb.Prelude.Int.{ℤ}
use myrmdb.Record.Pages.{
  RmPage, View, Pages, pin, unpin, put, update, update_self, update-update, update_same,
}
use myrmdb.Record.Table.Access.{IsCalm, store, pinned_some}

-- The view `w` is `v` with the page `i` pinned once more, and its bytes not settled.
pub record Held (i : ℤ) (v w : View) : Type 0 where
  pub pinned : w.pins ≡ update i (suc (v.pins i)) v.pins
  pub settled : update i false w.unsaved ≡ v.unsaved
  pub rest : (q : RmPage) → update i q w.page ≡ update i q v.page
  pub numbered : w.next_page ≡ v.next_page

pub pin-Held : (i : ℤ) (v : View) → IsCalm v → Held i v (pin i v)
pin-Held i v calm = record {
  pinned = refl;
  settled = update_same i false v.unsaved (calm i);
  rest = λ q. refl;
  numbered = refl;
}

module _ (i : ℤ) (v w : View) (h : Held i v w) where
  pub Held-put : (q : RmPage) → Held i v (put i q w)
  Held-put q = record {
    pinned = h.pinned;
    settled = update-update i true false w.unsaved ∙ h.settled;
    rest = λ r. update-update i q r w.page ∙ h.rest r;
    numbered = h.numbered;
  }

  pub Held_some : w.pins i ≢ 0
  Held_some zero = pinned_some i v (ap (λ f. f i) (sym h.pinned) ∙ zero)

  dropped : update i (w.pins i - 1) w.pins ≡ v.pins
  dropped =
      ap (λ f. update i (f i - 1) f) h.pinned
      ∙ ap (λ n. update i (n - 1) (update i (suc (v.pins i)) v.pins))
          (update_self i (suc (v.pins i)) v.pins)
      ∙ update-update i (suc (v.pins i)) (suc (v.pins i) - 1) v.pins
      ∙ update_same i (suc (v.pins i) - 1) v.pins (omega arith)

  -- Written and unpinned as dirty, the page is stored.
  pub unpin-put-Held : (q : RmPage) → unpin i true (put i q w) ≡ store i q v
  unpin-put-Held q =
      let parts : (f g : ℤ → RmPage) (a b : ℤ → ℕ) (c d : ℤ → Bool) (m n : ℕ)
          → f ≡ g
          → a ≡ b
          → c ≡ d
          → m ≡ n
          → ◌≡◌ {A = View} (record { page = f; pins = a; unsaved = c; next_page = m })
              (record { page = g; pins = b; unsaved = d; next_page = n }) =
        λ f g a b c d m n x y z t.
          λ k. record { page = x k; pins = y k; unsaved = z k; next_page = t k } in
      parts _ _ _ _ _ _ _ _ (h.rest q) dropped (update-update i true false w.unsaved ∙ h.settled)
        h.numbered

-- Written and unpinned as dirty through the buffer pool.
pub store-Held :
    (pages : Pages) (i : ℤ) (q : RmPage) (s : pages.State) (v : View)
    → Held i v (pages.view s)
    → pages.view (pages.unpin_page i true (pages.write_frame i q s)) ≡ store i q v
store-Held pages i q s v h =
    let some_ = Held_some i v (pages.view s) h in
    let w = pages.view-write_frame i q s some_ in
    pages.view-unpin_page i true (pages.write_frame i q s)
      (λ zero. some_ (ap (λ (x : View). x.pins i) (sym w) ∙ zero)) (λ (bad : true ≡ false). cc)
    ∙ ap (unpin i true) w
    ∙ unpin-put-Held i v (pages.view s) h q
