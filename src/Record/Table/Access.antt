-- ===== src/Record/Table/Access.antt =====
-- One page fetched, read or written, and unpinned again, as every operation of a table file does.
use mathlib.Core.Path.{subst}
use myrmdb.Prelude.{
  suc, ◌-◌, ◌≡◌, ◌≢◌, refl, sym, ap, ◌∙◌, Bool, true, false, ◌⊎◌, inl, inr, arith, if◌then◌else◌,
}
use myrmdb.Prelude.Int.{ℤ}
use myrmdb.Errors.{
  ok_inj, err_inj, ok_ne_err, Error, Result, ok, err, internal_error, page_not_exist,
}
use myrmdb.Record.Pages.{
  RmPage, View, Pages, pin, unpin, put, update, update_self, update-update, update_same,
}
use myrmdb.Record.Table.{RmFileHandle, page_outside, fetch_page_handle, fetched, then_, unpinned}

pub Result-cases {ℓ} :
    {A : Type ℓ} (r : Result A) → ((a : A) × (r ≡ ok a)) ⊎ ((e : Error) × (r ≡ err e))
Result-cases (ok a) = inl (a, refl)
Result-cases (err e) = inr (e, refl)

-- Every page that was written has been reported.
abbrev pub IsCalm : View → Type 0
IsCalm v = (i : ℤ) → v.unsaved i ≡ false

abbrev pub store : ℤ → RmPage → View → View
store i p v = record v { page = update i p v.page }

unpin-pin : (i : ℤ) (v : View) → unpin i false (pin i v) ≡ v
unpin-pin i v =
    ap (λ f. record v { pins = f })
      (ap (λ n. update i (n - 1) (update i (suc (v.pins i)) v.pins))
          (update_self i (suc (v.pins i)) v.pins)
        ∙ update-update i (suc (v.pins i)) (suc (v.pins i) - 1) v.pins
        ∙ update_same i (suc (v.pins i) - 1) v.pins (omega arith))

unpin-put-pin :
    (i : ℤ) (p : RmPage) (v : View) → IsCalm v → unpin i true (put i p (pin i v)) ≡ store i p v
unpin-put-pin i p v calm =
    ap
      (λ (w : View). record w {
        page = update i p v.page;
        unsaved = update i false (update i true v.unsaved);
      })
      (unpin-pin i v)
    ∙ ap (λ f. record v { page = update i p v.page; unsaved = f })
        (update-update i true false v.unsaved ∙ update_same i false v.unsaved (calm i))

pub pinned_some : (i : ℤ) (v : View) → (pin i v).pins i ≢ 0
pinned_some i v e =
    let bad : suc (v.pins i) ≡ 0 = sym (update_self i (suc (v.pins i)) v.pins) ∙ e in
    omega (arith, bad)

module _ (pages : Pages) where
  open pages use {State, view, fetch_page, unpin_page, write_frame}

  abbrev pub view_of : RmFileHandle pages → View
  view_of t = view t.state

  -- Neither the pages nor the file header have changed.
  abbrev pub Untouched : RmFileHandle pages → RmFileHandle pages → Type 0
  Untouched t u = (view_of u ≡ view_of t) × (u.file_hdr ≡ t.file_hdr)

  -- A call throws for a reason `W` and leaves everything as it was, or returns with `P`.
  abbrev pub Ends {ℓ} :
      {A : Type 0}
      → RmFileHandle pages
      → Result A × RmFileHandle pages
      → (Error → Type 0)
      → (A → RmFileHandle pages → Type ℓ)
      → Type ℓ
  Ends t x W P =
      ((e : Error) × (x.0 ≡ err e) × W e × Untouched t x.1) ⊎ ((a : _) × (x.0 ≡ ok a) × P a x.1)

  module _ {ℓ} {A : Type 0} (t : RmFileHandle pages) (W : Error → Type 0)
      (P : A → RmFileHandle pages → Type ℓ) where
    -- A call after a call.
    pub Ends-then_ {κ} :
        {B : Type 0} (V : Error → Type 0) (Q : B → RmFileHandle pages → Type κ)
        (x : Result A × RmFileHandle pages)
        (k : A → RmFileHandle pages → Result B × RmFileHandle pages)
        → Ends t x W P
        → ((e : Error) → W e → V e)
        → ((a : A) (u : RmFileHandle pages) → P a u → Ends t (k a u) V Q)
        → Ends t (then_ pages x k) V Q
    unfolding then_
    Ends-then_ V Q (ok a, u) k h g f = elim h [
      | inl (e, bad, why, same) ↦ absurd (ok_ne_err bad)
      | inr (b, same, p) ↦ f a u (subst (λ c. P c u) (sym (ok_inj same)) p)
    ]
    Ends-then_ V Q (err e, u) k h g f = elim h [
      | inl (e', same, why, left) ↦ inl (e', ap err (err_inj same), g e' why, left)
      | inr (b, bad, p) ↦ absurd (ok_ne_err (sym bad))
    ]

    -- A guard that throws.
    pub Ends-guard :
        (b : Bool) (e : Error) (x : Result A × RmFileHandle pages)
        → (b ≡ true → W e)
        → (b ≡ false → Ends t x W P)
        → Ends t (if b then (err e, t) else x) W P
    Ends-guard true e x g f = inl (e, refl, g refl, (refl, refl))
    Ends-guard false e x g f = f refl

    -- A choice between returning and throwing.
    pub Ends_if :
        (b : Bool) (x y : Result A × RmFileHandle pages)
        → (b ≡ true → Ends t x W P)
        → (b ≡ false → Ends t y W P)
        → Ends t (if b then x else y) W P
    Ends_if true x y f g = f refl
    Ends_if false x y f g = g refl

  -- A fetch pinned the page `i` of `t`.
  abbrev pub Pinned : ℤ → RmFileHandle pages → RmFileHandle pages → Type 0
  Pinned i t u = (view_of u ≡ pin i (view_of t)) × (u.file_hdr ≡ t.file_hdr)

  -- The buffer pool threw, or gave the null pointer.
  abbrev pub PoolFails : ℤ → RmFileHandle pages → Type 0
  PoolFails i t = (fetch_page i t.state).0 ≢ ok true

  abbrev pub NoPage : ℤ → RmFileHandle pages → Error → Type 0
  NoPage i t e = ((e ≡ page_not_exist) × (page_outside t.file_hdr i ≡ true)) ⊎ PoolFails i t

  fetched-Ends :
      (i : ℤ) (t : RmFileHandle pages) (r : Result Bool × State)
      → (r.0 ≡ ok true → view r.1 ≡ pin i (view_of t))
      → (r.0 ≢ ok true → view r.1 ≡ view_of t)
      → Ends t (fetched pages t r) (λ e. r.0 ≢ ok true) (λ _ u. Pinned i t u)
  unfolding fetched
  fetched-Ends i t (ok true, s) yes_ no_ = inr (tt, refl, (yes_ refl, refl))
  fetched-Ends i t (ok false, s) yes_ no_ =
      inl (internal_error, refl, ok_false, (no_ ok_false, refl))
    where
      ok_false : ok false ≢ ok true
      ok_false e = cc
  fetched-Ends i t (err x, s) yes_ no_ = inl (x, refl, thrown, (no_ thrown, refl))
    where
      thrown : err x ≢ ok true
      thrown e = cc

  abbrev pub Inside : ℤ → RmFileHandle pages → RmFileHandle pages → Type 0
  Inside i t u = (page_outside t.file_hdr i ≡ false) × Pinned i t u

  -- Fetching pins the page, or throws and changes nothing.
  pub fetch_page_handle-Ends :
      (i : ℤ) (t : RmFileHandle pages)
      → Ends t (fetch_page_handle pages i t) (NoPage i t) (λ _ u. Inside i t u)
  unfolding fetch_page_handle
  fetch_page_handle-Ends i t =
      Ends-guard t (NoPage i t) (λ _ u. Inside i t u) (page_outside t.file_hdr i) page_not_exist
        (fetched pages t (fetch_page i t.state)) (λ out. inl (refl, out))
        λ inside.
          elim (fetched-Ends i t (fetch_page i t.state) (pages.view-fetch_page i t.state)
            (pages.view-fetch_page_null i t.state)) [
              | inl (e, same, why, left) ↦ inl (e, same, inr why, left)
              | inr (a, same, p) ↦ inr (a, same, (inside, p))
            ]

  -- Unpinning a page that was only read puts everything back.
  pub unpinned-Untouched :
      (i : ℤ) (t u : RmFileHandle pages)
      → IsCalm (view_of t)
      → Pinned i t u
      → Untouched t (unpinned pages i false u)
  unpinned-Untouched i t u calm p = (
    pages.view-unpin_page i false u.state
          (λ zero. pinned_some i (view_of t) (ap (λ (v : View). v.pins i) (sym p.0) ∙ zero))
          (λ _. ap (λ (v : View). v.unsaved i) p.0 ∙ calm i)
        ∙ ap (unpin i false) p.0
        ∙ unpin-pin i (view_of t),
    p.1,
  )

  -- Writing a page that is pinned and unpinning it as dirty stores it.
  pub written-store :
      (i : ℤ) (q : RmPage) (t u : RmFileHandle pages) (v : View)
      → IsCalm v
      → view_of u ≡ pin i v
      → view (unpin_page i true (write_frame i q u.state)) ≡ store i q v
  written-store i q t u v calm p =
      let some_ : (view u.state).pins i ≢ 0 =
        λ zero. pinned_some i v (ap (λ (w : View). w.pins i) (sym p) ∙ zero) in
      let w = pages.view-write_frame i q u.state some_ in
      pages.view-unpin_page i true (write_frame i q u.state)
        (λ zero. some_ (ap (λ (v : View). v.pins i) (sym w) ∙ zero)) (λ (bad : true ≡ false). cc)
      ∙ ap (unpin i true) (w ∙ ap (put i q) p)
      ∙ unpin-put-pin i q v calm
