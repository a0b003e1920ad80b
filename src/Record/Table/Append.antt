-- ===== src/Record/Table/Append.antt =====
-- The loop of `insert_record(rid, buf)` that appends pages until the file has the page of `rid`.
use myrmdb.Prelude.{
  ℕ, zero, suc, ◌+◌, ◌≤◌, ◌<◌, ◌≡◌, ◌≢◌, refl, sym, ap, ◌∙◌, ◌⊎◌, inl, inr, Option, none, some,
  arith, ltb, true, Bool-cases,
}
use myrmdb.Prelude.Int.{ℤ, pos}
use myrmdb.Errors.{Error, Result, ok, err, internal_error, ok_ne_err}
use myrmdb.Record.Pages.{Pages}
use myrmdb.Record.Table.{
  RmFileHandle, unpinned, made, create_new_page_handle, append_pages, missing, then_,
}

module _ (pages : Pages) where
  open pages use {State, new_page}

  abbrev pub num_pages : RmFileHandle pages → ℕ
  num_pages t = t.file_hdr.num_pages

  -- After some rounds, with so many pages, the buffer pool gives no new page.
  abbrev pub Refused : ℕ → RmFileHandle pages → Type 0
  Refused n t =
      (rounds : ℕ) × (u : RmFileHandle pages) × (append_pages pages rounds t ≡ (ok tt, u))
      × (num_pages t + rounds ≡ n)
      × (num_pages u ≡ n)
      × ((i : ℤ) → (new_page u.state).0 ≢ ok (some i))

  made-grows :
      (t : RmFileHandle pages) (r : Result (Option ℤ) × State)
      → (((i : ℤ) × ((made pages t r).0 ≡ ok i))
          × (num_pages (made pages t r).1 ≡ suc (num_pages t)))
        ⊎ (((e : Error) × ((made pages t r).0 ≡ err e))
            × (num_pages (made pages t r).1 ≡ num_pages t)
            × ((i : ℤ) → r.0 ≢ ok (some i)))
  unfolding made
  made-grows t (ok (some i), s) = inl ((i, refl), refl)
  made-grows t (ok none, s) = inr ((internal_error, refl), refl, λ i e. cc)
  made-grows t (err e, s) = inr ((e, refl), refl, λ i bad. cc)

  -- What the loop does in so many rounds.
  abbrev Appended : ℕ → RmFileHandle pages → Result (Unit {0}) × RmFileHandle pages → Type 0
  Appended rounds t x =
      ((x.0 ≡ ok tt) × (num_pages x.1 ≡ num_pages t + rounds))
      ⊎ (((e : Error) × (x.0 ≡ err e))
          × (num_pages x.1 < num_pages t + rounds)
          × Refused (num_pages x.1) t)

  -- How one page more was made, or was not.
  abbrev Grows : RmFileHandle pages → Result ℤ × RmFileHandle pages → Type 0
  Grows t x =
      (((i : ℤ) × (x.0 ≡ ok i)) × (num_pages x.1 ≡ suc (num_pages t)))
      ⊎ (((e : Error) × (x.0 ≡ err e)) × (num_pages x.1 ≡ num_pages t) × Refused (num_pages t) t)

  create-Grows : (t : RmFileHandle pages) → Grows t (create_new_page_handle pages t)
  unfolding create_new_page_handle append_pages
  create-Grows t = elim (made-grows t (new_page t.state)) [
    | inl h ↦ inl h
    | inr (e, same, none_) ↦ inr (e, same, (0, t, refl, omega arith, refl, none_))
  ]

  next_round :
      (rounds : ℕ) (t : RmFileHandle pages) (x : Result ℤ × RmFileHandle pages)
      → x ≡ create_new_page_handle pages t
      → Grows t x
      → ((u : RmFileHandle pages) → Appended rounds u (append_pages pages rounds u))
      → Appended
          (suc rounds)
          t
          (then_ pages x (λ i u. append_pages pages rounds (unpinned pages i true u)))
  unfolding then_ append_pages
  next_round rounds t (ok i, u) made_ (inl (_, grown)) rest =
      elim (rest (unpinned pages i true u)) [
        | inl (done, sum) ↦ inl (done, omega (arith, sum, grown))
        | inr (e, less, (m, w, ran, count, at_, none_)) ↦
            let first =
              ap (λ x. then_ pages x (λ j v. append_pages pages m (unpinned pages j true v)))
                (sym made_) in
            inr (
              e,
              omega (arith, less, grown),
              (suc m, w, first ∙ ran, omega (arith, count, grown), at_, none_),
            )
      ]
  next_round rounds t (ok i, u) made_ (inr ((e, bad), _, _)) rest = absurd (ok_ne_err bad)
  next_round rounds t (err e, u) made_ (inl ((i, bad), _)) rest = absurd (ok_ne_err (sym bad))
  next_round rounds t (err e, u) made_ (inr (_, same, (m, w, ran, count, at_, none_))) rest = inr (
    (e, refl),
    omega (arith, same),
    (m, w, ran, omega (arith, count, same), at_ ∙ sym same, none_),
  )

  append_pages-Appended :
      (rounds : ℕ) (t : RmFileHandle pages) → Appended rounds t (append_pages pages rounds t)
  unfolding append_pages
  append_pages-Appended zero t = inl (refl, omega arith)
  append_pages-Appended (suc rounds) t =
      let x = create_new_page_handle pages t in
      next_round rounds t x refl (create-Grows t) (append_pages-Appended rounds)

  -- Either the file has the page `k`, and no page after it unless it had it before, or the buffer
  -- pool refused a new page while the page was still missing.
  abbrev pub Ended : ℕ → RmFileHandle pages → Type 0
  Ended k t =
      let x = append_pages pages (missing (pos k) t.file_hdr) t in
      ((x.0 ≡ ok tt)
        × (k < num_pages x.1)
        × ((num_pages x.1 ≡ k + 1) ⊎ (num_pages x.1 ≡ num_pages t)))
      ⊎ (((e : Error) × (x.0 ≡ err e)) × (num_pages x.1 ≤ k) × Refused (num_pages x.1) t)

  -- The loop ends with the page `k` in the file, and no page after it unless it had it before; or it
  -- throws while the page is missing because, after the rounds that made the pages that there are, the
  -- buffer pool gives no new page.
  pub append_pages-ends : (k : ℕ) (t : RmFileHandle pages) → Ended k t
  append_pages-ends k t = elim (append_pages-Appended (missing (pos k) t.file_hdr) t) [
    | inl (done, sum) ↦ inl (
      done,
      omega (arith, sum),
      elim (Bool-cases (ltb k (num_pages t))) [
        | inl in_ ↦ inr (ground (arith, in_, sum))
        | inr out ↦ inl (ground (arith, out, sum))
      ],
    )
    | inr (e, less, refused) ↦ inr (e, (let m = refused.3 in omega (arith, less, m)), refused)
  ]
