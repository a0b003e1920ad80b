-- ===== src/Record/Scan/First.antt =====
-- The first record from a position on, page by page.
use mathlib.Core.Path.{subst}
use myrmdb.Prelude.{
  ℕ, ◌+◌, ◌≤◌, ◌<◌, ◌≡◌, ◌≢◌, refl, sym, Bool, true, false, ltb, ◌⊎◌, inl, inr, List, Option, none,
  arith, Bool-cases,
}
use myrmdb.Prelude.Int.{ℤ, pos}
use myrmdb.Concurrency.Transaction.{Rid}
use myrmdb.Record.Bitmap.{is_set}
use myrmdb.Record.Bitmap.Scan.{IsNext}
use myrmdb.Record.Pages.{RmFileHdr, RmPage}
use myrmdb.Record.Scan.{end_rid}
use myrmdb.Record.Table.{outside, page_outside, slot_outside}
use myrmdb.Record.Table.Records.{record_at, record_at-some, record_at-none}

abbrev pub at : ℕ → ℕ → Rid
at k s = record { page_no = pos k; slot_no = pos s }

-- A position from slot `d` of page `k` on.
abbrev pub From : ℕ → ℕ → ℕ → ℕ → Type 0
From k d a b = (k < a) ⊎ ((a ≡ k) × (d ≤ b))

abbrev pub Before : ℕ → ℕ → ℕ → ℕ → Type 0
Before a b j m = (a < j) ⊎ ((a ≡ j) × (b < m))

-- `r` is the first position from slot `d` of page `k` on that has a record, or the end of the file
-- if there is none.
abbrev pub IsFirst : (Rid → Option (List ℕ)) → RmFileHdr → ℕ → ℕ → Rid → Type 0
IsFirst f hdr k d r =
    ((j : ℕ) × (m : ℕ) × (r ≡ at j m)
      × (f (at j m) ≢ none)
      × From k d j m
      × ((a b : ℕ) → From k d a b → Before a b j m → f (at a b) ≡ none))
    ⊎ ((r ≡ end_rid hdr) × ((a b : ℕ) → From k d a b → f (at a b) ≡ none))

pub page_beyond : (hdr : RmFileHdr) (a b : ℕ) → hdr.num_pages ≤ a → outside hdr (at a b) ≡ true
unfolding outside page_outside slot_outside
page_beyond hdr a b h = ground (arith, h)

slot_beyond :
    (hdr : RmFileHdr) (a b : ℕ) → hdr.num_records_per_page ≤ b → outside hdr (at a b) ≡ true
unfolding outside page_outside slot_outside
slot_beyond hdr a b h = ground (arith, h)

within :
    (hdr : RmFileHdr) (a b : ℕ)
    → 1 ≤ a
    → a < hdr.num_pages
    → b < hdr.num_records_per_page
    → outside hdr (at a b) ≡ false
unfolding outside page_outside slot_outside
within hdr a b low high l = ground (arith, low, high, l)

false_of_ne : (b : Bool) → b ≢ true → b ≡ false
false_of_ne true h = absurd (h refl)
false_of_ne false h = refl

next_page : (k a b : ℕ) → k < a → From (k + 1) 0 a b
next_page k a b past = elim (Bool-cases (ltb (k + 1) a)) [
  | inl more ↦ inl (ground (arith, more))
  | inr same ↦ inr (ground (arith, same, past), omega arith)
]

-- On one page: what the search of its bitmap says of its records.
module _ (hdr : RmFileHdr) (page : ℤ → RmPage) (k d s : ℕ) (low : 1 ≤ k) (high : k < hdr.num_pages)
    (search : IsNext true (page (pos k)).bitmap hdr.num_records_per_page d s) where
  abbrev pub f : Rid → Option (List ℕ)
  f = record_at hdr page

  -- No record stands before what was found.
  none_before : (b : ℕ) → d ≤ b → b < s → f (at k b) ≡ none
  none_before b l h =
      record_at-none hdr page (at k b)
        (inr (false_of_ne (is_set (page (pos k)).bitmap b) (search.least b l h)))

  pub hit : s < hdr.num_records_per_page → IsFirst f hdr k d (at k s)
  hit h =
      let found = search.found h in
      let value = record_at-some hdr page (at k s) (within hdr k s low high h) found.1 in
      inl (
        k,
        s,
        refl,
        (λ (e : f (at k s) ≡ none). cc),
        inr (refl, found.0),
        λ a b from before. elim from [
          | inl past ↦ absurd (elim before [
            | inl less ↦ omega (arith, past, less)
            | inr (same, less) ↦ omega (arith, past, same)
          ])
          | inr (here, l) ↦ elim before [
            | inl less ↦ absurd (omega (arith, here, less))
            | inr (same, less) ↦ subst (λ x. f (at x b) ≡ none) (sym here) (none_before b l less)
          ]
        ],
      )

  none_here : hdr.num_records_per_page ≤ s → (b : ℕ) → d ≤ b → f (at k b) ≡ none
  none_here full b l = elim (Bool-cases (ltb b s)) [
    | inl less ↦ none_before b l (ground (arith, less))
    | inr more ↦
        record_at-none hdr page (at k b) (inl (slot_beyond hdr k b (ground (arith, more, full))))
  ]

  pub miss :
      hdr.num_records_per_page ≤ s → (r : Rid) → IsFirst f hdr (k + 1) 0 r → IsFirst f hdr k d r
  miss full r (inl (j, m, same, some_, from, none_)) = inl (
    j,
    m,
    same,
    some_,
    inl (elim from [ inl less ↦ omega (arith, less) | inr (e, _) ↦ omega (arith, e) ]),
    λ a b from_ before. elim from_ [
      | inl past ↦ none_ a b (next_page k a b past) before
      | inr (here, l) ↦ subst (λ x. f (at x b) ≡ none) (sym here) (none_here full b l)
    ],
  )
  miss full r (inr (same, none_)) = inr (
    same,
    λ a b from_. elim from_ [
      | inl past ↦ none_ a b (next_page k a b past)
      | inr (here, l) ↦ subst (λ x. f (at x b) ≡ none) (sym here) (none_here full b l)
    ],
  )
