-- ===== src/Record/Bitmap/Scan.antt =====
-- `next_bit` finds the least position that carries the bit.
use myrmdb.Prelude.{
  ℕ, zero, suc, ◌+◌, ◌-◌, ◌≤◌, ◌<◌, ◌≡◌, refl, ◌≢◌, inl, inr, Bool, true, false, List, arith,
  Bool-cases, bool_eq, ℕ_discrete,
}
use myrmdb.Prelude.Int.{ℤ}
use myrmdb.Record.Bitmap.{is_set, scan, after, next_bit}

-- `r` is the first position at or past `i` that carries `bit`, or `max_n` if there is none.
pub record IsNext (bit : Bool) (bm : List ℕ) (max_n i r : ℕ) : Type 0 where
  pub within : r ≤ max_n
  pub found : r < max_n → (i ≤ r) × (is_set bm r ≡ bit)
  pub least : (j : ℕ) → i ≤ j → j < r → is_set bm j ≢ bit

bool_eq_iff_true : (a b : Bool) → bool_eq a b ≡ true → a ≡ b
bool_eq_iff_true true true h = refl
bool_eq_iff_true true false h = cc
bool_eq_iff_true false true h = cc
bool_eq_iff_true false false h = refl

bool_eq_iff_false : (a b : Bool) → bool_eq a b ≡ false → a ≢ b
bool_eq_iff_false a b h e = ground arith

IsNext-step :
    (bit : Bool) (bm : List ℕ) (max_n i r : ℕ)
    → is_set bm i ≢ bit
    → IsNext bit bm max_n (i + 1) r
    → IsNext bit bm max_n i r
IsNext-step bit bm max_n i r miss h = record {
  within = h.within;
  found = λ lt. (omega (arith, (h.found lt).0), (h.found lt).1);
  least = λ j ge lt. elim (ℕ_discrete i j) [
    | yes e ↦ rw (← e) miss
    | no ne ↦ h.least j (omega arith) lt
  ];
}

scan-IsNext :
    (bit : Bool) (bm : List ℕ) (max_n rounds i : ℕ)
    → i + rounds ≡ max_n
    → IsNext bit bm max_n i (scan bit bm max_n rounds i)
unfolding scan
scan-IsNext bit bm max_n zero i e = record {
  within = omega arith;
  found = λ lt. absurd (omega arith);
  least = λ j ge lt. absurd (omega arith);
}
scan-IsNext bit bm max_n (suc rounds) i e = elim (Bool-cases (bool_eq (is_set bm i) bit)) [
  | inl hit ↦ rw hit (record {
    within = omega arith;
    found = λ lt. (omega arith, bool_eq_iff_true _ _ hit);
    least = λ j ge lt. absurd (omega arith);
  })
  | inr miss ↦ rw miss (
      IsNext-step bit bm max_n i _ (bool_eq_iff_false _ _ miss)
        (scan-IsNext bit bm max_n rounds (i + 1) (omega arith)))
]

-- For `curr` below `max_n`, `next_bit` returns the first position past `curr` and below `max_n`
-- that carries `bit`, and `max_n` exactly when no such position exists.
pub next_bit-IsNext :
    (bit : Bool) (bm : List ℕ) (max_n : ℕ) (curr : ℤ)
    → after curr ≤ max_n
    → IsNext bit bm max_n (after curr) (next_bit bit bm max_n curr)
unfolding next_bit
next_bit-IsNext bit bm max_n curr h =
    scan-IsNext bit bm max_n (max_n - after curr) (after curr) (omega arith)
