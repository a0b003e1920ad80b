-- ===== src/Record/Bitmap/Count.antt =====
-- How many bits of a bitmap are set.
use myrmdb.Prelude.{
  ℕ, zero, suc, ◌+◌, ◌*◌, ◌≤◌, ◌<◌, ◌≡◌, ◌≢◌, refl, sym, ap, ◌∙◌, Bool, true, false, inl, inr, List,
  arith, length, Bool-cases, ltb, ltb→lt, ◌==◌, if◌then◌else◌, ℕ_discrete,
}
use myrmdb.Prelude.Int.{negsuc}
use myrmdb.Record.Bitmap.{is_set, init, set_bit, reset, first_bit, next_bit}
use myrmdb.Record.Bitmap.Bits.{IsBytes, is_set-set_bit, is_set-reset, is_set-init}
use myrmdb.Record.Bitmap.Scan.{next_bit-IsNext}

-- How often `f` holds below `n`.
abbrev pub holds : (ℕ → Bool) → ℕ → ℕ
holds f zero = 0
holds f (suc n) = (if f n then 1 else 0) + holds f n

-- The number of set bits among the first `n`.
abbrev pub count : List ℕ → ℕ → ℕ
count bm n = holds (is_set bm) n

pub holds_le : (f : ℕ → Bool) (n : ℕ) → holds f n ≤ n
holds_le f zero = omega arith
holds_le f (suc n) = ground (arith, holds_le f n)

holds_same : (f g : ℕ → Bool) (n : ℕ) → ((k : ℕ) → k < n → g k ≡ f k) → holds g n ≡ holds f n
holds_same f g zero h = refl
holds_same f g (suc n) h =
    ap (λ b. (if b then 1 else 0) + holds g n) (h n (omega arith))
    ∙ ap (λ m. (if f n then 1 else 0) + m) (holds_same f g n (λ k l. h k (omega (arith, l))))

-- One more value, and one less.
holds_more :
    (f g : ℕ → Bool) (p n : ℕ)
    → ((k : ℕ) → k ≢ p → g k ≡ f k)
    → f p ≡ false
    → g p ≡ true
    → p < n
    → holds g n ≡ suc (holds f n)
holds_more f g p zero same off on below = absurd (omega (arith, below))
holds_more f g p (suc n) same off on below = elim (ℕ_discrete p n) [
  | yes e ↦
      let rest = holds_same f g n (λ k l. same k (λ bad. omega (arith, bad, l, e))) in
      let a : f n ≡ false = ap f (sym e) ∙ off in
      let b : g n ≡ true = ap g (sym e) ∙ on in ground (arith, rest, a, b)
  | no ne ↦
      let rest = holds_more f g p n same off on (omega (arith, below, ne)) in
      let a = same n (λ bad. ne (sym bad)) in
      ap (λ b. (if b then 1 else 0) + holds g n) a ∙ omega (arith, rest)
]

-- Every value below holds.
holds_all : (f : ℕ → Bool) (n : ℕ) → ((k : ℕ) → k < n → f k ≢ false) → holds f n ≡ n
holds_all f zero h = refl
holds_all f (suc n) h =
    let rest = holds_all f n (λ k l. h k (omega (arith, l))) in
    elim (Bool-cases (f n)) [
      | inl on ↦ ground (arith, rest, on)
      | inr off ↦ absurd (h n (omega arith) off)
    ]

module _ (bm : List ℕ) (p n : ℕ) (bytes : IsBytes bm) (inside : p < length bm * 8) where
  other : (b : Bool) (q : ℕ) → q ≢ p → (if p == q then b else is_set bm q) ≡ is_set bm q
  other b q ne = ground (arith, ne)

  self : (b : Bool) → (if p == p then b else is_set bm p) ≡ b
  self b = ground arith

  pub count-set_bit : is_set bm p ≡ false → p < n → count (set_bit bm p) n ≡ suc (count bm n)
  count-set_bit off below =
      holds_more (is_set bm) (is_set (set_bit bm p)) p n
        (λ q ne. is_set-set_bit bm p q bytes inside ∙ other true q ne) off
        (is_set-set_bit bm p p bytes inside ∙ self true) below

  pub count-reset : is_set bm p ≡ true → p < n → suc (count (reset bm p) n) ≡ count bm n
  count-reset on below = sym (
      holds_more (is_set (reset bm p)) (is_set bm) p n
        (λ q ne. sym (is_set-reset bm p q bytes inside ∙ other false q ne))
        (is_set-reset bm p p bytes inside ∙ self false) on below)

-- A bitmap with a clear bit among the first `n` has a first one.
pub first_bit_free :
    (bm : List ℕ) (n : ℕ)
    → count bm n ≢ n
    → (first_bit false bm n < n) × (is_set bm (first_bit false bm n) ≡ false)
unfolding first_bit
first_bit_free bm n some_ =
    let next = next_bit-IsNext false bm n (negsuc 0) (omega arith) in
    let r = next_bit false bm n (negsuc 0) in
    let within = next.within in
    let below : r < n = elim (Bool-cases (ltb r n)) [
      | inl yes_ ↦ ltb→lt r n yes_
      | inr no_ ↦
          let all : r ≡ n = ground (arith, within, no_) in
          absurd (
            some_
              (holds_all (is_set bm) n (λ k l. next.least k (omega arith) (omega (arith, l, all)))))
    ] in
    (below, (next.found below).1)

holds_none : (f : ℕ → Bool) (n : ℕ) → ((k : ℕ) → f k ≡ false) → holds f n ≡ 0
holds_none f zero h = refl
holds_none f (suc n) h = let rest = holds_none f n h in let a = h n in ground (arith, rest, a)

pub count-init : (size n : ℕ) → count (init size) n ≡ 0
count-init size n = holds_none (is_set (init size)) n (is_set-init size)
