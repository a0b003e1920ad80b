-- ===== src/Record/Bitmap/Bits.antt =====
-- A bitmap as a set of positions: what `set`, `reset` and `init` do to every bit.
use Prim.Native.Nat.{bit_and, bit_or, bit_and-bitwise}
use myrmdb.Prelude.{
  ℕ, zero, suc, ◌-◌, ◌*◌, ◌/◌, ◌%◌, ◌^◌, ◌<◌, ◌≡◌, refl, Bool, true, false, List, arith, not, ◌&&◌,
  ◌==◌, ltb, ltb→lt, if◌then◌else◌, get_or, length, All, get_or-set_self, get_or-set_ne, length-set,
  get_or-replicate, bool_eq, [], ◌∷◌, set, ℕ_discrete,
}
use myrmdb.Record.Bitmap.{get_bit, bitmap_highest_bit, init, set_bit, reset, is_set}

-- A test of every position under a bound, by running it.
holds_under : (ℕ → Bool) → ℕ → Bool
holds_under check zero = true
holds_under check (suc bound) = if check bound then holds_under check bound else false

holds_under→holds :
    (check : ℕ → Bool) (bound k : ℕ) → k < bound → holds_under check bound ≡ true → check k ≡ true
unfolding holds_under
holds_under→holds check zero k lt ok = elim lt [ ]
holds_under→holds check (suc bound) k lt ok = ground (arith, holds_under→holds check bound k)

abbrev bit_at : ℕ → ℕ
bit_at i = bitmap_highest_bit / 2 ^ i

abbrev test : ℕ → ℕ → Bool
test x j = not (bit_and x (bit_at j) == 0)

-- One byte, two positions in it: what a set or a reset at the first does to the second.
byte_ok : ℕ → ℕ → ℕ → Bool
byte_ok x i j =
    bool_eq (test (bit_or x (bit_at i)) j) (if i == j then true else test x j)
    && bool_eq (test (bit_and x (255 - bit_at i)) j) (if i == j then false else test x j)
    && ltb (bit_or x (bit_at i)) 256
    && ltb (bit_and x (255 - bit_at i)) 256

byte_table : holds_under (λ x. holds_under (λ i. holds_under (λ j. byte_ok x i j) 8) 8) 256 ≡ true
unfolding holds_under byte_ok
byte_table = refl

byte_lem : (x i j : ℕ) → x < 256 → i < 8 → j < 8 → byte_ok x i j ≡ true
byte_lem x i j hx hi hj =
    let at_x = holds_under→holds _ 256 x hx byte_table in
    let at_i = holds_under→holds _ 8 i hi at_x in holds_under→holds (λ j. byte_ok x i j) 8 j hj at_i

bool_eq→eq : (a b : Bool) → bool_eq a b ≡ true → a ≡ b
bool_eq→eq true true h = refl
bool_eq→eq true false h = cc
bool_eq→eq false true h = cc
bool_eq→eq false false h = refl

and_left : (a b : Bool) → a && b ≡ true → a ≡ true
and_left a b h = ground arith

and_right : (a b : Bool) → a && b ≡ true → b ≡ true
and_right a b h = ground arith

module _ (x i j : ℕ) (hx : x < 256) (hi : i < 8) (hj : j < 8) where
  or_test : test (bit_or x (bit_at i)) j ≡ (if i == j then true else test x j)
  unfolding byte_ok
  or_test = bool_eq→eq _ _ (and_left _ _ (and_left _ _ (and_left _ _ (byte_lem x i j hx hi hj))))

  and_test : test (bit_and x (255 - bit_at i)) j ≡ (if i == j then false else test x j)
  unfolding byte_ok
  and_test = bool_eq→eq _ _ (and_right _ _ (and_left _ _ (and_left _ _ (byte_lem x i j hx hi hj))))

  or_byte : bit_or x (bit_at i) < 256
  unfolding byte_ok
  or_byte = ltb→lt _ _ (and_right _ _ (and_left _ _ (byte_lem x i j hx hi hj)))

  and_byte : bit_and x (255 - bit_at i) < 256
  unfolding byte_ok
  and_byte = ltb→lt _ _ (and_right _ _ (byte_lem x i j hx hi hj))

abbrev pub IsBytes : List ℕ → Type 0
IsBytes = All (λ x. x < 256)

get_or-byte : (bm : List ℕ) (b : ℕ) → IsBytes bm → get_or bm b 0 < 256
get_or-byte [] b h = omega arith
get_or-byte (x ∷ xs) zero h = h.0
get_or-byte (x ∷ xs) (suc b) h = get_or-byte xs b h.1

set-IsBytes : (bm : List ℕ) (b v : ℕ) → IsBytes bm → v < 256 → IsBytes (set bm b v)
set-IsBytes [] b v h k = tt
set-IsBytes (x ∷ xs) zero v h k = (k, h.1)
set-IsBytes (x ∷ xs) (suc b) v h k = (h.0, set-IsBytes xs b v h.1 k)

pub set_bit-IsBytes : (bm : List ℕ) (p : ℕ) → IsBytes bm → IsBytes (set_bit bm p)
unfolding set_bit
set_bit-IsBytes bm p h =
    set-IsBytes bm (p / 8) _ h (
      or_byte (get_or bm (p / 8) 0) (p % 8) 0 (get_or-byte bm (p / 8) h) (omega arith)
        (omega arith))

pub reset-IsBytes : (bm : List ℕ) (p : ℕ) → IsBytes bm → IsBytes (reset bm p)
unfolding reset
reset-IsBytes bm p h = set-IsBytes bm (p / 8) _ h (
    and_byte (get_or bm (p / 8) 0) (p % 8) 0 (get_or-byte bm (p / 8) h) (omega arith) (omega arith))

-- Two positions in one byte are equal exactly when they are equal in the byte.
same_bucket : (p q : ℕ) → p / 8 ≡ q / 8 → (p % 8 == q % 8) ≡ (p == q)
same_bucket p q h = ground arith

module _ (bm : List ℕ) (p q : ℕ) (bytes : IsBytes bm) (room : p < length bm * 8) where
  -- `set` makes its own position 1 and leaves every other position as it is.
  pub is_set-set_bit : is_set (set_bit bm p) q ≡ (if p == q then true else is_set bm q)
  unfolding is_set set_bit
  is_set-set_bit = elim (ℕ_discrete (p / 8) (q / 8)) [
    | yes e ↦ rw (← e) (
        rw (get_or-set_self bm (p / 8) (bit_or (get_or bm (p / 8) 0) (get_bit p)) 0 (omega arith)) (
          rw (← same_bucket p q e) (
            or_test (get_or bm (p / 8) 0) (p % 8) (q % 8) (get_or-byte bm (p / 8) bytes)
              (omega arith) (omega arith))))
    | no n ↦
        rw (get_or-set_ne bm (p / 8) (q / 8) (bit_or (get_or bm (p / 8) 0) (get_bit p)) 0 n)
          (ground arith)
  ]

  -- `reset` makes its own position 0 and leaves every other position as it is.
  pub is_set-reset : is_set (reset bm p) q ≡ (if p == q then false else is_set bm q)
  unfolding is_set reset
  is_set-reset = elim (ℕ_discrete (p / 8) (q / 8)) [
    | yes e ↦ rw (← e) (
        rw
          (get_or-set_self bm (p / 8) (bit_and (get_or bm (p / 8) 0) (255 - get_bit p)) 0
            (omega arith))
          (rw (← same_bucket p q e) (
            and_test (get_or bm (p / 8) 0) (p % 8) (q % 8) (get_or-byte bm (p / 8) bytes)
              (omega arith) (omega arith))))
    | no n ↦
        rw (get_or-set_ne bm (p / 8) (q / 8) (bit_and (get_or bm (p / 8) 0) (255 - get_bit p)) 0 n)
          (ground arith)
  ]

zero-bit_and : (b : ℕ) → bit_and 0 b ≡ 0
zero-bit_and b = bit_and-bitwise 0 b

-- A fresh bitmap has no bit set.
pub is_set-init : (size q : ℕ) → is_set (init size) q ≡ false
unfolding is_set init
is_set-init size q = rw get_or-replicate (rw zero-bit_and refl)

pub init-IsBytes : (size : ℕ) → IsBytes (init size)
unfolding init
init-IsBytes zero = tt
init-IsBytes (suc n) = (omega arith, init-IsBytes n)

pub length-set_bit : (bm : List ℕ) (p : ℕ) → length (set_bit bm p) ≡ length bm
unfolding set_bit
length-set_bit bm p = length-set bm (p / 8) _

pub length-reset : (bm : List ℕ) (p : ℕ) → length (reset bm p) ≡ length bm
unfolding reset
length-reset bm p = length-set bm (p / 8) _
