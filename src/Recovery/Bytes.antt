-- ===== src/Recovery/Bytes.antt =====
-- Memory as a list of bytes: `memcpy` and the little-endian integers that the log copies.
use myrmdb.Prelude.{
  ℕ, zero, suc, ◌+◌, ◌-◌, ◌*◌, ◌/◌, ◌%◌, ◌^◌, ◌<◌, ◌≡◌, refl, sym, ap, ◌∙◌, List, [], ◌∷◌, ◌++◌,
  arith, length, take, drop, ltb, if◌then◌else◌, take-append, drop-append, drop_add, length-append,
}
use native.Mathlib.Nat.{pow-succ'}
use myrmdb.Prelude.Int.{ℤ, pos, negsuc}

-- `memcpy(dest + offset, bytes, length bytes)`
unfoldable pub memcpy : List ℕ → ℕ → List ℕ → List ℕ
memcpy dest offset bytes = take offset dest ++ bytes ++ drop (offset + length bytes) dest

-- The `w` bytes of an unsigned integer, and the integer of some bytes.
abbrev pub le : ℕ → ℕ → List ℕ
le zero n = []
le (suc w) n = n % 256 ∷ le w (n / 256)

abbrev pub un_le : List ℕ → ℕ
un_le [] = 0
un_le (b ∷ bs) = b + 256 * un_le bs

pub un_le-le : (w n : ℕ) → n < 256 ^ w → un_le (le w n) ≡ n
un_le-le zero n h = omega (arith, h)
un_le-le (suc w) n h =
    let e : 256 ^ suc w ≡ 256 * 256 ^ w = pow-succ' 256 w in
    let q : n / 256 < 256 ^ w = omega (arith, h, e) in
    let r = un_le-le w (n / 256) q in omega (arith, r)

-- The bit pattern of an `int`, and back.
abbrev pub bits : ℤ → ℕ
bits (pos n) = n % 4294967296
bits (negsuc n) = 4294967295 - n % 4294967296

abbrev pub of_bits : ℕ → ℤ
of_bits b = if ltb b 2147483648 then pos b else negsuc (4294967295 - b)

-- The values of an `int`.
abbrev pub IsInt : ℤ → Type 0
IsInt (pos n) = n < 2147483648
IsInt (negsuc n) = n < 2147483648

pub bits_below : (z : ℤ) → bits z < 256 ^ 4
bits_below (pos n) = omega arith
bits_below (negsuc n) = omega arith

pub of_bits-bits : (z : ℤ) → IsInt z → of_bits (bits z) ≡ z
of_bits-bits (pos n) h = let e : n % 4294967296 ≡ n = omega arith in rw e (ground (arith, h))
of_bits-bits (negsuc n) h =
    let e : n % 4294967296 ≡ n = omega arith in
    rw e (
      let back : 4294967295 - (4294967295 - n) ≡ n = omega (arith, h) in
      rw back (ground (arith, h)))

abbrev pub int_bytes : ℤ → List ℕ
int_bytes z = le 4 (bits z)

-- `*reinterpret_cast<const int*>(src + offset)`, and the same for `uint32_t` and `size_t`.
abbrev pub read_int : List ℕ → ℕ → ℤ
read_int src offset = of_bits (un_le (take 4 (drop offset src)))

abbrev pub read_unsigned : ℕ → List ℕ → ℕ → ℕ
read_unsigned w src offset = un_le (take w (drop offset src))

pub length-le : (w n : ℕ) → length (le w n) ≡ w
length-le zero n = refl
length-le (suc w) n = ap suc (length-le w (n / 256))

-- A buffer whose first bytes have been written.
abbrev pub written : List ℕ → List ℕ → List ℕ
written bytes dest = bytes ++ drop (length bytes) dest

-- Copying behind what has been written extends it.
pub memcpy-written :
    (done bytes dest : List ℕ) (offset : ℕ)
    → offset ≡ length done
    → memcpy (written done dest) offset bytes ≡ written (done ++ bytes) dest
unfolding memcpy
memcpy-written done bytes dest offset e =
    let n = length done in
    let rest = drop n dest in
    let d : drop (n + length bytes) (done ++ rest) ≡ drop (length (done ++ bytes)) dest =
      drop_add n (length bytes) (done ++ rest)
      ∙ ap (drop (length bytes)) (drop-append done rest)
      ∙ sym (drop_add n (length bytes) dest)
      ∙ ap (λ k. drop k dest) (sym (length-append done bytes)) in
    ap (λ k. take k (done ++ rest) ++ bytes ++ drop (k + length bytes) (done ++ rest)) e
    ∙ ap (λ xs. xs ++ bytes ++ drop (n + length bytes) (done ++ rest)) (take-append done rest)
    ∙ ap (λ xs. done ++ bytes ++ xs) d
