-- ===== src/Errors.antt =====
-- src/errors.h: the exceptions, by their classes. What an exception says is left out. The one of
-- `std::map::at`, which is none of these classes, is `out_of_range`.
use mathlib.Core.Path.{◌≡◌, refl, sym, ap}
use mathlib.Core.Logic.{◌≢◌, ◌⊎◌, inl, inr}

pub data Error : Type 0 where
  internal_error unix_error file_not_open file_not_closed file_exists file_not_found : Error
  record_not_found invalid_record_size : Error
  invalid_col_length index_entry_not_found : Error
  database_not_found database_exists table_not_found table_exists column_not_found : Error
  index_not_found index_exists : Error
  invalid_value_count string_overflow incompatible_type ambiguous_column page_not_exist : Error
  out_of_range : Error

-- A call that may throw.
pub data Result {ℓ} (A : Type ℓ) : Type ℓ where
  ok : A → Result A
  err : Error → Result A

-- The value of a call, or another one where it throws.
abbrev pub value_or {ℓ} : {A : Type ℓ} → A → Result A → A
value_or d (ok a) = a
value_or d (err e) = d

pub ok_inj {ℓ} : {A : Type ℓ} {a b : A} → ok a ≡ ok b → a ≡ b
ok_inj {a = a} e = ap (value_or a) e

pub ok_ne_err {ℓ} : {A : Type ℓ} {a : A} {e : Error} → ok a ≢ err e
ok_ne_err h = cc

abbrev pub error_or {ℓ} : {A : Type ℓ} → Error → Result A → Error
error_or d (ok a) = d
error_or d (err e) = e

pub err_inj {ℓ} : {A : Type ℓ} {a b : Error} → ◌≡◌ {A = Result A} (err a) (err b) → a ≡ b
err_inj {a = a} e = ap (error_or a) e

pub Result-cases {ℓ} :
    {A : Type ℓ} (x : Result A) → ((a : A) × (x ≡ ok a)) ⊎ ((e : Error) × (x ≡ err e))
Result-cases (ok a) = inl (a, refl)
Result-cases (err e) = inr (e, refl)

-- What follows a call that returns. A call takes a state and gives one back, also where it throws.
unfoldable pub and_then {ℓ} :
    {A B : Type ℓ} {S : Type ℓ} → Result A × S → (A → S → Result B × S) → Result B × S
and_then (ok a, s) k = k a s
and_then (err e, s) k = (err e, s)

-- Calls in a row that return were calls that returned.
pub and_then-ok {ℓ} :
    {A B : Type ℓ} {S : Type ℓ} (x : Result A × S) (k : A → S → Result B × S) (b : B)
    → (and_then x k).0 ≡ ok b
    → (a : A) × (x.0 ≡ ok a) × (and_then x k ≡ k a x.1)
unfolding and_then
and_then-ok (ok a, s) k b e = (a, refl, refl)
and_then-ok (err x, s) k b e = absurd (ok_ne_err (sym e))
