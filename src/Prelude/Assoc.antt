-- ===== src/Prelude/Assoc.antt =====
-- `std::unordered_map` as an association list over keys with decidable equality. The order of the
-- list stands for the order of iteration, on which no theorem depends.
use mathlib.Core.Logic.{ite, ◌≢◌}
use mathlib.Core.List.{List, [], ◌∷◌}
use mathlib.Core.Option.{Option, none, some}
use mathlib.Core.Path.{◌≡◌, refl, sym, ◌∙◌, subst₂}
use native.Mathlib.Omega.{arith}

pub some_inj {ℓ} : {A : Type ℓ} {a b : A} → some a ≡ some b → a ≡ b
some_inj e = cc

module _ {ℓ} {K V : Type ℓ} (dec : Discrete K) where
  -- `find`
  unfoldable pub lookup : K → List (K × V) → Option V
  lookup k [] = none
  lookup k ((j, v) ∷ m) = ite (dec j k) (some v) (lookup k m)

  -- `m[k] = v`
  unfoldable pub insert : K → V → List (K × V) → List (K × V)
  insert k v [] = (k, v) ∷ []
  insert k v ((j, w) ∷ m) = ite (dec j k) ((k, v) ∷ m) ((j, w) ∷ insert k v m)

  -- `erase(k)`
  unfoldable pub erase : K → List (K × V) → List (K × V)
  erase k [] = []
  erase k ((j, w) ∷ m) = let rest = erase k m in ite (dec j k) rest ((j, w) ∷ rest)

  pub lookup-insert :
      (k j : K) (v : V) (m : List (K × V))
      → lookup j (insert k v m) ≡ ite (dec k j) (some v) (lookup j m)
  unfolding lookup insert
  lookup-insert k j v [] = refl
  lookup-insert k j v ((i, w) ∷ m) = ground (arith, lookup-insert k j v m)

  pub lookup-erase :
      (k j : K) (m : List (K × V)) → lookup j (erase k m) ≡ ite (dec k j) none (lookup j m)
  unfolding lookup erase
  lookup-erase k j [] = ground arith
  lookup-erase k j ((i, w) ∷ m) = ground (arith, lookup-erase k j m)

  -- What holds of every entry that a lookup can find.
  abbrev pub Everywhere {μ} : (K → V → Type μ) → List (K × V) → Type (ℓ ⊔ μ)
  Everywhere P m = (k : K) (v : V) → lookup k m ≡ some v → P k v

  pub lookup-insert_self :
      (k j : K) (v : V) (m : List (K × V)) → k ≡ j → lookup j (insert k v m) ≡ some v
  lookup-insert_self k j v m h = ground (arith, lookup-insert k j v m)

  pub lookup-insert_ne :
      (k j : K) (v : V) (m : List (K × V)) → k ≢ j → lookup j (insert k v m) ≡ lookup j m
  lookup-insert_ne k j v m h = ground (arith, lookup-insert k j v m)

  pub lookup-erase_self : (k j : K) (m : List (K × V)) → k ≡ j → lookup j (erase k m) ≡ none
  lookup-erase_self k j m h = ground (arith, lookup-erase k j m)

  pub lookup-erase_ne : (k j : K) (m : List (K × V)) → k ≢ j → lookup j (erase k m) ≡ lookup j m
  lookup-erase_ne k j m h = ground (arith, lookup-erase k j m)

  pub insert-Everywhere {μ} :
      (P : K → V → Type μ) (k : K) (v : V) (m : List (K × V))
      → P k v
      → Everywhere P m
      → Everywhere P (insert k v m)
  insert-Everywhere P k v m p h j w e = elim (dec k j) [
    | yes same ↦
        let e' : v ≡ w = some_inj (sym (lookup-insert_self k j v m same) ∙ e) in subst₂ P same e' p
    | no other ↦ h j w (sym (lookup-insert_ne k j v m other) ∙ e)
  ]

  pub erase-Everywhere {μ} :
      (P : K → V → Type μ) (k : K) (m : List (K × V)) → Everywhere P m → Everywhere P (erase k m)
  erase-Everywhere P k m h j w e = elim (dec k j) [
    | yes same ↦ let e' : none ≡ some w = sym (lookup-erase_self k j m same) ∙ e in cc
    | no other ↦ h j w (sym (lookup-erase_ne k j m other) ∙ e)
  ]
