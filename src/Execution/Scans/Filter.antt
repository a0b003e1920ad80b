-- ===== src/Execution/Scans/Filter.antt =====
-- A scan stops at each record that meets the conditions, and at no other.
use myrmdb.Prelude.{
  ℕ, zero, suc, ◌≡◌, ◌≤◌, refl, ap, ◌∙◌, ◌⊎◌, inl, inr, Bool, false, List, [], ◌∷◌, some, length,
  All, arith, if◌then◌else◌, Bool-cases,
}
use myrmdb.Concurrency.Transaction.{Rid}
use myrmdb.Errors.{Result, ok, err}
use myrmdb.System.Values.{ColMeta, Condition, eval_conditions}
use myrmdb.System.Entries.Mirror.{Table}
use myrmdb.Execution.Scans.{get_record, seek, next_tuple, drain}

module _ (cols : List ColMeta) (conds : List Condition) (file : Table) where
  -- A record that is there, and on which the conditions can be evaluated.
  abbrev pub Sees : Rid → Type 0
  Sees rid =
      (rec : List ℕ) × (b : Bool) × (file rid ≡ some rec) × (eval_conditions cols conds rec ≡ ok b)

  abbrev pub meets : Rid → Bool
  meets rid = elim (get_record file rid) [
    | err e ↦ false
    | ok rec ↦ elim (eval_conditions cols conds rec) [ err e ↦ false | ok b ↦ b ]
  ]

  abbrev pub filtered : List Rid → List Rid
  filtered [] = []
  filtered (rid ∷ rids) = let rest = filtered rids in if meets rid then rid ∷ rest else rest

  -- What a search over some positions comes to.
  abbrev Found : List Rid → Type 0
  Found rids =
      ((seek cols conds file rids ≡ ok []) × (filtered rids ≡ []))
      ⊎ ((rid : Rid) × (rest : List Rid) × (seek cols conds file rids ≡ ok (rid ∷ rest))
          × (filtered rids ≡ rid ∷ filtered rest)
          × (suc (length rest) ≤ length rids)
          × All Sees rest)

  seek-Found : (rids : List Rid) → All Sees rids → Found rids
  unfolding seek
  seek-Found [] s = inl (refl, refl)
  seek-Found (rid ∷ rids) s = elim (Bool-cases s.0.1) [
    | inl hit ↦
        let h = s.0.2 in
        let e = s.0.3 ∙ ap ok hit in
        inr (rid, rids, ground (arith, h, e), ground (arith, h, e), omega arith, s.1)
    | inr miss ↦
        let h = s.0.2 in
        let e = s.0.3 ∙ ap ok miss in
        elim (seek-Found rids s.1) [
          | inl (f, g) ↦ inl (ground (arith, h, e, f), ground (arith, h, e, g))
          | inr (r, rest, f, g, n, t) ↦
              inr (r, rest, ground (arith, h, e, f), ground (arith, h, e, g), omega (arith, n), t)
        ]
  ]

  drain_nil : (rounds : ℕ) → drain cols conds file rounds [] ≡ ok []
  unfolding drain
  drain_nil zero = refl
  drain_nil (suc rounds) = refl

  drain-filtered :
      (rounds : ℕ) (rid : Rid) (rest : List Rid)
      → All Sees rest
      → suc (length rest) ≤ rounds
      → drain cols conds file rounds (rid ∷ rest) ≡ ok (rid ∷ filtered rest)
  unfolding drain next_tuple
  drain-filtered zero rid rest s n = absurd (omega (arith, n))
  drain-filtered (suc rounds) rid rest s n = elim (seek-Found rest s) [
    | inl (f, g) ↦ ground (arith, f, g, drain_nil rounds)
    | inr (r, more, f, g, m, t) ↦
        let again = drain-filtered rounds r more t (omega (arith, m, n)) in
        ground (arith, f, g, again)
  ]

  -- The whole loop takes the records that meet the conditions, in the order of the positions.
  pub collect-filtered :
      (rids : List Rid)
      → All Sees rids
      → elim (seek cols conds file rids) as (λ x. Result (List Rid)) [
        | err e ↦ err e
        | ok first ↦ drain cols conds file (length first) first
      ]
        ≡ ok (filtered rids)
  collect-filtered rids s = elim (seek-Found rids s) [
    | inl (f, g) ↦ ground (arith, f, g, drain_nil 0)
    | inr (r, more, f, g, m, t) ↦
        let all = drain-filtered (suc (length more)) r more t (omega arith) in
        ground (arith, f, g, all)
  ]
