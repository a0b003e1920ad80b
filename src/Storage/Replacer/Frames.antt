-- ===== src/Storage/Replacer/Frames.antt =====
-- The queue of frames under single calls, as the buffer pool uses it.
use mathlib.Core.Path.{subst}
use myrmdb.Prelude.{
  ℕ, ◌≡◌, sym, ap, ◌∙◌, ◌≢◌, List, [], ◌∷◌, ◌++◌, some, arith, All, NoRepeat, if_pos, if_neg,
  ℕ_discrete, map, leb, length, ◌||◌, Bool-cases, inl, inr,
}
use myrmdb.Storage.Replacer.{Node, LruReplacer, victim, pin, unpin}
use myrmdb.Storage.Replacer.Refines.{spec, victims, pins, unpins, step, step-Implements}
use myrmdb.Storage.Replacer.Nodes.{frames, IsValid, remove, mem, Distinct, Other}

All-frame_id :
    (n : Node) (ns : List Node)
    → All (Other n) ns
    → All (λ y. y ≢ n.frame_id) (map (λ (n : Node). n.frame_id) ns)
All-frame_id n [] h = tt
All-frame_id n (m ∷ ns) h = (h.0.0, All-frame_id n ns h.1)

Distinct-NoRepeat :
    (next : ℕ) (ns : List Node) → Distinct next ns → NoRepeat (map (λ (n : Node). n.frame_id) ns)
Distinct-NoRepeat next [] d = tt
Distinct-NoRepeat next (n ∷ ns) d = (All-frame_id n ns d.1, Distinct-NoRepeat next ns d.2)

pub frames-NoRepeat : (r : LruReplacer) → IsValid r → NoRepeat (frames r)
frames-NoRepeat r v = Distinct-NoRepeat r.next_node r.lru_list v.distinct

head_of_spec :
    (cap : ℕ) (q : List ℕ) (f : ℕ)
    → (spec cap victims q).0 ≡ some f
    → q ≡ f ∷ (spec cap victims q).1
unfolding spec
head_of_spec cap [] f e = cc
head_of_spec cap (g ∷ q) f e = cc

-- The victim is the head of the queue.
pub victim-frames :
    (r : LruReplacer) (f : ℕ)
    → IsValid r
    → (victim r).0 ≡ some f
    → (frames r ≡ f ∷ frames (victim r).1) × IsValid (victim r).1
unfolding step spec
victim-frames r f v e =
    let h = step-Implements victims r v in
    let e' = head_of_spec r.max_size (frames r) f (sym h.0 ∙ e) in
    (e' ∙ ap (◌∷◌ f) (sym h.1.queue), h.1.valid)

All-remove : (P : ℕ → Type 0) (f : ℕ) (q : List ℕ) → All P q → All P (remove f q)
All-remove P f [] h = tt
All-remove P f (g ∷ q) h = ground (arith, All-remove P f q h.1)

All-remove_self : (f : ℕ) (q : List ℕ) → NoRepeat q → All (λ g. g ≢ f) (remove f q)
All-remove_self f [] h = tt
All-remove_self f (g ∷ q) h = elim (ℕ_discrete g f) [
  | yes e ↦ rw (if_pos _ e) (subst (λ k. All (λ y. y ≢ k) q) e h.0)
  | no ne ↦ rw (if_neg _ ne) (ne, All-remove_self f q h.1)
]

-- `pin` takes its frame out of the queue and adds none.
pub pin-frames :
    (P : ℕ → Type 0) (f : ℕ) (r : LruReplacer)
    → IsValid r
    → All P (frames r)
    → IsValid (pin f r) × All P (frames (pin f r)) × All (λ g. g ≢ f) (frames (pin f r))
unfolding step spec
pin-frames P f r v h =
    let s = step-Implements (pins f) r v in
    (
      s.1.valid,
      subst (All P) (sym s.1.queue) (All-remove P f (frames r) h),
      subst (All (λ g. g ≢ f)) (sym s.1.queue) (All-remove_self f (frames r) (frames-NoRepeat r v)),
    )

All-snoc : (P : ℕ → Type 0) (f : ℕ) (q : List ℕ) → All P q → P f → All P (q ++ f ∷ [])
All-snoc P f [] h p = (p, tt)
All-snoc P f (g ∷ q) h p = (h.0, All-snoc P f q h.1 p)

-- `unpin` adds no frame but its own.
pub unpin-frames :
    (P : ℕ → Type 0) (f : ℕ) (r : LruReplacer)
    → IsValid r
    → All P (frames r)
    → P f
    → IsValid (unpin f r) × All P (frames (unpin f r))
unfolding step spec
unpin-frames P f r v h own =
    let s = step-Implements (unpins f) r v in
    (
      s.1.valid,
      subst (All P) (sym s.1.queue)
          (elim (Bool-cases (mem f (frames r) || leb r.max_size (length (frames r)))) [
            | inl e ↦ rw e h
            | inr e ↦ rw e (All-snoc P f (frames r) h own)
          ]),
    )
