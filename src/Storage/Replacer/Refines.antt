-- ===== src/Storage/Replacer/Refines.antt =====
-- Every run of calls of the replacer gives the answers of a queue of frames.
use myrmdb.Prelude.{
  ℕ, ◌<◌, ◌≡◌, refl, sym, ap, ◌∙◌, inl, inr, Bool, false, List, [], ◌∷◌, ◌++◌, Option, none, some,
  arith, leb, length, length-append, if◌then◌else◌, ℕ_discrete, ◌||◌, Option-cases, Bool-cases,
}
use mathlib.Core.Path.{ap₂, subst₂}
use myrmdb.Prelude.Assoc
use myrmdb.Prelude.Assoc.{lookup-erase, lookup-insert}
use myrmdb.Storage.Replacer.{Node, LruReplacer, lru_replacer, victim, pin, unpin, count}
use myrmdb.Storage.Replacer.Nodes.{
  frames, entries, mem, remove, Distinct, IsValid, erase-entries_absent, Erases-lookup,
  count-entries, remove_absent, length-map_frames, map_push, insert_new, Distinct-push,
}

-- The abstract queue: distinct frames, the oldest first, and at most `cap` of them.
pub data Call : Type 0 where
  victims : Call
  pins unpins : ℕ → Call

unfoldable pub spec : ℕ → Call → List ℕ → Option ℕ × List ℕ
spec cap victims [] = (none, [])
spec cap victims (f ∷ q) = (some f, q)
spec cap (pins f) q = (none, remove f q)
spec cap (unpins f) q = (none, if mem f q || leb cap (length q) then q else q ++ f ∷ [])

unfoldable pub step : Call → LruReplacer → Option ℕ × LruReplacer
step victims r = victim r
step (pins f) r = (none, pin f r)
step (unpins f) r = (none, unpin f r)

-- The replacer `r` stands for the queue `q`.
pub record Implements (cap : ℕ) (q : List ℕ) (r : LruReplacer) : Type 0 where
  pub queue : frames r ≡ q
  pub cap_same : r.max_size ≡ cap
  pub valid : IsValid r

abbrev pub replacer_of : List Node → List (ℕ × ℕ) → ℕ → ℕ → LruReplacer
replacer_of ns hash cap next = record {
  lru_list = ns;
  lru_hash = hash;
  max_size = cap;
  next_node = next;
}

erase_head :
    (next : ℕ) (n : Node) (ns : List Node)
    → Distinct next (n ∷ ns)
    → Assoc.erase ℕ_discrete n.frame_id (entries (n ∷ ns)) ≡ entries ns
unfolding Assoc.erase
erase_head next n ns d = ground (arith, erase-entries_absent n.frame_id n.ident ns d.1)

victim-Implements :
    (ns : List Node) (hash : List (ℕ × ℕ)) (cap next : ℕ)
    → let r = replacer_of ns hash cap next in
      IsValid r
      → ((victim r).0 ≡ (spec cap victims (frames r)).0)
        × Implements cap (spec cap victims (frames r)).1 (victim r).1
unfolding victim spec
victim-Implements [] hash cap next v = (refl, record { queue = refl; cap_same = refl; valid = v })
victim-Implements (n ∷ ns) hash cap next v = (
  refl,
  record {
    queue = refl;
    cap_same = refl;
    valid = record {
      synced = ap (Assoc.erase ℕ_discrete n.frame_id) v.synced ∙ erase_head next n ns v.distinct;
      distinct = v.distinct.2;
      bounded = omega (arith, v.bounded);
    };
  },
)

count_absent : (f : ℕ) (m : List (ℕ × ℕ)) → count f m ≡ false → Assoc.lookup ℕ_discrete f m ≡ none
count_absent f m h = ground arith

or_false_left : (a b : Bool) → a || b ≡ false → a ≡ false
or_false_left a b h = ground arith

or_false_right : (a b : Bool) → a || b ≡ false → b ≡ false
or_false_right a b h = ground arith

not_full : (cap n : ℕ) → leb cap n ≡ false → n < cap
not_full cap n h = ground arith

module _ (f : ℕ) (r : LruReplacer) (v : IsValid r) where
  pin-Implements : Implements r.max_size (remove f (frames r)) (pin f r)
  unfolding pin
  pin-Implements = elim (Option-cases (Assoc.lookup ℕ_discrete f r.lru_hash)) [
    | inl e ↦
        rw (e, pin)
          (record {
            queue = sym (remove_absent f r.lru_list (rw v.synced at e));
            cap_same = refl;
            valid = v;
          })
    | inr (it, e) ↦
        let h = Erases-lookup r.next_node f it r.lru_list v.distinct (rw v.synced at e) in
        rw (e, pin)
          (record {
            queue = h.queue;
            cap_same = refl;
            valid = record {
              synced = ap (Assoc.erase ℕ_discrete f) v.synced ∙ h.hash;
              distinct = h.rest;
              bounded = omega (arith, h.shorter, v.bounded);
            };
          })
  ]

  unpin-Implements : Implements r.max_size (spec r.max_size (unpins f) (frames r)).1 (unpin f r)
  unfolding unpin spec
  unpin-Implements =
      let c : count f r.lru_hash ≡ mem f (frames r) =
        ap (count f) v.synced ∙ count-entries f r.lru_list in
      let l : length (frames r) ≡ length r.lru_list = length-map_frames r.lru_list in
      rw (← c) (
        rw l (elim (Bool-cases (count f r.lru_hash || leb r.max_size (length r.lru_list))) [
          | inl e ↦ rw e (record { queue = refl; cap_same = refl; valid = v })
          | inr e ↦
              let absent : Assoc.lookup ℕ_discrete f (entries r.lru_list) ≡ none =
                rw v.synced at (count_absent f r.lru_hash (or_false_left _ _ e)) in
              rw e (record {
                queue = map_push r.lru_list _;
                cap_same = refl;
                valid = record {
                  synced =
                      ap (Assoc.insert ℕ_discrete f r.next_node) v.synced
                      ∙ insert_new f r.next_node _ r.lru_list refl refl absent;
                  distinct = Distinct-push r.next_node f _ r.lru_list refl refl absent v.distinct;
                  bounded = omega (
                    arith,
                    length-append r.lru_list (record { ident = r.next_node; frame_id = f } ∷ []),
                    not_full r.max_size (length r.lru_list) (or_false_right _ _ e),
                  );
                };
              })
        ]))

-- Every call answers as the abstract queue does and leaves a replacer that stands for its new state.
pub step-Implements :
    (c : Call) (r : LruReplacer)
    → IsValid r
    → ((step c r).0 ≡ (spec r.max_size c (frames r)).0)
      × Implements r.max_size (spec r.max_size c (frames r)).1 (step c r).1
unfolding step spec
step-Implements victims r v = victim-Implements r.lru_list r.lru_hash r.max_size r.next_node v
step-Implements (pins f) r v = (refl, pin-Implements f r v)
step-Implements (unpins f) r v = (refl, unfold spec in unpin-Implements f r v)

-- The answers of a sequence of calls, and the state after it.
pub run : List Call → LruReplacer → List (Option ℕ) × LruReplacer
run [] r = ([], r)
run (c ∷ cs) r = let (a, r') = step c r in let (as', r'') = run cs r' in (a ∷ as', r'')

pub run_spec : ℕ → List Call → List ℕ → List (Option ℕ) × List ℕ
run_spec cap [] q = ([], q)
run_spec cap (c ∷ cs) q =
    let (a, q') = spec cap c q in let (as', q'') = run_spec cap cs q' in (a ∷ as', q'')

-- From a replacer that stands for a queue, every sequence of `victim`, `pin` and `unpin` calls gives
-- the answers of the queue, and the replacer stands for the queue at the end: its list and its hash
-- map are in step, no frame stands in it twice, and it is within its bound.
pub run-Implements :
    (cap : ℕ) (cs : List Call) (q : List ℕ) (r : LruReplacer)
    → Implements cap q r
    → ((run cs r).0 ≡ (run_spec cap cs q).0) × Implements cap (run_spec cap cs q).1 (run cs r).1
unfolding run run_spec
run-Implements cap [] q r h = (refl, h)
run-Implements cap (c ∷ cs) q r h =
    let one = step-Implements c r h.valid in
    let now : Implements cap (spec cap c q).1 (step c r).1 =
      subst₂ (λ k l. Implements k (spec k c l).1 (step c r).1) h.cap_same h.queue one.1 in
    let said : (step c r).0 ≡ (spec cap c q).0 =
      subst₂ (λ k l. (step c r).0 ≡ (spec k c l).0) h.cap_same h.queue one.0 in
    let rest = run-Implements cap cs (spec cap c q).1 (step c r).1 now in
    (ap₂ ◌∷◌ said rest.0, rest.1)

-- A new replacer stands for the empty queue.
pub lru_replacer-Implements : (cap : ℕ) → Implements cap [] (lru_replacer cap)
unfolding lru_replacer
lru_replacer-Implements cap = record {
  queue = refl;
  cap_same = refl;
  valid = record { synced = refl; distinct = tt; bounded = omega arith };
}
