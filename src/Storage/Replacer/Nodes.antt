-- ===== src/Storage/Replacer/Nodes.antt =====
-- The list and the hash map of the replacer stand for a queue of frames.
use myrmdb.Prelude.{
  ℕ, suc, ◌≤◌, ◌<◌, ◌≡◌, refl, ap, ◌≢◌, Bool, true, false, List, [], ◌∷◌, ◌++◌, map, none, some,
  arith, length, ite, if_neg, ℕ_discrete, All,
}
use myrmdb.Prelude.Assoc
use myrmdb.Prelude.Assoc.{lookup-erase, lookup-insert}
use myrmdb.Storage.Replacer.{Node, LruReplacer, erase_node, count}

-- What a client sees: the frames that may be evicted, the next victim first.
abbrev pub frames : LruReplacer → List ℕ
frames r = map (λ (n : Node). n.frame_id) r.lru_list

abbrev pub entries : List Node → List (ℕ × ℕ)
entries = map (λ n. (n.frame_id, n.ident))

abbrev pub mem : ℕ → List ℕ → Bool
mem f [] = false
mem f (x ∷ xs) = ite (ℕ_discrete x f) true (mem f xs)

-- The queue without a frame.
abbrev pub remove : ℕ → List ℕ → List ℕ
remove f [] = []
remove f (x ∷ xs) = ite (ℕ_discrete x f) xs (x ∷ remove f xs)

-- Every node has a frame and an identity that no later node has, and an identity already given out.
abbrev pub Distinct : ℕ → List Node → Type 0
Distinct next [] = Unit {0}
Distinct next (n ∷ ns) =
    (n.ident < next)
    × All (λ (m : Node). (m.frame_id ≢ n.frame_id) × (m.ident ≢ n.ident)) ns
    × Distinct next ns

-- The hash map holds exactly the iterators to the nodes of the list, and the list is within its
-- bound.
pub record IsValid (r : LruReplacer) : Type 0 where
  pub synced : r.lru_hash ≡ entries r.lru_list
  pub distinct : Distinct r.next_node r.lru_list
  pub bounded : length r.lru_list ≤ r.max_size

lookup-entries_absent :
    (f i : ℕ) (ns : List Node)
    → All (λ (m : Node). (m.frame_id ≢ f) × (m.ident ≢ i)) ns
    → Assoc.lookup ℕ_discrete f (entries ns) ≡ none
unfolding Assoc.lookup
lookup-entries_absent f i [] h = refl
lookup-entries_absent f i (n ∷ ns) h = ground (arith, lookup-entries_absent f i ns h.1)

pub erase-entries_absent :
    (f i : ℕ) (ns : List Node)
    → All (λ (m : Node). (m.frame_id ≢ f) × (m.ident ≢ i)) ns
    → Assoc.erase ℕ_discrete f (entries ns) ≡ entries ns
unfolding Assoc.erase
erase-entries_absent f i [] h = refl
erase-entries_absent f i (n ∷ ns) h = ground (arith, erase-entries_absent f i ns h.1)

-- A lookup that finds a node's iterator: erasing through it removes the frame from the queue, and
-- erasing the key keeps the map in step.
pub record Erases (next f it : ℕ) (ns : List Node) : Type 0 where
  pub queue :
      map (λ (n : Node). n.frame_id) (erase_node it ns)
      ≡ remove f (map (λ (n : Node). n.frame_id) ns)
  pub hash : Assoc.erase ℕ_discrete f (entries ns) ≡ entries (erase_node it ns)
  pub rest : Distinct next (erase_node it ns)
  pub shorter : length (erase_node it ns) ≤ length ns

All-erase_node : (P : Node → Type 0) (it : ℕ) (ns : List Node) → All P ns → All P (erase_node it ns)
unfolding erase_node
All-erase_node P it [] h = tt
All-erase_node P it (n ∷ ns) h = ground (arith, All-erase_node P it ns h.1)

ident_absent :
    (f i it : ℕ) (ns : List Node)
    → All (λ (m : Node). m.ident ≢ i) ns
    → Assoc.lookup ℕ_discrete f (entries ns) ≡ some it
    → i ≢ it
unfolding Assoc.lookup
ident_absent f i it [] h e = cc
ident_absent f i it (n ∷ ns) h e = ground (arith, ident_absent f i it ns h.1)

abbrev pub Other : Node → Node → Type 0
Other n m = (m.frame_id ≢ n.frame_id) × (m.ident ≢ n.ident)

idents : (n : Node) (ns : List Node) → All (Other n) ns → All (λ (m : Node). m.ident ≢ n.ident) ns
idents n [] h = tt
idents n (m ∷ ns) h = (h.0.1, idents n ns h.1)

module _ (next f it : ℕ) (n : Node) (ns : List Node) (d : Distinct next (n ∷ ns)) where
  Erases-here : n.frame_id ≡ f → it ≡ n.ident → Erases next f it (n ∷ ns)
  unfolding Assoc.erase erase_node
  Erases-here e g = record {
    queue = ground arith;
    hash = ground (arith, erase-entries_absent n.frame_id n.ident ns d.1);
    rest = ground arith;
    shorter = ground arith;
  }

  Erases-there : n.frame_id ≢ f → n.ident ≢ it → Erases next f it ns → Erases next f it (n ∷ ns)
  unfolding Assoc.erase erase_node
  Erases-there ne ni h = record {
    queue = ground (arith, h.queue);
    hash = ground (arith, h.hash);
    rest = rw (if_neg _ ni) (d.0, All-erase_node (Other n) it ns d.1, h.rest);
    shorter = ground (arith, h.shorter);
  }

pub Erases-lookup :
    (next f it : ℕ) (ns : List Node)
    → Distinct next ns
    → Assoc.lookup ℕ_discrete f (entries ns) ≡ some it
    → Erases next f it ns
unfolding Assoc.lookup
Erases-lookup next f it [] d e = cc
Erases-lookup next f it (n ∷ ns) d e = elim (ℕ_discrete n.frame_id f) [
  | yes p ↦ Erases-here next f it n ns d p (ground arith)
  | no p ↦
      let found : Assoc.lookup ℕ_discrete f (entries ns) ≡ some it = ground arith in
      Erases-there next f it n ns d p (ident_absent f n.ident it ns (idents n ns d.1) found)
        (Erases-lookup next f it ns d.2 found)
]

-- A frame is in the queue exactly when the hash map has it.
pub count-entries :
    (f : ℕ) (ns : List Node) → count f (entries ns) ≡ mem f (map (λ n. n.frame_id) ns)
unfolding Assoc.lookup
count-entries f [] = refl
count-entries f (n ∷ ns) = ground (arith, count-entries f ns)

pub remove_absent :
    (f : ℕ) (ns : List Node)
    → Assoc.lookup ℕ_discrete f (entries ns) ≡ none
    → remove f (map (λ n. n.frame_id) ns) ≡ map (λ n. n.frame_id) ns
unfolding Assoc.lookup
remove_absent f [] e = refl
remove_absent f (n ∷ ns) e = ground (arith, remove_absent f ns)

pub length-map_frames : (ns : List Node) → length (map (λ (n : Node). n.frame_id) ns) ≡ length ns
length-map_frames [] = refl
length-map_frames (n ∷ ns) = ap suc (length-map_frames ns)

pub map_push :
    (ns : List Node) (n : Node)
    → map (λ (n : Node). n.frame_id) (ns ++ n ∷ []) ≡ map (λ n. n.frame_id) ns ++ n.frame_id ∷ []
map_push [] n = refl
map_push (m ∷ ns) n = ap (◌∷◌ m.frame_id) (map_push ns n)

pub insert_new :
    (f i : ℕ) (n : Node) (ns : List Node)
    → n.frame_id ≡ f
    → n.ident ≡ i
    → Assoc.lookup ℕ_discrete f (entries ns) ≡ none
    → Assoc.insert ℕ_discrete f i (entries ns) ≡ entries (ns ++ n ∷ [])
unfolding Assoc.lookup Assoc.insert
insert_new f i n [] p q e = ground arith
insert_new f i n (m ∷ ns) p q e = ground (arith, insert_new f i n ns p q)

All-push : (P : Node → Type 0) (n : Node) (ns : List Node) → All P ns → P n → All P (ns ++ n ∷ [])
All-push P n [] h p = (p, tt)
All-push P n (m ∷ ns) h p = (h.0, All-push P n ns h.1 p)

pub Distinct-push :
    (next f : ℕ) (n : Node) (ns : List Node)
    → n.frame_id ≡ f
    → n.ident ≡ next
    → Assoc.lookup ℕ_discrete f (entries ns) ≡ none
    → Distinct next ns
    → Distinct (suc next) (ns ++ n ∷ [])
unfolding Assoc.lookup
Distinct-push next f n [] p q e d = (omega arith, tt, tt)
Distinct-push next f n (m ∷ ns) p q e d = (
  omega arith,
  All-push (Other m) n ns d.1 (ground arith, omega arith),
  Distinct-push next f n ns p q (ground arith) d.2,
)
