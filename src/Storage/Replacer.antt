-- ===== src/Storage/Replacer.antt =====
-- src/replacer/lru_replacer.h and lru_replacer.cpp. A node of the `std::list` is a frame id with the
-- identity of the node, which is what an iterator holds; `next_node` gives each new node an identity
-- of its own. Each method runs under `latch_`, so it is one step.
pub mod Nodes
pub mod Refines
pub mod Frames
use myrmdb.Prelude.{
  ℕ, zero, suc, ◌+◌, Bool, true, false, List, [], ◌∷◌, ◌++◌, Option, none, some, ◌||◌, leb, length,
  ite, if◌then◌else◌, ℕ_discrete,
}
use myrmdb.Prelude.Assoc

pub record Node : Type 0 where
  pub ident : ℕ
  pub frame_id : ℕ

pub record LruReplacer : Type 0 where
  pub lru_list : List Node
  pub lru_hash : List (ℕ × ℕ)
  pub max_size : ℕ
  pub next_node : ℕ

-- The constructor.
unfoldable pub lru_replacer : ℕ → LruReplacer
lru_replacer num_pages = record {
  lru_list = [];
  lru_hash = [];
  max_size = num_pages;
  next_node = 0;
}

-- `LRUlist_.erase(it)`
unfoldable pub erase_node : ℕ → List Node → List Node
erase_node it [] = []
erase_node it (n ∷ ns) = ite (ℕ_discrete n.ident it) ns (n ∷ erase_node it ns)

victim_of : List Node → LruReplacer → Option ℕ × LruReplacer
victim_of [] r = (none, r)
victim_of (n ∷ ns) r = (
  some n.frame_id,
  record r { lru_list = ns; lru_hash = Assoc.erase ℕ_discrete n.frame_id r.lru_hash },
)

-- `none` stands for the result false; `some f` for true with `*frame_id = f`.
unfoldable pub victim : LruReplacer → Option ℕ × LruReplacer
unfolding victim_of
victim r = victim_of r.lru_list r

unfoldable pub pin : ℕ → LruReplacer → LruReplacer
pin frame_id r = elim (Assoc.lookup ℕ_discrete frame_id r.lru_hash) [
  | none ↦ r
  | some it ↦ record r {
    lru_list = erase_node it r.lru_list;
    lru_hash = Assoc.erase ℕ_discrete frame_id r.lru_hash;
  }
]

-- `LRUhash_.count(frame_id)` as a truth value.
abbrev pub count : ℕ → List (ℕ × ℕ) → Bool
count frame_id m = elim (Assoc.lookup ℕ_discrete frame_id m) [ none ↦ false | some _ ↦ true ]

push : ℕ → LruReplacer → LruReplacer
push frame_id r = record r {
  lru_list = r.lru_list ++ record { ident = r.next_node; frame_id = frame_id } ∷ [];
  lru_hash = Assoc.insert ℕ_discrete frame_id r.next_node r.lru_hash;
  next_node = suc r.next_node;
}

unfoldable pub unpin : ℕ → LruReplacer → LruReplacer
unfolding push
unpin frame_id r =
    if count frame_id r.lru_hash || leb r.max_size (length r.lru_list) then r else push frame_id r

unfoldable pub size : LruReplacer → ℕ
size r = length r.lru_list
