-- ===== src/Tests/Deep.antt =====
-- The theorems on trees of any height, at a tree of two levels with one pair.
use logfsprogs.Common.{
  ℕ, ◌+◌, ◌≤◌, ◌<◌, ◌≡◌, ◌≢◌, refl, sym, ap, ◌∙◌, arith, false, ◌==◌, if◌then◌else◌, [], none, some,
  length-set, set,
}
use mathlib.Core.Path.{subst}
use logfsprogs.Common.Outcome.{Returns}
use logfsprogs.Btree.Node.{Node, zero_node, btree_geo64, getfill}
use logfsprogs.Btree.Heap.{Heap, Head, load}
use logfsprogs.Btree.Search.{find_level}
use logfsprogs.Btree.Head64.{btree_insert64}
use logfsprogs.Btree.Slots.{word, word-set}
use logfsprogs.Btree.Leaf.{update, word-replicate}
use logfsprogs.Btree.Deep.{Tags, Slots, Block, bound, Value, Empty, Deep}
use logfsprogs.Btree.Deep.Insert.{Kept, find_leaf, btree_insert64-Deep}

abbrev pair_node : ℕ → ℕ → Node
pair_node k v = set (set zero_node 0 k) 8 v

pair_words : (k v q : ℕ) → word (pair_node k v) q ≡ (if q == 8 then v else if q == 0 then k else 0)
unfolding zero_node
pair_words k v q =
    let len = length-set zero_node 0 k in
    word-set (set zero_node 0 k) 8 v q (omega arith)
    ∙ ap (λ t. if q == 8 then v else t)
        (word-set zero_node 0 k q (omega arith)
          ∙ ap (λ t. if q == 0 then k else t) (word-replicate 16 q))

pair_node-Slots : (lo hi k v : ℕ) → lo ≤ k → k < hi → v ≢ 0 → Slots lo hi 1 (pair_node k v)
unfolding zero_node
pair_node-Slots lo hi k v le lt full = record {
  width = length-set (set zero_node 0 k) 8 v ∙ length-set zero_node 0 k;
  some_pair = omega arith;
  room = omega arith;
  sorted = λ i j less top. absurd (omega arith);
  filled = λ j h e. full (sym (pair_words k v (8 + j) ∙ ground arith) ∙ e);
  no_key = λ j l h. ground (arith, pair_words k v j);
  no_value = λ j l h. ground (arith, pair_words k v (8 + j));
  low = ground (arith, pair_words k v 0);
  high = ground (arith, pair_words k v 0);
}

abbrev one_pair : ℕ → ℕ
one_pair = update (λ _. 0) 5 100

abbrev heap : Heap
heap = record {
  cells =
      λ q. if q == 1 then some (pair_node 5 2) else if q == 2 then some (pair_node 5 100) else none;
  pool = [];
}

abbrev head : Head
head = record { node = 1; height = 2 }

abbrev tags : Tags
tags = record { lev = λ q. if q == 1 then 2 else if q == 2 then 1 else 0; top = λ _. 1000 }

absent : (k : ℕ) → k ≢ 5 → one_pair k ≡ 0
absent k ne = let no : (k == 5) ≡ false = ground arith in rw no refl

at_zero : (P : ℕ → Type 0) → P 0 → (j : ℕ) → j < 1 → P j
at_zero P p j lt = let e : 0 ≡ j = omega arith in subst P e p

leaf_Block : Block heap.cells tags 1 (Empty one_pair) (Value one_pair) 5 1000 2
unfolding zero_node
leaf_Block = record {
  some_node = omega arith;
  level = refl;
  end = refl;
  node = pair_node 5 100;
  there = refl;
  count = 1;
  slots = pair_node-Slots 5 1000 5 100 (omega arith) (omega arith) (omega arith);
  entries =
      at_zero
        (λ y.
          Value one_pair (word (pair_node 5 100) y) (bound (pair_node 5 100) 1000 y)
            (word (pair_node 5 100) (8 + y)))
        (omega arith, refl, λ k above below. absent k (omega arith));
  gap = λ k above below. absurd (omega arith);
}

one_pair-Deep : Deep one_pair 1000 tags 1 head heap
unfolding zero_node
one_pair-Deep = (
  refl,
  record {
    some_node = omega arith;
    level = refl;
    end = refl;
    node = pair_node 5 2;
    there = refl;
    count = 1;
    slots = pair_node-Slots 0 1000 5 2 (omega arith) (omega arith) (omega arith);
    entries =
        at_zero
          (λ y.
            Block heap.cells tags 1 (Empty one_pair) (Value one_pair) (word (pair_node 5 2) y)
              (bound (pair_node 5 2) 1000 y) (word (pair_node 5 2) (8 + y)))
          leaf_Block;
    gap = λ k above below. absent k (omega arith);
  },
  λ k le. absent k (omega arith),
)

space : Returns (λ leaf _. getfill btree_geo64 leaf 0 < 8) (find_leaf head 3 heap)
unfolding find_level load zero_node getfill
space = omega arith

btree_insert64-Deep_example :
    Returns (Kept (update one_pair 3 300) 1000 tags 1 head heap) (btree_insert64 head 3 300 heap)
btree_insert64-Deep_example =
    btree_insert64-Deep one_pair 1000 tags 1 head heap one_pair-Deep 3 300 (omega arith) refl
      (omega arith) space
