-- ===== src/Tests/Maps.antt =====
-- The theorems on trees of one leaf at concrete inputs.
use logfsprogs.Common.{
  ℕ, ◌≡◌, ◌≢◌, ◌⊎◌, ◌≤◌, inl, inr, Bool-cases, refl, arith, ◌==◌, if◌then◌else◌, [], ◌∷◌, none,
  some,
}
use logfsprogs.Common.Outcome.{ok, Returns}
use logfsprogs.Btree.Node.{Node, zero_node, btree_geo64, getpos}
use logfsprogs.Btree.Heap.{Heap, Head}
use logfsprogs.Btree.Insert.{insert_pair}
use logfsprogs.Btree.Head64.{btree_lookup64, btree_insert64, btree_remove64}
use logfsprogs.Btree.Leaf.{update, zero-Leaf, insert_pair-Leaf}
use logfsprogs.Btree.Greatest.{Greatest, btree_last64-Greatest}
use logfsprogs.Btree.Head64.{btree_last64}
use logfsprogs.Btree.Merged.{union, btree_merge64-union}
use logfsprogs.Btree.Round.{Merged}
use logfsprogs.Btree.Typed.{btree_merge64}
use logfsprogs.Btree.Map.{Added, btree_lookup64-Small, btree_insert64-Small}
use logfsprogs.Btree.Small.{Small, Single}
use logfsprogs.Btree.Removal.{
  Taken, btree_remove64-Small, btree_remove64-missing, btree_remove64-zero,
}

abbrev nothing : ℕ → ℕ
nothing k = 0

abbrev one_pair : ℕ → ℕ
one_pair = update nothing 9 100

abbrev two_pairs : ℕ → ℕ
two_pairs = update one_pair 4 200

abbrev one_leaf : Node
one_leaf = insert_pair btree_geo64 (9 ∷ []) 100 (getpos btree_geo64 zero_node (9 ∷ [])) 0 zero_node

abbrev two_leaf : Node
two_leaf = insert_pair btree_geo64 (4 ∷ []) 200 (getpos btree_geo64 one_leaf (4 ∷ [])) 1 one_leaf

abbrev heap : Heap
heap = record { cells = λ q. if q == 50 then some two_leaf else none; pool = [] }

abbrev head : Head
head = record { node = 50; height = 1 }

two_pairs-Small : Small two_pairs 2 head heap
two_pairs-Small = inr (record {
  tall = refl;
  root = omega arith;
  some_pair = omega arith;
  leaf = two_leaf;
  there = refl;
  pairs =
      insert_pair-Leaf one_pair 1 one_leaf
        (insert_pair-Leaf nothing 0 zero_node (zero-Leaf nothing (λ k. refl)) 9 100 (omega arith)
          refl (omega arith))
        4 200 (omega arith) refl (omega arith);
})

btree_lookup64-Small_example : btree_lookup64 head 4 heap ≡ ok 200 heap
btree_lookup64-Small_example = btree_lookup64-Small two_pairs 2 head heap two_pairs-Small 4

btree_insert64-Small_example :
    Returns (Added two_pairs 2 head heap 7 300) (btree_insert64 head 7 300 heap)
btree_insert64-Small_example =
    btree_insert64-Small two_pairs 2 head heap 7 300 two_pairs-Small (omega arith) refl
      (omega arith)

btree_remove64-Small_example :
    Returns (Taken two_pairs 2 head heap 9 100) (btree_remove64 head 9 heap)
btree_remove64-Small_example =
    btree_remove64-Small two_pairs 2 head heap 9 two_pairs-Small (omega arith)

btree_remove64-missing_example : btree_remove64 head 5 heap ≡ ok (0, head) heap
btree_remove64-missing_example =
    btree_remove64-missing two_pairs 2 head heap 5 two_pairs-Small (omega arith) refl (omega arith)

btree_remove64-zero_example :
    (k : ℕ) × (two_pairs k ≢ 0)
    × ((j : ℕ) → (two_pairs j ≡ 0) ⊎ (k ≤ j))
    × Returns (Taken two_pairs 2 head heap k 0) (btree_remove64 head 0 heap)
btree_remove64-zero_example =
    btree_remove64-zero two_pairs 2 head heap two_pairs-Small (omega arith) (omega arith) refl

abbrev seven : ℕ → ℕ
seven = update nothing 7 300

abbrev seven_leaf : Node
seven_leaf =
    insert_pair btree_geo64 (7 ∷ []) 300 (getpos btree_geo64 zero_node (7 ∷ [])) 0 zero_node

abbrev both : Heap
both = record {
  cells = λ q. if q == 50 then some two_leaf else if q == 60 then some seven_leaf else none;
  pool = [];
}

two_pairs-Single : Single two_pairs 2 head both
two_pairs-Single = record {
  tall = refl;
  root = omega arith;
  some_pair = omega arith;
  leaf = two_leaf;
  there = refl;
  pairs =
      insert_pair-Leaf one_pair 1 one_leaf
        (insert_pair-Leaf nothing 0 zero_node (zero-Leaf nothing (λ k. refl)) 9 100 (omega arith)
          refl (omega arith))
        4 200 (omega arith) refl (omega arith);
}

seven-Small : Small seven 1 (record { node = 60; height = 1 }) both
seven-Small = inr (record {
  tall = refl;
  root = omega arith;
  some_pair = omega arith;
  leaf = seven_leaf;
  there = refl;
  pairs =
      insert_pair-Leaf nothing 0 zero_node (zero-Leaf nothing (λ k. refl)) 7 300 (omega arith) refl
        (omega arith);
})

no_common_key : (k : ℕ) → (two_pairs k ≡ 0) ⊎ (seven k ≡ 0)
no_common_key k = elim (Bool-cases (k == 7)) [
  | inl same ↦ let e : k ≡ 7 = ground arith in rw e (inl refl)
  | inr other ↦ rw other (inr refl)
]

btree_merge64-union_example :
    Returns
      (Merged (union two_pairs seven) 3 50)
      (btree_merge64 2 head (record { node = 60; height = 1 }) both)
btree_merge64-union_example =
    btree_merge64-union two_pairs seven 2 1 2 head (record { node = 60; height = 1 }) both
      two_pairs-Single seven-Small (omega arith) no_common_key (omega arith) (omega arith)

btree_last64-Greatest_example :
    (k : ℕ) × (btree_last64 head heap ≡ ok k heap) × Greatest two_pairs k
btree_last64-Greatest_example = btree_last64-Greatest two_pairs 2 head heap two_pairs-Small
