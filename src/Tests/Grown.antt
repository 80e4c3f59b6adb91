-- ===== src/Tests/Grown.antt =====
-- The theorems on trees of any size, at a full leaf that is split.
use logfsprogs.Common.{
  ℕ, zero, suc, ◌+◌, ◌≤◌, ◌<◌, ◌≡◌, inr, refl, arith, false, ◌==◌, if◌then◌else◌, [], ◌∷◌, none,
  some,
}
use mathlib.Core.Path.{subst}
use logfsprogs.Common.Outcome.{ok, Returns}
use logfsprogs.Btree.Node.{Node, zero_node, btree_geo64, getpos}
use logfsprogs.Btree.Heap.{Heap, Head}
use logfsprogs.Btree.Insert.{insert_pair}
use logfsprogs.Btree.Head64.{btree_lookup64, btree_insert64}
use logfsprogs.Btree.Leaf.{Leaf, update, zero-Leaf, insert_pair-Leaf}
use logfsprogs.Btree.Deep.{Tags}
use logfsprogs.Btree.Deep.Whole.{
  Holds, Inserted64, leaf-Deep, btree_lookup64-Holds, btree_insert64-Holds,
}

-- The keys 1 to c.
abbrev keys_to : ℕ → ℕ → ℕ
keys_to zero x = 0
keys_to (suc c) x = update (keys_to c) (suc c) (c + 101) x

abbrev leaf_to : ℕ → Node
leaf_to zero = zero_node
leaf_to (suc c) =
    insert_pair btree_geo64 (suc c ∷ []) (c + 101) (getpos btree_geo64 (leaf_to c) (suc c ∷ [])) c
      (leaf_to c)

above_keys : (c x : ℕ) → c < x → keys_to c x ≡ 0
above_keys zero x lt = refl
above_keys (suc c) x lt =
    let no : (x == suc c) ≡ false = ground arith in rw no (above_keys c x (omega arith))

leaf_to-Leaf : (c : ℕ) → c ≤ 8 → Leaf (keys_to c) c (leaf_to c)
leaf_to-Leaf zero le = zero-Leaf (keys_to zero) (λ k. refl)
leaf_to-Leaf (suc c) le =
    subst (λ n. Leaf (keys_to (suc c)) n (leaf_to (suc c))) (omega arith)
      (insert_pair-Leaf (keys_to c) c (leaf_to c) (leaf_to-Leaf c (omega arith)) (suc c) (c + 101)
        (omega arith) (above_keys c (suc c) (omega arith)) (omega arith))

abbrev heap : Heap
heap = record { cells = λ q. if q == 50 then some (leaf_to 8) else none; pool = 60 ∷ 70 ∷ 80 ∷ [] }

abbrev head : Head
head = record { node = 50; height = 1 }

abbrev tags : Tags
tags = record { lev = λ q. if q == 50 then 1 else 0; top = λ _. 1000 }

eight-Holds : Holds (keys_to 8) 1000 head heap
eight-Holds = inr (
  tags,
  0,
  leaf-Deep (keys_to 8) 1000 8 (leaf_to 8) (leaf_to-Leaf 8 (omega arith)) (omega arith)
      (λ k le. above_keys 8 k (omega arith)) tags head heap refl (omega arith) refl refl refl,
  (
    inr (refl, (omega arith, (omega arith, tt))),
    (inr (refl, (omega arith, tt)), (inr (refl, tt), tt)),
  ),
)

btree_lookup64-Holds_example : btree_lookup64 head 5 heap ≡ ok 105 heap
btree_lookup64-Holds_example =
    btree_lookup64-Holds (keys_to 8) 1000 head heap eight-Holds 5 (omega arith)

btree_insert64-Holds_example :
    Returns (Inserted64 (keys_to 8) 1000 head 20 300) (btree_insert64 head 20 300 heap)
btree_insert64-Holds_example =
    btree_insert64-Holds (keys_to 8) 1000 head heap eight-Holds 20 300 (omega arith) refl
      (omega arith)
