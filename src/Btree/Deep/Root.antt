-- ===== src/Btree/Deep/Root.antt =====
-- `btree_grow`: a root with one slot, for the old root.
use logfsprogs.Common.{
  ℕ, ◌+◌, ◌≤◌, ◌<◌, ◌≡◌, ◌≢◌, refl, sym, ap, ◌∙◌, arith, true, false, Option, some, ◌==◌, ltb,
  if◌then◌else◌, [], ◌∷◌, length, length-set, set,
}
use mathlib.Core.Path.{subst}
use logfsprogs.Common.Outcome.{Cmd, ok, Errno, enomem}
use logfsprogs.Btree.Node.{
  Node, Ptr, Key, zero_node, btree_geo64, bkey, setkey, setval, longcpy, getfill,
}
use logfsprogs.Btree.Heap.{Heap, Head, write, btree_node_alloc}
use logfsprogs.Btree.Insert.{btree_grow, insert_level}
use logfsprogs.Btree.Slots.{word, word-set, bkey_word}
use logfsprogs.Btree.Leaf.{word-replicate}
use logfsprogs.Btree.Small.{load_there, store_there}
use logfsprogs.Btree.Deep.{Tags, Slots, Block, bound}

abbrev pub root_node : ℕ → Ptr → Node
root_node k old = setval btree_geo64 (setkey btree_geo64 zero_node (k ∷ []) 0) old 0

pub root_words :
    (k old : ℕ)
    → (length (root_node k old) ≡ 16)
      × ((q : ℕ) → word (root_node k old) q ≡ (if q == 8 then old else if q == 0 then k else 0))
unfolding zero_node setkey setval longcpy
root_words k old =
    let len = length-set zero_node 0 k in
    (
      length-set (set zero_node 0 k) 8 old ∙ len,
      λ q.
          word-set (set zero_node 0 k) 8 old q (omega arith)
          ∙ ap (λ t. if q == 8 then old else t)
              (word-set zero_node 0 k q (omega arith)
                ∙ ap (λ t. if q == 0 then k else t) (word-replicate 16 q)),
    )

pub root-Slots :
    (lo hi k : ℕ) (old : Ptr) → old ≢ 0 → lo ≤ k → k < hi → Slots lo hi 1 (root_node k old)
root-Slots lo hi k old some_old le lt =
    let (width, words) = root_words k old in
    let key : word (root_node k old) 0 ≡ k = words 0 in
    let value : word (root_node k old) 8 ≡ old = words 8 in
    record {
      width = width;
      some_pair = omega arith;
      room = omega arith;
      sorted = λ i j less top. absurd (omega arith);
      filled = λ j h e.
          let z : 0 ≡ j = omega arith in
          some_old (sym value ∙ ap (λ y. word (root_node k old) (8 + y)) z ∙ e);
      no_key = λ j l h. ground (arith, words j);
      no_value = λ j l h. ground (arith, words (8 + j));
      low = omega arith;
      high = omega arith;
    }

-- The new root's only slot has the range from the old root's last key on.
unfoldable pub root-Block :
    (cells : Ptr → Option Node) (g : Tags) (L : ℕ) (G : ℕ → ℕ → Type 0) (C : ℕ → ℕ → Ptr → Type 0)
    (lo hi k : ℕ) (old p : Ptr)
    → p ≢ 0
    → g.lev p ≡ L
    → g.top p ≡ hi
    → cells p ≡ some (root_node k old)
    → old ≢ 0
    → lo ≤ k
    → k < hi
    → C k hi old
    → G lo k
    → Block cells g L G C lo hi p
root-Block cells g L G C lo hi k old p some_p level end there some_old le lt entry gap =
    let (width, words) = root_words k old in
    let key : word (root_node k old) 0 ≡ k = words 0 in
    let value : word (root_node k old) 8 ≡ old = words 8 in
    record {
      some_node = some_p;
      level = level;
      end = end;
      node = root_node k old;
      there = there;
      count = 1;
      slots = root-Slots lo hi k old some_old le lt;
      entries = λ j h.
          let e : 0 ≡ j = omega arith in
          subst
            (λ y.
              C (word (root_node k old) y) (bound (root_node k old) hi y)
                (word (root_node k old) (8 + y)))
            e (rw (key, value) entry);
      gap = subst (G lo) (sym key) gap;
    }

-- Growth in the insertion above the root.
module _ (retry : Head → Key → ℕ → ℕ → Cmd Heap (Errno × Head)) (head : Head) (key : Key) (v L : ℕ)
    (h2 : Heap) (some_v : v ≢ 0) (low : head.height < L) where
  full_value : (v == 0) ≡ false
  full_value = ground arith

  growth : ltb head.height L ≡ true
  growth = ground arith

  pub insert_level_failed :
      (h3 : Heap)
      → btree_node_alloc h2 ≡ ok 0 h3
      → insert_level btree_geo64 retry head key v L h2 ≡ ok (enomem, head) h3
  unfolding insert_level btree_grow
  insert_level_failed h3 alloc = rw (full_value, growth, alloc) refl

  pub insert_level_grown :
      (r : Ptr) (h3 : Heap) (o : Node)
      → btree_node_alloc h2 ≡ ok r h3
      → r ≢ 0
      → head.node ≢ 0
      → h3.cells head.node ≡ some o
      → h3.cells r ≡ some zero_node
      → length o ≡ 16
      → getfill btree_geo64 o 0 ≡ 8
      → insert_level btree_geo64 retry head key v L h2
        ≡ retry
            (record { node = r; height = head.height + 1 })
            key
            v
            L
            (record h3 { cells = write h3.cells r (some (root_node (word o 7) head.node)) })
  unfolding insert_level btree_grow
  insert_level_grown r h3 o alloc some_r some_root there there_r width fill =
      let full : (r == 0) ≡ false = ground arith in
      let full_root : (head.node == 0) ≡ false = ground arith in
      let read = load_there head.node h3 o there in
      let read_new = load_there r h3 zero_node there_r in
      let last : bkey btree_geo64 o 7 ≡ word o 7 ∷ [] = bkey_word o 7 (omega arith) in
      let wrote = store_there r h3 zero_node (root_node (word o 7) head.node) there_r in
      rw (full_value, growth, alloc, full, full_root, read, read_new, fill, last, wrote) refl
