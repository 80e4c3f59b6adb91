-- ===== src/Btree/Small.antt =====
-- Trees of at most one node with 64-bit keys as finite maps, and their root in the memory.
use logfsprogs.Common.{
  ℕ, ◌<◌, ◌≡◌, ◌≢◌, ◌⊎◌, inl, inr, refl, ap, ◌∙◌, arith, false, Option, ◌==◌, ==_refl, ltb, ◌&&◌,
  Bool-cases, [], ◌∷◌, some,
}
use logfsprogs.Common.Outcome.{ok}
use logfsprogs.Btree.Node.{Node, Ptr, btree_geo64, keycmp, is_eq}
use logfsprogs.Btree.Heap.{Heap, Head, write, load, store}
use logfsprogs.Btree.Slots.{word}
use logfsprogs.Btree.Position.{key_eq}
use logfsprogs.Btree.Leaf.{Leaf, absent-Leaf}

-- The tree's root is a leaf with at least one pair.
pub record Single (m : ℕ → ℕ) (c : ℕ) (head : Head) (h : Heap) : Type 0 where
  pub tall : head.height ≡ 1
  pub root : head.node ≢ 0
  pub some_pair : 0 < c
  pub leaf : Node
  pub there : h.cells head.node ≡ some leaf
  pub pairs : Leaf m c leaf

pub record Nothing (m : ℕ → ℕ) (c : ℕ) (head : Head) : Type 0 where
  pub low : head.height ≡ 0
  pub rootless : head.node ≡ 0
  pub count : c ≡ 0
  pub no_pairs : (k : ℕ) → m k ≡ 0

-- The tree has no node or one, and its `c` pairs are those of the map.
abbrev pub Small : (ℕ → ℕ) → ℕ → Head → Heap → Type 0
Small m c head h = Nothing m c head ⊎ Single m c head h

-- A small tree depends on the cells alone.
pub cells-Small :
    (m : ℕ → ℕ) (c : ℕ) (head : Head) (h h' : Heap)
    → h'.cells ≡ h.cells
    → Small m c head h
    → Small m c head h'
cells-Small m c head h h' same (inl e) = inl e
cells-Small m c head h h' same (inr t) = inr (record {
  tall = t.tall;
  root = t.root;
  some_pair = t.some_pair;
  leaf = t.leaf;
  there = ap (λ cells. cells head.node) same ∙ t.there;
  pairs = t.pairs;
})

pub load_there : (p : Ptr) (h : Heap) (node : Node) → h.cells p ≡ some node → load p h ≡ ok node h
unfolding load
load_there p h node there = rw (load, there) refl

pub store_there :
    (p : Ptr) (h : Heap) (node new : Node)
    → h.cells p ≡ some node
    → store p new h ≡ ok tt (record h { cells = write h.cells p (some new) })
unfolding store
store_there p h node new there = rw (store, there) refl

pub write_self : (cells : Ptr → Option Node) (p : Ptr) (c : Option Node) → write cells p c p ≡ c
unfolding write
write_self cells p c = rw (write, ==_refl p) refl

pub write_other :
    (cells : Ptr → Option Node) (p q : Ptr) (c : Option Node) → q ≢ p → write cells p c q ≡ cells q
unfolding write
write_other cells p q c ne = let no : (q == p) ≡ false = ground arith in rw (write, no) refl

-- The test for a key that is in the tree already.
pub not_there :
    (m : ℕ → ℕ) (c : ℕ) (node : Node) (pos k : ℕ)
    → Leaf m c node
    → c < 8
    → m k ≡ 0
    → (ltb pos c && is_eq (keycmp btree_geo64 node pos (k ∷ []))) ≡ false
not_there m c node pos k a room free = elim (Bool-cases (ltb pos c)) [
  | inl low ↦
      let lt : pos < c = ground arith in
      let width = a.width in
      let ne = absent-Leaf m c node a k free pos lt in
      let no : (word node pos == k) ≡ false = ground arith in
      rw (low, key_eq node k pos (omega arith), no) refl
  | inr high ↦ rw high refl
]
