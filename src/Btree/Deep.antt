-- ===== src/Btree/Deep.antt =====
-- Trees of any height with 64-bit keys. A node covers a range of keys; each of its slots covers the
-- part from its key up to the key of the slot before. What a slot's value stands for is a parameter:
-- a value of the map in a leaf, a node of the level below elsewhere.
--
-- `Lookup` is about the descent to a leaf; `Find`, `Pick`, `Lower`, `Level` and `Again` about
-- `find_level`; `Place`, `Room` and `Insert` about a node with room; `Halves`, `Parts`, `Split`,
-- `Above`, `Retry`, `Runs` and `Full` about a full one, `Spare` about the addresses of new nodes;
-- `Rise`, `Upper`, `Root`, `Sprout` and `Grow` put the levels together, `Whole` the trees.
pub mod Lookup
pub mod Find
pub mod Pick
pub mod Lower
pub mod Level
pub mod Place
pub mod Room
pub mod Halves
pub mod Parts
pub mod Again
pub mod Spare
pub mod Split
pub mod Insert
pub mod Above
pub mod Retry
pub mod Runs
pub mod Full
pub mod Root
pub mod Rise
pub mod Upper
pub mod Sprout
pub mod Grow
pub mod Whole
use logfsprogs.Common.{
  ℕ, zero, suc, ◌+◌, ◌-◌, ◌≤◌, ◌<◌, ◌≡◌, ◌≢◌, ◌⊎◌, inl, inr, refl, sym, ap, ◌∙◌, arith, false,
  Option, some, ◌==◌, ltb, Bool-cases, if◌then◌else◌, [], ◌∷◌, length,
}
use logfsprogs.Btree.Node.{Node, Ptr, btree_geo64, getpos}
use logfsprogs.Btree.Heap.{Heap, Head}
use logfsprogs.Btree.Slots.{word}
use logfsprogs.Btree.Position.{getpos-First}

-- Where slot `j` ends: at the end of the node's range, or at the key of the slot before.
abbrev pub bound : Node → ℕ → ℕ → ℕ
bound node hi j = if j == 0 then hi else word node (j - 1)

-- The first `c` slots are taken, with falling keys in [lo, hi); the others are empty.
pub record Slots (lo hi c : ℕ) (node : Node) : Type 0 where
  pub width : length node ≡ 16
  pub some_pair : 0 < c
  pub room : c ≤ 8
  pub sorted : (i j : ℕ) → i < j → j < c → word node j < word node i
  pub filled : (j : ℕ) → j < c → word node (8 + j) ≢ 0
  pub no_key : (j : ℕ) → c ≤ j → j < 8 → word node j ≡ 0
  pub no_value : (j : ℕ) → c ≤ j → j < 8 → word node (8 + j) ≡ 0
  pub low : lo ≤ word node (c - 1)
  pub high : word node 0 < hi

module _ {lo hi c : ℕ} {node : Node} (a : Slots lo hi c node) where
  pub low_slot : (j : ℕ) → j < c → word node (c - 1) ≤ word node j
  low_slot j lt = elim (Bool-cases (j == c - 1)) [
    | inl last ↦ let e : j ≡ c - 1 = ground arith in let w = ap (word node) e in omega arith
    | inr inner ↦ let s = a.sorted j (c - 1) (ground arith) (omega arith) in omega arith
  ]

  pub high_slot : (j : ℕ) → j < c → word node j < hi
  high_slot j lt =
      let top = a.high in
      elim (Bool-cases (j == 0)) [
        | inl first ↦ let e : j ≡ 0 = ground arith in let w = ap (word node) e in omega arith
        | inr inner ↦ let s = a.sorted 0 j (ground arith) lt in omega arith
      ]

  pub below_bound : (j : ℕ) → j < c → word node j < bound node hi j
  below_bound j lt =
      let top = high_slot j lt in
      elim (Bool-cases (j == 0)) [
        | inl first ↦ rw first top
        | inr inner ↦ rw inner (a.sorted (j - 1) j (ground arith) lt)
      ]

  pub bound_high : (j : ℕ) → j < c → bound node hi j ≤ hi
  bound_high j lt = elim (Bool-cases (j == 0)) [
    | inl first ↦ rw first (omega arith)
    | inr inner ↦ let top = high_slot (j - 1) (omega arith) in rw inner (omega arith)
  ]

  -- The slots of a node are apart.
  pub slots_apart : (i j : ℕ) → i < j → j < c → bound node hi j ≤ word node i
  slots_apart i j lt top =
      let no : (j == 0) ≡ false = ground arith in
      rw no (elim (Bool-cases (i == j - 1)) [
        | inl next ↦ let e : i ≡ j - 1 = ground arith in let w = ap (word node) e in omega arith
        | inr far ↦ let s = a.sorted i (j - 1) (ground arith) (omega arith) in omega arith
      ])

  -- The slot for a key of the node's range, or the gap behind the last slot.
  pub getpos-Slots :
      (k : ℕ)
      → k < hi
      → let pos = getpos btree_geo64 node (k ∷ []) in
        ((pos < c) × (word node pos ≤ k) × (k < bound node hi pos))
        ⊎ ((pos ≡ c) × (k < word node (c - 1)))
  getpos-Slots k lt =
      let pos = getpos btree_geo64 node (k ∷ []) in
      let f = getpos-First node k a.width in
      let some_pair = a.some_pair in
      let room = a.room in
      elim (Bool-cases (ltb pos c)) [
        | inl low ↦
            let inner : pos < c = ground arith in
            inl (
              inner,
              elim f.least [ inl end ↦ absurd (omega arith) | inr least ↦ least ],
              elim (Bool-cases (pos == 0)) [
                | inl first ↦ rw first lt
                | inr later ↦ rw later (f.above (pos - 1) (omega arith) (ground arith))
              ],
            )
        | inr high ↦
            let past : c ≤ pos = ground arith in
            inr (
              elim (Bool-cases (pos == c)) [
                | inl same ↦ ground arith
                | inr more ↦
                    let over : c < pos = ground arith in
                    let inside = f.inside in
                    let z = a.no_key c (omega arith) (omega arith) in
                    let w = f.above c (omega arith) over in absurd (omega arith)
              ],
              f.above (c - 1) (omega arith) (omega arith),
            )
      ]

-- Two ghost tables: the level of a node, and the end of its range.
pub record Tags : Type 0 where
  pub lev : Ptr → ℕ
  pub top : Ptr → ℕ

-- The node at `p` covers [lo, hi): slot values satisfy `C`, the part below its last key `G`.
pub record Block (cells : Ptr → Option Node) (g : Tags) (L : ℕ) (G : ℕ → ℕ → Type 0)
    (C : ℕ → ℕ → Ptr → Type 0) (lo hi : ℕ) (p : Ptr) : Type 0 where
  pub some_node : p ≢ 0
  pub level : g.lev p ≡ L
  pub end : g.top p ≡ hi
  pub node : Node
  pub there : cells p ≡ some node
  pub count : ℕ
  pub slots : Slots lo hi count node
  pub entries : (j : ℕ) → j < count → C (word node j) (bound node hi j) (word node (8 + j))
  pub gap : G lo (word node (count - 1))

-- A tree of `d` levels above level `L`.
abbrev pub Tree :
    (Ptr → Option Node)
    → Tags
    → ℕ
    → ℕ
    → (ℕ → ℕ → Type 0)
    → (ℕ → ℕ → Ptr → Type 0)
    → ℕ
    → ℕ
    → Ptr
    → Type 0
Tree cells g zero L G C lo hi p = Block cells g L G C lo hi p
Tree cells g (suc d) L G C lo hi p = Tree cells g d (suc L) G (Block cells g L G C) lo hi p

-- A node that is the same in two heaps.
abbrev pub Same : (Ptr → Option Node) → Tags → (Ptr → Option Node) → Tags → Ptr → Type 0
Same cells g cells' g' p = (cells' p ≡ cells p) × (g'.lev p ≡ g.lev p) × (g'.top p ≡ g.top p)

-- A node keeps its place while what its slots and its gap stand for changes.
unfoldable pub map-Block :
    (cells cells' : Ptr → Option Node) (g g' : Tags) (L : ℕ) (G G' : ℕ → ℕ → Type 0)
    (C C' : ℕ → ℕ → Ptr → Type 0) (lo hi : ℕ) (p : Ptr)
    → Block cells g L G C lo hi p
    → Same cells g cells' g' p
    → ((s up : ℕ) (x : Ptr) → lo ≤ s → s < up → up ≤ hi → C s up x → C' s up x)
    → ((a b : ℕ) → lo ≤ a → b ≤ hi → G a b → G' a b)
    → Block cells' g' L G' C' lo hi p
map-Block cells cells' g g' L G G' C C' lo hi p b (cell, lev, top) entry gap =
    let a = b.slots in
    let low = a.low in
    let some_pair = a.some_pair in
    record {
      some_node = b.some_node;
      level = lev ∙ b.level;
      end = top ∙ b.end;
      node = b.node;
      there = cell ∙ b.there;
      count = b.count;
      slots = a;
      entries = λ j lt.
          let above = low_slot a j lt in
          entry (word b.node j) (bound b.node hi j) (word b.node (8 + j)) (omega arith)
            (below_bound a j lt) (bound_high a j lt) (b.entries j lt);
      gap =
          let top_slot = high_slot a (b.count - 1) (omega arith) in
          gap lo (word b.node (b.count - 1)) (omega arith) (omega arith) b.gap;
    }

pub map-Tree :
    (cells cells' : Ptr → Option Node) (g g' : Tags) (d L : ℕ) (G G' : ℕ → ℕ → Type 0)
    (C C' : ℕ → ℕ → Ptr → Type 0) (lo hi : ℕ) (p : Ptr)
    → Tree cells g d L G C lo hi p
    → ((q : Ptr) → L ≤ g.lev q → Same cells g cells' g' q)
    → ((s up : ℕ) (x : Ptr) → lo ≤ s → s < up → up ≤ hi → C s up x → C' s up x)
    → ((a b : ℕ) → lo ≤ a → b ≤ hi → G a b → G' a b)
    → Tree cells' g' d L G' C' lo hi p
map-Tree cells cells' g g' zero L G G' C C' lo hi p t same entry gap =
    let level = t.level in
    map-Block cells cells' g g' L G G' C C' lo hi p t (same p (omega arith)) entry gap
map-Tree cells cells' g g' (suc d) L G G' C C' lo hi p t same entry gap =
    map-Tree cells cells' g g' d (suc L) G G' (Block cells g L G C) (Block cells' g' L G' C') lo hi
      p t (λ q le. same q (omega arith))
      (λ s up x le lt top b.
        let level = b.level in
        map-Block cells cells' g g' L G G' C C' s up x b (same x (omega arith))
          (λ s' up' x' le' lt' top'. entry s' up' x' (omega arith) lt' (omega arith))
          (λ a' b' le' top'. gap a' b' (omega arith) (omega arith)))
      gap

-- What a gap stands for can be cut and joined.
pub record IsGap (G : ℕ → ℕ → Type 0) : Type 0 where
  pub join : (a b c : ℕ) → G a b → G b c → G a c
  pub front : (a b c : ℕ) → a ≤ b → b ≤ c → G a c → G a b
  pub rear : (a b c : ℕ) → a ≤ b → b ≤ c → G a c → G b c

-- In a leaf a slot's value is that of the map, which has no other key in the slot's range.
abbrev pub Value : (ℕ → ℕ) → ℕ → ℕ → ℕ → Type 0
Value m s up v = (v ≢ 0) × (m s ≡ v) × ((k : ℕ) → s < k → k < up → m k ≡ 0)

-- No key in [a, b).
abbrev pub Empty : (ℕ → ℕ) → ℕ → ℕ → Type 0
Empty m a b = (k : ℕ) → a ≤ k → k < b → m k ≡ 0

-- A tree of `d + 1` levels whose pairs, all with keys below `limit`, are those of the map.
abbrev pub Deep : (ℕ → ℕ) → ℕ → Tags → ℕ → Head → Heap → Type 0
Deep m limit g d head h =
    (head.height ≡ d + 1)
    × Tree h.cells g d 1 (Empty m) (Value m) 0 limit head.node
    × ((k : ℕ) → limit ≤ k → m k ≡ 0)
