-- ===== src/Btree/Deep/Place.antt =====
-- The place of a new key in a node.
use logfsprogs.Common.{
  ℕ, ◌+◌, ◌-◌, ◌≤◌, ◌<◌, ◌≡◌, ◌⊎◌, inl, inr, refl, arith, true, false, Option, ◌==◌, ltb, ◌&&◌,
  Bool-cases, [], ◌∷◌,
}
use mathlib.Core.Path.{subst}
use logfsprogs.Btree.Node.{Node, Ptr, btree_geo64, getpos, getfill, keycmp, is_eq}
use logfsprogs.Btree.Position.{key_eq}
use logfsprogs.Btree.Leaf.{getfill_loop_lem}
use logfsprogs.Btree.Slots.{word}
use logfsprogs.Btree.Deep.{Tags, Slots, Block, bound, getpos-Slots}

pub getfill-Slots :
    (lo hi c : ℕ) (node : Node)
    → Slots lo hi c node
    → (i : ℕ) → i ≤ c
    → getfill btree_geo64 node i ≡ c
unfolding getfill
getfill-Slots lo hi c node s i le =
    let room = s.room in getfill_loop_lem node c (8 - i) i (omega arith) le room s.filled s.no_value

module _ (cells : Ptr → Option Node) (g : Tags) (L : ℕ) (G : ℕ → ℕ → Type 0)
    (C : ℕ → ℕ → Ptr → Type 0) (lo hi : ℕ) (q : Ptr) (b : Block cells g L G C lo hi q) (k : ℕ)
    (to : k < hi) (new : (up : ℕ) (x : Ptr) → k < up → C k up x → ⊥) where
  abbrev pos : ℕ
  pos = getpos btree_geo64 b.node (k ∷ [])

  -- The slot whose range has the key, or the gap.
  pub getpos-Block :
      ((pos < b.count) × (word b.node pos < k) × (k < bound b.node hi pos))
      ⊎ ((pos ≡ b.count) × (k < word b.node (b.count - 1)))
  getpos-Block = elim (getpos-Slots b.slots k to) [
    | inr (past, below) ↦ inr (past, below)
    | inl (inner, low, high) ↦ elim (Bool-cases (word b.node pos == k)) [
      | inl same ↦
          let e : word b.node pos ≡ k = ground arith in
          absurd (
            new (bound b.node hi pos) (word b.node (8 + pos)) high (
              subst (λ y. C y (bound b.node hi pos) (word b.node (8 + pos))) e
                (b.entries pos inner)))
      | inr other ↦ inl (inner, ground arith, high)
    ]
  ]

  pub pos_below : pos ≤ b.count
  pos_below = elim getpos-Block [
    | inl (inner, low, high) ↦ omega arith
    | inr (past, low) ↦ omega arith
  ]

  pub not_taken : (ltb pos b.count && is_eq (keycmp btree_geo64 b.node pos (k ∷ []))) ≡ false
  not_taken = elim getpos-Block [
    | inr (past, low) ↦ let no : ltb pos b.count ≡ false = ground arith in rw no refl
    | inl (inner, low, high) ↦
        let yes : ltb pos b.count ≡ true = ground arith in
        let no : (word b.node pos == k) ≡ false = ground arith in
        let width = b.slots.width in
        let room = b.slots.room in rw (yes, key_eq b.node k pos (omega arith), no) refl
  ]
