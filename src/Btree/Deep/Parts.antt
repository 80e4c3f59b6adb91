-- ===== src/Btree/Deep/Parts.antt =====
-- The two nodes that `split` makes of a full one, as blocks of their level.
use logfsprogs.Common.{
  ℕ, ◌+◌, ◌-◌, ◌<◌, ◌≡◌, ◌≢◌, inl, inr, refl, sym, ap, ◌∙◌, arith, false, ◌==◌, Bool-cases, Option,
  some,
}
use mathlib.Core.Path.{subst}
use logfsprogs.Btree.Deep.{Tags, Slots, Block, bound}
use logfsprogs.Btree.Node.{Node, Ptr}
use logfsprogs.Btree.Slots.{word}
use logfsprogs.Btree.Deep.Halves.{front_half, rear_half, halves}

-- Both halves of the slots of a full node.
module _ (lo hi : ℕ) (node : Node) (a : Slots lo hi 8 node) where
  pub front_words :
      (j : ℕ)
      → j < 4
      → (word (front_half node) j ≡ word node j)
        × (word (front_half node) (8 + j) ≡ word node (8 + j))
  front_words j lt = (halves node a.width).copied j lt

  pub rear_words :
      (j : ℕ)
      → j < 4
      → (word (rear_half node) j ≡ word node (j + 4))
        × (word (rear_half node) (8 + j) ≡ word node (8 + (j + 4)))
  rear_words j lt = (halves node a.width).moved j lt

  pub front_Slots : Slots (word node 3) hi 4 (front_half node)
  front_Slots =
      let h = halves node a.width in
      record {
        width = h.width;
        some_pair = omega arith;
        room = omega arith;
        sorted = λ i j lt top.
            let wi = (front_words i (omega arith)).0 in
            let wj = (front_words j top).0 in let s = a.sorted i j lt (omega arith) in omega arith;
        filled = λ j lt z. a.filled j (omega arith) (sym (front_words j lt).1 ∙ z);
        no_key = λ j l lt. (h.blank j l lt).0;
        no_value = λ j l lt. (h.blank j l lt).1;
        low = let w = (front_words 3 (omega arith)).0 in omega arith;
        high = let w = (front_words 0 (omega arith)).0 in let t = a.high in omega arith;
      }

  pub rear_Slots : Slots lo (word node 3) 4 (rear_half node)
  rear_Slots =
      let h = halves node a.width in
      record {
        width = h.width';
        some_pair = omega arith;
        room = omega arith;
        sorted = λ i j lt top.
            let wi = (rear_words i (omega arith)).0 in
            let wj = (rear_words j top).0 in
            let s = a.sorted (i + 4) (j + 4) (omega arith) (omega arith) in omega arith;
        filled = λ j lt z. a.filled (j + 4) (omega arith) (sym (rear_words j lt).1 ∙ z);
        no_key = λ j l lt. (h.cleared j l lt).0;
        no_value = λ j l lt. (h.cleared j l lt).1;
        low = let w = (rear_words 3 (omega arith)).0 in let t = a.low in omega arith;
        high =
            let w = (rear_words 0 (omega arith)).0 in
            let t = a.sorted 3 4 (omega arith) (omega arith) in omega arith;
      }

-- A full block as two.
module _ (cells cells' : Ptr → Option Node) (g g' : Tags) (L : ℕ) (G : ℕ → ℕ → Type 0)
    (C : ℕ → ℕ → Ptr → Type 0) (lo hi : ℕ) (x : Ptr) (b : Block cells g L G C lo hi x)
    (full : b.count ≡ 8) where
  pub full_Slots : Slots lo hi 8 b.node
  full_Slots = subst (λ c. Slots lo hi c b.node) full b.slots

  full_entry : (j : ℕ) → j < 8 → C (word b.node j) (bound b.node hi j) (word b.node (8 + j))
  full_entry j lt = b.entries j (omega arith)

  full_gap : G lo (word b.node 7)
  full_gap = subst (λ c. G lo (word b.node (c - 1))) full b.gap

  pub front_Block :
      (new : Ptr)
      → new ≢ 0
      → ((a : ℕ) → G a a)
      → g'.lev new ≡ L
      → g'.top new ≡ hi
      → cells' new ≡ some (front_half b.node)
      → Block cells' g' L G C (word b.node 3) hi new
  front_Block new some_new none lev top there =
      let words = front_words lo hi b.node full_Slots in
      let s = full_Slots in
      record {
        some_node = some_new;
        level = lev;
        end = top;
        node = front_half b.node;
        there = there;
        count = 4;
        slots = front_Slots lo hi b.node s;
        entries = λ j lt.
            let same : bound (front_half b.node) hi j ≡ bound b.node hi j =
              elim (Bool-cases (j == 0)) [
                | inl first ↦ rw first refl
                | inr later ↦ rw later (words (j - 1) (omega arith)).0
              ] in
            rw ((words j lt).0, (words j lt).1, same) (full_entry j (omega arith));
        gap = subst (G (word b.node 3)) (sym (words 3 (omega arith)).0) (none (word b.node 3));
      }

  pub rear_Block :
      g'.lev x ≡ L
      → g'.top x ≡ word b.node 3
      → cells' x ≡ some (rear_half b.node)
      → Block cells' g' L G C lo (word b.node 3) x
  rear_Block lev top there =
      let words = rear_words lo hi b.node full_Slots in
      record {
        some_node = b.some_node;
        level = lev;
        end = top;
        node = rear_half b.node;
        there = there;
        count = 4;
        slots = rear_Slots lo hi b.node full_Slots;
        entries = λ j lt.
            let same : bound (rear_half b.node) (word b.node 3) j ≡ bound b.node hi (j + 4) =
              elim (Bool-cases (j == 0)) [
                | inl first ↦ let e : j ≡ 0 = ground arith in rw e refl
                | inr later ↦
                    let some : 0 < j = ground arith in
                    let no : (j + 4 == 0) ≡ false = ground arith in
                    let e : j - 1 + 4 ≡ j + 4 - 1 = omega arith in
                    rw (later, no) ((words (j - 1) (omega arith)).0 ∙ ap (word b.node) e)
              ] in
            rw ((words j lt).0, (words j lt).1, same) (full_entry (j + 4) (omega arith));
        gap = subst (G lo) (sym (words 3 (omega arith)).0) full_gap;
      }
