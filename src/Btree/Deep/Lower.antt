-- ===== src/Btree/Deep/Lower.antt =====
-- From a node to one of the level below where the key is under the node's last key.
use logfsprogs.Common.{
  ℕ, suc, ◌+◌, ◌-◌, ◌≤◌, ◌<◌, ◌≡◌, ◌≢◌, inl, inr, refl, sym, ap, ◌∙◌, arith, some, ◌==◌, Bool-cases,
  if◌then◌else◌, [], ◌∷◌, length,
}
use mathlib.Core.Path.{subst}
use logfsprogs.Btree.Node.{Node, Ptr, btree_geo64, setkey}
use logfsprogs.Btree.Heap.{Heap, write}
use logfsprogs.Btree.Slots.{word, setkey-words}
use logfsprogs.Btree.Small.{write_self, write_other}
use logfsprogs.Btree.Deep.{Tags, Slots, Block, IsGap, bound, low_slot, below_bound}
use logfsprogs.Btree.Deep.Find.{Found, Raise}
use logfsprogs.Btree.Deep.Pick.{pick_Found, pick-Raise, unchanged}

-- The key is in the gap behind the last slot of the node above: its last key becomes the key.
module _ (h h1 : Heap) (g : Tags) (k d L : ℕ) (G : ℕ → ℕ → Type 0) (C : ℕ → ℕ → Ptr → Type 0)
    (lo hi : ℕ) (root q1 : Ptr)
    (f : Found h h1 g k d (suc L) G (Block h.cells g L G C) lo hi root q1) (gap : IsGap G)
    (below : k < word f.block.node (f.block.count - 1)) where
  abbrev pub last : ℕ
  last = f.block.count - 1

  abbrev pub lowered : Node
  lowered = setkey btree_geo64 f.block.node (k ∷ []) last

  abbrev pub h2 : Heap
  h2 = record h1 { cells = write h1.cells q1 (some lowered) }

  lowered_words :
      (length lowered ≡ 16)
      × ((x : ℕ) → word lowered x ≡ (if x == last then k else word f.block.node x))
  lowered_words =
      let s = f.block.slots in
      let some_pair = s.some_pair in
      let room = s.room in setkey-words f.block.node last k s.width (omega arith)

  pub kept_word : (x : ℕ) → x ≢ last → word lowered x ≡ word f.block.node x
  kept_word x ne = ground (arith, lowered_words.1 x)

  pub last_word : word lowered last ≡ k
  last_word = ground (arith, lowered_words.1 last)

  lowered-Slots : Slots f.lo' f.hi' f.block.count lowered
  lowered-Slots =
      let s = f.block.slots in
      let some_pair = s.some_pair in
      let room = s.room in
      let to = f.to in
      record {
        width = lowered_words.0;
        some_pair = s.some_pair;
        room = s.room;
        sorted = λ i j lt h. elim (Bool-cases (j == last)) [
          | inl end ↦
              let e : j ≡ last = ground arith in
              let w = low_slot s i (omega arith) in
              let a = kept_word i (λ z. absurd (omega arith)) in
              let b = ap (word lowered) e ∙ last_word in omega arith
          | inr inner ↦
              let ne : j ≢ last = ground arith in
              let a = kept_word i (λ z. absurd (omega arith)) in
              let b = kept_word j ne in let w = s.sorted i j lt h in omega arith
        ];
        filled = λ j h e. s.filled j h (sym (kept_word (8 + j) (λ z. absurd (omega arith))) ∙ e);
        no_key = λ j le h. kept_word j (λ z. absurd (omega arith)) ∙ s.no_key j le h;
        no_value = λ j le h. kept_word (8 + j) (λ z. absurd (omega arith)) ∙ s.no_value j le h;
        low = let from = f.from in let w = last_word in omega arith;
        high = elim (Bool-cases (last == 0)) [
          | inl one ↦
              let e : last ≡ 0 = ground arith in
              let w = sym (ap (word lowered) e) ∙ last_word in omega arith
          | inr more ↦
              let w = kept_word 0 (λ z. absurd (ground arith)) in let top = s.high in omega arith
        ];
      }

  pub bound-lowered :
      (i : ℕ) → i < f.block.count → bound lowered f.hi' i ≡ bound f.block.node f.hi' i
  bound-lowered i lt = elim (Bool-cases (i == 0)) [
    | inl first ↦ rw first refl
    | inr later ↦ rw later (kept_word (i - 1) (λ z. absurd (ground arith)))
  ]

  -- The range of the last child grows downwards.
  wider :
      Block h.cells g L G C
        (word f.block.node last)
        (bound f.block.node f.hi' last)
        (word f.block.node (8 + last))
      → Block h.cells g L G C k (bound f.block.node f.hi' last) (word f.block.node (8 + last))
  wider b =
      let s = b.slots in
      let low = s.low in
      record {
        some_node = b.some_node;
        level = b.level;
        end = b.end;
        node = b.node;
        there = b.there;
        count = b.count;
        slots = record {
          width = s.width;
          some_pair = s.some_pair;
          room = s.room;
          sorted = s.sorted;
          filled = s.filled;
          no_key = s.no_key;
          no_value = s.no_value;
          low = omega arith;
          high = s.high;
        };
        entries = b.entries;
        gap =
            gap.join k (word f.block.node last) (word b.node (b.count - 1))
              (gap.rear f.lo' k (word f.block.node last) f.from (omega arith) f.block.gap) b.gap;
      }

  slot_lem :
      (i : ℕ)
      → i < f.block.count
      → Block h.cells g L G C
          (word lowered i)
          (bound f.block.node f.hi' i)
          (word f.block.node (8 + i))
  slot_lem i lt = elim (Bool-cases (i == last)) [
    | inl end ↦
        let e : last ≡ i = ground arith in
        subst
          (λ y.
            Block h.cells g L G C (word lowered y) (bound f.block.node f.hi' y)
              (word f.block.node (8 + y)))
          e
          (subst
            (λ y.
              Block h.cells g L G C y (bound f.block.node f.hi' last)
                (word f.block.node (8 + last)))
            (sym last_word) (wider (f.block.entries last (omega arith))))
    | inr inner ↦
        subst
          (λ y. Block h.cells g L G C y (bound f.block.node f.hi' i) (word f.block.node (8 + i)))
          (sym (kept_word i (ground arith))) (f.block.entries i lt)
  ]

  pub lower_Found : Found h h2 g k d (suc L) G (Block h.cells g L G C) lo hi root q1
  lower_Found =
      let s = f.block.slots in
      let some_pair = s.some_pair in
      record {
        lo' = f.lo';
        hi' = f.hi';
        block = record {
          some_node = f.block.some_node;
          level = f.block.level;
          end = f.block.end;
          node = lowered;
          there = write_self h1.cells q1 (some lowered);
          count = f.block.count;
          slots = lowered-Slots;
          entries = λ i lt.
              subst (λ y. Block h.cells g L G C (word lowered i) (bound lowered f.hi' i) y)
                (sym (kept_word (8 + i) (λ z. absurd (omega arith))))
                (subst (λ y. Block h.cells g L G C (word lowered i) y (word f.block.node (8 + i)))
                  (sym (bound-lowered i lt)) (slot_lem i lt));
          gap =
              subst (G f.lo') (sym last_word)
                (gap.front f.lo' k (word f.block.node last) f.from (omega arith) f.block.gap);
        };
        from = f.from;
        to = f.to;
        low = f.low;
        high = f.high;
        frame = λ x le other. write_other h1.cells q1 x (some lowered) other ∙ f.frame x le other;
        pool = f.pool;
        focus = λ cells g2 G2 C2 same entry gap' b.
            f.focus cells g2 G2 C2
              (λ x le other.
                let (cell, lev, end) = same x le other in
                (cell ∙ write_other h1.cells q1 x (some lowered) other, lev, end))
              entry gap' b;
      }

  -- The key is now in the last slot.
  last_range : (word lowered last ≤ k) × (k < bound lowered f.hi' last)
  last_range =
      let s = f.block.slots in
      let some_pair = s.some_pair in
      let w = last_word in
      let b = bound-lowered last (omega arith) in
      let over = below_bound s last (omega arith) in (omega arith, omega arith)

  pub through_Found : Found h h2 g k (suc d) L G C lo hi root (word lowered (8 + last))
  unfolding lower_Found
  through_Found =
      let s = f.block.slots in
      let some_pair = s.some_pair in
      let (from, to) = last_range in
      pick_Found h h2 g k d L G C lo hi root q1 lower_Found last (omega arith) from to

  pub lower-Raise :
      Raise h h2 g d L G C lo hi root through_Found.lo' through_Found.hi' (word lowered (8 + last))
  unfolding through_Found lower_Found
  lower-Raise =
      let s = f.block.slots in
      let some_pair = s.some_pair in
      let (from, to) = last_range in
      pick-Raise h h2 g k d L G C lo hi root q1 lower_Found last (omega arith) from to

  pub lower_unchanged : h2.cells (word lowered (8 + last)) ≡ h.cells (word lowered (8 + last))
  unfolding lower_Found
  lower_unchanged =
      let s = f.block.slots in
      let some_pair = s.some_pair in
      let (from, to) = last_range in
      unchanged h h2 g k d L G C lo hi root q1 lower_Found last (omega arith) from to
