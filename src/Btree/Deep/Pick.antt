-- ===== src/Btree/Deep/Pick.antt =====
-- From a node to one of the level below: the slot whose range has the key.
use logfsprogs.Common.{
  ℕ, suc, ◌+◌, ◌-◌, ◌≤◌, ◌<◌, ◌≡◌, ◌≢◌, ◌⊎◌, inl, inr, refl, sym, ap, ◌∙◌, arith, false, Option,
  ◌==◌, ltb, Bool-cases,
}
use mathlib.Core.Path.{subst}
use logfsprogs.Btree.Node.{Node, Ptr}
use logfsprogs.Btree.Heap.{Heap}
use logfsprogs.Btree.Slots.{word}
use logfsprogs.Btree.Deep.{
  Tags, Block, Same, bound, map-Block, low_slot, below_bound, bound_high, slots_apart,
}
use logfsprogs.Btree.Deep.Find.{Found, Raise}

-- From the level above to level `L`, through slot `j`.
module _ (h h1 : Heap) (g : Tags) (k d L : ℕ) (G : ℕ → ℕ → Type 0) (C : ℕ → ℕ → Ptr → Type 0)
    (lo hi : ℕ) (root q1 : Ptr)
    (f : Found h h1 g k d (suc L) G (Block h.cells g L G C) lo hi root q1) (j : ℕ)
    (lt : j < f.block.count) (from : word f.block.node j ≤ k)
    (to : k < bound f.block.node f.hi' j) where
  abbrev q : Ptr
  q = word f.block.node (8 + j)

  abbrev child : Block h.cells g L G C (word f.block.node j) (bound f.block.node f.hi' j) q
  child = f.block.entries j lt

  -- A block of level `L` with another range stays.
  others :
      (cells : Ptr → Option Node) (g2 : Tags) (G2 : ℕ → ℕ → Type 0) (C2 : ℕ → ℕ → Ptr → Type 0)
      → ((x : Ptr) → L ≤ g.lev x → x ≢ q → Same h1.cells g cells g2 x)
      → ((s up : ℕ) (x : Ptr)
          → s < up
          → (up ≤ word f.block.node j) ⊎ (bound f.block.node f.hi' j ≤ s)
          → C s up x
          → C2 s up x)
      → ((a b : ℕ) → (b ≤ word f.block.node j) ⊎ (bound f.block.node f.hi' j ≤ a) → G a b → G2 a b)
      → (s up : ℕ) (x : Ptr) → s < up
      → (up ≤ word f.block.node j) ⊎ (bound f.block.node f.hi' j ≤ s)
      → Block h.cells g L G C s up x
      → Block cells g2 L G2 C2 s up x
  others cells g2 G2 C2 same entry gap s up x less apart b =
      let below = below_bound f.block.slots j lt in
      let other : x ≢ q = λ e.
        let t = sym b.end ∙ ap (λ y. g.top y) e ∙ child.end in
        elim apart [ inl le ↦ absurd (omega arith) | inr le ↦ absurd (omega arith) ] in
      let level = b.level in
      let (cell, lev, top) = same x (omega arith) other in
      let level1 = f.block.level in
      let ne : x ≢ q1 = λ e. let t = ap (λ y. g.lev y) e in absurd (omega arith) in
      map-Block h.cells cells g g2 L G G2 C C2 s up x b
        (cell ∙ f.frame x (omega arith) ne, lev, top)
        (λ s' up' x' le' lt' top'.
          entry s' up' x' lt'
            (elim apart [ inl le ↦ inl (omega arith) | inr le ↦ inr (omega arith) ]))
        (λ a' b' le' top'.
          gap a' b' (elim apart [ inl le ↦ inl (omega arith) | inr le ↦ inr (omega arith) ]))

  -- The other slots of the node above lie apart from slot `j`.
  other_slot :
      (i : ℕ)
      → i < f.block.count
      → (i == j) ≡ false
      → (bound f.block.node f.hi' i ≤ word f.block.node j)
        ⊎ (bound f.block.node f.hi' j ≤ word f.block.node i)
  other_slot i h ne = elim (Bool-cases (ltb i j)) [
    | inl below ↦ inr (slots_apart f.block.slots i j (ground arith) lt)
    | inr above ↦ inl (slots_apart f.block.slots j i (ground arith) h)
  ]

  -- The level above, with something else for its slots.
  raise : Raise h h1 g d L G C lo hi root (word f.block.node j) (bound f.block.node f.hi' j) q
  raise cells g2 G2 D2 same entry gap new =
      let s = f.block.slots in
      let in_range = bound_high s j lt in
      let above = low_slot s j lt in
      let bottom = s.low in
      let level1 = f.block.level in
      let (cell, lev, end) = same q1 (omega arith) in
      f.focus cells g2 G2 D2 (λ x le other. same x (omega arith))
        (λ s' up x less apart.
          entry s' up x less
            (elim apart [ inl le ↦ inl (omega arith) | inr le ↦ inr (omega arith) ]))
        (λ a' b' apart.
          gap a' b' (elim apart [ inl le ↦ inl (omega arith) | inr le ↦ inr (omega arith) ]))
        (record {
          some_node = f.block.some_node;
          level = lev ∙ f.block.level;
          end = end ∙ f.block.end;
          node = f.block.node;
          there = cell ∙ f.block.there;
          count = f.block.count;
          slots = s;
          entries = λ i h. elim (Bool-cases (i == j)) [
            | inl here ↦
                let e : j ≡ i = ground arith in
                subst
                  (λ y.
                    D2 (word f.block.node y) (bound f.block.node f.hi' y)
                      (word f.block.node (8 + y)))
                  e new
            | inr ne' ↦
                entry (word f.block.node i) (bound f.block.node f.hi' i) (word f.block.node (8 + i))
                  (below_bound s i h) (other_slot i h ne') (f.block.entries i h)
          ];
          gap = gap f.lo' (word f.block.node (f.block.count - 1)) (inl (omega arith)) f.block.gap;
        })

  -- The found node itself is as before.
  pub unchanged : h1.cells q ≡ h.cells q
  unchanged =
      let level = child.level in
      let level1 = f.block.level in
      f.frame q (omega arith) (λ e. let t = ap (λ y. g.lev y) e in absurd (omega arith))

  pub pick_Found : Found h h1 g k (suc d) L G C lo hi root q
  pick_Found =
      let s = f.block.slots in
      let in_range = bound_high s j lt in
      let above = low_slot s j lt in
      let bottom = s.low in
      let top = f.high in
      let base = f.low in
      record {
        lo' = word f.block.node j;
        hi' = bound f.block.node f.hi' j;
        block =
            let level = child.level in
            let level1 = f.block.level in
            let ne : q ≢ q1 = λ e. let t = ap (λ y. g.lev y) e in absurd (omega arith) in
            map-Block h.cells h1.cells g g L G G C C (word f.block.node j)
              (bound f.block.node f.hi' j) q child (f.frame q (omega arith) ne, refl, refl)
              (λ s' up x le' lt' top' c. c) (λ a b le' top' e. e);
        from = from;
        to = to;
        low = omega arith;
        high = omega arith;
        frame = λ x le other.
            let level1 = f.block.level in
            f.frame x (omega arith) (λ e. let t = ap (λ y. g.lev y) e in absurd (omega arith));
        pool = f.pool;
        focus = λ cells g2 G2 C2 same entry gap b.
            raise cells g2 G2 (Block cells g2 L G2 C2)
              (λ x le.
                let level = child.level in
                same x (omega arith) (λ e. let t = ap (λ y. g.lev y) e in absurd (omega arith)))
              (others cells g2 G2 C2 same entry gap) gap b;
      }

  pub pick-Raise : Raise h h1 g d L G C lo hi root pick_Found.lo' pick_Found.hi' q
  unfolding pick_Found
  pick-Raise = raise
