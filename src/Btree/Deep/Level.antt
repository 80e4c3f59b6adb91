-- ===== src/Btree/Deep/Level.antt =====
-- `find_level` runs from the root to the node of a level.
use logfsprogs.Common.{
  ℕ, zero, suc, ◌+◌, ◌-◌, ◌≤◌, ◌<◌, ◌≡◌, ◌≢◌, inl, inr, refl, sym, ◌∙◌, arith, true, false, some,
  ◌==◌, ◌||◌, Bool-cases, [], ◌∷◌,
}
use mathlib.Core.Path.{subst}
use logfsprogs.Common.Outcome.{ok}
use logfsprogs.Btree.Node.{Node, Ptr, btree_geo64, bval, setkey, getpos}
use logfsprogs.Btree.Heap.{Heap, write}
use logfsprogs.Btree.Search.{find_loop, update_last}
use logfsprogs.Btree.Slots.{word}
use logfsprogs.Btree.Small.{load_there, store_there}
use logfsprogs.Btree.Deep.{Tags, Slots, Block, Tree, IsGap, bound, getpos-Slots}
use logfsprogs.Btree.Deep.Find.{Found, Raise}
use logfsprogs.Btree.Deep.Pick.{pick_Found, pick-Raise, unchanged}
use logfsprogs.Btree.Deep.Lower.{
  lowered, h2, kept_word, through_Found, lower-Raise, lower_unchanged,
}

module _ (k : ℕ) where
  -- One round of the loop, for any number of rounds to come.
  abbrev pub Step : Ptr → Heap → Ptr → Heap → Type 0
  Step p h r h' =
      (d : ℕ) → find_loop btree_geo64 (k ∷ []) (suc d) p h ≡ find_loop btree_geo64 (k ∷ []) d r h'

  abbrev pub Goes : ℕ → Ptr → Heap → Ptr → Heap → Type 0
  Goes zero p h q h1 = (p ≡ q) × (h ≡ h1)
  Goes (suc d) p h q h1 = (r : Ptr) × (h' : Heap) × Step p h r h' × Goes d r h' q h1

  pub Goes-last :
      (d : ℕ) (p q r : Ptr) (h h1 u : Heap) → Goes d p h q h1 → Step q h1 r u → Goes (suc d) p h r u
  Goes-last zero p q r h h1 u (e, e') step = (
    r,
    u,
    subst (λ x. Step x h r u) (sym e) (subst (λ y. Step q y r u) (sym e') step),
    (refl, refl),
  )
  Goes-last (suc d) p q r h h1 u (x, h', first, rest) step =
      (x, h', first, Goes-last d x q r h' h1 u rest step)

  pub find_loop-Goes :
      (d : ℕ) (p q : Ptr) (h h1 : Heap)
      → Goes d p h q h1
      → q ≢ 0
      → find_loop btree_geo64 (k ∷ []) d p h ≡ ok q h1
  unfolding find_loop
  find_loop-Goes zero p q h h1 (e, e') some_q =
      let full : (p == 0) ≡ false = ground arith in rw (full, e, e') refl
  find_loop-Goes (suc d) p q h h1 (r, h', first, rest) some_q =
      first d ∙ find_loop-Goes d r q h' h1 rest some_q

  pub pick_Step :
      (p : Ptr) (h : Heap) (node : Node)
      → h.cells p ≡ some node
      → getpos btree_geo64 node (k ∷ []) < 8
      → word node (8 + getpos btree_geo64 node (k ∷ [])) ≢ 0
      → Step p h (word node (8 + getpos btree_geo64 node (k ∷ []))) h
  unfolding find_loop bval
  pick_Step p h node there lt some_r d =
      let read = load_there p h node there in
      let inside : (getpos btree_geo64 node (k ∷ []) == 8) ≡ false = ground arith in
      let full : (word node (8 + getpos btree_geo64 node (k ∷ [])) == 0) ≡ false = ground arith in
      rw (read, inside, full) refl

  past_end :
      (lo hi c : ℕ) (node : Node)
      → Slots lo hi c node
      → (x : ℕ) → x ≡ c
      → ((x == 8) || (word node (8 + x) == 0)) ≡ true
  past_end lo hi c node s x e = elim (Bool-cases (x == 8)) [
    | inl full ↦ rw full refl
    | inr part ↦
        let room = s.room in
        let lt : x < 8 = ground arith in let z = s.no_value x (omega arith) lt in rw (part, z) refl
  ]

  pub lower_Step :
      (p : Ptr) (h : Heap) (node : Node) (lo hi c : ℕ)
      → h.cells p ≡ some node
      → Slots lo hi c node
      → getpos btree_geo64 node (k ∷ []) ≡ c
      → Step p h
          (word node (8 + (c - 1)))
          (record h { cells = write h.cells p (some (setkey btree_geo64 node (k ∷ []) (c - 1))) })
  unfolding find_loop bval update_last
  lower_Step p h node lo hi c there s pos d =
      let read = load_there p h node there in
      let some_pair = s.some_pair in
      let room = s.room in
      let e : c ≡ suc (c - 1) = omega arith in
      let stored = store_there p h node (setkey btree_geo64 node (k ∷ []) (c - 1)) there in
      let at = pos ∙ e in
      let end : ((suc (c - 1) == 8) || (word node (8 + suc (c - 1)) == 0)) ≡ true =
        past_end lo hi c node s (suc (c - 1)) (sym e) in
      rw (read, at, end, stored) refl

  -- The way to the node, and what it is.
  pub record Finding (h : Heap) (g : Tags) (d L : ℕ) (G : ℕ → ℕ → Type 0) (C : ℕ → ℕ → Ptr → Type 0)
      (lo hi : ℕ) (p : Ptr) : Type 1 where
    pub q : Ptr
    pub h1 : Heap
    pub goes : Goes d p h q h1
    pub found : Found h h1 g k d L G C lo hi p q

  -- The same with the level above.
  pub record Below (h : Heap) (g : Tags) (d L : ℕ) (G : ℕ → ℕ → Type 0) (C : ℕ → ℕ → Ptr → Type 0)
      (lo hi : ℕ) (p : Ptr) : Type 1 where
    pub fd : Finding h g (suc d) L G C lo hi p
    pub above : Raise h fd.h1 g d L G C lo hi p fd.found.lo' fd.found.hi' fd.q
    pub same : fd.h1.cells fd.q ≡ h.cells fd.q

  unfoldable pub pick_Below :
      (h : Heap) (g : Tags) (d L : ℕ) (G : ℕ → ℕ → Type 0) (C : ℕ → ℕ → Ptr → Type 0) (lo hi : ℕ)
      (p : Ptr) (up : Finding h g d (suc L) G (Block h.cells g L G C) lo hi p)
      → getpos btree_geo64 up.found.block.node (k ∷ []) < up.found.block.count
      → word up.found.block.node (getpos btree_geo64 up.found.block.node (k ∷ [])) ≤ k
      → k < bound up.found.block.node up.found.hi' (getpos btree_geo64 up.found.block.node (k ∷ []))
      → Below h g d L G C lo hi p
  pick_Below h g d L G C lo hi p up inner from to =
      let f = up.found in
      let s = f.block.slots in
      let room = s.room in
      let pos = getpos btree_geo64 f.block.node (k ∷ []) in
      record {
        fd = record {
          q = word f.block.node (8 + pos);
          h1 = up.h1;
          goes =
              Goes-last d p up.q (word f.block.node (8 + pos)) h up.h1 up.h1 up.goes (
                pick_Step up.q up.h1 f.block.node f.block.there (omega arith) (s.filled pos inner));
          found = pick_Found h up.h1 g k d L G C lo hi p up.q f pos inner from to;
        };
        above = pick-Raise h up.h1 g k d L G C lo hi p up.q f pos inner from to;
        same = unchanged h up.h1 g k d L G C lo hi p up.q f pos inner from to;
      }

  unfoldable pub lower_Below :
      (h : Heap) (g : Tags) (d L : ℕ) (G : ℕ → ℕ → Type 0) (C : ℕ → ℕ → Ptr → Type 0) (lo hi : ℕ)
      (p : Ptr) (up : Finding h g d (suc L) G (Block h.cells g L G C) lo hi p)
      → IsGap G
      → getpos btree_geo64 up.found.block.node (k ∷ []) ≡ up.found.block.count
      → k < word up.found.block.node (up.found.block.count - 1)
      → Below h g d L G C lo hi p
  lower_Below h g d L G C lo hi p up gap past below =
      let f = up.found in
      let s = f.block.slots in
      let some_pair = s.some_pair in
      let room = s.room in
      let last = f.block.count - 1 in
      let value =
        kept_word h up.h1 g k d L G C lo hi p up.q f gap below (8 + last)
          (λ z. absurd (omega arith)) in
      record {
        fd = record {
          q = word (lowered h up.h1 g k d L G C lo hi p up.q f gap below) (8 + last);
          h1 = h2 h up.h1 g k d L G C lo hi p up.q f gap below;
          goes = Goes-last d p up.q _ h up.h1 _ up.goes (
              subst (λ r. Step up.q up.h1 r (h2 h up.h1 g k d L G C lo hi p up.q f gap below))
                (sym value)
                (lower_Step up.q up.h1 f.block.node f.lo' f.hi' f.block.count f.block.there s
                  past));
          found = through_Found h up.h1 g k d L G C lo hi p up.q f gap below;
        };
        above = lower-Raise h up.h1 g k d L G C lo hi p up.q f gap below;
        same = lower_unchanged h up.h1 g k d L G C lo hi p up.q f gap below;
      }

  unfoldable pub find_here :
      (h : Heap) (g : Tags) (L : ℕ) (G : ℕ → ℕ → Type 0) (C : ℕ → ℕ → Ptr → Type 0) (lo hi : ℕ)
      (p : Ptr)
      → Block h.cells g L G C lo hi p
      → lo ≤ k
      → k < hi
      → Finding h g zero L G C lo hi p
  find_here h g L G C lo hi p t le lt = record {
    q = p;
    h1 = h;
    goes = (refl, refl);
    found = record {
      lo' = lo;
      hi' = hi;
      block = t;
      from = le;
      to = lt;
      low = omega arith;
      high = omega arith;
      frame = λ x le ne. refl;
      pool = refl;
      focus = λ cells g2 G2 C2 same entry gap' b. b;
    };
  }

  pub find_below :
      (h : Heap) (g : Tags) (d L : ℕ) (G : ℕ → ℕ → Type 0) (C : ℕ → ℕ → Ptr → Type 0) (lo hi : ℕ)
      (p : Ptr) (up : Finding h g d (suc L) G (Block h.cells g L G C) lo hi p)
      → IsGap G
      → Below h g d L G C lo hi p
  find_below h g d L G C lo hi p up gap = elim (getpos-Slots up.found.block.slots k up.found.to) [
    | inl (inner, from, to) ↦ pick_Below h g d L G C lo hi p up inner from to
    | inr (past, below) ↦ lower_Below h g d L G C lo hi p up gap past below
  ]

  pub find_lem :
      (h : Heap) (g : Tags) (d L : ℕ) (G : ℕ → ℕ → Type 0) (C : ℕ → ℕ → Ptr → Type 0) (lo hi : ℕ)
      (p : Ptr)
      → Tree h.cells g d L G C lo hi p
      → IsGap G
      → lo ≤ k
      → k < hi
      → Finding h g d L G C lo hi p
  find_lem h g zero L G C lo hi p t gap le lt = find_here h g L G C lo hi p t le lt
  find_lem h g (suc d) L G C lo hi p t gap le lt =
      (find_below h g d L G C lo hi p
        (find_lem h g d (suc L) G (Block h.cells g L G C) lo hi p t gap le lt) gap).fd
