-- ===== src/Btree/Deep/Lookup.antt =====
-- Lookup in a tree of any height.
use logfsprogs.Common.{
  ℕ, zero, suc, ◌+◌, ◌-◌, ◌≤◌, ◌<◌, ◌≡◌, ◌≢◌, ◌⊎◌, inl, inr, refl, sym, ap, ◌∙◌, arith, true, false,
  Option, some, ◌==◌, ltb, Bool-cases, [], ◌∷◌,
}
use mathlib.Core.Path.{subst}
use logfsprogs.Common.Outcome.{ok}
use logfsprogs.Btree.Node.{Node, Ptr, btree_geo64, bval, getpos}
use logfsprogs.Btree.Heap.{Heap, Head}
use logfsprogs.Btree.Search.{btree_lookup, lookup_loop, leaf_lookup, or_null}
use logfsprogs.Btree.Head64.{btree_lookup64}
use logfsprogs.Btree.Slots.{word}
use logfsprogs.Btree.Position.{leaf_lookup_lem}
use logfsprogs.Btree.Others.{no_slot_lem, search_lem}
use logfsprogs.Btree.Small.{load_there}
use logfsprogs.Btree.Deep.{Tags, Block, Tree, Value, Empty, Deep, bound, getpos-Slots}

module _ (h : Heap) (k : ℕ) where
  -- In the node at `p`, the slot for `k` leads to `r`.
  abbrev pub Picks : Ptr → Ptr → Type 0
  Picks p r =
      (node : Node) × (h.cells p ≡ some node)
      × (getpos btree_geo64 node (k ∷ []) < 8)
      × (word node (8 + getpos btree_geo64 node (k ∷ [])) ≡ r)
      × (r ≢ 0)

  -- In the node at `p` there is no slot for `k`.
  abbrev pub Stops : Ptr → Type 0
  Stops p =
      (node : Node) × (h.cells p ≡ some node)
      × ((getpos btree_geo64 node (k ∷ []) ≡ 8)
          ⊎ ((getpos btree_geo64 node (k ∷ []) < 8)
              × (word node (8 + getpos btree_geo64 node (k ∷ [])) ≡ 0)))

  -- `d` steps lead from `p` to `q`.
  abbrev pub Leads : ℕ → Ptr → Ptr → Type 0
  Leads zero p q = p ≡ q
  Leads (suc d) p q = (r : Ptr) × Picks p r × Leads d r q

  -- Within `d` steps from `p` there is no slot for the key.
  abbrev pub Lost : ℕ → Ptr → Type 0
  Lost zero p = ⊥
  Lost (suc d) p = Stops p ⊎ ((r : Ptr) × Picks p r × Lost d r)

  Leads-last : (d : ℕ) (p q r : Ptr) → Leads d p q → Picks q r → Leads (suc d) p r
  Leads-last zero p q r e step = (r, subst (λ x. Picks x r) (sym e) step, refl)
  Leads-last (suc d) p q r (x, first, rest) step = (x, first, Leads-last d x q r rest step)

  Lost-last : (d : ℕ) (p q : Ptr) → Leads d p q → Stops q → Lost (suc d) p
  Lost-last zero p q e stop = inl (subst Stops (sym e) stop)
  Lost-last (suc d) p q (x, first, rest) stop = inr (x, first, Lost-last d x q rest stop)

  Lost-more : (d : ℕ) (p : Ptr) → Lost d p → Lost (suc d) p
  Lost-more zero p lost = absurd lost
  Lost-more (suc d) p (inl stop) = inl stop
  Lost-more (suc d) p (inr (x, first, rest)) = inr (x, first, Lost-more d x rest)

  lookup_loop-Leads :
      (d : ℕ) (p q : Ptr)
      → Leads d p q
      → lookup_loop btree_geo64 (k ∷ []) d p h ≡ lookup_loop btree_geo64 (k ∷ []) 0 q h
  unfolding lookup_loop bval
  lookup_loop-Leads zero p q e = ap (λ x. lookup_loop btree_geo64 (k ∷ []) 0 x h) e
  lookup_loop-Leads (suc d) p q (r, (node, there, lt, value, some_r), rest) =
      let read = load_there p h node there in
      let inside : (getpos btree_geo64 node (k ∷ []) == 8) ≡ false = ground arith in
      let full : (r == 0) ≡ false = ground arith in
      rw (read, inside, value, full) (lookup_loop-Leads d r q rest)

  lookup_loop-Lost : (d : ℕ) (p : Ptr) → Lost d p → lookup_loop btree_geo64 (k ∷ []) d p h ≡ ok 0 h
  unfolding lookup_loop bval
  lookup_loop-Lost zero p lost = absurd lost
  lookup_loop-Lost (suc d) p (inl (node, there, inl end)) =
      let read = load_there p h node there in
      let past : (getpos btree_geo64 node (k ∷ []) == 8) ≡ true = ground arith in
      rw (read, past) refl
  lookup_loop-Lost (suc d) p (inl (node, there, inr (lt, empty))) =
      let read = load_there p h node there in
      let inside : (getpos btree_geo64 node (k ∷ []) == 8) ≡ false = ground arith in
      rw (read, inside, empty) refl
  lookup_loop-Lost (suc d) p (inr (r, (node, there, lt, value, some_r), rest)) =
      let read = load_there p h node there in
      let inside : (getpos btree_geo64 node (k ∷ []) == 8) ≡ false = ground arith in
      let full : (r == 0) ≡ false = ground arith in
      rw (read, inside, value, full) (lookup_loop-Lost d r rest)

-- The node of level `L` whose range has the key, or the gap in which it lies.
pub descend :
    (h : Heap) (g : Tags) (k d L : ℕ) (G : ℕ → ℕ → Type 0) (C : ℕ → ℕ → Ptr → Type 0) (lo hi : ℕ)
    (p : Ptr)
    → Tree h.cells g d L G C lo hi p
    → lo ≤ k
    → k < hi
    → ((q : Ptr) × (lo' : ℕ) × (hi' : ℕ) × Leads h k d p q
        × Block h.cells g L G C lo' hi' q
        × (lo' ≤ k)
        × (k < hi'))
      ⊎ (Lost h k d p × (a : ℕ) × (b : ℕ) × G a b × (a ≤ k) × (k < b))
descend h g k zero L G C lo hi p t le lt = inl (p, lo, hi, refl, t, le, lt)
descend h g k (suc d) L G C lo hi p t le lt =
    elim (descend h g k d (suc L) G (Block h.cells g L G C) lo hi p t le lt) [
      | inr (lost, a, b, none_has, above, below) ↦
          inr (Lost-more h k d p lost, a, b, none_has, above, below)
      | inl (q, a, b, leads, t', above, below) ↦
          let s = t'.slots in
          let room = s.room in
          elim (getpos-Slots s k below) [
            | inl (inner, from, to) ↦
                let r = t'.entries (getpos btree_geo64 t'.node (k ∷ [])) inner in
                inl (
                  word t'.node (8 + getpos btree_geo64 t'.node (k ∷ [])),
                  word t'.node (getpos btree_geo64 t'.node (k ∷ [])),
                  bound t'.node b (getpos btree_geo64 t'.node (k ∷ [])),
                  Leads-last h k d p q _ leads (t'.node, t'.there, omega arith, refl, r.some_node),
                  r,
                  from,
                  to,
                )
            | inr (past, to) ↦ inr (
              Lost-last h k d p q leads (
                t'.node,
                t'.there,
                elim (Bool-cases (t'.count == 8)) [
                  | inl full ↦ inl (ground arith)
                  | inr part ↦
                      let lt8 : getpos btree_geo64 t'.node (k ∷ []) < 8 = ground arith in
                      inr (lt8, s.no_value _ (omega arith) lt8)
                ],
              ),
              a,
              word t'.node (t'.count - 1),
              t'.gap,
              above,
              to,
            )
          ]
    ]

module _ (m : ℕ → ℕ) (cells : Ptr → Option Node) (g : Tags) (lo hi : ℕ) (p : Ptr)
    (b : Block cells g 1 (Empty m) (Value m) lo hi p) where
  -- A key of the range that is in no slot is not in the map.
  only_slots : (k : ℕ) → lo ≤ k → k < hi → ((j : ℕ) → j < b.count → word b.node j ≢ k) → m k ≡ 0
  only_slots k le lt absent = elim (getpos-Slots b.slots k lt) [
    | inl (inner, from, to) ↦
        let pos = getpos btree_geo64 b.node (k ∷ []) in
        let ne = absent pos inner in (b.entries pos inner).2 k (ground arith) to
    | inr (past, to) ↦ b.gap k le to
  ]

  leaf_lookup-Block :
      (k : ℕ) → lo ≤ k → k < hi → or_null (leaf_lookup btree_geo64 b.node (k ∷ []) 8 0) ≡ m k
  leaf_lookup-Block k le lt =
      let s = b.slots in
      let room = s.room in
      elim (search_lem b.node k 8 (omega arith)) [
        | inr absent ↦
            ap or_null (no_slot_lem b.node k 8 0 s.width refl absent)
            ∙ sym (only_slots k le lt (λ j low. absent j (omega arith)))
        | inl (i, held) ↦
            ap or_null (
              leaf_lookup_lem b.node k i 8 0 s.width refl (omega arith) held.inside held.here
                held.before)
            ∙ elim (Bool-cases (ltb i b.count)) [
              | inl low ↦ sym (b.entries i (ground arith)).1 ∙ ap m held.here
              | inr high ↦
                  s.no_value i (ground arith) held.inside
                  ∙ sym (only_slots k le lt (λ j low. held.before j (ground arith)))
            ]
      ]

  found_lem :
      (h : Heap)
      → h.cells ≡ cells
      → (k : ℕ) → lo ≤ k
      → k < hi
      → lookup_loop btree_geo64 (k ∷ []) 0 p h ≡ ok (m k) h
  unfolding lookup_loop
  found_lem h same k le lt =
      let some_node = b.some_node in
      let full : (p == 0) ≡ false = ground arith in
      let read = load_there p h b.node (ap (λ c. c p) same ∙ b.there) in
      let found = leaf_lookup-Block k le lt in rw (full, read, found) refl

-- In a tree of any height `btree_lookup64` gives the map's value for the key, NULL where there is
-- none, and changes nothing.
pub btree_lookup64-Deep :
    (m : ℕ → ℕ) (limit : ℕ) (g : Tags) (d : ℕ) (head : Head) (h : Heap)
    → Deep m limit g d head h
    → (k : ℕ) → k < limit
    → btree_lookup64 head k h ≡ ok (m k) h
unfolding btree_lookup64 btree_lookup
btree_lookup64-Deep m limit g d head h (tall, tree, beyond) k lt =
    let low : d + 1 - 1 ≡ d = omega arith in
    let some_root : (d + 1 == 0) ≡ false = ground arith in
    rw (tall, some_root, low)
      (elim (descend h g k d 1 (Empty m) (Value m) 0 limit head.node tree (omega arith) lt) [
        | inr (lost, a, b, none_has, le, below) ↦
            lookup_loop-Lost h k d head.node lost ∙ ap (λ v. ok v h) (sym (none_has k le below))
        | inl (q, a, b, leads, t, le, below) ↦
            lookup_loop-Leads h k d head.node q leads
            ∙ found_lem m h.cells g a b q t h refl k le below
      ])
