-- ===== src/Btree/Deep/Whole.antt =====
-- Trees of any size as finite maps, from the empty tree on.
use logfsprogs.Common.{
  ℕ, ◌+◌, ◌-◌, ◌*◌, ◌≤◌, ◌<◌, ◌≡◌, ◌≢◌, ◌⊎◌, inl, inr, refl, sym, ap, ◌∙◌, arith, false, some, ◌==◌,
  ==_refl, ltb, Bool-cases, [], ◌∷◌,
}
use logfsprogs.Common.Outcome.{ok, Errno, enomem, Returns, Returns-mono}
use logfsprogs.Btree.Node.{Node, Ptr, zero_node, btree_geo64, getpos}
use logfsprogs.Btree.Heap.{Heap, Head, write, btree_node_alloc}
use logfsprogs.Btree.Search.{btree_lookup}
use logfsprogs.Btree.Insert.{btree_insert, btree_grow, insert_level, insert_retry, insert_pair}
use logfsprogs.Btree.Head64.{btree_lookup64, btree_insert64}
use logfsprogs.Btree.Slots.{word}
use logfsprogs.Btree.Leaf.{Leaf, update, zero-Leaf, insert_pair-Leaf}
use logfsprogs.Btree.Map.{retry_lem}
use logfsprogs.Btree.Small.{write_self}
use logfsprogs.Btree.Deep.{Tags, Slots, Value, Empty, Deep, bound}
use logfsprogs.Btree.Deep.Spare.{Spare, with_level, btree_node_alloc_cases}
use logfsprogs.Btree.Deep.Root.{insert_level_failed}
use logfsprogs.Btree.Deep.Lookup.{btree_lookup64-Deep}
use logfsprogs.Btree.Deep.Grow.{Extended, btree_insert64-Extended}

module _ (m : ℕ → ℕ) (limit c : ℕ) (node : Node) (a : Leaf m c node) (some_pair : 0 < c)
    (beyond : (k : ℕ) → limit ≤ k → m k ≡ 0) where
  leaf-Slots : Slots 0 limit c node
  leaf-Slots = record {
    width = a.width;
    some_pair = some_pair;
    room = a.room;
    sorted = a.sorted;
    filled = a.filled;
    no_key = a.no_key;
    no_value = a.no_value;
    low = omega arith;
    high = elim (Bool-cases (ltb (word node 0) limit)) [
      | inl below ↦ ground arith
      | inr above ↦
          absurd
            (a.filled 0 some_pair (sym (a.maps 0 some_pair) ∙ beyond (word node 0) (ground arith)))
    ];
  }

  above_slot : (i j k : ℕ) → i < c → j < c → i < j → k < bound node limit j → word node i ≢ k
  above_slot i j k hi hj lt below e =
      let no : (j == 0) ≡ false = ground arith in
      let w : bound node limit j ≡ word node (j - 1) = rw no refl in
      elim (Bool-cases (i == j - 1)) [
        | inl next ↦ let s : i ≡ j - 1 = ground arith in let w' = ap (word node) s in omega arith
        | inr far ↦ let s = a.sorted i (j - 1) (ground arith) (omega arith) in omega arith
      ]

  leaf_Value : (j : ℕ) → j < c → Value m (word node j) (bound node limit j) (word node (8 + j))
  leaf_Value j lt = (
    a.filled j lt,
    a.maps j lt,
    λ k above below. a.only k (λ i hi e. elim (Bool-cases (ltb i j)) [
      | inl front ↦ above_slot i j k hi lt (ground arith) below e
      | inr behind ↦ elim (Bool-cases (i == j)) [
        | inl here ↦ let s : i ≡ j = ground arith in let w = ap (word node) s in omega arith
        | inr past ↦ let s = a.sorted j i (ground arith) hi in omega arith
      ]
    ]),
  )

  leaf_Empty : Empty m 0 (word node (c - 1))
  leaf_Empty k le below = a.only k (λ i hi e. elim (Bool-cases (i == c - 1)) [
    | inl last ↦ let s : i ≡ c - 1 = ground arith in let w = ap (word node) s in omega arith
    | inr inner ↦ let s = a.sorted i (c - 1) (ground arith) (omega arith) in omega arith
  ])

  -- A leaf alone is a tree.
  pub leaf-Deep :
      (g : Tags) (head : Head) (h : Heap)
      → head.height ≡ 1
      → head.node ≢ 0
      → g.lev head.node ≡ 1
      → g.top head.node ≡ limit
      → h.cells head.node ≡ some node
      → Deep m limit g 0 head h
  leaf-Deep g head h tall some_root level end there = (
    tall,
    record {
      some_node = some_root;
      level = level;
      end = end;
      node = node;
      there = there;
      count = c;
      slots = leaf-Slots;
      entries = leaf_Value;
      gap = leaf_Empty;
    },
    beyond,
  )

-- The pairs of the tree are those of the map, all keys are below the limit, and the memory to come is
-- apart from the tree.
abbrev pub Holds : (ℕ → ℕ) → ℕ → Head → Heap → Type 0
Holds m limit head h =
    ((head.height ≡ 0) × (head.node ≡ 0) × ((k : ℕ) → m k ≡ 0) × Spare (λ _. 0) h.pool)
    ⊎ ((g : Tags) × (d : ℕ) × Deep m limit g d head h × Spare g.lev h.pool)

-- The pair was added, or there was no memory.
abbrev pub Inserted64 : (ℕ → ℕ) → ℕ → Head → ℕ → ℕ → Errno × Head → Heap → Type 0
Inserted64 m limit head k v r h' =
    ((r.0 ≡ 0) × Holds (update m k v) limit r.1 h')
    ⊎ ((r.0 ≡ enomem) × (r.1 ≡ head) × Holds m limit head h')

-- A tree of any size, the empty one included, whose pairs are those of a map with all keys below a
-- limit: `btree_lookup64` gives the map's value for a key below the limit, NULL where there is none,
-- and changes nothing.
pub btree_lookup64-Holds :
    (m : ℕ → ℕ) (limit : ℕ) (head : Head) (h : Heap)
    → Holds m limit head h
    → (k : ℕ) → k < limit
    → btree_lookup64 head k h ≡ ok (m k) h
unfolding btree_lookup64 btree_lookup
btree_lookup64-Holds m limit head h (inl (low, rootless, empty, spare)) k lt =
    rw (low, empty k) refl
btree_lookup64-Holds m limit head h (inr (g, d, deep, spare)) k lt =
    btree_lookup64-Deep m limit g d head h deep k lt

update_beyond : (m : ℕ → ℕ) (k v x limit : ℕ) → limit ≤ x → k < limit → m x ≡ 0 → update m k v x ≡ 0
update_beyond m k v x limit le lt free = let no : (x == k) ≡ false = ground arith in rw no free

-- The first insertion makes a leaf.
module _ (m : ℕ → ℕ) (limit : ℕ) (head : Head) (h : Heap) (low : head.height ≡ 0)
    (rootless : head.node ≡ 0) (empty : (k : ℕ) → m k ≡ 0) (spare : Spare (λ _. 0) h.pool) (k v : ℕ)
    (lt : k < limit) (some_v : v ≢ 0) where
  abbrev first_leaf : Node
  first_leaf =
      insert_pair btree_geo64 (k ∷ []) v (getpos btree_geo64 zero_node (k ∷ [])) 0 zero_node

  first_insert :
      (new : Ptr) (h2 : Heap)
      → btree_node_alloc h ≡ ok new h2
      → new ≢ 0
      → h2.cells ≡ write h.cells new (some zero_node)
      → ((l : ℕ) → Spare (with_level (λ _. 0) new l) h2.pool)
      → Returns (Inserted64 m limit head k v) (btree_insert64 head k v h)
  unfolding btree_insert64 btree_insert insert_level btree_grow
  first_insert new h2 alloc some_new cells spare2 =
      let full : (v == 0) ≡ false = ground arith in
      let full_new : (new == 0) ≡ false = ground arith in
      let there = ap (λ c. c new) cells ∙ write_self h.cells new (some zero_node) in
      let a = zero-Leaf m empty in
      let run = retry_lem m 0 new h2 zero_node 3 k v some_new there a (omega arith) (empty k) in
      let pairs = insert_pair-Leaf m 0 zero_node a k v (omega arith) (empty k) some_v in
      rw (full, low, rootless, alloc, full_new, run)
        (inl (
          refl,
          inr (
            record { lev = with_level (λ _. 0) new 1; top = λ _. limit },
            0,
            leaf-Deep (update m k v) limit 1 first_leaf pairs (omega arith)
                (λ x le. update_beyond m k v x limit le lt (empty x))
                (record { lev = with_level (λ _. 0) new 1; top = λ _. limit })
                (record { node = new; height = 1 })
                (record h2 { cells = write h2.cells new (some first_leaf) }) refl some_new
                (rw (==_refl new) refl) refl (write_self h2.cells new (some first_leaf)),
            spare2 1,
          ),
        ))

  pub first_Inserted : Returns (Inserted64 m limit head k v) (btree_insert64 head k v h)
  unfolding btree_insert64 btree_insert
  first_Inserted = elim (btree_node_alloc_cases (λ _. 0) h spare) [
    | inr (new, h2, alloc, some_new, zero_level, cells, spare2) ↦
        first_insert new h2 alloc some_new cells spare2
    | inl (h2, alloc, same, spare2) ↦
        rw
          (insert_level_failed (insert_retry btree_geo64 (2 * head.height + 4)) head (k ∷ []) v 1 h
            some_v (omega arith) h2 alloc)
          (inr (refl, refl, inl (low, rootless, empty, spare2)))
  ]

-- A tree of any size, the empty one included, whose pairs are those of a map with all keys below a
-- limit, and memory to come that is apart from it: for a key below the limit that is not in the map
-- and a value other than NULL, `btree_insert64` returns. Either it returns 0 and a tree whose pairs
-- are those of the map with the new one, or ENOMEM and the old head, whose tree has the old pairs. The
-- memory still to come is apart from the tree.
pub btree_insert64-Holds :
    (m : ℕ → ℕ) (limit : ℕ) (head : Head) (h : Heap)
    → Holds m limit head h
    → (k v : ℕ) → k < limit
    → m k ≡ 0
    → v ≢ 0
    → Returns (Inserted64 m limit head k v) (btree_insert64 head k v h)
btree_insert64-Holds m limit head h (inl (low, rootless, empty, spare)) k v lt free some_v =
    first_Inserted m limit head h low rootless empty spare k v lt some_v
btree_insert64-Holds m limit head h (inr (g, d, deep, spare)) k v lt free some_v =
    Returns-mono (Extended m limit g d head k v) (Inserted64 m limit head k v)
      (btree_insert64 head k v h)
      (btree_insert64-Extended m limit g d head h deep spare k v lt free some_v)
      (λ r h' e. elim e [
        | inl (done, (g', d', deep', spare')) ↦ inl (done, inr (g', d', deep', spare'))
        | inr (failed, same, deep', spare') ↦ inr (failed, same, inr (g, d, deep', spare'))
      ])
