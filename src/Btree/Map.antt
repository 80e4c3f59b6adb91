-- ===== src/Btree/Map.antt =====
-- A tree of one leaf with 64-bit keys as a finite map: what `btree_lookup64` and `btree_insert64` do
-- to it.
use logfsprogs.Common.{
  ℕ, zero, suc, ◌+◌, ◌<◌, ◌≡◌, ◌≢◌, ◌⊎◌, inl, inr, refl, sym, ◌∙◌, arith, false, ◌==◌, ltb, ◌&&◌,
  if◌then◌else◌, List, [], ◌∷◌, some,
}
use mathlib.Core.Path.{subst}
use logfsprogs.Common.Outcome.{Cmd, pure, ok, Returns, Returns-then, Errno, enomem}
use logfsprogs.Btree.Node.{Node, Ptr, zero_node, btree_geo64, keycmp, is_eq, getpos}
use logfsprogs.Btree.Heap.{Heap, Head, write, btree_node_alloc, take_address}
use logfsprogs.Btree.Search.{btree_lookup, lookup_loop, find_level, find_loop}
use logfsprogs.Btree.Insert.{btree_insert, btree_grow, insert_level, insert_retry, insert_pair}
use logfsprogs.Btree.Head64.{btree_lookup64, btree_insert64}
use logfsprogs.Btree.Leaf.{
  Leaf, update, zero-Leaf, leaf_lookup-Leaf, getfill-Leaf, getpos-Leaf, insert_pair-Leaf,
}
use logfsprogs.Btree.Small.{Small, load_there, store_there, write_self, write_other, not_there}

pub btree_lookup64-Small :
    (m : ℕ → ℕ) (c : ℕ) (head : Head) (h : Heap)
    → Small m c head h
    → (k : ℕ) → btree_lookup64 head k h ≡ ok (m k) h
unfolding btree_lookup64 btree_lookup lookup_loop
btree_lookup64-Small m c head h (inl e) k = rw (e.low, e.no_pairs k) refl
btree_lookup64-Small m c head h (inr t) k =
    let some_root : (head.node == 0) ≡ false = ground (arith, t.root) in
    let found = leaf_lookup-Leaf m c t.leaf t.pairs k in
    rw (t.tall, some_root, load_there head.node h t.leaf t.there, found) refl

-- One round of the insertion, in a leaf that has room.
pub retry_lem :
    (m : ℕ → ℕ) (c : ℕ) (p : Ptr) (h : Heap) (node : Node) (f k v : ℕ)
    → p ≢ 0
    → h.cells p ≡ some node
    → Leaf m c node
    → c < 8
    → m k ≡ 0
    → insert_retry btree_geo64 (suc f) (record { node = p; height = 1 }) (k ∷ []) v 1 h
      ≡ ok
          (0, record { node = p; height = 1 })
          (record h {
            cells = write h.cells p (
                some
                  (insert_pair btree_geo64 (k ∷ []) v (getpos btree_geo64 node (k ∷ [])) c node));
          })
unfolding insert_retry find_level find_loop
retry_lem m c p h node f k v some_root there a room free =
    let pos = getpos btree_geo64 node (k ∷ []) in
    let le = getpos-Leaf m c node a k v room free in
    let fill = getfill-Leaf m c node a pos le in
    let ne : (p == 0) ≡ false = ground arith in
    let space : (c == 8) ≡ false = ground arith in
    let fresh : (ltb pos c && is_eq (keycmp btree_geo64 node pos (k ∷ []))) ≡ false =
      not_there m c node pos k a room free in
    let read = load_there p h node there in
    let wrote = store_there p h node (insert_pair btree_geo64 (k ∷ []) v pos c node) there in
    rw (ne, read, fill, fresh, space, wrote) refl

-- The tree `head` keeps in `h'` the cells of `h` but for its root.
abbrev pub Frame : Head → Heap → Heap → Type 0
Frame head h h' = (q : Ptr) → q ≢ head.node → h'.cells q ≡ h.cells q

-- The pair was added, or there was no memory for the first node and nothing changed.
abbrev pub Added : (ℕ → ℕ) → ℕ → Head → Heap → ℕ → ℕ → Errno × Head → Heap → Type 0
Added m c head h k v r h' =
    ((r.0 ≡ 0) × Small (update m k v) (c + 1) r.1 h' × Frame r.1 h h')
    ⊎ ((r.0 ≡ enomem) × (r.1 ≡ head) × (c ≡ 0) × (h'.cells ≡ h.cells))

written_lem :
    (m : ℕ → ℕ) (c : ℕ) (p : Ptr) (h h0 : Heap) (head : Head) (node : Node) (f k v : ℕ)
    → p ≢ 0
    → h.cells p ≡ some node
    → Leaf m c node
    → c < 8
    → m k ≡ 0
    → v ≢ 0
    → ((q : Ptr) → q ≢ p → h.cells q ≡ h0.cells q)
    → Returns
        (Added m c head h0 k v)
        (insert_retry btree_geo64 (suc f) (record { node = p; height = 1 }) (k ∷ []) v 1 h)
written_lem m c p h h0 head node f k v some_root there a room free some_value same =
    rw (retry_lem m c p h node f k v some_root there a room free) (
      inl (
        refl,
        inr (record {
          tall = refl;
          root = some_root;
          some_pair = omega arith;
          leaf = insert_pair btree_geo64 (k ∷ []) v (getpos btree_geo64 node (k ∷ [])) c node;
          there = write_self h.cells p _;
          pairs = insert_pair-Leaf m c node a k v room free some_value;
        }),
        λ q ne. write_other h.cells p q _ ne ∙ same q ne,
      ))

-- A new node is empty and stands where nothing else is changed.
abbrev Allocated : Heap → Ptr → Heap → Type 0
Allocated h p h' =
    ((p ≡ 0) × (h'.cells ≡ h.cells))
    ⊎ ((p ≢ 0) × (h'.cells p ≡ some zero_node) × ((q : Ptr) → q ≢ p → h'.cells q ≡ h.cells q))

take_address_lem : (pool : List Ptr) (h : Heap) → Returns (Allocated h) (take_address pool h)
unfolding take_address
take_address_lem [] h = inl (refl, refl)
take_address_lem (zero ∷ rest) h = inl (refl, refl)
take_address_lem (suc p ∷ rest) h =
    inr (omega arith, write_self h.cells (suc p) _, λ q ne. write_other h.cells (suc p) q _ ne)

-- The first node of a tree.
abbrev Grown : Heap → Errno × Head → Heap → Type 0
Grown h r h' =
    ((r.0 ≡ enomem) × (r.1 ≡ record { node = 0; height = 0 }) × (h'.cells ≡ h.cells))
    ⊎ ((p : Ptr) × (p ≢ 0)
        × (r ≡ (0, record { node = p; height = 1 }))
        × (h'.cells p ≡ some zero_node)
        × ((q : Ptr) → q ≢ p → h'.cells q ≡ h.cells q))

grow_lem :
    (h : Heap) → Returns (Grown h) (btree_grow btree_geo64 (record { node = 0; height = 0 }) h)
unfolding btree_grow btree_node_alloc
grow_lem h =
    Returns-then (Allocated h) (Grown h) (take_address h.pool h)
      (λ node.
        if◌then◌else◌ {A = Cmd Heap (Errno × Head)} (node == 0)
          (pure (enomem, record { node = 0; height = 0 }))
          (pure (0, record { node = node; height = 1 })))
      (take_address_lem h.pool h)
      (λ p t a. elim a [
        | inl (null, same) ↦ rw null (inl (refl, refl, same))
        | inr (there, empty, rest) ↦
            let no : (p == 0) ≡ false = ground arith in rw no (inr (p, there, refl, empty, rest))
      ])

-- `btree_insert64` into a tree of one leaf with room.
single_lem :
    (m : ℕ → ℕ) (c : ℕ) (p : Ptr) (h : Heap) (node : Node) (k v : ℕ)
    → p ≢ 0
    → h.cells p ≡ some node
    → Leaf m c node
    → c < 8
    → m k ≡ 0
    → v ≢ 0
    → Returns
        (Added m c (record { node = p; height = 1 }) h k v)
        (btree_insert64 (record { node = p; height = 1 }) k v h)
unfolding btree_insert64 btree_insert insert_level
single_lem m c p h node k v some_root there a room free some_value =
    let value : (v == 0) ≡ false = ground arith in
    rw value (
      written_lem m c p h h (record { node = p; height = 1 }) node 5 k v some_root there a room free
        some_value (λ q ne. refl))

-- What follows the growth.
grown_lem :
    (m : ℕ → ℕ) (h : Heap) (f k v : ℕ)
    → ((q : ℕ) → m q ≡ 0)
    → v ≢ 0
    → (r : Errno × Head) (t : Heap) → Grown h r t
    → Returns (Added m 0 (record { node = 0; height = 0 }) h k v) (
        if◌then◌else◌ {A = Cmd Heap (Errno × Head)}
          (r.0 == 0)
          (insert_retry btree_geo64 (suc f) r.1 (k ∷ []) v 1)
          (pure (r.0, r.1))
          t)
grown_lem m h f k v free some_value (err, head) t (inl (full, same, cells)) =
    let no : (err == 0) ≡ false = ground arith in rw no (inr (full, same, refl, cells))
grown_lem m h f k v free some_value r t (inr (p, there, new, empty, rest)) =
    let after =
      written_lem m 0 p t h (record { node = 0; height = 0 }) zero_node f k v there empty
        (zero-Leaf m free) (omega arith) (free k) some_value rest in
    subst
      (λ r'. Returns (Added m 0 (record { node = 0; height = 0 }) h k v) (
        if◌then◌else◌ {A = Cmd Heap (Errno × Head)} (r'.0 == 0)
          (insert_retry btree_geo64 (suc f) r'.1 (k ∷ []) v 1) (pure (r'.0, r'.1)) t))
      (sym new) after

-- `btree_insert64` into a tree without a node.
nothing_lem :
    (m : ℕ → ℕ) (h : Heap) (k v : ℕ)
    → ((q : ℕ) → m q ≡ 0)
    → v ≢ 0
    → Returns
        (Added m 0 (record { node = 0; height = 0 }) h k v)
        (btree_insert64 (record { node = 0; height = 0 }) k v h)
unfolding btree_insert64 btree_insert insert_level
nothing_lem m h k v free some_value =
    let value : (v == 0) ≡ false = ground arith in
    rw value (
      Returns-then (Grown h) (Added m 0 (record { node = 0; height = 0 }) h k v)
        (btree_grow btree_geo64 (record { node = 0; height = 0 }) h) _ (grow_lem h)
        (grown_lem m h 3 k v free some_value))

-- In a tree of at most one node with less than 8 pairs, `btree_insert64` of a pair with a new key and
-- a value that is not NULL returns, and no run stops: afterwards the tree is the map with the pair
-- added, and only its root was changed; or the tree was empty, there was no memory for a node, and
-- the error says so and nothing changed.
pub btree_insert64-Small :
    (m : ℕ → ℕ) (c : ℕ) (head : Head) (h : Heap) (k v : ℕ)
    → Small m c head h
    → c < 8
    → m k ≡ 0
    → v ≢ 0
    → Returns (Added m c head h k v) (btree_insert64 head k v h)
btree_insert64-Small m c head h k v (inl e) room free some_value =
    let same : record { node = 0; height = 0 } ≡ head =
      λ i. record { node = sym e.rootless i; height = sym e.low i } in
    let no = nothing_lem m h k v e.no_pairs some_value in
    subst (λ b. Returns (Added m b head h k v) (btree_insert64 head k v h)) (sym e.count)
      (subst (λ d. Returns (Added m 0 d h k v) (btree_insert64 d k v h)) same no)
btree_insert64-Small m c head h k v (inr t) room free some_value =
    let same : record { node = head.node; height = 1 } ≡ head =
      λ i. record { node = head.node; height = sym t.tall i } in
    subst (λ d. Returns (Added m c d h k v) (btree_insert64 d k v h)) same
      (single_lem m c head.node h t.leaf k v t.root t.there t.pairs room free some_value)
