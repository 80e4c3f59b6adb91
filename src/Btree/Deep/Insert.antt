-- ===== src/Btree/Deep/Insert.antt =====
-- `btree_insert64` in a tree of any height, where the leaf for the key has room.
use logfsprogs.Common.{
  ℕ, suc, ◌+◌, ◌-◌, ◌*◌, ◌<◌, ◌≡◌, ◌≢◌, inl, inr, refl, sym, ◌∙◌, arith, false, some, ◌==◌, ==_refl,
  ltb, Bool-cases, [], ◌∷◌,
}
use mathlib.Core.Path.{subst}
use logfsprogs.Common.Outcome.{Cmd, ok, Returns, Errno, ◌>>=◌}
use logfsprogs.Btree.Node.{Node, Ptr, btree_geo64, getpos, getfill}
use logfsprogs.Btree.Heap.{Heap, Head, write, load}
use logfsprogs.Btree.Search.{find_level}
use logfsprogs.Btree.Insert.{btree_insert, insert_level, insert_retry, insert_pair}
use logfsprogs.Btree.Head64.{btree_insert64}
use logfsprogs.Btree.Small.{load_there, store_there, write_self, write_other}
use logfsprogs.Btree.Leaf.{update}
use logfsprogs.Btree.Deep.{Tags, Block, Tree, IsGap, Value, Empty, Deep}
use logfsprogs.Btree.Deep.Level.{Finding, find_lem, find_loop-Goes}
use logfsprogs.Btree.Deep.Place.{getfill-Slots, pos_below, not_taken}
use logfsprogs.Btree.Deep.Room.{Edit, insert_pair-Block}

module _ (h : Heap) (g : Tags) (d L : ℕ) (G : ℕ → ℕ → Type 0) (C : ℕ → ℕ → Ptr → Type 0) (lo hi : ℕ)
    (head : Head) (k : ℕ) (fd : Finding k h g d L G C lo hi head.node)
    (tall : head.height - L ≡ d) where
  pub find_level-Finding : find_level btree_geo64 head (k ∷ []) L h ≡ ok fd.q fd.h1
  unfolding find_level
  find_level-Finding =
      rw tall (find_loop-Goes k d head.node fd.q h fd.h1 fd.goes fd.found.block.some_node)

-- The level has the pair, on the node that was found.
module _ (h : Heap) (g : Tags) (d L : ℕ) (G G2 : ℕ → ℕ → Type 0) (C C2 : ℕ → ℕ → Ptr → Type 0)
    (lo hi : ℕ) (head : Head) (k : ℕ) (v : Ptr) (fd : Finding k h g d L G C lo hi head.node)
    (tall : head.height - L ≡ d) (edit : Edit G C G2 C2 k v) (room : fd.found.block.count < 8)
    (some_v : v ≢ 0) where
  abbrev b : Block fd.h1.cells g L G C fd.found.lo' fd.found.hi' fd.q
  b = fd.found.block

  abbrev pub new_node : Node
  new_node = insert_pair btree_geo64 (k ∷ []) v (getpos btree_geo64 b.node (k ∷ [])) b.count b.node

  abbrev pub with_pair : Heap
  with_pair = record fd.h1 { cells = write fd.h1.cells fd.q (some new_node) }

  new_Block : Block with_pair.cells g L G2 C2 fd.found.lo' fd.found.hi' fd.q
  new_Block =
      insert_pair-Block fd.h1.cells with_pair.cells g g L G G2 C C2 fd.found.lo' fd.found.hi' fd.q b
        k v edit fd.found.from fd.found.to room some_v (write_self fd.h1.cells fd.q (some new_node))
        refl refl

  pub with_pair-Tree : Tree with_pair.cells g d L G2 C2 lo hi head.node
  with_pair-Tree =
      let f = fd.found in
      let from = f.from in
      let to = f.to in
      f.focus with_pair.cells g G2 C2
        (λ x le ne. (write_other fd.h1.cells fd.q x (some new_node) ne, refl, refl))
        (λ s up x lt apart.
          edit.other s up x lt
            (elim apart [ inl below ↦ inl (omega arith) | inr above ↦ inr (omega arith) ]))
        (λ a c apart.
          edit.other_gap a c
            (elim apart [ inl below ↦ inl (omega arith) | inr above ↦ inr (omega arith) ]))
        new_Block

  pub insert_retry_lem :
      (f : ℕ) → insert_retry btree_geo64 (suc f) head (k ∷ []) v L h ≡ ok (0, head) with_pair
  unfolding insert_retry
  insert_retry_lem f =
      let pos = getpos btree_geo64 b.node (k ∷ []) in
      let new = edit.new in
      let le = pos_below fd.h1.cells g L G C fd.found.lo' fd.found.hi' fd.q b k fd.found.to new in
      let fresh =
        not_taken fd.h1.cells g L G C fd.found.lo' fd.found.hi' fd.q b k fd.found.to new in
      let fill = getfill-Slots fd.found.lo' fd.found.hi' b.count b.node b.slots pos le in
      let space : (b.count == 8) ≡ false = ground arith in
      let found = find_level-Finding h g d L G C lo hi head k fd tall in
      let read = load_there fd.q fd.h1 b.node b.there in
      let wrote = store_there fd.q fd.h1 b.node new_node b.there in
      rw (found, read, fill, fresh, space, wrote) refl

-- A pair comes to a map that has not its key.
module _ (m : ℕ → ℕ) (k : ℕ) (v : Ptr) (free : m k ≡ 0) (some_v : v ≢ 0) where
  update_here : update m k v k ≡ v
  update_here = rw (==_refl k) refl

  update_there : (x : ℕ) → x ≢ k → update m k v x ≡ m x
  update_there x ne = let no : (x == k) ≡ false = ground arith in rw no refl

  pub update-Edit : Edit (Empty m) (Value m) (Empty (update m k v)) (Value (update m k v)) k v
  update-Edit = record {
    other = λ s up x lt apart (full, here, none). (
      full,
      update_there s (elim apart [ inl le ↦ (ground arith) | inr le ↦ (ground arith) ]) ∙ here,
      λ y above below.
          update_there y (elim apart [ inl le ↦ (ground arith) | inr le ↦ (ground arith) ])
          ∙ none y above below,
    );
    cut = λ s up x lt lt' (full, here, none). (
      (
        full,
        update_there s (ground arith) ∙ here,
        λ y above below. update_there y (ground arith) ∙ none y above (omega arith),
      ),
      (
        some_v,
        update_here,
        λ y above below. update_there y (ground arith) ∙ none y (omega arith) below,
      ),
    );
    other_gap = λ a c apart none y above below.
        update_there y (elim apart [ inl le ↦ (ground arith) | inr le ↦ (ground arith) ])
        ∙ none y above below;
    cut_gap = λ a c le lt none. (
      (λ y above below. update_there y (ground arith) ∙ none y above (omega arith)),
      (
        some_v,
        update_here,
        λ y above below. update_there y (ground arith) ∙ none y (omega arith) below,
      ),
    );
    new = λ up x lt (full, here, none). full (sym here ∙ free);
  }

pub Empty-IsGap : (m : ℕ → ℕ) → IsGap (Empty m)
Empty-IsGap m = record {
  join = λ a b c f f' y le below. elim (Bool-cases (ltb y b)) [
    | inl low ↦ f y le (ground arith)
    | inr high ↦ f' y (ground arith) below
  ];
  front = λ a b c le le' f y above below. f y above (omega arith);
  rear = λ a b c le le' f y above below. f y (omega arith) below;
}

-- The leaf to which a key belongs.
abbrev pub find_leaf : Head → ℕ → Cmd Heap Node
find_leaf head k = do q ← find_level btree_geo64 head (k ∷ []) 1; load q

-- The tree is the same node at the same height, and has the pair.
abbrev pub Kept : (ℕ → ℕ) → ℕ → Tags → ℕ → Head → Heap → Errno × Head → Heap → Type 0
Kept m limit g d head h r h' =
    (r.0 ≡ 0) × (r.1 ≡ head) × Deep m limit g d r.1 h' × (h'.pool ≡ h.pool)

leaf_room :
    (h : Heap) (g : Tags) (d : ℕ) (G : ℕ → ℕ → Type 0) (C : ℕ → ℕ → Ptr → Type 0) (lo hi : ℕ)
    (head : Head) (k : ℕ) (fd : Finding k h g d 1 G C lo hi head.node)
    → head.height - 1 ≡ d
    → Returns (λ leaf _. getfill btree_geo64 leaf 0 < 8) (find_leaf head k h)
    → fd.found.block.count < 8
leaf_room h g d G C lo hi head k fd high space =
    let b = fd.found.block in
    let fill = getfill-Slots fd.found.lo' fd.found.hi' b.count b.node b.slots 0 (omega arith) in
    let found = find_level-Finding h g d 1 G C lo hi head k fd high in
    let read = load_there fd.q fd.h1 b.node b.there in
    let leaf : find_leaf head k h ≡ ok b.node fd.h1 = rw (found, read) refl in
    let lt = subst (Returns (λ leaf _. getfill btree_geo64 leaf 0 < 8)) leaf space in
    subst (λ c. c < 8) fill lt

-- In a tree of any height, let `find_level` lead a key that is not in the map to a leaf of less than
-- 8 pairs, and let the value be other than NULL. Then `btree_insert64` succeeds without a new node,
-- and the tree's pairs are those of the map with the new one.
pub btree_insert64-Deep :
    (m : ℕ → ℕ) (limit : ℕ) (g : Tags) (d : ℕ) (head : Head) (h : Heap)
    → Deep m limit g d head h
    → (k : ℕ) (v : Ptr) → k < limit
    → m k ≡ 0
    → v ≢ 0
    → Returns (λ leaf _. getfill btree_geo64 leaf 0 < 8) (find_leaf head k h)
    → Returns (Kept (update m k v) limit g d head h) (btree_insert64 head k v h)
unfolding btree_insert64 btree_insert insert_level
btree_insert64-Deep m limit g d head h (tall, tree, beyond) k v lt free some_v space =
    let fd =
      find_lem k h g d 1 (Empty m) (Value m) 0 limit head.node tree (Empty-IsGap m) (omega arith)
        lt in
    let edit = update-Edit m k v free some_v in
    let high : head.height - 1 ≡ d = omega arith in
    let room = leaf_room h g d (Empty m) (Value m) 0 limit head k fd high space in
    let some_value : (v == 0) ≡ false = ground arith in
    let no_growth : ltb head.height 1 ≡ false = ground arith in
    let run =
      insert_retry_lem h g d 1 (Empty m) (Empty (update m k v)) (Value m) (Value (update m k v)) 0
        limit head k v fd high edit room some_v (2 * head.height + 3) in
    let fuel : 2 * head.height + 4 ≡ suc (2 * head.height + 3) = omega arith in
    let same = fd.found.pool in
    let after =
      with_pair-Tree h g d 1 (Empty m) (Empty (update m k v)) (Value m) (Value (update m k v)) 0
        limit head k v fd high edit room some_v in
    rw (some_value, no_growth, fuel, run)
      (
        refl,
        refl,
        (tall, after, λ x le. update_there m k v free some_v x (ground arith) ∙ beyond x le),
        same,
      )
