-- ===== src/Btree/Deep/Grow.antt =====
-- Insertion at any level, with splits as far up as they go.
use logfsprogs.Common.{
  ℕ, zero, suc, ◌+◌, ◌*◌, ◌≤◌, ◌<◌, ◌≡◌, ◌≢◌, ◌⊎◌, inl, inr, refl, ◌∙◌, arith, false, ◌==◌, ◌&&◌,
  ltb, Bool-cases, [], ◌∷◌,
}
use mathlib.Core.Path.{subst}
use logfsprogs.Common.Outcome.{Errno, enomem, Returns}
use logfsprogs.Btree.Node.{Ptr, btree_geo64, getpos, keycmp, is_eq}
use logfsprogs.Btree.Heap.{Heap, Head}
use logfsprogs.Btree.Insert.{btree_insert, insert_level, insert_retry}
use logfsprogs.Btree.Head64.{btree_insert64}
use logfsprogs.Btree.Leaf.{update}
use logfsprogs.Btree.Slots.{word}
use logfsprogs.Btree.Deep.{Tags, Block, Tree, IsGap, Value, Empty, Deep}
use logfsprogs.Btree.Deep.Place.{getfill-Slots, pos_below, not_taken}
use logfsprogs.Btree.Deep.Room.{Edit}
use logfsprogs.Btree.Deep.Level.{Finding, find_here, find_below, find_lem}
use logfsprogs.Btree.Deep.Spare.{Spare, with_level, NoNode, btree_node_alloc_cases}
use logfsprogs.Btree.Deep.Insert.{find_level-Finding, update-Edit, Empty-IsGap}
use logfsprogs.Btree.Deep.Split.{Away}
use logfsprogs.Btree.Deep.Above.{IsGap-both, node_Block, middle_inside}
use logfsprogs.Btree.Deep.Runs.{split_no_node, insert_retry_failed}
use logfsprogs.Btree.Deep.Full.{Succeeds, Fails}
use logfsprogs.Btree.Deep.Rise.{insert_level_lem, room_Succeeds, found_run, found_spare}
use logfsprogs.Btree.Deep.Upper.{upper-Edit, upper-Tree, upper_Succeeds, upper_Fails}
use logfsprogs.Btree.Deep.Sprout.{sprout_Succeeds, sprout_Fails}

at_point : (k a : ℕ) → Away k a a
at_point k a = elim (Bool-cases (ltb k a)) [
  | inl above ↦ inr (ground arith)
  | inr below ↦ inl (ground arith)
]

-- There is no memory for the second half.
no_node_Fails :
    (h : Heap) (g : Tags) (d L : ℕ) (G G2 : ℕ → ℕ → Type 0) (C C2 : ℕ → ℕ → Ptr → Type 0)
    (lo hi : ℕ) (head : Head) (k : ℕ) (v : Ptr) (edit : Edit G C G2 C2 k v) (some_v : v ≢ 0)
    (some_L : 0 < L) (tall : head.height ≡ L + d) (spare : Spare g.lev h.pool)
    (fd : Finding k h g d L G C lo hi head.node)
    → fd.found.block.count ≡ 8
    → (f : ℕ) → NoNode g.lev fd.h1
    → Fails h g d L G G2 C C2 lo hi head (insert_retry btree_geo64 (suc f) head (k ∷ []) v L h)
no_node_Fails h g d L G G2 C C2 lo hi head k v edit some_v some_L tall spare fd full f
      (h2, run, same, spare2) =
    let b = fd.found.block in
    let pos = getpos btree_geo64 b.node (k ∷ []) in
    let fill =
      getfill-Slots fd.found.lo' fd.found.hi' b.count b.node b.slots pos
        (pos_below fd.h1.cells g L G C fd.found.lo' fd.found.hi' fd.q b k fd.found.to edit.new)
      ∙ full in
    let fresh =
      subst (λ c. (ltb pos c && is_eq (keycmp btree_geo64 b.node pos (k ∷ []))) ≡ false) full
        (not_taken fd.h1.cells g L G C fd.found.lo' fd.found.hi' fd.q b k fd.found.to edit.new) in
    (
      h2,
      insert_retry_failed f head k v L h fd.h1 fd.q b.node
          (find_level-Finding h g d L G C lo hi head k fd (omega arith)) b.there fill fresh head h2
          (split_no_node (insert_level btree_geo64 (insert_retry btree_geo64 f)) head fd.q L fd.h1
            h2 run),
      found_run h g d L G G2 C C2 lo hi head k v edit some_v some_L tall spare fd h2 same spare2,
    )

-- With two units of fuel more than there are levels above, the pair is added, or there is no memory.
pub insert_retry-Tree :
    (f d : ℕ)
    → d + 2 ≤ f
    → (h : Heap) (g : Tags) (L : ℕ) (G G2 : ℕ → ℕ → Type 0) (C C2 : ℕ → ℕ → Ptr → Type 0)
      (lo hi : ℕ) (head : Head) (k : ℕ) (v : Ptr)
    → Edit G C G2 C2 k v
    → v ≢ 0
    → 0 < L
    → head.height ≡ L + d
    → IsGap G
    → ((a : ℕ) → G a a)
    → lo ≤ k
    → k < hi
    → Spare g.lev h.pool
    → Tree h.cells g d L G C lo hi head.node
    → Succeeds h g d L G G2 C C2 lo hi head (insert_retry btree_geo64 f head (k ∷ []) v L h)
      ⊎ Fails h g d L G G2 C C2 lo hi head (insert_retry btree_geo64 f head (k ∷ []) v L h)
unfolding find_here
insert_retry-Tree zero d fuel h g L G G2 C C2 lo hi head k v edit some_v some_L tall cut flat from
      to spare t =
    absurd (omega arith)
insert_retry-Tree (suc zero) d fuel h g L G G2 C C2 lo hi head k v edit some_v some_L tall cut flat
      from to spare t =
    absurd (omega arith)
insert_retry-Tree (suc (suc f)) zero fuel h g L G G2 C C2 lo hi head k v edit some_v some_L tall cut
      flat from to spare t =
    let fd = find_here k h g L G C lo hi head.node t from to in
    let room = t.slots.room in
    let low : head.height ≡ L = omega arith in
    elim (Bool-cases (ltb t.count 8)) [
      | inl part ↦ inl (
          room_Succeeds h g zero L G G2 C C2 lo hi head k v edit some_v some_L tall spare fd
            (ground arith) (suc f))
      | inr whole ↦
          let more : 8 ≤ t.count = ground arith in
          let full : t.count ≡ 8 = omega arith in
          elim (btree_node_alloc_cases g.lev h spare) [
            | inl empty ↦ inr (
                no_node_Fails h g zero L G G2 C C2 lo hi head k v edit some_v some_L tall spare fd
                  full (suc f) empty)
            | inr (new, h2, alloc, some_new, zero_level, cells, spare2) ↦
                elim (btree_node_alloc_cases (with_level g.lev new L) h2 (spare2 L)) [
                  | inl (h3, alloc3, same, spare3) ↦ inr (
                      sprout_Fails h g L G G2 C C2 lo hi head k v edit some_v some_L low cut flat f
                        from to t full new h2 alloc some_new zero_level cells h3 alloc3 same spare3)
                  | inr (r, h3, alloc3, some_r, low_r, cells3, spare3) ↦ inl (
                      sprout_Succeeds h g L G G2 C C2 lo hi head k v edit some_v some_L low cut flat
                        f from to t full new h2 alloc some_new zero_level cells r h3 alloc3 some_r
                        low_r cells3 spare3)
                ]
          ]
    ]
insert_retry-Tree (suc (suc f)) (suc d) fuel h g L G G2 C C2 lo hi head k v edit some_v some_L tall
      cut flat from to spare t =
    let below =
      find_below k h g d L G C lo hi head.node
        (find_lem k h g d (suc L) G (Block h.cells g L G C) lo hi head.node t cut from to) cut in
    let fd = below.fd in
    let room = fd.found.block.slots.room in
    elim (Bool-cases (ltb fd.found.block.count 8)) [
      | inl part ↦ inl (
          room_Succeeds h g (suc d) L G G2 C C2 lo hi head k v edit some_v some_L tall spare fd
            (ground arith) (suc f))
      | inr whole ↦
          let more : 8 ≤ fd.found.block.count = ground arith in
          let full : fd.found.block.count ≡ 8 = omega arith in
          elim (btree_node_alloc_cases g.lev fd.h1
            (found_spare h g (suc d) L G G2 C C2 lo hi head k v edit some_v some_L tall spare fd)) [
              | inl empty ↦ inr (
                  no_node_Fails h g (suc d) L G G2 C C2 lo hi head k v edit some_v some_L tall spare
                    fd full (suc f) empty)
              | inr (new, h2, alloc, some_new, zero_level, cells, spare2) ↦
                  let b =
                    node_Block h g k (suc d) L G C lo hi head.node fd some_L new h2 zero_level
                      cells in
                  let (under, over) =
                    middle_inside h g k d L G C lo hi head.node below some_L new h2 zero_level cells
                      full in
                  let bottom = fd.found.low in
                  let top = fd.found.high in
                  elim (insert_retry-Tree (suc f) d (omega arith) h2 _ (suc L) _ _ _ _ lo hi head
                    (word b.node 3) new
                    (upper-Edit h g d L G G2 C C2 lo hi head k v edit some_v some_L tall cut flat f
                      from to below full new h2 alloc some_new zero_level cells)
                    some_new (omega arith) (omega arith) (IsGap-both G (word b.node 3) k cut)
                    (λ a. (flat a, at_point (word b.node 3) a, at_point k a)) (omega arith)
                    (omega arith) (spare2 L)
                    (upper-Tree h g d L G G2 C C2 lo hi head k v edit some_v some_L tall cut flat f
                      from to below full new h2 alloc some_new zero_level cells)) [
                        | inl good ↦ inl (
                            upper_Succeeds h g d L G G2 C C2 lo hi head k v edit some_v some_L tall
                              cut flat f from to below full new h2 alloc some_new zero_level cells
                              good)
                        | inr bad ↦ inr (
                            upper_Fails h g d L G G2 C C2 lo hi head k v edit some_v some_L tall cut
                              flat f from to below full new h2 alloc some_new zero_level cells bad)
                      ]
            ]
    ]

-- The pair was added, or there was no memory; either way the memory still to come is not the tree's.
abbrev pub Extended : (ℕ → ℕ) → ℕ → Tags → ℕ → Head → ℕ → ℕ → Errno × Head → Heap → Type 0
Extended m limit g d head k v r h' =
    ((r.0 ≡ 0)
      × ((g' : Tags) × (d' : ℕ) × Deep (update m k v) limit g' d' r.1 h' × Spare g'.lev h'.pool))
    ⊎ ((r.0 ≡ enomem) × (r.1 ≡ head) × Deep m limit g d head h' × Spare g.lev h'.pool)

-- Let a tree of any height have the pairs of a map, all keys below a limit, and let the memory to
-- come be apart from it. For a key below the limit that is not in the map and a value other than NULL
-- `btree_insert64` returns. Either it returns 0 and a tree with the new pair as well, or ENOMEM and
-- the old root, with the old pairs in its tree. The memory still to come is apart from the tree.
pub btree_insert64-Extended :
    (m : ℕ → ℕ) (limit : ℕ) (g : Tags) (d : ℕ) (head : Head) (h : Heap)
    → Deep m limit g d head h
    → Spare g.lev h.pool
    → (k v : ℕ) → k < limit
    → m k ≡ 0
    → v ≢ 0
    → Returns (Extended m limit g d head k v) (btree_insert64 head k v h)
unfolding btree_insert64 btree_insert
btree_insert64-Extended m limit g d head h (tall, tree, beyond) spare k v lt free some_v =
    let e : 1 + d ≡ d + 1 = omega arith in
    let beyond' : (x : ℕ) → limit ≤ x → update m k v x ≡ 0 =
      λ x le. let no : (x == k) ≡ false = ground arith in rw no (beyond x le) in
    rw
      (insert_level_lem (insert_retry btree_geo64 (2 * head.height + 4)) head (k ∷ []) v 1 h some_v
        (omega arith))
      (elim (insert_retry-Tree (2 * head.height + 4) d (omega arith) h g 1 (Empty m)
        (Empty (update m k v)) (Value m) (Value (update m k v)) 0 limit head k v
        (update-Edit m k v free some_v) some_v (omega arith) (omega arith) (Empty-IsGap m)
        (λ a x le lt'. absurd (omega arith)) (omega arith) lt spare tree) [
          | inl (head', h', run, done) ↦
              let high = done.tall in
              let tall' : head'.height ≡ done.above + 1 = omega arith in
              rw run (inl (refl, (done.tags, done.above, (tall', done.tree, beyond'), done.spare)))
          | inr (h', run, undone) ↦
              rw run (inr (refl, refl, (tall, undone.tree, beyond), undone.spare))
        ])
