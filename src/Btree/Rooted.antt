-- ===== src/Btree/Rooted.antt =====
-- The removal of a slot from the leaf that is the root of a tree.
use logfsprogs.Common.{
  ℕ, ◌+◌, ◌-◌, ◌≤◌, ◌<◌, ◌≡◌, ◌≢◌, ◌⊎◌, inl, inr, refl, sym, ap, ◌∙◌, arith, true, false, Bool,
  ◌==◌, ==_refl, ltb, leb, ◌&&◌, Bool-cases, [], ◌∷◌, none, some,
}
use mathlib.Core.Path.{subst}
use logfsprogs.Common.Outcome.{Cmd, ok, Returns}
use logfsprogs.Btree.Node.{Node, Ptr, btree_geo64, bval, keycmp, is_eq, getpos}
use logfsprogs.Btree.Heap.{Heap, Head, write, free}
use logfsprogs.Btree.Search.{find_level, find_loop}
use logfsprogs.Btree.Remove.{
  KeyRef, words, remove_level, remove_at, remove_pair, btree_shrink, btree_remove, read_key,
  shift_down,
}
use logfsprogs.Btree.Head64.{btree_remove64}
use logfsprogs.Btree.Slots.{word}
use logfsprogs.Btree.Position.{key_eq, getpos-First}
use logfsprogs.Btree.Leaf.{Leaf, update, getfill-Leaf, absent-Leaf, getpos-Leaf}
use logfsprogs.Btree.Others.{search_lem}
use logfsprogs.Btree.Dropped.{getpos_there, remove_pair-Leaf}
use logfsprogs.Btree.Small.{Small, load_there, store_there, write_self, write_other}

free_there :
    (p : Ptr) (h : Heap) (node : Node)
    → h.cells p ≡ some node
    → free p h ≡ ok tt (record h { cells = write h.cells p none })
unfolding free
free_there p h node there = rw (free, there) refl

and_false : (b : Bool) → (b && false) ≡ false
and_false true = refl
and_false false = refl

-- Behind the last pair there is nothing to move, and the last slot is cleared.
past_end :
    (c : ℕ) (node : Node)
    → 0 < c
    → remove_pair btree_geo64 c c node ≡ remove_pair btree_geo64 (c - 1) c node
unfolding remove_pair shift_down
past_end c node some_pair =
    let e : c - 1 - c ≡ 0 = omega arith in
    let e' : c - 1 - (c - 1) ≡ 0 = omega arith in rw (e, e') refl

-- The removal of slot `p` of `c` from the root.
module _ (m : ℕ → ℕ) (c : ℕ) (q : Ptr) (h : Heap) (node : Node) (some_root : q ≢ 0)
    (there : h.cells q ≡ some node) (a : Leaf m c node) where
  -- The pair is gone, and nothing but the root was changed; a root without pairs was freed.
  abbrev pub Dropped : (ℕ → ℕ) → Ptr → Ptr × Head → Heap → Type 0
  Dropped m' v r t =
      (r.0 ≡ v)
      × Small m' (c - 1) r.1 t
      × ((x : Ptr) → x ≢ q → t.cells x ≡ h.cells x)
      × ((r.1.node ≡ q) ⊎ ((r.1.node ≡ 0) × (t.cells q ≡ none)))

  remove_at_lem :
      (remove : Head → KeyRef → ℕ → Cmd Heap (Ptr × Head)) (ref : KeyRef) (p v : ℕ) (m' : ℕ → ℕ)
      → p ≤ 8
      → p < 8
      → 0 < c
      → bval btree_geo64 node p ≡ v
      → Leaf m' (c - 1) (remove_pair btree_geo64 p c node)
      → Returns
          (Dropped m' v)
          (remove_at remove btree_geo64 (record { node = q; height = 1 }) ref 1 q node p c h)
  unfolding remove_at btree_shrink
  remove_at_lem remove ref p v m' le lt some_pair value less =
      let node' = remove_pair btree_geo64 p c node in
      let t = record h { cells = write h.cells q (some node') } in
      let stored = store_there q h node node' there in
      let inside : leb 16 (8 + p) ≡ false = ground arith in
      let full : (c == 0) ≡ false = ground arith in
      let stays : 0 < c - 1
          → Dropped m' v (bval btree_geo64 node p, record { node = q; height = 1 }) t =
        λ more. (
          value,
          inr (record {
            tall = refl;
            root = some_root;
            some_pair = more;
            leaf = node';
            there = write_self h.cells q _;
            pairs = less;
          }),
          λ x ne. write_other h.cells q x _ ne,
          inl refl,
        ) in
      elim (Bool-cases (ltb (c - 1) 4)) [
        | inr many ↦ rw (inside, full, stored, many) (stays (ground arith))
        | inl few ↦ elim (Bool-cases (c - 1 == 0)) [
          | inr left ↦
              rw (inside, full, stored, few, left, and_false (c - 1 == 1)) (stays (ground arith))
          | inl last ↦
              let none_left : c - 1 ≡ 0 = ground arith in
              let read = load_there q t node' (write_self h.cells q _) in
              let freed = free_there q t node' (write_self h.cells q _) in
              rw (inside, full, stored, few, last, read, freed)
                (
                  value,
                  inl (record {
                    low = refl;
                    rootless = less.no_value 0 (omega arith) (omega arith);
                    count = none_left;
                    no_pairs = λ k. less.only k (λ j below. absurd (omega arith));
                  }),
                  λ x ne. write_other t.cells q x _ ne ∙ write_other h.cells q x _ ne,
                  inr (less.no_value 0 (omega arith) (omega arith), write_self t.cells q none),
                )
        ]
      ]

  -- The slot of a key of the map.
  pub slot_of : (k : ℕ) → m k ≢ 0 → (p : ℕ) × (p < c) × (word node p ≡ k)
  slot_of k has = elim (search_lem node k c a.room) [
    | inr absent ↦ absurd (has (a.only k absent))
    | inl (p, held) ↦ elim (Bool-cases (ltb p c)) [
      | inl low ↦ (p, ground arith, held.here)
      | inr high ↦ absurd (has (a.only k (λ j lt. held.before j (ground arith))))
    ]
  ]

  slot_lem :
      (p : ℕ)
      → p < c
      → Returns
          (Dropped (update m (word node p) 0) (word node (8 + p)))
          (btree_remove64 (record { node = q; height = 1 }) (word node p) h)
  unfolding btree_remove64 btree_remove remove_level read_key find_level find_loop
  slot_lem p lt =
      let room = a.room in
      let width = a.width in
      let ne : (q == 0) ≡ false = ground arith in
      let read = load_there q h node there in
      let pos = getpos_there m c node a p lt in
      let fill = getfill-Leaf m c node a p (omega arith) in
      let here = key_eq node (word node p) p (omega arith) ∙ ==_refl (word node p) in
      rw (ne, read, pos, fill, here)
        (remove_at_lem (remove_level btree_geo64 1) (words (word node p ∷ [])) p (word node (8 + p))
          (update m (word node p) 0) (omega arith) (omega arith) (omega arith) refl
          (remove_pair-Leaf m c node a p lt))

  pub root_lem :
      (k : ℕ)
      → m k ≢ 0
      → Returns
          (Dropped (update m k 0) (m k))
          (btree_remove64 (record { node = q; height = 1 }) k h)
  root_lem k has =
      let (p, lt, here) = slot_of k has in
      let value : word node (8 + p) ≡ m k = sym (a.maps p lt) ∙ ap m here in
      subst
        (λ v.
          Returns (Dropped (update m k 0) v) (btree_remove64 (record { node = q; height = 1 }) k h))
        value
        (subst
          (λ x.
            Returns (Dropped (update m x 0) (word node (8 + p)))
              (btree_remove64 (record { node = q; height = 1 }) x h))
          here (slot_lem p lt))

  pub missing_lem :
      (k : ℕ)
      → c < 8
      → m k ≡ 0
      → k ≢ 0
      → btree_remove64 (record { node = q; height = 1 }) k h
        ≡ ok (0, record { node = q; height = 1 }) h
  unfolding btree_remove64 btree_remove remove_level read_key find_level find_loop
  missing_lem k room free some_key =
      let ne : (q == 0) ≡ false = ground arith in
      let read = load_there q h node there in
      let no = other_key k room free some_key in rw (ne, read, no) refl
    where
      other_key :
          (k : ℕ)
          → c < 8
          → m k ≡ 0
          → k ≢ 0
          → is_eq (keycmp btree_geo64 node (getpos btree_geo64 node (k ∷ [])) (k ∷ [])) ≡ false
      other_key k room free some_key =
          let pos = getpos btree_geo64 node (k ∷ []) in
          let width = a.width in
          let le = getpos-Leaf m c node a k 0 room free in
          key_eq node k pos (omega arith) ∙ elim (Bool-cases (pos == c)) [
            | inl last ↦ ground (arith, a.no_key pos (ground arith) (omega arith), some_key)
            | inr inner ↦ ground (arith, absent-Leaf m c node a k free pos (ground arith))
          ]

  -- Key 0 is not in the leaf, so `getpos` gives the first empty slot, whose key reads as 0.
  pub zero_lem :
      c < 8
      → 0 < c
      → m 0 ≡ 0
      → Returns
          (Dropped (update m (word node (c - 1)) 0) 0)
          (btree_remove64 (record { node = q; height = 1 }) 0 h)
  unfolding btree_remove64 btree_remove remove_level read_key find_level find_loop
  zero_lem room some_pair free =
      let width = a.width in
      let ne : (q == 0) ≡ false = ground arith in
      let read = load_there q h node there in
      let pos = empty_slot room free in
      let fill = getfill-Leaf m c node a c (omega arith) in
      let zero_key = a.no_key c (omega arith) room in
      let here : is_eq (keycmp btree_geo64 node c (0 ∷ [])) ≡ true =
        key_eq node 0 c (omega arith) ∙ ap (λ x. x == 0) zero_key in
      let less =
        subst (λ n. Leaf (update m (word node (c - 1)) 0) (c - 1) n)
          (sym (past_end c node some_pair)) (remove_pair-Leaf m c node a (c - 1) (omega arith)) in
      rw (ne, read, pos, fill, here)
        (remove_at_lem (remove_level btree_geo64 1) (words (0 ∷ [])) c 0
          (update m (word node (c - 1)) 0) (omega arith) room some_pair
          (a.no_value c (omega arith) room) less)
    where
      empty_slot : c < 8 → m 0 ≡ 0 → getpos btree_geo64 node (0 ∷ []) ≡ c
      empty_slot room free =
          let pos = getpos btree_geo64 node (0 ∷ []) in
          let f = getpos-First node 0 a.width in
          let le = getpos-Leaf m c node a 0 0 room free in
          elim (Bool-cases (pos == c)) [
            | inl same ↦ ground arith
            | inr inner ↦
                let absent = absent-Leaf m c node a 0 free pos (ground arith) in
                elim f.least [
                  | inl end ↦ absurd (ground arith)
                  | inr least ↦ absurd (absent (omega arith))
                ]
          ]
