-- ===== src/Inodes/Once.antt =====
-- `find_or_create_inode`: each inode number has one inode, which is made once.
use logfsprogs.Common.{
  ℕ, ◌+◌, ◌≤◌, ◌<◌, ◌≡◌, ◌≢◌, ◌⊎◌, inl, inr, refl, sym, ap, ◌∙◌, arith, true, false, ◌==◌, ==_refl,
  Bool-cases, if◌then◌else◌, [], ◌∷◌, ◌++◌, length, length-append,
}
use mathlib.Core.Path.{subst}
use logfsprogs.Common.Outcome.{
  Run, Cmd, ok, stop, Returns, Returns-then, Returns-mono, pure, Errno, ◌>>◌,
}
use logfsprogs.Super.{Super, zero_inode, in_heap}
use logfsprogs.Btree.Node.{Ptr}
use logfsprogs.Btree.Heap.{Heap, Head}
use logfsprogs.Btree.Head64.{btree_lookup64, btree_insert64}
use logfsprogs.Btree.Leaf.{update}
use logfsprogs.Btree.Map.{Added, btree_lookup64-Small, btree_insert64-Small}
use logfsprogs.Btree.Small.{Small, cells-Small}
use logfsprogs.Inodes.{find_or_create_inode, new_inode, set_ino_tree}

module _ {D : Type 0} where
  -- The tree of inodes has at most one node, its `c` pairs are the map from numbers to addresses, and
  -- the addresses are those of inodes, a different one for every number.
  pub record Numbered (m : ℕ → Ptr) (c : ℕ) (s : Super D) : Type 0 where
    pub tree : Small m c s.ino_tree s.heap
    pub made : (k : ℕ) → m k ≤ length s.inodes
    pub apart : (j k : ℕ) → m j ≢ 0 → m j ≡ m k → j ≡ k

  in_heap-ok :
      {A : Type 0} (cmd : Cmd Heap A) (s : Super D) (a : A)
      → cmd s.heap ≡ ok a s.heap
      → in_heap cmd s ≡ ok a s
  unfolding in_heap
  in_heap-ok cmd s a e = rw (in_heap, e) refl

  in_heap-Returns :
      {A : Type 0} (P : A → Heap → Type 0) (s : Super D) (r : Run Heap A)
      → Returns P r
      → Returns
          (λ a t. (h : Heap) × P a h × (t ≡ record s { heap = h }))
          (elim r [ ok a h ↦ ok a (record s { heap = h }) | stop x ↦ stop x ])
  in_heap-Returns P s (ok a h) p = (h, p, refl)
  in_heap-Returns P s (stop x) p = absurd p

  -- The inode is there.
  pub find_or_create_inode-found :
      (m : ℕ → Ptr) (c ino : ℕ) (s : Super D)
      → Numbered m c s
      → m ino ≢ 0
      → find_or_create_inode ino s ≡ ok (m ino) s
  unfolding find_or_create_inode
  find_or_create_inode-found m c ino s n there =
      let look =
        in_heap-ok (btree_lookup64 s.ino_tree ino) s (m ino)
          (btree_lookup64-Small m c s.ino_tree s.heap n.tree ino) in
      let no : (m ino == 0) ≡ false = ground arith in rw (look, no) refl

  -- The inode was made, or there was no memory for the tree's first node.
  abbrev pub Made : (ℕ → Ptr) → ℕ → ℕ → Super D → Ptr → Super D → Type 0
  Made m c ino s p t =
      ((p ≡ length s.inodes + 1)
        × (t.inodes ≡ s.inodes ++ zero_inode ∷ [])
        × Numbered (update m ino p) (c + 1) t)
      ⊎ ((p ≡ 0) × (c ≡ 0) × Numbered m c t)

  -- What the insertion of a new address does to the numbering.
  update-Numbered :
      (m : ℕ → Ptr) (c ino : ℕ) (s t : Super D)
      → Numbered m c s
      → m ino ≡ 0
      → t.inodes ≡ s.inodes ++ zero_inode ∷ []
      → Small (update m ino (length s.inodes + 1)) (c + 1) t.ino_tree t.heap
      → Numbered (update m ino (length s.inodes + 1)) (c + 1) t
  update-Numbered m c ino s t n free more small =
      let width : length t.inodes ≡ length s.inodes + 1 =
        ap length more ∙ length-append s.inodes (zero_inode ∷ []) in
      record {
        tree = small;
        made = λ k. elim (Bool-cases (k == ino)) [
          | inl same ↦ rw same (omega arith)
          | inr other ↦ let le = n.made k in rw other (omega arith)
        ];
        apart = λ j k some_j e. apart_lem j k some_j e;
      }
    where
      apart_lem :
          (j k : ℕ)
          → update m ino (length s.inodes + 1) j ≢ 0
          → update m ino (length s.inodes + 1) j ≡ update m ino (length s.inodes + 1) k
          → j ≡ k
      apart_lem j k some_j e =
          let a = n.made j in
          let b = n.made k in
          elim (Bool-cases (j == ino)) [
            | inl same ↦ elim (Bool-cases (k == ino)) [
              | inl same' ↦ ground arith
              | inr other' ↦ ground arith
            ]
            | inr other ↦ elim (Bool-cases (k == ino)) [
              | inl same' ↦ ground arith
              | inr other' ↦ n.apart j k (λ z. some_j (rw other z)) (ground arith)
            ]
          ]

  -- The end of `find_or_create_inode`, for each outcome of the insertion.
  linked_lem :
      (m : ℕ → Ptr) (c ino : ℕ) (s u : Super D)
      → Numbered m c s
      → m ino ≡ 0
      → u.ino_tree ≡ s.ino_tree
      → u.inodes ≡ s.inodes ++ zero_inode ∷ []
      → (h0 : Heap) → h0 ≡ s.heap
      → (r : Errno × Head) (h : Heap) → Added m c s.ino_tree h0 ino (length s.inodes + 1) r h
      → Returns (Made m c ino s) (
          (set_ino_tree r.1 >> (if r.0 == 0 then pure (length s.inodes + 1) else pure 0))
            (record u { heap = h }))
  unfolding set_ino_tree
  linked_lem m c ino s u n free tree more h0 start r h (inl (good, small, frame)) =
      rw good (inl (refl, more, update-Numbered m c ino s _ n free more small))
  linked_lem m c ino s u n free tree more h0 start r h (inr (full, same, none_yet, cells)) =
      let no : (r.0 == 0) ≡ false = ground arith in
      let width : length u.inodes ≡ length s.inodes + 1 =
        ap length more ∙ length-append s.inodes (zero_inode ∷ []) in
      rw no (
        inr (
          refl,
          none_yet,
          record {
            tree =
                subst (λ head. Small m c head h) (sym same)
                  (cells-Small m c s.ino_tree s.heap h (cells ∙ ap (λ g. g.cells) start) n.tree);
            made = λ k. let le = n.made k in omega arith;
            apart = n.apart;
          },
        ))

  -- The inode is not there.
  pub find_or_create_inode-Made :
      (m : ℕ → Ptr) (c ino : ℕ) (s : Super D)
      → Numbered m c s
      → m ino ≡ 0
      → c < 8
      → Returns (Made m c ino s) (find_or_create_inode ino s)
  unfolding find_or_create_inode new_inode in_heap
  find_or_create_inode-Made m c ino s n free room =
      let new = length s.inodes + 1 in
      let look =
        in_heap-ok (btree_lookup64 s.ino_tree ino) s (m ino)
          (btree_lookup64-Small m c s.ino_tree s.heap n.tree ino) in
      let u = record s { inodes = s.inodes ++ zero_inode ∷ [] } in
      let insertion =
        btree_insert64-Small m c s.ino_tree s.heap ino new n.tree room free (omega arith) in
      let yes : (m ino == 0) ≡ true = ground arith in
      rw (look, yes)
        (Returns-then
          (λ a t.
            (h : Heap) × Added m c s.ino_tree s.heap ino new a h × (t ≡ record u { heap = h }))
          (Made m c ino s) (in_heap (btree_insert64 s.ino_tree ino new) u) _
          (in_heap-Returns (Added m c s.ino_tree s.heap ino new) u _ insertion)
          (λ r t (h, added, e).
            subst
              (λ w.
                Returns (Made m c ino s)
                  ((set_ino_tree r.1 >> (if r.0 == 0 then pure new else pure 0)) w))
              (sym e) (linked_lem m c ino s u n free refl refl s.heap refl r h added)))

  -- From now on the number has this inode, the numbers that had one keep it, and no other number has
  -- this one. Or there was no memory for the tree's first node.
  abbrev pub Once : (ℕ → Ptr) → ℕ → ℕ → Ptr → Super D → Type 0
  Once m c ino p t =
      ((p ≢ 0)
        × (find_or_create_inode ino t ≡ ok p t)
        × ((k : ℕ) → (m k ≡ 0) ⊎ (find_or_create_inode k t ≡ ok (m k) t))
        × ((k : ℕ) → (k ≡ ino) ⊎ (m k ≢ p)))
      ⊎ ((p ≡ 0) × (c ≡ 0))

  -- The numbering after the inode was made answers for the new number and for the old ones.
  once_lem :
      (m : ℕ → Ptr) (c ino : ℕ) (s : Super D)
      → Numbered m c s
      → m ino ≡ 0
      → (p : Ptr) (t : Super D) → Made m c ino s p t
      → Once m c ino p t
  once_lem m c ino s n free p t (inr (null, none_yet, same)) = inr (null, none_yet)
  once_lem m c ino s n free p t (inl (new, more, n')) =
      let there : p ≢ 0 = λ z. absurd (omega arith) in
      let own : update m ino p ino ≡ p = rw (==_refl ino) refl in
      inl (
        there,
        subst (λ q. find_or_create_inode ino t ≡ ok q t) own
            (find_or_create_inode-found (update m ino p) (c + 1) ino t n'
              (λ z. there (sym own ∙ z))),
        λ k. elim (Bool-cases (m k == 0)) [
          | inl none_has ↦ inl (ground arith)
          | inr has ↦
              let ne : (k == ino) ≡ false = other_number k has in
              let old : update m ino p k ≡ m k = rw ne refl in
              let some_k : update m ino p k ≢ 0 = λ z. absurd (ground (arith, old, z)) in
              inr (
                subst (λ q. find_or_create_inode k t ≡ ok q t) old
                  (find_or_create_inode-found (update m ino p) (c + 1) k t n' some_k))
        ],
        λ k. inr (λ e. let le = n.made k in absurd (omega arith)),
      )
    where
      other_number : (k : ℕ) → (m k == 0) ≡ false → (k == ino) ≡ false
      other_number k has = elim (Bool-cases (k == ino)) [
        | inr other ↦ other
        | inl same ↦
            let e : k ≡ ino = ground arith in let z = ap m e ∙ free in absurd (ground arith)
      ]

  -- In a state whose inodes are numbered in a tree of at most one node with less than 8 numbers,
  -- `find_or_create_inode` returns. From then on every call with the same number gives the same
  -- inode and changes nothing, so do the calls with the numbers that had an inode before, each with
  -- its own, and no other number has had this inode; or there was no memory for the tree's first
  -- node, and the result is NULL.
  pub find_or_create_inode-Once :
      (m : ℕ → Ptr) (c ino : ℕ) (s : Super D)
      → Numbered m c s
      → c < 8
      → Returns (λ p t. Once m c ino p t) (find_or_create_inode ino s)
  find_or_create_inode-Once m c ino s n room = elim (Bool-cases (m ino == 0)) [
    | inl free ↦
        Returns-mono (Made m c ino s) (Once m c ino) (find_or_create_inode ino s)
          (find_or_create_inode-Made m c ino s n (ground arith) room)
          (once_lem m c ino s n (ground arith))
    | inr has ↦
        let there : m ino ≢ 0 = ground arith in
        let found = find_or_create_inode-found m c ino s n there in
        rw found (
          inl (
            there,
            found,
            λ k. elim (Bool-cases (m k == 0)) [
              | inl none_has ↦ inl (ground arith)
              | inr has_k ↦ inr (find_or_create_inode-found m c k s n (ground arith))
            ],
            λ k. elim (Bool-cases (k == ino)) [
              | inl same ↦ inl (ground arith)
              | inr other ↦ inr (λ e. absurd (ground (arith, n.apart ino k there (sym e))))
            ],
          ))
  ]
