-- ===== src/Btree/Deep/Upper.antt =====
-- Insertion at a level whose node is full and that has a level above.
use logfsprogs.Common.{
  ℕ, suc, ◌+◌, ◌≤◌, ◌<◌, ◌≡◌, ◌≢◌, inl, inr, refl, ap, ◌∙◌, arith, false, none, some, ◌==◌, [], ◌∷◌,
}
use logfsprogs.Common.Outcome.{Run, ok, Errno}
use logfsprogs.Btree.Node.{Ptr, zero_node, btree_geo64}
use logfsprogs.Btree.Heap.{Heap, Head, write, btree_node_alloc}
use logfsprogs.Btree.Insert.{insert_level, insert_retry}
use logfsprogs.Btree.Slots.{word}
use logfsprogs.Btree.Small.{write_other}
use logfsprogs.Btree.Deep.{Tags, Block, Tree, IsGap, map-Block, map-Tree}
use logfsprogs.Btree.Deep.Room.{Edit}
use logfsprogs.Btree.Deep.Level.{Below, find_lem}
use logfsprogs.Btree.Deep.Split.{Away, Before, After, GapBefore, GapAfter, zero_Block, split-Edit}
use logfsprogs.Btree.Deep.Spare.{without_level_Spare}
use logfsprogs.Btree.Deep.Insert.{find_level-Finding}
use logfsprogs.Btree.Deep.Above.{
  Inside, IsGap-Away, g1, new_node, not_found, same_old, node_Block, node_count, above-Tree,
}
use logfsprogs.Btree.Deep.Retry.{h4, g4, Slot4, stored-Tree}
use logfsprogs.Btree.Deep.Full.{Succeeds, Fails, finish, give_up}
use logfsprogs.Btree.Deep.Rise.{insert_level_lem}

-- A full node with a level above: `upper` is the insertion there.
module _ (h : Heap) (g : Tags) (d L : ℕ) (G G2 : ℕ → ℕ → Type 0) (C C2 : ℕ → ℕ → Ptr → Type 0)
    (lo hi : ℕ) (head : Head) (k : ℕ) (v : Ptr) (edit : Edit G C G2 C2 k v) (some_v : v ≢ 0)
    (some_L : 0 < L) (tall : head.height ≡ L + suc d) (cut : IsGap G) (flat : (a : ℕ) → G a a)
    (f : ℕ) (from : lo ≤ k) (to : k < hi) (below : Below k h g d L G C lo hi head.node)
    (full : below.fd.found.block.count ≡ 8) (new : Ptr) (h2 : Heap)
    (alloc : btree_node_alloc below.fd.h1 ≡ ok new h2) (some_new : new ≢ 0) (low : g.lev new ≡ 0)
    (cells : h2.cells ≡ write below.fd.h1.cells new (some zero_node)) where
  abbrev tags : Tags
  tags = g1 h g k (suc d) L G C lo hi head.node below.fd some_L new h2 low cells

  abbrev lo' : ℕ
  lo' = below.fd.found.lo'

  abbrev hi' : ℕ
  hi' = below.fd.found.hi'

  abbrev b : Block h2.cells tags L G C lo' hi' below.fd.q
  b = node_Block h g k (suc d) L G C lo hi head.node below.fd some_L new h2 low cells

  abbrev GapB : ℕ → ℕ → Type 0
  GapB = GapBefore h2.cells tags L G C lo' hi' below.fd.q new b (Inside k) (Away k)

  abbrev SlotB : ℕ → ℕ → Ptr → Type 0
  SlotB = Before h2.cells tags L G C lo' hi' below.fd.q new b (Inside k) (Away k)

  abbrev GapA : ℕ → ℕ → Type 0
  GapA = GapAfter h2.cells tags L G C lo' hi' below.fd.q new b (Inside k) (Away k)

  abbrev SlotA : ℕ → ℕ → Ptr → Type 0
  SlotA = After h2.cells tags L G C lo' hi' below.fd.q new b (Inside k) (Away k)

  count : b.count ≡ 8
  count = node_count h g k (suc d) L G C lo hi head.node below.fd some_L new h2 low cells ∙ full

  there_new : h2.cells new ≡ some zero_node
  there_new = (new_node h g k (suc d) L G C lo hi head.node below.fd some_L new h2 low cells).0

  new_level : tags.lev new ≡ L
  new_level = (new_node h g k (suc d) L G C lo hi head.node below.fd some_L new h2 low cells).1

  other : new ≢ below.fd.q
  other = not_found h g k (suc d) L G C lo hi head.node below.fd some_L new h2 low cells

  pub upper-Edit : Edit GapB SlotB GapA SlotA (word b.node 3) new
  upper-Edit =
      let (there, level, end) =
        new_node h g k (suc d) L G C lo hi head.node below.fd some_L new h2 low cells in
      split-Edit h2.cells tags L G C lo' hi' below.fd.q new b (Inside k) (Away k) count some_new
        other there level end flat

  pub upper-Tree : Tree h2.cells tags d (suc L) GapB SlotB lo hi head.node
  upper-Tree = above-Tree h g k d L G C lo hi head.node below some_L new h2 low cells full

  abbrev pub upper_run : Run Heap (Errno × Head)
  upper_run = insert_retry btree_geo64 (suc f) head (word b.node 3 ∷ []) new (suc L) h2

  level_run :
      insert_level btree_geo64
        (insert_retry btree_geo64 (suc f))
        head
        (word b.node 3 ∷ [])
        new
        (L + 1)
        h2
      ≡ upper_run
  level_run =
      let e : L + 1 ≡ suc L = omega arith in
      rw e (
        insert_level_lem (insert_retry btree_geo64 (suc f)) head (word b.node 3 ∷ []) new (suc L) h2
          some_new (omega arith))

  pub upper_Succeeds :
      Succeeds h2 tags d (suc L) GapB GapA SlotB SlotA lo hi head upper_run
      → Succeeds h g
          (suc d)
          L
          G
          G2
          C
          C2
          lo
          hi
          head
          (insert_retry btree_geo64 (suc (suc f)) head (k ∷ []) v L h)
  upper_Succeeds (head', h3, run, done) =
      let fnd = below.fd.found in
      let level = fnd.block.level in
      finish h below.fd.h1 h2 g tags (suc d) L G G2 C C2 lo hi lo' hi' below.fd.q new b (Inside k)
        (Away k) head k v edit some_v fnd.to
        (find_level-Finding h g (suc d) L G C lo hi head k below.fd (omega arith)) alloc some_new
        there_new new_level other some_L count
        (same_old h g k (suc d) L G C lo hi head.node below.fd some_L new h2 low cells)
        (omega arith)
        (λ x pos lt.
          fnd.frame x (omega arith) (λ e. let w = ap (λ y. g.lev y) e in absurd (omega arith)))
        cut f h3 done.tags done.above head' (level_run ∙ run) done.kept done.spare done.tall
        (λ s up le lt. (le, lt))
        (λ a c up le lt away. absurd (elim away [ inl x ↦ omega arith | inr y ↦ omega arith ]))
        (find_lem k
          (h4 h2 tags L G G2 C C2 lo hi lo' hi' below.fd.q new b (Inside k) (Away k) h3 done.tags
            done.above head')
          (g4 h2 tags L G G2 C C2 lo hi lo' hi' below.fd.q new b (Inside k) (Away k) h3 done.tags
            done.above head')
          done.above (suc L) GapA
          (Slot4 h2 tags L G G2 C C2 lo hi lo' hi' below.fd.q new b (Inside k) (Away k) h3 done.tags
            done.above head')
          lo hi head'.node
          (stored-Tree h2 tags L G G2 C C2 lo hi lo' hi' below.fd.q new b (Inside k) (Away k) h3
            done.tags done.above head' some_L new_level other done.kept head'.node done.tree)
          (IsGap-Away G k cut) from to)

  pub upper_Fails :
      Fails h2 tags d (suc L) GapB GapA SlotB SlotA lo hi head upper_run
      → Fails h g
          (suc d)
          L
          G
          G2
          C
          C2
          lo
          hi
          head
          (insert_retry btree_geo64 (suc (suc f)) head (k ∷ []) v L h)
  upper_Fails (h3, run, undone) =
      let fnd = below.fd.found in
      let level = fnd.block.level in
      let level_new = new_level in
      let freed : Heap = record h3 { cells = write h3.cells new none } in
      let old = same_old h g k (suc d) L G C lo hi head.node below.fd some_L new h2 low cells in
      let still = undone.kept new (omega arith) (omega arith) ∙ there_new in
      let not_freed : (x : Ptr) → x ≢ new → freed.cells x ≡ h3.cells x =
        λ x ne. write_other h3.cells new x none ne in
      (
        freed,
        give_up h below.fd.h1 h2 g tags (suc d) L G G2 C C2 lo hi lo' hi' below.fd.q new b
            (Inside k) (Away k) head k v edit some_v fnd.to
            (find_level-Finding h g (suc d) L G C lo hi head k below.fd (omega arith)) alloc
            some_new there_new level_new other some_L count old (omega arith)
            (λ x pos lt.
              fnd.frame x (omega arith) (λ e. let w = ap (λ y. g.lev y) e in absurd (omega arith)))
            cut (suc f) h3 (level_run ∙ run) zero_node still,
        record {
          tree =
              map-Tree h3.cells freed.cells tags g d (suc L) GapB G SlotB
                (Block freed.cells g L G C) lo hi head.node undone.tree
                (λ x le.
                  let ne : x ≢ new = λ e. let w = ap (λ y. tags.lev y) e in absurd (omega arith) in
                  let no : (x == new) ≡ false = ground arith in
                  (not_freed x ne, rw no refl, rw no refl))
                (λ s up x le lt top (b1, here, near).
                  let ne : x ≢ new = λ e.
                    zero_Block h2.cells tags L G C s up x b1 (ap (λ y. h2.cells y) e ∙ there_new) in
                  let no : (x == new) ≡ false = ground arith in
                  let at = b1.level in
                  map-Block h2.cells freed.cells tags g L G G C C s up x b1
                    (
                      not_freed x ne ∙ undone.kept x (omega arith) (omega arith),
                      rw no refl,
                      rw no refl,
                    )
                    (λ s' up' y le' lt' top' c. c) (λ a c le' top' e. e))
                (λ a c le top e. e.0);
          spare = without_level_Spare g.lev new L h3.pool low undone.spare;
          kept = λ x pos lt.
              let (cell, lev, top) = old x pos in
              let ne : x ≢ new = λ e. let w = ap (λ y. g.lev y) e in absurd (omega arith) in
              not_freed x ne
              ∙ undone.kept x (omega arith) (omega arith)
              ∙ cell
              ∙ fnd.frame x (omega arith)
                  (λ e. let w = ap (λ y. g.lev y) e in absurd (omega arith));
        },
      )
