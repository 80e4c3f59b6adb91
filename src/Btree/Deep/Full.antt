-- ===== src/Btree/Deep/Full.antt =====
-- Insertion at a level whose node for the key is full, after the level above got its pair.
use logfsprogs.Common.{
  ℕ, suc, ◌+◌, ◌≤◌, ◌<◌, ◌≡◌, ◌≢◌, inl, inr, refl, sym, ap, ◌∙◌, arith, false, none, some, ◌==◌,
  ◌&&◌, ltb, Bool-cases, if◌then◌else◌, [], ◌∷◌,
}
use mathlib.Core.Path.{subst}
use logfsprogs.Common.Outcome.{Run, ok, Errno, enomem}
use logfsprogs.Btree.Node.{Node, Ptr, zero_node, btree_geo64, getpos, getfill, keycmp, is_eq}
use logfsprogs.Btree.Heap.{Heap, Head, write, btree_node_alloc}
use logfsprogs.Btree.Search.{find_level}
use logfsprogs.Btree.Insert.{insert_level, insert_retry}
use logfsprogs.Btree.Slots.{word}
use logfsprogs.Btree.Deep.{Tags, Block, Tree, IsGap, Same}
use logfsprogs.Btree.Deep.Place.{getfill-Slots, pos_below, not_taken}
use logfsprogs.Btree.Deep.Room.{Edit}
use logfsprogs.Btree.Deep.Level.{Finding}
use logfsprogs.Btree.Deep.Split.{GapAfter}
use logfsprogs.Btree.Deep.Spare.{Spare}
use logfsprogs.Btree.Deep.Retry.{h4, g4, Slot4, retry-Retried}
use logfsprogs.Btree.Deep.Runs.{split_done, split_no_upper, insert_retry_again, insert_retry_failed}

-- The level has the pair; what lies below the level is as before.
pub record Done (h : Heap) (g : Tags) (L : ℕ) (G2 : ℕ → ℕ → Type 0) (C2 : ℕ → ℕ → Ptr → Type 0)
    (lo hi : ℕ) (head' : Head) (h' : Heap) : Type 0 where
  pub above : ℕ
  pub tags : Tags
  pub tall : head'.height ≡ L + above
  pub tree : Tree h'.cells tags above L G2 C2 lo hi head'.node
  pub spare : Spare tags.lev h'.pool
  pub kept : (x : Ptr) → 0 < g.lev x → g.lev x < L → Same h.cells g h'.cells tags x

-- There was no memory: the tree has the same pairs.
pub record Undone (h : Heap) (g : Tags) (d L : ℕ) (G : ℕ → ℕ → Type 0) (C : ℕ → ℕ → Ptr → Type 0)
    (lo hi : ℕ) (head : Head) (h' : Heap) : Type 0 where
  pub tree : Tree h'.cells g d L G C lo hi head.node
  pub spare : Spare g.lev h'.pool
  pub kept : (x : Ptr) → 0 < g.lev x → g.lev x < L → h'.cells x ≡ h.cells x

module _ (h : Heap) (g : Tags) (d L : ℕ) (G G2 : ℕ → ℕ → Type 0) (C C2 : ℕ → ℕ → Ptr → Type 0)
    (lo hi : ℕ) (head : Head) (run : Run Heap (Errno × Head)) where
  abbrev pub Succeeds : Type 0
  Succeeds =
      (head' : Head) × (h' : Heap) × (run ≡ ok (0, head') h') × Done h g L G2 C2 lo hi head' h'

  abbrev pub Fails : Type 0
  Fails = (h' : Heap) × (run ≡ ok (enomem, head) h') × Undone h g d L G C lo hi head h'

module _ (h h1 h2 : Heap) (g g1 : Tags) (d L : ℕ) (G G2 : ℕ → ℕ → Type 0)
    (C C2 : ℕ → ℕ → Ptr → Type 0) (lo hi lo' hi' : ℕ) (q new : Ptr)
    (b : Block h2.cells g1 L G C lo' hi' q) (P Q : ℕ → ℕ → Type 0) (head : Head) (k : ℕ) (v : Ptr)
    (edit : Edit G C G2 C2 k v) (some_v : v ≢ 0) (to : k < hi')
    (found : find_level btree_geo64 head (k ∷ []) L h ≡ ok q h1)
    (alloc : btree_node_alloc h1 ≡ ok new h2) (some_new : new ≢ 0)
    (there_new : h2.cells new ≡ some zero_node) (level_new : g1.lev new ≡ L) (other : new ≢ q)
    (some_L : 0 < L) (full : b.count ≡ 8)
    (same_old : (x : Ptr) → 0 < g.lev x → Same h1.cells g h2.cells g1 x) (old : 0 < g.lev q)
    (frame : (x : Ptr) → 0 < g.lev x → g.lev x < L → h1.cells x ≡ h.cells x) (cut : IsGap G) where
  there : h1.cells q ≡ some b.node
  there = sym (same_old q old).0 ∙ b.there

  abbrev pos : ℕ
  pos = getpos btree_geo64 b.node (k ∷ [])

  fill : getfill btree_geo64 b.node pos ≡ 8
  fill =
      getfill-Slots lo' hi' b.count b.node b.slots pos
        (pos_below h2.cells g1 L G C lo' hi' q b k to edit.new)
      ∙ full

  fresh : (ltb pos 8 && is_eq (keycmp btree_geo64 b.node pos (k ∷ []))) ≡ false
  fresh =
      subst (λ c. (ltb pos c && is_eq (keycmp btree_geo64 b.node pos (k ∷ []))) ≡ false) full
        (not_taken h2.cells g1 L G C lo' hi' q b k to edit.new)

  -- The level above has the pair.
  pub finish :
      (f : ℕ) (h3 : Heap) (g3 : Tags) (d3 : ℕ) (head' : Head)
      → insert_level btree_geo64
          (insert_retry btree_geo64 (suc f))
          head
          (word b.node 3 ∷ [])
          new
          (L + 1)
          h2
        ≡ ok (0, head') h3
      → ((x : Ptr) → 0 < g1.lev x → g1.lev x < suc L → Same h2.cells g1 h3.cells g3 x)
      → Spare g3.lev h3.pool
      → head'.height ≡ suc L + d3
      → ((s up : ℕ) → s ≤ k → k < up → P s up)
      → ((a c up : ℕ) → a ≤ k → k < c → Q a c → P c up)
      → Finding k
          (h4 h2 g1 L G G2 C C2 lo hi lo' hi' q new b P Q h3 g3 d3 head')
          (g4 h2 g1 L G G2 C C2 lo hi lo' hi' q new b P Q h3 g3 d3 head')
          d3
          (suc L)
          (GapAfter h2.cells g1 L G C lo' hi' q new b P Q)
          (Slot4 h2 g1 L G G2 C C2 lo hi lo' hi' q new b P Q h3 g3 d3 head')
          lo
          hi
          head'.node
      → Succeeds h g d L G G2 C C2 lo hi head
          (insert_retry btree_geo64 (suc (suc f)) head (k ∷ []) v L h)
  finish f h3 g3 d3 head' run frame3 spare3 tall cover reach up =
      let level_q = b.level in
      let (cell_q, lev_q, top_q) = frame3 q (omega arith) (omega arith) in
      let (cell_n, lev_n, top_n) = frame3 new (omega arith) (omega arith) in
      let r =
        retry-Retried h2 g1 L G G2 C C2 lo hi lo' hi' q new b P Q h3 g3 d3 head' some_L level_new
          other frame3 k v full edit some_v cut cover reach tall up in
      let tags = g4 h2 g1 L G G2 C C2 lo hi lo' hi' q new b P Q h3 g3 d3 head' in
      let middle_run =
        split_done (insert_level btree_geo64 (insert_retry btree_geo64 (suc f))) head q L h1 new h2
          b.node head' h3 alloc some_new b.there b.slots.width run (cell_q ∙ b.there)
          (cell_n ∙ there_new) other in
      (
        head',
        r.h5,
        insert_retry_again (suc f) head k v L h h1 q b.node found there fill fresh head'
              (h4 h2 g1 L G G2 C C2 lo hi lo' hi' q new b P Q h3 g3 d3 head') middle_run
            ∙ r.run f,
        record {
          above = suc d3;
          tags = tags;
          tall = omega arith;
          tree = r.tree;
          spare = subst (Spare g3.lev) (sym r.pool) spare3;
          kept = λ x pos' lt.
              let (cell, lev, top) = same_old x pos' in
              let (cell3, lev3, top3) = frame3 x (omega arith) (omega arith) in
              let no : (x == q) ≡ false = elim (Bool-cases (x == q)) [
                | inl same ↦
                    let e : x ≡ q = ground arith in
                    let w = ap (λ y. g1.lev y) e in absurd (omega arith)
                | inr different ↦ different
              ] in
              (
                r.kept x (omega arith) (omega arith) ∙ cell ∙ frame x pos' lt,
                lev3 ∙ lev,
                ap (λ t. if x == q then word b.node 3 else t) (top3 ∙ top) ∙ rw no refl,
              );
        },
      )

  -- The level above has no memory.
  pub give_up :
      (f : ℕ) (h3 : Heap)
      → insert_level btree_geo64
          (insert_retry btree_geo64 f)
          head
          (word b.node 3 ∷ [])
          new
          (L + 1)
          h2
        ≡ ok (enomem, head) h3
      → (w : Node) → h3.cells new ≡ some w
      → insert_retry btree_geo64 (suc f) head (k ∷ []) v L h
        ≡ ok (enomem, head) (record h3 { cells = write h3.cells new none })
  give_up f h3 run w there3 =
      insert_retry_failed f head k v L h h1 q b.node found there fill fresh head
        (record h3 { cells = write h3.cells new none })
        (split_no_upper (insert_level btree_geo64 (insert_retry btree_geo64 f)) head q L h1 new h2
          b.node head h3 alloc some_new b.there b.slots.width run w there3)
