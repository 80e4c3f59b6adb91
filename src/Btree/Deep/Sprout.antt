-- ===== src/Btree/Deep/Sprout.antt =====
-- A full root is split: the tree grows by a level.
use logfsprogs.Common.{
  ℕ, zero, suc, ◌+◌, ◌-◌, ◌≤◌, ◌<◌, ◌≡◌, ◌≢◌, inl, refl, sym, ap, ◌∙◌, arith, false, none, some,
  ◌==◌, ==_refl, [], ◌∷◌,
}
use mathlib.Core.Path.{subst}
use logfsprogs.Common.Outcome.{ok}
use logfsprogs.Btree.Node.{Ptr, zero_node, btree_geo64}
use logfsprogs.Btree.Heap.{Heap, Head, write, btree_node_alloc}
use logfsprogs.Btree.Insert.{insert_level, insert_retry}
use logfsprogs.Btree.Search.{find_level}
use logfsprogs.Btree.Slots.{word}
use logfsprogs.Btree.Small.{write_self, write_other}
use logfsprogs.Btree.Deep.{Tags, Block, IsGap, Same, map-Block}
use logfsprogs.Btree.Deep.Place.{getfill-Slots}
use logfsprogs.Btree.Deep.Room.{Edit}
use logfsprogs.Btree.Deep.Parts.{full_Slots}
use logfsprogs.Btree.Deep.Level.{Finding, find_here, find_lem}
use logfsprogs.Btree.Deep.Split.{node_of, Before, After, GapBefore, GapAfter, split-Edit}
use logfsprogs.Btree.Deep.Spare.{Spare, with_level, without_level_Spare}
use logfsprogs.Btree.Deep.Insert.{find_level-Finding}
use logfsprogs.Btree.Deep.Above.{new_tags, new_node, not_found, same_old, node_Block, node_count}
use logfsprogs.Btree.Deep.Retry.{h4, g4, Slot4, stored-Tree}
use logfsprogs.Btree.Deep.Full.{Succeeds, Fails, finish, give_up}
use logfsprogs.Btree.Deep.Rise.{room_Succeeds}
use logfsprogs.Btree.Deep.Root.{root_node, root-Block, insert_level_failed, insert_level_grown}

-- Nothing is asked.
abbrev Any : ℕ → ℕ → Type 0
Any a c = Unit {0}

Any-IsGap : (G : ℕ → ℕ → Type 0) → IsGap G → IsGap (λ a c. G a c × Any a c)
Any-IsGap G cut = record {
  join = λ a b c (x, f) (y, f'). (cut.join a b c x y, tt);
  front = λ a b c le le' (x, f). (cut.front a b c le le' x, tt);
  rear = λ a b c le le' (x, f). (cut.rear a b c le le' x, tt);
}

module _ (h : Heap) (g : Tags) (L : ℕ) (G G2 : ℕ → ℕ → Type 0) (C C2 : ℕ → ℕ → Ptr → Type 0)
    (lo hi : ℕ) (head : Head) (k : ℕ) (v : Ptr) (edit : Edit G C G2 C2 k v) (some_v : v ≢ 0)
    (some_L : 0 < L) (tall : head.height ≡ L) (cut : IsGap G) (flat : (a : ℕ) → G a a) (f : ℕ)
    (from : lo ≤ k) (to : k < hi) (t : Block h.cells g L G C lo hi head.node) (full : t.count ≡ 8)
    (new : Ptr) (h2 : Heap) (alloc : btree_node_alloc h ≡ ok new h2) (some_new : new ≢ 0)
    (low : g.lev new ≡ 0) (cells : h2.cells ≡ write h.cells new (some zero_node)) where
  abbrev last : ℕ
  last = word t.node 7

  last_range : (lo ≤ last) × (last < hi)
  last_range =
      let s = full_Slots h.cells h.cells g g L G C lo hi head.node t full in
      let a = s.low in
      let b = s.high in
      let falls = s.sorted 0 7 (omega arith) (omega arith) in (omega arith, omega arith)

  last_gap : G lo last
  last_gap = subst (λ c. G lo (word t.node (c - 1))) full t.gap

  -- The root from its last key on.
  from_last : Block h.cells g L G C last hi head.node
  from_last =
      let s = t.slots in
      let e : t.count - 1 ≡ 7 = omega arith in
      let w = ap (word t.node) e in
      record {
        some_node = t.some_node;
        level = t.level;
        end = t.end;
        node = t.node;
        there = t.there;
        count = t.count;
        slots = record {
          width = s.width;
          some_pair = s.some_pair;
          room = s.room;
          sorted = s.sorted;
          filled = s.filled;
          no_key = s.no_key;
          no_value = s.no_value;
          low = omega arith;
          high = s.high;
        };
        entries = t.entries;
        gap = subst (G last) (sym w) (flat last);
      }

  abbrev fd : Finding last h g zero L G C last hi head.node
  unfolding find_here
  fd = find_here last h g L G C last hi head.node from_last (omega arith) last_range.1

  abbrev tags : Tags
  tags = new_tags g new L hi

  b : Block h2.cells tags L G C last hi head.node
  unfolding find_here
  b = node_Block h g last zero L G C last hi head.node fd some_L new h2 low cells

  count : b.count ≡ 8
  unfolding b find_here from_last
  count = node_count h g last zero L G C last hi head.node fd some_L new h2 low cells ∙ full

  fresh_node : (h2.cells new ≡ some zero_node) × (tags.lev new ≡ L) × (tags.top new ≡ hi)
  unfolding find_here
  fresh_node = new_node h g last zero L G C last hi head.node fd some_L new h2 low cells

  other : new ≢ head.node
  unfolding find_here
  other = not_found h g last zero L G C last hi head.node fd some_L new h2 low cells

  old : (x : Ptr) → 0 < g.lev x → Same h.cells g h2.cells tags x
  unfolding find_here
  old = same_old h g last zero L G C last hi head.node fd some_L new h2 low cells

  found : find_level btree_geo64 head (k ∷ []) L h ≡ ok head.node h
  unfolding find_here
  found =
      find_level-Finding h g zero L G C lo hi head k
        (find_here k h g L G C lo hi head.node t from to) (omega arith)

  abbrev GapB : ℕ → ℕ → Type 0
  GapB = GapBefore h2.cells tags L G C last hi head.node new b Any Any

  abbrev SlotB : ℕ → ℕ → Ptr → Type 0
  SlotB = Before h2.cells tags L G C last hi head.node new b Any Any

  abbrev GapA : ℕ → ℕ → Type 0
  GapA = GapAfter h2.cells tags L G C last hi head.node new b Any Any

  abbrev SlotA : ℕ → ℕ → Ptr → Type 0
  SlotA = After h2.cells tags L G C last hi head.node new b Any Any

  upper-Edit : Edit GapB SlotB GapA SlotA (word b.node 3) new
  upper-Edit =
      split-Edit h2.cells tags L G C last hi head.node new b Any Any count some_new other
        fresh_node.0 fresh_node.1 fresh_node.2 flat

  middle_range : (last < word b.node 3) × (word b.node 3 < hi)
  middle_range =
      let s = full_Slots h2.cells h2.cells tags tags L G C last hi head.node b count in
      let a = s.low in
      let c = s.high in
      let one = s.sorted 3 7 (omega arith) (omega arith) in
      let two = s.sorted 0 3 (omega arith) (omega arith) in (omega arith, omega arith)

  node_same : b.node ≡ t.node
  node_same =
      let level = t.level in ap node_of (sym b.there ∙ (old head.node (omega arith)).0 ∙ t.there)

  -- No memory for the new root.
  pub sprout_Fails :
      (h3 : Heap)
      → btree_node_alloc h2 ≡ ok 0 h3
      → h3.cells ≡ h2.cells
      → Spare tags.lev h3.pool
      → Fails h g zero L G G2 C C2 lo hi head
          (insert_retry btree_geo64 (suc (suc f)) head (k ∷ []) v L h)
  sprout_Fails h3 alloc3 same spare =
      let level = t.level in
      let freed : Heap = record h3 { cells = write h3.cells new none } in
      let kept : (x : Ptr) → 0 < g.lev x → freed.cells x ≡ h.cells x = λ x pos.
        let ne : x ≢ new = λ e. let w = ap (λ y. g.lev y) e in absurd (omega arith) in
        write_other h3.cells new x none ne ∙ ap (λ c. c x) same ∙ (old x pos).0 in
      (
        freed,
        give_up h h h2 g tags zero L G G2 C C2 lo hi last hi head.node new b Any Any head k v edit
            some_v to found alloc some_new fresh_node.0 fresh_node.1 other some_L count old
            (omega arith) (λ x pos lt. refl) cut (suc f) h3
            (insert_level_failed (insert_retry btree_geo64 (suc f)) head (word b.node 3 ∷ []) new
              (L + 1) h2 some_new (omega arith) h3 alloc3)
            zero_node (ap (λ c. c new) same ∙ fresh_node.0),
        record {
          tree =
              map-Block h.cells freed.cells g g L G G C C lo hi head.node t
                (kept head.node (omega arith), refl, refl) (λ s up x le lt top c. c)
                (λ a c le top e. e);
          spare = without_level_Spare g.lev new L h3.pool low spare;
          kept = λ x pos lt. kept x pos;
        },
      )

  module _ (r : Ptr) (h3 : Heap) (alloc3 : btree_node_alloc h2 ≡ ok r h3) (some_r : r ≢ 0)
      (low_r : tags.lev r ≡ 0) (cells3 : h3.cells ≡ write h2.cells r (some zero_node))
      (spare3 : (l : ℕ) → Spare (with_level tags.lev r l) h3.pool) where
    abbrev root_heap : Heap
    root_heap = record h3 { cells = write h3.cells r (some (root_node (word b.node 7) head.node)) }

    abbrev root_tags : Tags
    root_tags = new_tags tags r (suc L) hi

    abbrev root_head : Head
    root_head = record { node = r; height = head.height + 1 }

    cells_other : (x : Ptr) → x ≢ r → h3.cells x ≡ h2.cells x
    cells_other x ne = ap (λ c. c x) cells3 ∙ write_other h2.cells r x (some zero_node) ne

    root_other : (x : Ptr) → 0 < tags.lev x → Same h2.cells tags root_heap.cells root_tags x
    root_other x pos =
        let ne : x ≢ r = λ e. let w = ap (λ y. tags.lev y) e in absurd (omega arith) in
        let no : (x == r) ≡ false = ground arith in
        (write_other h3.cells r x _ ne ∙ cells_other x ne, rw no refl, rw no refl)

    root : Block root_heap.cells root_tags (suc L) GapB SlotB lo hi r
    root =
        let (above, below) = last_range in
        let (under, over) = middle_range in
        let w = ap (λ n. word n 7) node_same in
        root-Block root_heap.cells root_tags (suc L) GapB SlotB lo hi (word b.node 7) head.node r
          some_r (rw (==_refl r) refl) (rw (==_refl r) refl) (write_self h3.cells r _) t.some_node
          (omega arith) (omega arith)
          (subst (λ y. SlotB y hi head.node) (sym w) (b, (λ le lt. (refl, refl)), (λ e. refl)))
          (subst (λ y. GapB lo y) (sym w) (last_gap, inl (omega arith), tt))

    root_fd :
        Finding (word b.node 3) root_heap root_tags zero (suc L) GapB SlotB lo hi root_head.node
    root_fd =
        let (above, below) = last_range in
        let (under, over) = middle_range in
        find_here (word b.node 3) root_heap root_tags (suc L) GapB SlotB lo hi r root (omega arith)
          over

    root_room : root_fd.found.block.count < 8
    unfolding root_fd find_here root root-Block
    root_room = omega arith

    root_run :
        insert_level btree_geo64
          (insert_retry btree_geo64 (suc f))
          head
          (word b.node 3 ∷ [])
          new
          (L + 1)
          h2
        ≡ insert_retry btree_geo64 (suc f) root_head (word b.node 3 ∷ []) new (suc L) root_heap
    root_run =
        let level = t.level in
        let at : tags.lev head.node ≡ L = (old head.node (omega arith)).1 ∙ level in
        let ne : head.node ≢ r = λ e. let w = ap (λ y. tags.lev y) e in absurd (omega arith) in
        let there = cells_other head.node ne ∙ b.there in
        let there_r = ap (λ c. c r) cells3 ∙ write_self h2.cells r (some zero_node) in
        let fill = getfill-Slots last hi b.count b.node b.slots 0 (omega arith) ∙ count in
        let e : L + 1 ≡ suc L = omega arith in
        rw e (
          insert_level_grown (insert_retry btree_geo64 (suc f)) head (word b.node 3 ∷ []) new
            (suc L) h2 some_new (omega arith) r h3 b.node alloc3 some_r t.some_node there there_r
            b.slots.width fill)

    pub sprout_Succeeds :
        Succeeds h g zero L G G2 C C2 lo hi head
          (insert_retry btree_geo64 (suc (suc f)) head (k ∷ []) v L h)
    sprout_Succeeds =
        let level = t.level in
        let (head', h5, run, done) =
          room_Succeeds root_heap root_tags zero (suc L) GapB GapA SlotB SlotA lo hi root_head
            (word b.node 3) new upper-Edit some_new (omega arith) (omega arith) (spare3 (suc L))
            root_fd root_room f in
        let frame3 : (x : Ptr)
            → 0 < tags.lev x
            → tags.lev x < suc L
            → Same h2.cells tags h5.cells done.tags x =
          λ x pos lt.
            let (cell, lev, top) = root_other x pos in
            let (cell', lev', top') = done.kept x (omega arith) (omega arith) in
            (cell' ∙ cell, lev' ∙ lev, top' ∙ top) in
        finish h h h2 g tags zero L G G2 C C2 lo hi last hi head.node new b Any Any head k v edit
          some_v to found alloc some_new fresh_node.0 fresh_node.1 other some_L count old
          (omega arith) (λ x pos lt. refl) cut f h5 done.tags done.above head' (root_run ∙ run)
          frame3 done.spare done.tall (λ s up le lt. tt) (λ a c up le lt any. tt)
          (find_lem k
            (h4 h2 tags L G G2 C C2 lo hi last hi head.node new b Any Any h5 done.tags done.above
              head')
            (g4 h2 tags L G G2 C C2 lo hi last hi head.node new b Any Any h5 done.tags done.above
              head')
            done.above (suc L) GapA
            (Slot4 h2 tags L G G2 C C2 lo hi last hi head.node new b Any Any h5 done.tags done.above
              head')
            lo hi head'.node
            (stored-Tree h2 tags L G G2 C C2 lo hi last hi head.node new b Any Any h5 done.tags
              done.above head' some_L fresh_node.1 other frame3 head'.node done.tree)
            (Any-IsGap G cut) from to)
