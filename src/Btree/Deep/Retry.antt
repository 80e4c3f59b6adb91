-- ===== src/Btree/Deep/Retry.antt =====
-- After the level above has the pair for the new node: both halves are stored, and the insertion is
-- tried again.
use logfsprogs.Common.{
  ℕ, suc, ◌+◌, ◌-◌, ◌≤◌, ◌<◌, ◌≡◌, ◌≢◌, ◌⊎◌, inl, inr, refl, sym, ap, ◌∙◌, arith, false, some, ◌==◌,
  if◌then◌else◌, [], ◌∷◌,
}
use logfsprogs.Common.Outcome.{ok}
use logfsprogs.Btree.Node.{Ptr, btree_geo64, getfill}
use logfsprogs.Btree.Heap.{Heap, Head, write}
use logfsprogs.Btree.Insert.{insert_retry}
use logfsprogs.Btree.Slots.{word}
use logfsprogs.Btree.Small.{write_self, write_other}
use logfsprogs.Btree.Deep.{Tags, Block, Tree, IsGap, Same, map-Block, map-Tree}
use logfsprogs.Btree.Deep.Place.{getfill-Slots}
use logfsprogs.Btree.Deep.Room.{Edit}
use logfsprogs.Btree.Deep.Level.{Finding}
use logfsprogs.Btree.Deep.Halves.{front_half, rear_half}
use logfsprogs.Btree.Deep.Parts.{front_Slots, rear_Slots, full_Slots}
use logfsprogs.Btree.Deep.Split.{halved, halved_tags, After, GapAfter, node_of}
use logfsprogs.Btree.Deep.Again.{find_again}
use logfsprogs.Btree.Deep.Insert.{insert_retry_lem, with_pair, with_pair-Tree}

module _ (h2 : Heap) (g1 : Tags) (L : ℕ) (G G2 : ℕ → ℕ → Type 0) (C C2 : ℕ → ℕ → Ptr → Type 0)
    (lo hi lo' hi' : ℕ) (q new : Ptr) (b : Block h2.cells g1 L G C lo' hi' q) (P Q : ℕ → ℕ → Type 0)
    (h3 : Heap) (g3 : Tags) (d : ℕ) (head : Head) where
  abbrev Slot : ℕ → ℕ → Ptr → Type 0
  Slot = After h2.cells g1 L G C lo' hi' q new b P Q

  abbrev Gap : ℕ → ℕ → Type 0
  Gap = GapAfter h2.cells g1 L G C lo' hi' q new b P Q

  abbrev key : ℕ
  key = word b.node 3

  abbrev pub h4 : Heap
  h4 = record h3 {
    cells = write (write h3.cells new (some (front_half b.node))) q (some (rear_half b.node));
  }

  abbrev pub g4 : Tags
  g4 = record { lev = g3.lev; top = λ x. if x == q then key else g3.top x }

  abbrev pub Slot4 : ℕ → ℕ → Ptr → Type 0
  Slot4 s up x = Block h4.cells g4 L G C s up x × (P s up → (x ≡ q) ⊎ (x ≡ new))

  module _ (some_L : 0 < L) (level_new : g1.lev new ≡ L) (other : new ≢ q)
      (frame : (x : Ptr) → 0 < g1.lev x → g1.lev x < suc L → Same h2.cells g1 h3.cells g3 x) where
    -- A node of the level or below is as it was, but for the halves.
    same_cell :
        (x : Ptr)
        → h3.cells x ≡ h2.cells x
        → h4.cells x ≡ halved h2.cells g1 L G C lo' hi' q new b P Q x
    unfolding write
    same_cell x e =
        ap
          (λ t.
            if x == q
            then some (rear_half b.node)
            else if x == new
            then some (front_half b.node)
            else t)
          e

    other_cell : (x : Ptr) → x ≢ q → x ≢ new → h4.cells x ≡ h3.cells x
    other_cell x nq nn =
        write_other (write h3.cells new (some (front_half b.node))) q x (some (rear_half b.node)) nq
        ∙ write_other h3.cells new x (some (front_half b.node)) nn

    pub stored-Tree :
        (p : Ptr)
        → Tree h3.cells g3 d (suc L) Gap Slot lo hi p
        → Tree h4.cells g4 d (suc L) Gap Slot4 lo hi p
    stored-Tree p t =
        map-Tree h3.cells h4.cells g3 g4 d (suc L) Gap Gap Slot Slot4 lo hi p t
          (λ x le.
            let level_q = b.level in
            let (cq, lq, tq) = frame q (omega arith) (omega arith) in
            let (cn, ln, tn) = frame new (omega arith) (omega arith) in
            let nq : x ≢ q = λ e. let w = ap (λ y. g3.lev y) e in absurd (omega arith) in
            let nn : x ≢ new = λ e. let w = ap (λ y. g3.lev y) e in absurd (omega arith) in
            let no : (x == q) ≡ false = ground arith in (other_cell x nq nn, refl, rw no refl))
          (λ s up x le lt top (b1, near).
            let level = b1.level in
            let (cell, lev, end) = frame x (omega arith) (omega arith) in
            (
              map-Block (halved h2.cells g1 L G C lo' hi' q new b P Q) h4.cells
                  (halved_tags h2.cells g1 L G C lo' hi' q new b P Q) g4 L G G C C s up x b1
                  (same_cell x cell, lev, ap (λ t. if x == q then key else t) end)
                  (λ s' up' y le' lt' top' c. c) (λ a c le' top' e. e),
              near,
            ))
          (λ a c le top e. e)

    -- Both halves have 4 pairs.
    half_count :
        (full : b.count ≡ 8) (x : Ptr)
        → (x ≡ q) ⊎ (x ≡ new)
        → getfill btree_geo64 (node_of (h4.cells x)) 0 ≡ 4
    half_count full x (inl e) =
        let s = full_Slots h2.cells h2.cells g1 g1 L G C lo' hi' q b full in
        let cell =
          write_self (write h3.cells new (some (front_half b.node))) q (some (rear_half b.node)) in
        ap (λ y. getfill btree_geo64 (node_of (h4.cells y)) 0) e
        ∙ ap (λ c. getfill btree_geo64 (node_of c) 0) cell
        ∙ getfill-Slots lo' key 4 (rear_half b.node) (rear_Slots lo' hi' b.node s) 0 (omega arith)
    half_count full x (inr e) =
        let s = full_Slots h2.cells h2.cells g1 g1 L G C lo' hi' q b full in
        let cell =
          write_other (write h3.cells new (some (front_half b.node))) q new
            (some (rear_half b.node)) other
          ∙ write_self h3.cells new (some (front_half b.node)) in
        ap (λ y. getfill btree_geo64 (node_of (h4.cells y)) 0) e
        ∙ ap (λ c. getfill btree_geo64 (node_of c) 0) cell
        ∙ getfill-Slots key hi' 4 (front_half b.node) (front_Slots lo' hi' b.node s) 0 (omega arith)

    -- The second try meets a node with room.
    pub record Retried (k : ℕ) (v : Ptr) : Type 1 where
      pub h5 : Heap
      pub run : (f : ℕ) → insert_retry btree_geo64 (suc f) head (k ∷ []) v L h4 ≡ ok (0, head) h5
      pub tree : Tree h5.cells g4 (suc d) L G2 C2 lo hi head.node
      pub pool : h5.pool ≡ h3.pool
      pub kept : (x : Ptr) → 0 < g1.lev x → g1.lev x < L → h5.cells x ≡ h2.cells x

    pub retry-Retried :
        (k : ℕ) (v : Ptr) (full : b.count ≡ 8)
        → Edit G C G2 C2 k v
        → v ≢ 0
        → IsGap G
        → ((s up : ℕ) → s ≤ k → k < up → P s up)
        → ((a c up : ℕ) → a ≤ k → k < c → Q a c → P c up)
        → head.height ≡ suc L + d
        → Finding k h4 g4 d (suc L) Gap Slot4 lo hi head.node
        → Retried k v
    retry-Retried k v full edit some_v cut cover reach tall up =
        let again =
          find_again h4 g4 k d L G Gap C Slot4 lo hi head.node up (λ s end x c. c.0) (λ a c e. e.0)
            cut (λ x. (x ≡ q) ⊎ (x ≡ new)) (λ s end x le lt c. c.1 (cover s end le lt))
            (λ a c end x le lt e c'. c'.1 (reach a c end le lt e.1)) in
        let fd = again.0.fd in
        let fb = fd.found.block in
        let count : fb.count ≡ 4 =
          sym (getfill-Slots fd.found.lo' fd.found.hi' fb.count fb.node fb.slots 0 (omega arith))
          ∙ ap (λ c. getfill btree_geo64 (node_of c) 0) (sym fb.there ∙ again.0.same)
          ∙ half_count full fd.q again.1 in
        let room : fb.count < 8 = omega arith in
        let high : head.height - L ≡ suc d = omega arith in
        record {
          h5 = with_pair h4 g4 (suc d) L G G2 C C2 lo hi head k v fd high edit room some_v;
          run = insert_retry_lem h4 g4 (suc d) L G G2 C C2 lo hi head k v fd high edit room some_v;
          tree = with_pair-Tree h4 g4 (suc d) L G G2 C C2 lo hi head k v fd high edit room some_v;
          pool = fd.found.pool;
          kept = λ x pos lt.
              let level_q = b.level in
              let level_f = fb.level in
              let (cell, lev, end) = frame x pos (omega arith) in
              let nq : x ≢ q = λ e. let w = ap (λ y. g1.lev y) e in absurd (omega arith) in
              let nn : x ≢ new = λ e. let w = ap (λ y. g1.lev y) e in absurd (omega arith) in
              let nf : x ≢ fd.q = λ e. let w = ap (λ y. g3.lev y) e in absurd (omega arith) in
              write_other fd.h1.cells fd.q x _ nf
              ∙ fd.found.frame x (omega arith) nf
              ∙ other_cell x nq nn
              ∙ cell;
        }
