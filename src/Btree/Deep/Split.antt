-- ===== src/Btree/Deep/Split.antt =====
-- A full node is split: its pairs go to two nodes, and the level above gets a pair for the new one.
use logfsprogs.Common.{
  ℕ, ◌-◌, ◌≤◌, ◌<◌, ◌≡◌, ◌≢◌, ◌⊎◌, inl, inr, refl, sym, ap, ◌∙◌, arith, false, Option, none, some,
  ◌==◌, ==_refl, if◌then◌else◌,
}
use mathlib.Core.Path.{subst}
use logfsprogs.Btree.Node.{Node, Ptr, zero_node, btree_geo64, getfill}
use logfsprogs.Btree.Heap.{write}
use logfsprogs.Btree.Slots.{word}
use logfsprogs.Btree.Leaf.{word-replicate}
use logfsprogs.Btree.Small.{write_self, write_other}
use logfsprogs.Btree.Deep.{Tags, Block, map-Block}
use logfsprogs.Btree.Deep.Place.{getfill-Slots}
use logfsprogs.Btree.Deep.Room.{Edit}
use logfsprogs.Btree.Deep.Halves.{front_half, rear_half}
use logfsprogs.Btree.Deep.Parts.{front_Block, rear_Block, full_Slots}

-- The gap has not the key.
abbrev pub Away : ℕ → ℕ → ℕ → Type 0
Away k a b = (b ≤ k) ⊎ (k < a)

abbrev pub node_of : Option Node → Node
node_of none = zero_node
node_of (some n) = n

-- A node of the tree is not empty.
pub zero_Block :
    (cells : Ptr → Option Node) (g : Tags) (L : ℕ) (G : ℕ → ℕ → Type 0) (C : ℕ → ℕ → Ptr → Type 0)
    (lo hi : ℕ) (x : Ptr)
    → Block cells g L G C lo hi x
    → cells x ≢ some zero_node
unfolding zero_node
zero_Block cells g L G C lo hi x b e =
    let same_node : b.node ≡ zero_node = ap node_of (sym b.there ∙ e) in
    let some_pair = b.slots.some_pair in
    b.slots.filled 0 some_pair (ap (λ n. word n 8) same_node ∙ word-replicate 16 8)

-- `P` says for which ranges the slot is one of the two nodes, `Q` what else is known of a gap.
module _ (cells : Ptr → Option Node) (g : Tags) (L : ℕ) (G : ℕ → ℕ → Type 0)
    (C : ℕ → ℕ → Ptr → Type 0) (lo' hi' : ℕ) (q new : Ptr) (b : Block cells g L G C lo' hi' q)
    (P Q : ℕ → ℕ → Type 0) where
  abbrev pub middle : ℕ
  middle = word b.node 3

  -- The cells and tags with both halves.
  abbrev pub halved : Ptr → Option Node
  halved = write (write cells new (some (front_half b.node))) q (some (rear_half b.node))

  abbrev pub halved_tags : Tags
  halved_tags = record { lev = g.lev; top = λ x. if x == q then middle else g.top x }

  -- The slots of the level above before the split and after it.
  abbrev pub Before : ℕ → ℕ → Ptr → Type 0
  Before s up x =
      Block cells g L G C s up x
      × (s ≤ middle → middle < up → (x ≡ q) × (s ≡ lo'))
      × (P s up → x ≡ q)

  abbrev pub After : ℕ → ℕ → Ptr → Type 0
  After s up x = Block halved halved_tags L G C s up x × (P s up → (x ≡ q) ⊎ (x ≡ new))

  abbrev pub GapBefore : ℕ → ℕ → Type 0
  GapBefore a c = G a c × Away middle a c × Q a c

  abbrev pub GapAfter : ℕ → ℕ → Type 0
  GapAfter a c = G a c × Q a c

  module _ (full : b.count ≡ 8) (some_new : new ≢ 0) (other : new ≢ q)
      (there_new : cells new ≡ some zero_node) (level_new : g.lev new ≡ L)
      (end_new : g.top new ≡ hi') (none : (a : ℕ) → G a a) where
    bounds : (lo' < middle) × (middle < hi')
    bounds =
        let s = full_Slots cells cells g g L G C lo' hi' q b full in
        let low = s.low in
        let high = s.high in
        let one = s.sorted 3 7 (omega arith) (omega arith) in
        let two = s.sorted 0 3 (omega arith) (omega arith) in (omega arith, omega arith)

    not_old :
        (s up : ℕ) (x : Ptr) → (up ≤ middle) ⊎ (middle < s) → Block cells g L G C s up x → x ≢ q
    not_old s up x apart b1 e =
        let same_node : b1.node ≡ b.node = ap node_of (sym b1.there ∙ ap cells e ∙ b.there) in
        let same_end : up ≡ hi' = sym b1.end ∙ ap (λ y. g.top y) e ∙ b.end in
        let count : b1.count ≡ 8 =
          sym (getfill-Slots s up b1.count b1.node b1.slots 0 (omega arith))
          ∙ ap (λ n. getfill btree_geo64 n 0) same_node
          ∙ getfill-Slots lo' hi' b.count b.node b.slots 0 (omega arith)
          ∙ full in
        let f = full_Slots cells cells g g L G C lo' hi' q b full in
        let falls = f.sorted 3 7 (omega arith) (omega arith) in
        let low = b1.slots.low in
        let last : b1.count - 1 ≡ 7 = omega arith in
        let w = ap (word b1.node) last ∙ ap (λ n. word n 7) same_node in
        let (under, over) = bounds in elim apart [ inl le ↦ omega arith | inr lt ↦ omega arith ]

    not_new : (s up : ℕ) (x : Ptr) → Block cells g L G C s up x → x ≢ new
    not_new s up x b1 e = zero_Block cells g L G C s up x b1 (ap cells e ∙ there_new)

    cells_new : halved new ≡ some (front_half b.node)
    cells_new =
        write_other (write cells new (some (front_half b.node))) q new (some (rear_half b.node))
          other
        ∙ write_self cells new (some (front_half b.node))

    cells_other : (x : Ptr) → x ≢ q → x ≢ new → halved x ≡ cells x
    cells_other x nq nn =
        write_other (write cells new (some (front_half b.node))) q x (some (rear_half b.node)) nq
        ∙ write_other cells new x (some (front_half b.node)) nn

    top_other : (x : Ptr) → x ≢ q → halved_tags.top x ≡ g.top x
    top_other x nq = let no : (x == q) ≡ false = ground arith in rw no refl

    other_After :
        (s up : ℕ) (x : Ptr) → s < up → (up ≤ middle) ⊎ (middle < s) → Before s up x → After s up x
    other_After s up x lt apart (b1, here, near) =
        let nq = not_old s up x apart b1 in
        let nn = not_new s up x b1 in
        (
          map-Block cells halved g halved_tags L G G C C s up x b1
              (cells_other x nq nn, refl, top_other x nq) (λ s' up' y le' lt' top' c. c)
              (λ a c le' top' h. h),
          λ p. absurd (nq (near p)),
        )

    cut_After :
        (s up : ℕ) (x : Ptr)
        → s < middle
        → middle < up
        → Before s up x
        → After s middle x × After middle up new
    cut_After s up x lt lt' (b1, here, near) =
        let (e, e') = here (omega arith) lt' in
        let same_end : up ≡ hi' = sym b1.end ∙ ap (λ y. g.top y) e ∙ b.end in
        let rear =
          rear_Block cells halved g halved_tags L G C lo' hi' q b full b.level (rw (==_refl q) refl)
            (write_self (write cells new (some (front_half b.node))) q (some (rear_half b.node))) in
        let front =
          front_Block cells halved g halved_tags L G C lo' hi' q b full new some_new none level_new
            (top_other new other ∙ end_new) cells_new in
        (
          (
            subst (λ y. Block halved halved_tags L G C y middle x) (sym e')
                (subst (λ y. Block halved halved_tags L G C lo' middle y) (sym e) rear),
            λ p. inl e,
          ),
          (
            subst (λ y. Block halved halved_tags L G C middle y new) (sym same_end) front,
            λ p. inr refl,
          ),
        )

    -- What the split asks of the level above.
    pub split-Edit : Edit GapBefore Before GapAfter After middle new
    split-Edit = record {
      other = other_After;
      cut = cut_After;
      other_gap = λ a c apart (have, away, more). (have, more);
      cut_gap = λ a c le lt (have, away, more).
          absurd (elim away [ inl below ↦ omega arith | inr above ↦ omega arith ]);
      new = λ up x lt (b1, here, near).
          let (e, e') = here (omega arith) lt in let (under, over) = bounds in omega arith;
    }
