-- ===== src/Btree/Deep/Above.antt =====
-- The level above a full node, with what its split needs to know of its slots.
use logfsprogs.Common.{
  ℕ, suc, ◌≤◌, ◌<◌, ◌≡◌, ◌≢◌, inl, inr, refl, sym, ap, ◌∙◌, arith, false, some, ◌==◌, ==_refl,
  if◌then◌else◌,
}
use logfsprogs.Btree.Node.{Ptr, zero_node}
use logfsprogs.Btree.Heap.{Heap, write}
use logfsprogs.Btree.Slots.{word}
use logfsprogs.Btree.Small.{write_self, write_other}
use logfsprogs.Btree.Deep.{Tags, Block, Tree, IsGap, Same, map-Block}
use logfsprogs.Btree.Deep.Parts.{full_Slots}
use logfsprogs.Btree.Deep.Level.{Finding, Below}
use logfsprogs.Btree.Deep.Split.{Away, Before, GapBefore}
use logfsprogs.Btree.Deep.Spare.{with_level}

-- The key is in the range.
abbrev pub Inside : ℕ → ℕ → ℕ → Type 0
Inside k s up = (s ≤ k) × (k < up)

-- The tags with those of a new node.
abbrev pub new_tags : Tags → Ptr → ℕ → ℕ → Tags
new_tags g new L end = record {
  lev = with_level g.lev new L;
  top = λ x. if x == new then end else g.top x;
}

pub IsGap-Away : (G : ℕ → ℕ → Type 0) (k : ℕ) → IsGap G → IsGap (λ a c. G a c × Away k a c)
IsGap-Away G k cut = record {
  join = λ a b c (x, f) (y, f'). (
    cut.join a b c x y,
    elim f [
      | inr above ↦ inr above
      | inl below ↦ elim f' [ inl below' ↦ inl below' | inr above' ↦ absurd (omega arith) ]
    ],
  );
  front = λ a b c le le' (x, f).
      (cut.front a b c le le' x, elim f [ inl below ↦ inl (omega arith) | inr above ↦ inr above ]);
  rear = λ a b c le le' (x, f).
      (cut.rear a b c le le' x, elim f [ inl below ↦ inl below | inr above ↦ inr (omega arith) ]);
}

pub IsGap-both :
    (G : ℕ → ℕ → Type 0) (k l : ℕ) → IsGap G → IsGap (λ a c. G a c × Away k a c × Away l a c)
IsGap-both G k l cut =
    let one = IsGap-Away G k cut in
    let two = IsGap-Away G l cut in
    record {
      join = λ a b c (x, f, e) (y, f', e'). (
        cut.join a b c x y,
        (one.join a b c (x, f) (y, f')).1,
        (two.join a b c (x, e) (y, e')).1,
      );
      front = λ a b c le le' (x, f, e). (
        cut.front a b c le le' x,
        (one.front a b c le le' (x, f)).1,
        (two.front a b c le le' (x, e)).1,
      );
      rear = λ a b c le le' (x, f, e). (
        cut.rear a b c le le' x,
        (one.rear a b c le le' (x, f)).1,
        (two.rear a b c le le' (x, e)).1,
      );
    }

module _ (h : Heap) (g : Tags) (k d L : ℕ) (G : ℕ → ℕ → Type 0) (C : ℕ → ℕ → Ptr → Type 0)
    (lo hi : ℕ) (p : Ptr) (fd : Finding k h g d L G C lo hi p) (some_L : 0 < L) (new : Ptr)
    (h2 : Heap) (low : g.lev new ≡ 0)
    (cells : h2.cells ≡ write fd.h1.cells new (some zero_node)) where
  abbrev pub g1 : Tags
  g1 = new_tags g new L fd.found.hi'

  same_node : (x : Ptr) → x ≢ new → Same fd.h1.cells g h2.cells g1 x
  same_node x ne =
      let no : (x == new) ≡ false = ground arith in
      (
        ap (λ c. c x) cells ∙ write_other fd.h1.cells new x (some zero_node) ne,
        rw no refl,
        rw no refl,
      )

  pub new_node : (h2.cells new ≡ some zero_node) × (g1.lev new ≡ L) × (g1.top new ≡ fd.found.hi')
  new_node = (
    ap (λ c. c new) cells ∙ write_self fd.h1.cells new (some zero_node),
    rw (==_refl new) refl,
    rw (==_refl new) refl,
  )

  pub not_found : new ≢ fd.q
  not_found e = let level = fd.found.block.level in let w = ap (λ y. g.lev y) e in omega arith

  pub same_old : (x : Ptr) → 0 < g.lev x → Same fd.h1.cells g h2.cells g1 x
  same_old x pos = same_node x (λ e. let w = ap (λ y. g.lev y) e in absurd (omega arith))

  pub node_Block : Block h2.cells g1 L G C fd.found.lo' fd.found.hi' fd.q
  unfolding map-Block
  node_Block =
      map-Block fd.h1.cells h2.cells g g1 L G G C C fd.found.lo' fd.found.hi' fd.q fd.found.block
        (same_node fd.q (λ e. not_found (sym e))) (λ s up x le lt top c. c) (λ a c le top e. e)

  pub node_count : node_Block.count ≡ fd.found.block.count
  unfolding node_Block
  node_count = refl

-- There is a level above.
module _ (h : Heap) (g : Tags) (k d L : ℕ) (G : ℕ → ℕ → Type 0) (C : ℕ → ℕ → Ptr → Type 0)
    (lo hi : ℕ) (p : Ptr) (below : Below k h g d L G C lo hi p) (some_L : 0 < L) (new : Ptr)
    (h2 : Heap) (low : g.lev new ≡ 0)
    (cells : h2.cells ≡ write below.fd.h1.cells new (some zero_node))
    (full : below.fd.found.block.count ≡ 8) where
  abbrev lo' : ℕ
  lo' = below.fd.found.lo'

  abbrev hi' : ℕ
  hi' = below.fd.found.hi'

  abbrev tags : Tags
  tags = g1 h g k (suc d) L G C lo hi p below.fd some_L new h2 low cells

  abbrev b : Block h2.cells tags L G C lo' hi' below.fd.q
  b = node_Block h g k (suc d) L G C lo hi p below.fd some_L new h2 low cells

  pub middle_inside : (lo' < word b.node 3) × (word b.node 3 < hi')
  middle_inside =
      let count : b.count ≡ 8 =
        node_count h g k (suc d) L G C lo hi p below.fd some_L new h2 low cells ∙ full in
      let s = full_Slots h2.cells h2.cells tags tags L G C lo' hi' below.fd.q b count in
      let bottom = s.low in
      let top = s.high in
      let one = s.sorted 3 7 (omega arith) (omega arith) in
      let two = s.sorted 0 3 (omega arith) (omega arith) in (omega arith, omega arith)

  pub above-Tree :
      Tree h2.cells tags d
        (suc L)
        (GapBefore h2.cells tags L G C lo' hi' below.fd.q new b (Inside k) (Away k))
        (Before h2.cells tags L G C lo' hi' below.fd.q new b (Inside k) (Away k))
        lo
        hi
        p
  above-Tree =
      let f = below.fd.found in
      let from = f.from in
      let to = f.to in
      let (under, over) = middle_inside in
      below.above h2.cells tags
        (GapBefore h2.cells tags L G C lo' hi' below.fd.q new b (Inside k) (Away k))
        (Before h2.cells tags L G C lo' hi' below.fd.q new b (Inside k) (Away k))
        (λ x le.
          same_old h g k (suc d) L G C lo hi p below.fd some_L new h2 low cells x (omega arith))
        (λ s up x lt apart b1.
          let level = b1.level in
          let ne : x ≢ below.fd.q = λ e.
            let end = sym b1.end ∙ ap (λ y. g.top y) e ∙ f.block.end in
            elim apart [ inl le ↦ absurd (omega arith) | inr le ↦ absurd (omega arith) ] in
          let (cell, lev, end) =
            same_old h g k (suc d) L G C lo hi p below.fd some_L new h2 low cells x (omega arith) in
          (
            map-Block h.cells h2.cells g tags L G G C C s up x b1
                (cell ∙ f.frame x (omega arith) ne, lev, end) (λ s' up' y le' lt' top' c. c)
                (λ a c le' top' e. e),
            (λ le lt'. elim apart [
              | inl le' ↦ absurd (omega arith)
              | inr le' ↦ absurd (omega arith)
            ]),
            (λ (le, lt'). elim apart [
              | inl le' ↦ absurd (omega arith)
              | inr le' ↦ absurd (omega arith)
            ]),
          ))
        (λ a c apart e. (
          e,
          elim apart [ inl le ↦ inl (omega arith) | inr le ↦ inr (omega arith) ],
          elim apart [ inl le ↦ inl (omega arith) | inr le ↦ inr (omega arith) ],
        ))
        (b, (λ le lt. (refl, refl)), (λ e. refl))
