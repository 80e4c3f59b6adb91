-- ===== src/Btree/Deep/Rise.antt =====
-- Insertion at a level: there is room, or the split goes on in the level above.
use logfsprogs.Common.{
  ℕ, suc, ◌+◌, ◌-◌, ◌≤◌, ◌<◌, ◌≡◌, ◌≢◌, refl, sym, ap, ◌∙◌, arith, false, ◌==◌, ltb, [], ◌∷◌,
}
use mathlib.Core.Path.{subst}
use logfsprogs.Common.Outcome.{Cmd, Errno}
use logfsprogs.Btree.Node.{Ptr, Key, btree_geo64}
use logfsprogs.Btree.Heap.{Heap, Head}
use logfsprogs.Btree.Insert.{insert_level, insert_retry}
use logfsprogs.Btree.Small.{write_other}
use logfsprogs.Btree.Deep.{Tags, map-Block}
use logfsprogs.Btree.Deep.Room.{Edit}
use logfsprogs.Btree.Deep.Level.{Finding}
use logfsprogs.Btree.Deep.Spare.{Spare}
use logfsprogs.Btree.Deep.Insert.{insert_retry_lem, with_pair, with_pair-Tree}
use logfsprogs.Btree.Deep.Full.{Undone, Succeeds}

pub insert_level_lem :
    (retry : Head → Key → ℕ → ℕ → Cmd Heap (Errno × Head)) (head : Head) (key : Key) (v L : ℕ)
    (h : Heap)
    → v ≢ 0
    → L ≤ head.height
    → insert_level btree_geo64 retry head key v L h ≡ retry head key v L h
unfolding insert_level
insert_level_lem retry head key v L h some_v tall =
    let full : (v == 0) ≡ false = ground arith in
    let no_growth : ltb head.height L ≡ false = ground arith in rw (full, no_growth) refl

module _ (h : Heap) (g : Tags) (d L : ℕ) (G G2 : ℕ → ℕ → Type 0) (C C2 : ℕ → ℕ → Ptr → Type 0)
    (lo hi : ℕ) (head : Head) (k : ℕ) (v : Ptr) (edit : Edit G C G2 C2 k v) (some_v : v ≢ 0)
    (some_L : 0 < L) (tall : head.height ≡ L + d) (spare : Spare g.lev h.pool)
    (fd : Finding k h g d L G C lo hi head.node) where
  high : head.height - L ≡ d
  high = omega arith

  pub room_Succeeds :
      fd.found.block.count < 8
      → (f : ℕ)
      → Succeeds h g d L G G2 C C2 lo hi head (insert_retry btree_geo64 (suc f) head (k ∷ []) v L h)
  room_Succeeds room f = (
    head,
    with_pair h g d L G G2 C C2 lo hi head k v fd high edit room some_v,
    insert_retry_lem h g d L G G2 C C2 lo hi head k v fd high edit room some_v f,
    record {
      above = d;
      tags = g;
      tall = tall;
      tree = with_pair-Tree h g d L G G2 C C2 lo hi head k v fd high edit room some_v;
      spare = subst (Spare g.lev) (sym fd.found.pool) spare;
      kept = λ x pos lt.
          let level = fd.found.block.level in
          let ne : x ≢ fd.q = λ e. let w = ap (λ y. g.lev y) e in absurd (omega arith) in
          (write_other fd.h1.cells fd.q x _ ne ∙ fd.found.frame x (omega arith) ne, refl, refl);
    },
  )

  pub found_spare : Spare g.lev fd.h1.pool
  found_spare = subst (Spare g.lev) (sym fd.found.pool) spare

  pub found_run :
      (h' : Heap) → h'.cells ≡ fd.h1.cells → Spare g.lev h'.pool → Undone h g d L G C lo hi head h'
  found_run h' same spare' = record {
    tree =
        fd.found.focus h'.cells g G C (λ x le ne. (ap (λ c. c x) same, refl, refl))
          (λ s up x lt apart c. c) (λ a c apart e. e)
          (map-Block fd.h1.cells h'.cells g g L G G C C fd.found.lo' fd.found.hi' fd.q
            fd.found.block (ap (λ c. c fd.q) same, refl, refl) (λ s up x le lt top c. c)
            (λ a c le top e. e));
    spare = spare';
    kept = λ x pos lt.
        let level = fd.found.block.level in
        let ne : x ≢ fd.q = λ e. let w = ap (λ y. g.lev y) e in absurd (omega arith) in
        ap (λ c. c x) same ∙ fd.found.frame x (omega arith) ne;
  }
