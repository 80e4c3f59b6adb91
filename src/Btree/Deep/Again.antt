-- ===== src/Btree/Deep/Again.antt =====
-- `find_level` where more is known of the slots of the level above.
use logfsprogs.Common.{ℕ, suc, ◌+◌, ◌-◌, ◌≤◌, ◌<◌, inl, inr, sym, arith, [], ◌∷◌}
use mathlib.Core.Path.{subst}
use logfsprogs.Btree.Node.{Ptr, btree_geo64, getpos}
use logfsprogs.Btree.Heap.{Heap}
use logfsprogs.Btree.Slots.{word}
use logfsprogs.Btree.Deep.{Tags, Block, IsGap, bound, getpos-Slots, map-Block}
use logfsprogs.Btree.Deep.Find.{weaken_Found}
use logfsprogs.Btree.Deep.Lower.{kept_word}
use logfsprogs.Btree.Deep.Level.{Finding, Below, pick_Below, lower_Below}

module _ (h : Heap) (g : Tags) (k d L : ℕ) (G G' : ℕ → ℕ → Type 0) (C D : ℕ → ℕ → Ptr → Type 0)
    (lo hi : ℕ) (p : Ptr) (up : Finding k h g d (suc L) G' D lo hi p)
    (entry : (s end : ℕ) (x : Ptr) → D s end x → Block h.cells g L G C s end x)
    (gap : (a b : ℕ) → G' a b → G a b) (cut : IsGap G) where
  abbrev weak : Finding k h g d (suc L) G (Block h.cells g L G C) lo hi p
  weak = record {
    q = up.q;
    h1 = up.h1;
    goes = up.goes;
    found =
        weaken_Found h up.h1 g k d (suc L) G' G D (Block h.cells g L G C) lo hi p up.q entry gap
          up.found;
  }

  -- The node that is found has what is known of the slot that leads to it.
  pub find_again :
      (R : Ptr → Type 0)
      → ((s end : ℕ) (x : Ptr) → s ≤ k → k < end → D s end x → R x)
      → ((a b end : ℕ) (x : Ptr) → a ≤ k → k < b → G' a b → D b end x → R x)
      → (r : Below k h g d L G C lo hi p) × R r.fd.q
  unfolding map-Block weaken_Found pick_Below lower_Below
  find_again R inside behind =
      let f = up.found in
      let b = f.block in
      let s = b.slots in
      let some_pair = s.some_pair in
      let last = b.count - 1 in
      elim (getpos-Slots b.slots k f.to) [
        | inl (inner, from, to) ↦
            let pos = getpos btree_geo64 b.node (k ∷ []) in
            (
              pick_Below k h g d L G C lo hi p weak inner from to,
              inside (word b.node pos) (bound b.node f.hi' pos) (word b.node (8 + pos)) from to
                  (b.entries pos inner),
            )
        | inr (past, below) ↦
            let value =
              kept_word h up.h1 g k d L G C lo hi p up.q weak.found cut below (8 + last)
                (λ z. absurd (omega arith)) in
            (
              lower_Below k h g d L G C lo hi p weak cut past below,
              subst R (sym value) (
                  behind f.lo' (word b.node last) (bound b.node f.hi' last) (word b.node (8 + last))
                    f.from below b.gap (b.entries last (omega arith))),
            )
      ]
