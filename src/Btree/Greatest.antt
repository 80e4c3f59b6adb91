-- ===== src/Btree/Greatest.antt =====
-- `btree_last64` on a tree of at most one node: the greatest key.
use logfsprogs.Common.{ℕ, ◌≤◌, ◌≡◌, ◌≢◌, ◌⊎◌, inl, inr, refl, sym, ap, ◌∙◌, arith, ◌==◌, Bool-cases}
use mathlib.Core.Path.{subst}
use logfsprogs.Common.Outcome.{ok}
use logfsprogs.Btree.Heap.{Heap, Head}
use logfsprogs.Btree.Search.{btree_last}
use logfsprogs.Btree.Head64.{btree_last64}
use logfsprogs.Btree.Slots.{word}
use logfsprogs.Btree.Small.{Small}
use logfsprogs.Btree.Rooted.{slot_of}
use logfsprogs.Btree.Round.{last_lem}

-- `k` is the greatest key of the map, or 0 and the map is empty.
abbrev pub Greatest : (ℕ → ℕ) → ℕ → Type 0
Greatest m k = ((m k ≢ 0) × ((j : ℕ) → (m j ≡ 0) ⊎ (j ≤ k))) ⊎ ((k ≡ 0) × ((j : ℕ) → m j ≡ 0))

-- In a tree of at most one node `btree_last64` returns the greatest key, or 0 for the empty tree, and
-- changes nothing.
pub btree_last64-Greatest :
    (m : ℕ → ℕ) (c : ℕ) (head : Head) (h : Heap)
    → Small m c head h
    → (k : ℕ) × (btree_last64 head h ≡ ok k h) × Greatest m k
unfolding btree_last64 btree_last
btree_last64-Greatest m c head h (inl e) = (0, rw e.low refl, inr (refl, e.no_pairs))
btree_last64-Greatest m c head h (inr t) =
    let a = t.pairs in
    let k = word t.leaf 0 in
    let same : record { node = head.node; height = 1 } ≡ head =
      λ i. record { node = head.node; height = sym t.tall i } in
    let last =
      subst (λ d. btree_last64 d h ≡ ok k h) same
        (rw (last_lem m c head.node h t.leaf t.there a) refl) in
    (
      k,
      last,
      inl (
        (λ z. a.filled 0 t.some_pair (sym (a.maps 0 t.some_pair) ∙ z)),
        λ j. elim (Bool-cases (m j == 0)) [
          | inl none_has ↦ inl (ground arith)
          | inr has ↦
              let (p, lt, here) =
                slot_of m c head.node h t.leaf t.root t.there a j (ground arith) in
              elim (Bool-cases (p == 0)) [
                | inl first ↦
                    let z : p ≡ 0 = ground arith in let w = ap (word t.leaf) z in inr (omega arith)
                | inr later ↦ let s = a.sorted 0 p (ground arith) lt in inr (omega arith)
              ]
        ],
      ),
    )
