-- ===== src/Btree/Removal.antt =====
-- `btree_remove64` on a tree of one leaf with 64-bit keys as a finite map.
use logfsprogs.Common.{
  ℕ, none, ◌-◌, ◌≤◌, ◌<◌, ◌≡◌, ◌≢◌, ◌⊎◌, inl, inr, refl, sym, ap, ◌∙◌, arith, true, ◌==◌,
  Bool-cases,
}
use mathlib.Core.Path.{subst}
use logfsprogs.Common.Outcome.{ok, Returns}
use logfsprogs.Btree.Node.{Ptr}
use logfsprogs.Btree.Heap.{Heap, Head, free}
use logfsprogs.Btree.Remove.{btree_remove}
use logfsprogs.Btree.Head64.{btree_remove64}
use logfsprogs.Btree.Slots.{word}
use logfsprogs.Btree.Leaf.{update}
use logfsprogs.Btree.Map.{Frame}
use logfsprogs.Btree.Small.{Small}
use logfsprogs.Btree.Rooted.{slot_of, missing_lem, zero_lem, root_lem}

-- The pair is gone from the map and from the tree, no cell but the root's was changed, and the tree
-- has the same root, or none and the old root was freed.
abbrev pub Taken : (ℕ → ℕ) → ℕ → Head → Heap → ℕ → ℕ → Ptr × Head → Heap → Type 0
Taken m c head h k v r t =
    (r.0 ≡ v)
    × Small (update m k 0) (c - 1) r.1 t
    × Frame head h t
    × ((r.1.node ≡ head.node) ⊎ ((r.1.node ≡ 0) × (t.cells head.node ≡ none)))

-- In a tree of at most one node, `btree_remove64` of a key that is in it returns its value, and the
-- tree is then the map without the pair. No node but the root is changed; the tree keeps its root, or
-- has none and the root was freed.
pub btree_remove64-Small :
    (m : ℕ → ℕ) (c : ℕ) (head : Head) (h : Heap) (k : ℕ)
    → Small m c head h
    → m k ≢ 0
    → Returns (Taken m c head h k (m k)) (btree_remove64 head k h)
btree_remove64-Small m c head h k (inl e) has = absurd (has (e.no_pairs k))
btree_remove64-Small m c head h k (inr t) has =
    let same : record { node = head.node; height = 1 } ≡ head =
      λ i. record { node = head.node; height = sym t.tall i } in
    subst (λ d. Returns (Taken m c d h k (m k)) (btree_remove64 d k h)) same
      (root_lem m c head.node h t.leaf t.root t.there t.pairs k has)

-- In a tree of at most one node with less than 8 pairs, `btree_remove64` of a key other than 0 that
-- is not in it gives NULL and changes nothing.
pub btree_remove64-missing :
    (m : ℕ → ℕ) (c : ℕ) (head : Head) (h : Heap) (k : ℕ)
    → Small m c head h
    → c < 8
    → m k ≡ 0
    → k ≢ 0
    → btree_remove64 head k h ≡ ok (0, head) h
unfolding btree_remove64 btree_remove
btree_remove64-missing m c head h k (inl e) room free some_key = rw e.low refl
btree_remove64-missing m c head h k (inr t) room free some_key =
    let same : record { node = head.node; height = 1 } ≡ head =
      λ i. record { node = head.node; height = sym t.tall i } in
    subst (λ d. btree_remove64 d k h ≡ ok (0, d) h) same
      (missing_lem m c head.node h t.leaf t.root t.there t.pairs k room free some_key)

-- In a tree of at most one node with 1 to 7 pairs that has no key 0, `btree_remove64` of key 0 gives
-- NULL, as for a missing key, but takes out the pair with the least key of all.
pub btree_remove64-zero :
    (m : ℕ → ℕ) (c : ℕ) (head : Head) (h : Heap)
    → Small m c head h
    → 0 < c
    → c < 8
    → m 0 ≡ 0
    → (k : ℕ) × (m k ≢ 0)
      × ((j : ℕ) → (m j ≡ 0) ⊎ (k ≤ j))
      × Returns (Taken m c head h k 0) (btree_remove64 head 0 h)
btree_remove64-zero m c head h (inl e) some_pair room free = let z = e.count in absurd (omega arith)
btree_remove64-zero m c head h (inr t) some_pair room free = (
  word t.leaf (c - 1),
  (λ z. t.pairs.filled (c - 1) (omega arith) (sym (t.pairs.maps (c - 1) (omega arith)) ∙ z)),
  (λ j. elim (Bool-cases (m j == 0)) [
    | inl none_has ↦ inl (ground arith)
    | inr has ↦
        let (p, lt, here) =
          slot_of m c head.node h t.leaf t.root t.there t.pairs j (ground arith) in
        elim (Bool-cases (p == c - 1)) [
          | inl last ↦ let w = ap (word t.leaf) (eq_of p (c - 1) last) in inr (omega arith)
          | inr inner ↦
              let s = t.pairs.sorted p (c - 1) (ground arith) (omega arith) in inr (omega arith)
        ]
  ]),
  (let same : record { node = head.node; height = 1 } ≡ head =
        λ i. record { node = head.node; height = sym t.tall i } in
      subst (λ d. Returns (Taken m c d h (word t.leaf (c - 1)) 0) (btree_remove64 d 0 h)) same
        (zero_lem m c head.node h t.leaf t.root t.there t.pairs room some_pair free)),
)
  where
    eq_of : (i j : ℕ) → (i == j) ≡ true → i ≡ j
    eq_of i j e = ground arith
