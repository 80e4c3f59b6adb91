-- ===== src/Btree/Merged.antt =====
-- `btree_merge64` of two trees of one leaf: the target takes the pairs of the victim.
use logfsprogs.Common.{
  ℕ, zero, suc, ◌+◌, ◌-◌, ◌≤◌, ◌<◌, ◌≡◌, ◌≢◌, ◌⊎◌, inl, inr, refl, sym, ap, ◌∙◌, arith, true, false,
  ◌==◌, Bool-cases, if◌then◌else◌, [], ◌∷◌, some,
}
use mathlib.Core.Path.{subst}
use logfsprogs.Common.Outcome.{Returns, Returns-then}
use logfsprogs.Btree.Node.{Node, Ptr, btree_geo64, getpos}
use logfsprogs.Btree.Heap.{Heap, Head, write}
use logfsprogs.Btree.Insert.{insert_pair}
use logfsprogs.Btree.Remove.{btree_merge, merge_loop}
use logfsprogs.Btree.Head64.{btree_remove64}
use logfsprogs.Btree.Typed.{btree_merge64}
use logfsprogs.Btree.Slots.{word}
use logfsprogs.Btree.Leaf.{Leaf, update, insert_pair-Leaf}
use logfsprogs.Btree.Small.{Small, Single, write_self, write_other}
use logfsprogs.Btree.Rooted.{Dropped, root_lem}
use logfsprogs.Btree.Round.{last_lem, lookup_lem, insert_lem, Merged, Round, end_lem}

-- A pair of the victim goes to the target.
module _ (m : ℕ → ℕ) (c : ℕ) (p : Ptr) (m1 m2 : ℕ → ℕ) (c1 c2 : ℕ) (q : Ptr) (h : Heap)
    (node : Node) (r : Round m c p m1 m2 c1 c2 (record { node = q; height = 1 }) h)
    (some_root : q ≢ 0) (there : h.cells q ≡ some node) (a : Leaf m2 c2 node) (more : 0 < c2) where
  abbrev k : ℕ
  k = word node 0

  abbrev v : ℕ
  v = m2 k

  abbrev leaf' : Node
  leaf' = insert_pair btree_geo64 (k ∷ []) v (getpos btree_geo64 r.leaf (k ∷ [])) c1 r.leaf

  abbrev h' : Heap
  h' = record h { cells = write h.cells p (some leaf') }

  some_value : v ≢ 0
  some_value z = a.filled 0 more (sym (a.maps 0 more) ∙ z)

  free : m1 k ≡ 0
  free = elim (r.apart k) [ inl z ↦ z | inr z ↦ absurd (some_value z) ]

  given : m k ≡ v
  given = let none_has : (m1 k == 0) ≡ true = ground (arith, free) in r.both k ∙ rw none_has refl

  there' : h'.cells q ≡ some node
  there' = write_other h.cells p q (some leaf') r.other ∙ there

  next_Round :
      (victim : Head) (t : Heap)
      → Small (update m2 k 0) (c2 - 1) victim t
      → ((x : Ptr) → x ≢ q → t.cells x ≡ h'.cells x)
      → ((victim.node ≡ q) ⊎ (victim.node ≡ 0))
      → Round m c p (update m1 k v) (update m2 k 0) (c1 + 1) (c2 - 1) victim t
  next_Round victim t small frame root =
      let count = r.count in
      let room = r.room in
      let other = r.other in
      let some_p = r.some_root in
      record {
        some_root = r.some_root;
        leaf = leaf';
        there = frame p (λ e. other (sym e)) ∙ write_self h.cells p (some leaf');
        pairs = insert_pair-Leaf m1 c1 r.leaf r.pairs k v (omega arith) free some_value;
        some_pair = omega arith;
        rest = small;
        other = elim root [
          | inl same ↦ λ e. other (sym same ∙ e)
          | inr null ↦ λ e. some_p (sym e ∙ null)
        ];
        apart = λ x. elim (Bool-cases (x == k)) [
          | inl same ↦ inr (rw same refl)
          | inr ne ↦ rw ne (r.apart x)
        ];
        both = λ x. elim (Bool-cases (x == k)) [
          | inl same ↦
              let e : x ≡ k = ground arith in
              let no : (v == 0) ≡ false = ground (arith, some_value) in
              rw (same, no) (ap m e ∙ given)
          | inr ne ↦ rw ne (r.both x)
        ];
        count = omega arith;
        room = r.room;
      }

  Small' : Small m2 c2 (record { node = q; height = 1 }) h'
  Small' = inr (record {
    tall = refl;
    root = some_root;
    some_pair = more;
    leaf = node;
    there = there';
    pairs = a;
  })

  step_lem :
      (f : ℕ)
      → ((victim : Head) (t : Heap)
          → Round m c p (update m1 k v) (update m2 k 0) (c1 + 1) (c2 - 1) victim t
          → Returns
              (Merged m c p)
              (merge_loop btree_geo64 f (record { node = p; height = 1 }) victim t))
      → Returns (Merged m c p) (
          merge_loop btree_geo64
            (suc f)
            (record { node = p; height = 1 })
            (record { node = q; height = 1 })
            h)
  unfolding merge_loop btree_remove64
  step_lem f again =
      let count = r.count in
      let room = r.room in
      let last = last_lem m2 c2 q h node there a in
      let look = lookup_lem m2 c2 (record { node = q; height = 1 }) h r.rest k in
      let put =
        insert_lem m1 c1 p h r.leaf k v r.some_root r.there r.pairs (omega arith) free some_value in
      rw (last, look, put)
        (Returns-then (Dropped m2 c2 q h' node some_root there' a (update m2 k 0) v) (Merged m c p)
          (btree_remove64 (record { node = q; height = 1 }) k h') _
          (root_lem m2 c2 q h' node some_root there' a k some_value)
          (λ x t (value, small, frame, root). again x.1 t (
            next_Round x.1 t small frame
              (elim root [ inl same ↦ inl same | inr (none_left, freed) ↦ inr none_left ]))))

merge_loop_lem :
    (f : ℕ) (m : ℕ → ℕ) (c : ℕ) (p : Ptr) (m1 m2 : ℕ → ℕ) (c1 c2 : ℕ) (victim : Head) (h : Heap)
    → c2 < f
    → Round m c p m1 m2 c1 c2 victim h
    → Returns (Merged m c p) (merge_loop btree_geo64 f (record { node = p; height = 1 }) victim h)
merge_loop_lem zero m c p m1 m2 c1 c2 victim h enough r = absurd (omega arith)
merge_loop_lem (suc f) m c p m1 m2 c1 c2 victim h enough r = elim r.rest [
  | inl e ↦ end_lem m c p m1 m2 c1 c2 f victim h r e
  | inr t ↦
      let same : record { node = victim.node; height = 1 } ≡ victim =
        λ i. record { node = victim.node; height = sym t.tall i } in
      let r' = subst (λ d. Round m c p m1 m2 c1 c2 d h) (sym same) r in
      let pos = t.some_pair in
      subst
        (λ d.
          Returns (Merged m c p)
            (merge_loop btree_geo64 (suc f) (record { node = p; height = 1 }) d h))
        same
        (step_lem m c p m1 m2 c1 c2 victim.node h t.leaf r' t.root t.there t.pairs t.some_pair f
          (λ x u n. merge_loop_lem f m c p _ _ (c1 + 1) (c2 - 1) x u (omega arith) n))
]

-- Two maps without a common key, as one.
abbrev pub union : (ℕ → ℕ) → (ℕ → ℕ) → ℕ → ℕ
union m1 m2 k = if m1 k == 0 then m2 k else m1 k

-- For a target of one node and a victim of at most one other node, without a common key and with 8
-- pairs at most together, and fuel for more rounds than the victim has pairs: `btree_merge64` returns
-- 0, the target, with the same root, is then the union of both maps, and the victim is empty.
pub btree_merge64-union :
    (m1 m2 : ℕ → ℕ) (c1 c2 fuel : ℕ) (target victim : Head) (h : Heap)
    → Single m1 c1 target h
    → Small m2 c2 victim h
    → victim.node ≢ target.node
    → ((k : ℕ) → (m1 k ≡ 0) ⊎ (m2 k ≡ 0))
    → c1 + c2 ≤ 8
    → c2 < fuel
    → Returns (Merged (union m1 m2) (c1 + c2) target.node) (btree_merge64 fuel target victim h)
unfolding btree_merge64 btree_merge
btree_merge64-union m1 m2 c1 c2 fuel target victim h t small other apart room enough =
    let same : record { node = target.node; height = 1 } ≡ target =
      λ i. record { node = target.node; height = sym t.tall i } in
    let some_root : (target.node == 0) ≡ false = ground (arith, t.root) in
    rw some_root (
      subst
        (λ d.
          Returns (Merged (union m1 m2) (c1 + c2) target.node)
            (merge_loop btree_geo64 fuel d victim h))
        same
        (merge_loop_lem fuel (union m1 m2) (c1 + c2) target.node m1 m2 c1 c2 victim h enough
          (record {
            some_root = t.root;
            leaf = t.leaf;
            there = t.there;
            pairs = t.pairs;
            some_pair = t.some_pair;
            rest = small;
            other = other;
            apart = apart;
            both = λ k. refl;
            count = refl;
            room = room;
          })))
