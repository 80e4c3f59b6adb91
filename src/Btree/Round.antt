-- ===== src/Btree/Round.antt =====
-- One round of `btree_merge64` of two trees of one leaf: the last pair, the state, the end.
use logfsprogs.Common.{
  ℕ, suc, ◌+◌, ◌≤◌, ◌<◌, ◌≡◌, ◌≢◌, ◌⊎◌, refl, ◌∙◌, arith, false, ◌==◌, if◌then◌else◌, [], ◌∷◌, some,
}
use mathlib.Core.Path.{subst}
use logfsprogs.Common.Outcome.{ok, Returns, Errno}
use logfsprogs.Btree.Node.{Node, Ptr, btree_geo64, bkey, getpos}
use logfsprogs.Btree.Heap.{Heap, Head, btree_init, write}
use logfsprogs.Btree.Search.{btree_last, last_loop, btree_lookup}
use logfsprogs.Btree.Insert.{btree_insert, insert_level, insert_pair}
use logfsprogs.Btree.Remove.{merge_loop}
use logfsprogs.Btree.Head64.{btree_lookup64}
use logfsprogs.Btree.Slots.{word, bkey_word}
use logfsprogs.Btree.Leaf.{Leaf}
use logfsprogs.Btree.Map.{retry_lem, btree_lookup64-Small}
use logfsprogs.Btree.Small.{Small, Single, Nothing, load_there}

same-Leaf :
    (m m' : ℕ → ℕ) (c : ℕ) (node : Node) → ((k : ℕ) → m' k ≡ m k) → Leaf m c node → Leaf m' c node
same-Leaf m m' c node same a = record {
  width = a.width;
  room = a.room;
  sorted = a.sorted;
  filled = a.filled;
  no_key = a.no_key;
  no_value = a.no_value;
  maps = λ j lt. same (word node j) ∙ a.maps j lt;
  only = λ k absent. same k ∙ a.only k absent;
}

pub last_lem :
    (m : ℕ → ℕ) (c : ℕ) (q : Ptr) (h : Heap) (node : Node)
    → h.cells q ≡ some node
    → Leaf m c node
    → btree_last btree_geo64 (record { node = q; height = 1 }) h ≡ ok (some (word node 0 ∷ [])) h
unfolding btree_last last_loop bkey
last_lem m c q h node there a =
    let read = load_there q h node there in
    let width = a.width in rw (read, bkey_word node 0 (omega arith)) refl

pub lookup_lem :
    (m : ℕ → ℕ) (c : ℕ) (head : Head) (h : Heap)
    → Small m c head h
    → (k : ℕ) → btree_lookup btree_geo64 head (k ∷ []) h ≡ ok (m k) h
unfolding btree_lookup64
lookup_lem m c head h t k = btree_lookup64-Small m c head h t k

pub insert_lem :
    (m : ℕ → ℕ) (c : ℕ) (p : Ptr) (h : Heap) (node : Node) (k v : ℕ)
    → p ≢ 0
    → h.cells p ≡ some node
    → Leaf m c node
    → c < 8
    → m k ≡ 0
    → v ≢ 0
    → btree_insert btree_geo64 (record { node = p; height = 1 }) (k ∷ []) v h
      ≡ ok
          (0, record { node = p; height = 1 })
          (record h {
            cells = write h.cells p (
                some
                  (insert_pair btree_geo64 (k ∷ []) v (getpos btree_geo64 node (k ∷ [])) c node));
          })
unfolding btree_insert insert_level
insert_lem m c p h node k v some_root there a room free some_value =
    let value : (v == 0) ≡ false = ground arith in
    rw value (retry_lem m c p h node 5 k v some_root there a room free)

-- The target has all pairs, the victim none.
abbrev pub Merged : (ℕ → ℕ) → ℕ → Ptr → Errno × Head × Head → Heap → Type 0
Merged m c p r t =
    (r.0 ≡ 0) × (r.1 ≡ record { node = p; height = 1 }) × Single m c r.1 t × (r.2 ≡ btree_init)

-- What is known when the loop starts a round.
pub record Round (m : ℕ → ℕ) (c : ℕ) (p : Ptr) (m1 m2 : ℕ → ℕ) (c1 c2 : ℕ) (victim : Head)
    (h : Heap) : Type 0 where
  pub some_root : p ≢ 0
  pub leaf : Node
  pub there : h.cells p ≡ some leaf
  pub pairs : Leaf m1 c1 leaf
  pub some_pair : 0 < c1
  pub rest : Small m2 c2 victim h
  pub other : victim.node ≢ p
  pub apart : (k : ℕ) → (m1 k ≡ 0) ⊎ (m2 k ≡ 0)
  pub both : (k : ℕ) → m k ≡ (if m1 k == 0 then m2 k else m1 k)
  pub count : c1 + c2 ≡ c
  pub room : c ≤ 8

pub end_lem :
    (m : ℕ → ℕ) (c : ℕ) (p : Ptr) (m1 m2 : ℕ → ℕ) (c1 c2 f : ℕ) (victim : Head) (h : Heap)
    → Round m c p m1 m2 c1 c2 victim h
    → Nothing m2 c2 victim
    → Returns
        (Merged m c p)
        (merge_loop btree_geo64 (suc f) (record { node = p; height = 1 }) victim h)
unfolding merge_loop btree_last btree_init
end_lem m c p m1 m2 c1 c2 f victim h r e =
    let none_left = e.count in
    let count = r.count in
    let size : c1 ≡ c = omega arith in
    rw e.low (
      refl,
      refl,
      record {
        tall = refl;
        root = r.some_root;
        some_pair = subst (λ x. 0 < x) size r.some_pair;
        leaf = r.leaf;
        there = r.there;
        pairs =
            subst (λ x. Leaf m x r.leaf) size
              (same-Leaf m1 m c1 r.leaf (λ k. ground (arith, r.both k, e.no_pairs k)) r.pairs);
      },
      (λ i. record { node = e.rootless i; height = e.low i }),
    )
