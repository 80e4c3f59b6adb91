-- ===== src/Btree/Deep/Runs.antt =====
-- The runs of `split` and of `btree_insert_level` on a full node.
use logfsprogs.Common.{
  ℕ, suc, ◌+◌, ◌≡◌, ◌≢◌, refl, sym, ◌∙◌, arith, false, none, some, ◌==◌, ◌&&◌, ltb, [], ◌∷◌, length,
}
use logfsprogs.Common.Outcome.{Cmd, ok, Errno, enomem}
use logfsprogs.Btree.Node.{
  Node, Ptr, Key, zero_node, btree_geo64, bkey, getpos, getfill, keycmp, is_eq,
}
use logfsprogs.Btree.Heap.{Heap, Head, write, free, btree_node_alloc}
use logfsprogs.Btree.Search.{find_level}
use logfsprogs.Btree.Insert.{split, split_odd, insert_level, insert_retry}
use logfsprogs.Btree.Slots.{word, bkey_word}
use logfsprogs.Btree.Small.{load_there, store_there, write_other}
use logfsprogs.Btree.Deep.Halves.{front_half, rear_half}

module _ (insert : Head → Key → ℕ → ℕ → Cmd Heap (Errno × Head)) (head : Head) (q : Ptr) (L : ℕ)
    (h1 : Heap) where
  pub split_no_node :
      (h2 : Heap)
      → btree_node_alloc h1 ≡ ok 0 h2
      → split insert btree_geo64 head q L h1 ≡ ok (enomem, head) h2
  unfolding split
  split_no_node h2 run = rw run refl

  module _ (new : Ptr) (h2 : Heap) (node : Node) (head' : Head) (h3 : Heap)
      (alloc : btree_node_alloc h1 ≡ ok new h2) (some_new : new ≢ 0)
      (there : h2.cells q ≡ some node) (width : length node ≡ 16) where
    middle_key : bkey btree_geo64 node 3 ≡ word node 3 ∷ []
    unfolding bkey
    middle_key = bkey_word node 3 (omega arith)

    pub split_no_upper :
        insert head (word node 3 ∷ []) new (L + 1) h2 ≡ ok (enomem, head') h3
        → (w : Node) → h3.cells new ≡ some w
        → split insert btree_geo64 head q L h1
          ≡ ok (enomem, head') (record h3 { cells = write h3.cells new none })
    unfolding split free
    split_no_upper run w there_new =
        let full : (new == 0) ≡ false = ground arith in
        let read = load_there q h2 node there in
        rw (alloc, full, read, middle_key, run, free, there_new) refl

    pub split_done :
        insert head (word node 3 ∷ []) new (L + 1) h2 ≡ ok (0, head') h3
        → h3.cells q ≡ some node
        → h3.cells new ≡ some zero_node
        → new ≢ q
        → split insert btree_geo64 head q L h1
          ≡ ok
              (0, head')
              (record h3 {
                cells =
                    write (write h3.cells new (some (front_half node))) q (some (rear_half node));
              })
    unfolding split split_odd
    split_done run there' there_new other =
        let full : (new == 0) ≡ false = ground arith in
        let read = load_there q h2 node there in
        let read' = load_there q h3 node there' in
        let read_new = load_there new h3 zero_node there_new in
        let kept =
          write_other h3.cells new q (some (front_half node)) (λ e. other (sym e)) ∙ there' in
        let wrote = store_there new h3 zero_node (front_half node) there_new in
        let wrote' =
          store_there q (record h3 { cells = write h3.cells new (some (front_half node)) }) node
            (rear_half node) kept in
        rw (alloc, full, read, middle_key, run, read', read_new, wrote, wrote') refl

-- The node is full and has not the key.
module _ (f : ℕ) (head : Head) (k : ℕ) (v : Ptr) (L : ℕ) (h h1 : Heap) (q : Ptr) (node : Node)
    (found : find_level btree_geo64 head (k ∷ []) L h ≡ ok q h1) (there : h1.cells q ≡ some node)
    (fill : getfill btree_geo64 node (getpos btree_geo64 node (k ∷ [])) ≡ 8)
    (fresh : (ltb (getpos btree_geo64 node (k ∷ [])) 8
        && is_eq (keycmp btree_geo64 node (getpos btree_geo64 node (k ∷ [])) (k ∷ [])))
      ≡ false)
    (head' : Head) (h4 : Heap) where
  pub insert_retry_again :
      split (insert_level btree_geo64 (insert_retry btree_geo64 f)) btree_geo64 head q L h1
        ≡ ok (0, head') h4
      → insert_retry btree_geo64 (suc f) head (k ∷ []) v L h
        ≡ insert_retry btree_geo64 f head' (k ∷ []) v L h4
  unfolding insert_retry
  insert_retry_again run =
      let read = load_there q h1 node there in rw (found, read, fill, fresh, run) refl

  pub insert_retry_failed :
      split (insert_level btree_geo64 (insert_retry btree_geo64 f)) btree_geo64 head q L h1
        ≡ ok (enomem, head') h4
      → insert_retry btree_geo64 (suc f) head (k ∷ []) v L h ≡ ok (enomem, head') h4
  unfolding insert_retry
  insert_retry_failed run =
      let read = load_there q h1 node there in rw (found, read, fill, fresh, run) refl
