-- ===== src/Btree/Insert.antt =====
-- `btree_insert`: growth of the tree, splitting of full nodes, insertion at one level.
use logfsprogs.Common.{ℕ, zero, suc, ◌+◌, ◌-◌, ◌*◌, ◌/◌, ◌%◌, not, ◌&&◌, ◌==◌, ltb, if◌then◌else◌}
use logfsprogs.Common.Outcome.{
  Cmd, pure, halt, abort, fault, out_of_fuel, Errno, enomem, ◌>>=◌, ◌>>◌,
}
use logfsprogs.Btree.Node.{
  Geo, Ptr, null, Key, Node, bkey, setkey, setval, clearpair, copypair, keycmp, getpos, getfill,
  is_eq,
}
use logfsprogs.Btree.Heap.{Heap, Head, load, store, free, btree_node_alloc}
use logfsprogs.Btree.Search.{find_level}

-- The old root's last key and address in the first slot of the new root. An empty root has no last
-- key: the code would read in front of the node.
root_over : Geo → Ptr → Ptr → Cmd Heap (Unit {0})
root_over geo new old = do
  o ← load old
  n ← load new
  if getfill geo o 0 == 0
      then halt fault
      else store new (setval geo (setkey geo n (bkey geo o (getfill geo o 0 - 1)) 0) old 0)

unfoldable pub btree_grow : Geo → Head → Cmd Heap (Errno × Head)
unfolding root_over load store btree_node_alloc getfill setval setkey bkey
btree_grow geo head = do
  node ← btree_node_alloc
  if node == null then pure (enomem, head) else do
    if head.node == null then pure tt else root_over geo node head.node
    pure (0, record { node = node; height = head.height + 1 })

-- The rounds of the loop in `split` from `i` on: the lower half of `node` goes to `new`, the upper
-- half to the front.
unfoldable pub split_loop : Geo → ℕ → ℕ → ℕ → Node → Node → Node × Node
unfolding copypair clearpair
split_loop geo half zero i new node = (new, node)
split_loop geo half (suc r) i new node =
    split_loop geo half r (i + 1) (copypair geo new i node i)
      (clearpair geo (copypair geo node i node (i + half)) (i + half))

-- `if (fill & 1)`: the odd last pair, moved to slot `fill / 2`.
unfoldable pub split_odd : Geo → ℕ → Node → Node
unfolding copypair clearpair
split_odd geo fill node =
    if fill % 2 == 1
    then clearpair geo (copypair geo node (fill / 2) node (fill - 1)) (fill - 1)
    else node

-- `insert` is `btree_insert_level`, which `split` calls for the level above.
unfoldable pub split :
    (Head → Key → ℕ → ℕ → Cmd Heap (Errno × Head)) → Geo → Head → Ptr → ℕ → Cmd Heap (Errno × Head)
split insert geo head node level = do
  new ← btree_node_alloc
  if new == null then pure (enomem, head) else do
    n ← load node
    (err, head') ← insert head (bkey geo n (geo.no_pairs / 2 - 1)) new (level + 1)
    if not (err == 0) then (do free new; pure (err, head')) else do
      m ← load node
      w ← load new
      let halves = split_loop geo (geo.no_pairs / 2) (geo.no_pairs / 2) 0 w m
      store new halves.0
      store node (split_odd geo geo.no_pairs halves.1)
      pure (0, head')

-- `for (i = fill; i > pos; i--)` with `r = i - pos` rounds left
unfoldable pub shift_up : Geo → ℕ → ℕ → Node → Node
unfolding copypair
shift_up geo pos zero node = node
shift_up geo pos (suc r) node = shift_up geo pos r (copypair geo node (pos + suc r) node (pos + r))

-- The part of `btree_insert_level` behind the test for a full node.
unfoldable pub insert_pair : Geo → Key → ℕ → ℕ → ℕ → Node → Node
unfolding shift_up setkey setval
insert_pair geo key val pos fill node =
    setval geo (setkey geo (shift_up geo pos (fill - pos) node) key pos) val pos

-- The part of `btree_insert_level` up to the label `retry`.
unfoldable pub insert_level :
    Geo
    → (Head → Key → ℕ → ℕ → Cmd Heap (Errno × Head))
    → Head
    → Key
    → ℕ
    → ℕ
    → Cmd Heap (Errno × Head)
insert_level geo retry head key val level = if val == 0 then halt abort else do
  (err, head') ← if ltb head.height level then btree_grow geo head else pure (0, head)
  if err == 0 then retry head' key val level else pure (err, head')

-- From the label `retry` on. Each call of `split` and each `goto retry` takes one unit of fuel.
unfoldable pub insert_retry : Geo → ℕ → Head → Key → ℕ → ℕ → Cmd Heap (Errno × Head)
insert_retry geo zero head key val level = halt out_of_fuel
insert_retry geo (suc f) head key val level = do
  node ← find_level geo head key level
  n ← load node
  let pos = getpos geo n key
  let fill = getfill geo n pos
  if ltb pos fill && is_eq (keycmp geo n pos key)
      then halt abort
      else if fill == geo.no_pairs
      then (do
        (err, head') ← split (insert_level geo (insert_retry geo f)) geo head node level
        if err == 0 then insert_retry geo f head' key val level else pure (err, head'))
      else (do store node (insert_pair geo key val pos fill n); pure (0, head))

-- A call on each level and one retry on each is the most that an insertion makes.
unfoldable pub btree_insert : Geo → Head → Key → ℕ → Cmd Heap (Errno × Head)
unfolding insert_level insert_retry split split_loop split_odd insert_pair shift_up btree_grow
    find_level load store free btree_node_alloc getpos getfill keycmp bkey copypair clearpair
btree_insert geo head key val =
    insert_level geo (insert_retry geo (2 * head.height + 4)) head key val 1
