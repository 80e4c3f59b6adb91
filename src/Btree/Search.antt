-- ===== src/Btree/Search.antt =====
-- The descent through the tree: `btree_last`, `btree_lookup` and `find_level`.
use logfsprogs.Common.{ℕ, zero, suc, ◌+◌, ◌-◌, ◌||◌, Option, none, some, ◌==◌, if◌then◌else◌}
use logfsprogs.Common.Outcome.{Cmd, pure, halt, abort, fault, ◌>>=◌, ◌>>◌}
use logfsprogs.Btree.Node.{Geo, Ptr, null, Key, Node, bkey, bval, setkey, keycmp, getpos, is_eq}
use logfsprogs.Btree.Heap.{Heap, Head, load, store}

-- `for ( ; height > 1; height--) node = bval(geo, node, 0);`
unfoldable pub last_loop : Geo → ℕ → Ptr → Cmd Heap Ptr
last_loop geo zero node = pure node
last_loop geo (suc h) node = do n ← load node; last_loop geo h (bval geo n 0)

unfoldable pub btree_last : Geo → Head → Cmd Heap (Option Key)
unfolding last_loop load bkey bval
btree_last geo head = if head.height == 0 then pure none else do
  node ← last_loop geo (head.height - 1) head.node
  n ← load node
  pure (some (bkey geo n 0))

-- `for (i = 0; i < no_pairs; i++) if (keycmp(geo, node, i, key) == 0) return bval(geo, node, i);`
unfoldable pub leaf_lookup : Geo → Node → Key → ℕ → ℕ → Option Ptr
unfolding keycmp bval
leaf_lookup geo node key zero i = none
leaf_lookup geo node key (suc r) i =
    let rest = leaf_lookup geo node key r (i + 1) in
    if is_eq (keycmp geo node i key) then some (bval geo node i) else rest

abbrev pub or_null : Option Ptr → Ptr
or_null none = null
or_null (some p) = p

unfoldable pub lookup_loop : Geo → Key → ℕ → Ptr → Cmd Heap Ptr
unfolding leaf_lookup load getpos bval
lookup_loop geo key zero node =
    if node == null
    then pure null
    else do n ← load node; pure (or_null (leaf_lookup geo n key geo.no_pairs 0))
lookup_loop geo key (suc h) node = do
  n ← load node
  if getpos geo n key == geo.no_pairs
      then pure null
      else if bval geo n (getpos geo n key) == null
      then pure null
      else lookup_loop geo key h (bval geo n (getpos geo n key))

-- NULL where the key is not in the tree.
unfoldable pub btree_lookup : Geo → Head → Key → Cmd Heap Ptr
unfolding lookup_loop
btree_lookup geo head key =
    if head.height == 0 then pure null else lookup_loop geo key (head.height - 1) head.node

-- Where `i` is 0 the code writes key -1, in front of the node, before `BUG_ON(i < 0)`.
unfoldable pub update_last : Geo → Ptr → Node → Key → ℕ → Cmd Heap Ptr
update_last geo node n key zero = halt fault
update_last geo node n key (suc i) = store node (setkey geo n key i) >> pure (bval geo n i)

unfoldable pub find_loop : Geo → Key → ℕ → Ptr → Cmd Heap Ptr
unfolding update_last store load getpos bval setkey
find_loop geo key zero node = if node == null then halt abort else pure node
find_loop geo key (suc h) node = do
  n ← load node
  next ←
      if (getpos geo n key == geo.no_pairs) || (bval geo n (getpos geo n key) == 0)
      then update_last geo node n key (getpos geo n key)
      else pure (bval geo n (getpos geo n key))
  find_loop geo key h next

unfoldable pub find_level : Geo → Head → Key → ℕ → Cmd Heap Ptr
unfolding find_loop
find_level geo head key level = find_loop geo key (head.height - level) head.node
