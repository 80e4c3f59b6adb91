-- ===== src/Btree/Remove.antt =====
-- `btree_remove` with merging and stealing between neighbours, and `btree_merge` of two trees.
use logfsprogs.Common.{
  ℕ, zero, suc, ◌+◌, ◌-◌, ◌*◌, ◌/◌, not, ◌&&◌, ◌||◌, none, some, ◌==◌, ltb, leb, if◌then◌else◌,
}
use logfsprogs.Common.Outcome.{Cmd, pure, halt, abort, fault, out_of_fuel, Errno, ◌>>=◌, ◌>>◌}
use logfsprogs.Btree.Node.{
  Geo, Ptr, null, Key, Node, bkey, bval, setkey, setval, clearpair, copypair, keycmp, getpos,
  getfill, is_eq, node_words,
}
use logfsprogs.Btree.Heap.{Heap, Head, btree_init, load, store, free}
use logfsprogs.Btree.Search.{find_level, btree_last, btree_lookup}
use logfsprogs.Btree.Insert.{btree_insert}

-- A key argument: the caller's own words, or a slot of a node, which later writes to it change.
pub data KeyRef : Type 0 where
  words : Key → KeyRef
  slot : Ptr → ℕ → KeyRef

unfoldable pub read_key : Geo → KeyRef → Cmd Heap Key
unfolding load bkey
read_key geo (words k) = pure k
read_key geo (slot p i) = do n ← load p; pure (bkey geo n i)

unfoldable pub btree_shrink : Geo → Head → ℕ → Cmd Heap Head
unfolding load free bval
btree_shrink geo head fill =
    if (fill == 0) || ((fill == 1) && ltb 1 head.height)
    then (do
      n ← load head.node
      free head.node
      pure (record { node = bval geo n 0; height = head.height - 1 }))
    else pure head

-- `for (i = rfill - 1; i >= 0; i--)`: every pair of `right` moves up by `k`; `r = i + 1`.
unfoldable pub move_up : Geo → ℕ → ℕ → Node → Node
unfolding copypair
move_up geo k zero right = right
move_up geo k (suc r) right = move_up geo k r (copypair geo right (r + k) right r)

-- `for (; i < …; i++)`: `r` pairs of `src` from slot `i` on are copied to slot `j` of `dst` on.
unfoldable pub copy_pairs : Geo → ℕ → Node → ℕ → Node → ℕ → Node
unfolding copypair
copy_pairs geo zero dst j src i = dst
copy_pairs geo (suc r) dst j src i = copy_pairs geo r (copypair geo dst j src i) (j + 1) src (i + 1)

-- The same within one node, towards the front.
unfoldable pub shift_down : Geo → ℕ → ℕ → ℕ → Node → Node
unfolding copypair
shift_down geo zero j i node = node
shift_down geo (suc r) j i node = shift_down geo r (j + 1) (i + 1) (copypair geo node j node i)

unfoldable pub clear_pairs : Geo → ℕ → ℕ → Node → Node
unfolding clearpair
clear_pairs geo zero i node = node
clear_pairs geo (suc r) i node = clear_pairs geo r (i + 1) (clearpair geo node i)

-- The last `k` pairs of `left` go to the front of `right`.
steal_l : Geo → Ptr → ℕ → Ptr → ℕ → Ptr → ℕ → ℕ → Cmd Heap (Unit {0})
steal_l geo left lfill right rfill parent lpos k = do
  l ← load left
  r ← load right
  p ← load parent
  store right (copy_pairs geo k (move_up geo k rfill r) 0 l (lfill - k))
  store parent (setkey geo p (bkey geo l (lfill - k - 1)) lpos)
  store left (clear_pairs geo k (lfill - k) l)

-- The first `k` pairs of `right` go to the end of `left`.
steal_r : Geo → Ptr → ℕ → Ptr → ℕ → Ptr → ℕ → ℕ → Cmd Heap (Unit {0})
steal_r geo left lfill right rfill parent lpos k = do
  l ← load left
  r ← load right
  p ← load parent
  store left (copy_pairs geo k l lfill r 0)
  store parent (setkey geo p (bkey geo r (k - 1)) lpos)
  store right (clear_pairs geo k (rfill - k) (shift_down geo (rfill - k) 0 k r))

-- `remove` is `btree_remove_level`. The key that it is given lies in the parent, which it changes.
merge :
    (Head → KeyRef → ℕ → Cmd Heap (Ptr × Head))
    → Geo
    → Head
    → ℕ
    → Ptr
    → ℕ
    → Ptr
    → ℕ
    → Ptr
    → ℕ
    → Cmd Heap Head
merge remove geo head level left lfill right rfill parent lpos = do
  l ← load left
  r ← load right
  store left (copy_pairs geo rfill l lfill r 0)
  p ← load parent
  store parent (setval geo (setval geo p right lpos) left (lpos + 1))
  (_, head') ← remove head (slot parent lpos) (level + 1)
  free right
  pure head'

-- The fill of a neighbour that was looked at, with its address; NULL if it was not.
pub record Side : Type 0 where
  pub side : Ptr
  pub fill : ℕ

-- The end of `rebalance`, where no merge was possible.
steal : Geo → Head → Ptr → ℕ → Ptr → ℕ → Side → Side → Cmd Heap Head
steal geo head child fill parent child_no left right =
    if ltb 1 fill
    then pure head
    else if not (left.side == null)
    then (if ltb ((left.fill - fill) / 2) 1 then halt abort else (do
      steal_l geo left.side left.fill child fill parent (child_no - 1) ((left.fill - fill) / 2)
      pure head))
    else if not (right.side == null)
    then (if ltb ((right.fill - fill) / 2) 1 then halt abort else (do
      steal_r geo child fill right.side right.fill parent child_no ((right.fill - fill) / 2)
      pure head))
    else halt abort

-- A neighbour in slot `i` of the parent.
neighbour : Geo → Node → ℕ → Cmd Heap Side
neighbour geo parent i = do
  n ← load (bval geo parent i)
  pure (record { side = bval geo parent i; fill = getfill geo n 0 })

abbrev no_side : Side
no_side = record { side = null; fill = 0 }

pub rebalance :
    (Head → KeyRef → ℕ → Cmd Heap (Ptr × Head)) → Geo → Head → KeyRef → ℕ → Ptr → ℕ → Cmd Heap Head
rebalance remove geo head ref level child fill = do
  key ← read_key geo ref
  parent ← find_level geo head key (level + 1)
  p ← load parent
  let child_no = getpos geo p key
  if not (bval geo p child_no == child) then halt abort else do
    left ← if ltb 0 child_no then neighbour geo p (child_no - 1) else pure no_side
    if not (left.side == null) && leb (fill + left.fill) geo.no_pairs
        then merge remove geo head level left.side left.fill child fill parent (child_no - 1)
        else do
          right ←
              if ltb (child_no + 1) (getfill geo p child_no)
              then neighbour geo p (child_no + 1)
              else pure no_side
          if not (right.side == null) && leb (fill + right.fill) geo.no_pairs
              then merge remove geo head level child fill right.side right.fill parent child_no
              else steal geo head child fill parent child_no left right

-- Slot `pos` removed, the later pairs moved down and the last one cleared.
unfoldable pub remove_pair : Geo → ℕ → ℕ → Node → Node
unfolding shift_down clearpair
remove_pair geo pos fill node =
    clearpair geo (shift_down geo (fill - 1 - pos) pos (pos + 1) node) (fill - 1)

-- The body of `btree_remove_level` from `bval(geo, node, pos)` on. A value behind the last word of
-- the node is an access out of bounds, and so is `clearpair(fill - 1)` in an empty node.
unfoldable pub remove_at :
    (Head → KeyRef → ℕ → Cmd Heap (Ptr × Head))
    → Geo
    → Head
    → KeyRef
    → ℕ
    → Ptr
    → Node
    → ℕ
    → ℕ
    → Cmd Heap (Ptr × Head)
remove_at remove geo head ref level node n pos fill =
    if leb node_words (geo.no_pairs * geo.keylen + pos) || (fill == 0) then halt fault else do
      store node (remove_pair geo pos fill n)
      head' ←
          if ltb (fill - 1) (geo.no_pairs / 2)
          then (if ltb level head.height
              then rebalance remove geo head ref level node (fill - 1)
              else btree_shrink geo head (fill - 1))
          else pure head
      pure (bval geo n pos, head')

-- `btree_remove_level`: each level takes one unit of fuel.
unfoldable pub remove_level : Geo → ℕ → Head → KeyRef → ℕ → Cmd Heap (Ptr × Head)
remove_level geo zero head ref level = halt out_of_fuel
remove_level geo (suc f) head ref level =
    if ltb head.height level then pure (null, btree_init) else do
      key ← read_key geo ref
      node ← find_level geo head key level
      n ← load node
      let pos = getpos geo n key
      if (level == 1) && not (is_eq (keycmp geo n pos key))
          then pure (null, head)
          else remove_at (remove_level geo f) geo head ref level node n pos (getfill geo n pos)

-- The value, or NULL. A removal visits each level of the tree at most once.
unfoldable pub btree_remove : Geo → Head → Key → Cmd Heap (Ptr × Head)
unfolding remove_level remove_at remove_pair shift_down rebalance steal neighbour merge steal_l
    steal_r clear_pairs copy_pairs move_up btree_shrink read_key find_level load store free getpos
    getfill keycmp bkey copypair clearpair btree_init
btree_remove geo head key =
    if head.height == 0
    then pure (null, head)
    else remove_level geo (head.height + 1) head (words key) 1

-- The loop of `btree_merge`, for two different heads: target and victim on return.
unfoldable pub merge_loop : Geo → ℕ → Head → Head → Cmd Heap (Errno × Head × Head)
merge_loop geo zero target victim = halt out_of_fuel
merge_loop geo (suc f) target victim = do
  last ← btree_last geo victim
  elim last [
    | none ↦ pure (0, target, victim)
    | some key ↦ (do
      val ← btree_lookup geo victim key
      (err, target') ← btree_insert geo target key val
      if not (err == 0)
          then pure (err, target', victim)
          else do (_, victim') ← btree_remove geo victim key; merge_loop geo f target' victim')
  ]

-- `fuel` is more than the number of pairs in the victim.
unfoldable pub btree_merge : Geo → ℕ → Head → Head → Cmd Heap (Errno × Head × Head)
unfolding merge_loop btree_last btree_lookup btree_insert btree_remove btree_init
btree_merge geo fuel target victim =
    if target.node == null then pure (0, victim, btree_init) else merge_loop geo fuel target victim
