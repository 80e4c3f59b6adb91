-- ===== src/Inodes.antt =====
-- `find_or_create_inode` and `find_or_create_block` of `readwrite.c`: objects found through a B+tree
-- and made on first use. `zalloc` writes to what `malloc` returns before anybody can test it, so a
-- run in which `malloc` fails crashes there; such runs are not modelled.
pub mod Once
use logfsprogs.Common.{
  ℕ, ◌+◌, [], ◌∷◌, ◌++◌, ◌/◌, not, ◌==◌, if◌then◌else◌, length, get_elem?, set, replicate,
}
use logfsprogs.Common.Outcome.{ok, Cmd, pure, get, ◌>>=◌, ◌>>◌}
use logfsprogs.Super.{Super, zero_inode, in_heap, some_or_fault, get_inode, set_inode}
use logfsprogs.Btree.Heap.{Head}
use logfsprogs.Btree.Node.{Ptr}
use logfsprogs.Btree.Head64.{btree_lookup64, btree_insert64}

module _ {D : Type 0} where
  -- `zalloc(sizeof(*inode) + …)`, the new object's address
  unfoldable pub new_inode : Cmd (Super D) Ptr
  new_inode s = ok (length s.inodes + 1) (record s { inodes = s.inodes ++ zero_inode ∷ [] })

  unfoldable pub new_block : Cmd (Super D) Ptr
  new_block s =
      ok (length s.blocks + 1)
        (record s { blocks = s.blocks ++ replicate (s.blocksize / 8) 0 ∷ [] })

  unfoldable pub set_ino_tree : Head → Cmd (Super D) (Unit {0})
  set_ino_tree head s = ok tt (record s { ino_tree = head })

  -- The address of the inode; NULL where the tree had no memory for it.
  unfoldable pub find_or_create_inode : ℕ → Cmd (Super D) Ptr
  unfolding new_inode set_ino_tree in_heap
  find_or_create_inode ino = do
    s ← get
    p ← in_heap (btree_lookup64 s.ino_tree ino)
    if not (p == 0) then pure p else do
      new ← new_inode
      (err, head) ← in_heap (btree_insert64 s.ino_tree ino new)
      set_ino_tree head
      if err == 0 then pure new else pure 0

  -- `inode->block_tree[level]`, read and written
  unfoldable pub get_tree : Ptr → ℕ → Cmd (Super D) Head
  unfolding get_inode
  get_tree inode level = do i ← get_inode inode; some_or_fault (get_elem? i.block_tree level)

  unfoldable pub set_tree : Ptr → ℕ → Head → Cmd (Super D) (Unit {0})
  unfolding get_inode set_inode
  set_tree inode level head = do
    i ← get_inode inode
    set_inode inode (record i { block_tree = set i.block_tree level head })

  unfoldable pub find_or_create_block : Ptr → ℕ → ℕ → Cmd (Super D) Ptr
  unfolding new_block get_tree set_tree in_heap
  find_or_create_block inode bix level = do
    tree ← get_tree inode level
    p ← in_heap (btree_lookup64 tree bix)
    if not (p == 0) then pure p else do
      new ← new_block
      (err, head) ← in_heap (btree_insert64 tree bix new)
      set_tree inode level head
      if err == 0 then pure new else pure 0
