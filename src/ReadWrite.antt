-- ===== src/ReadWrite.antt =====
-- `readwrite.c`: file blocks and the indirect blocks above them.
pub mod Bits
pub mod Height
use logfsprogs.Common.{
  ℕ, zero, suc, ◌+◌, ◌-◌, ◌*◌, ◌/◌, ◌%◌, ◌^◌, bit_and, bit_or, List, [], ◌∷◌, ◌&&◌, ◌==◌, ltb, leb,
  not, if◌then◌else◌, length, set,
}
use mathlib.Core.List.{flat_map}
use logfsprogs.Common.Outcome.{
  Cmd, ok, stop, abort, fault, out_of_fuel, pure, halt, get, Errno, enomem, Result, value, error,
  ◌>>=◌, ◌>>◌,
}
use logfsprogs.Kerncompat.{u8_mod, u64_mod, be64}
use logfsprogs.Abi.{i0_blocks, indirect_index, logfs_block_bits, obj_block}
use logfsprogs.Super.{Super, Env, get_inode, set_inode, get_block, set_block, in_heap}
use logfsprogs.Inodes.{find_or_create_inode, find_or_create_block, get_tree, set_tree}
use logfsprogs.Btree.Node.{Ptr}
use logfsprogs.Btree.Head64.{btree_last64, btree_remove64}
use logfsprogs.Segment.{logfs_segment_write}

-- `__get_bits(val, skip, no)`: three shifts of a 64-bit value. A shift by 64 or more is undefined.
unfoldable pub shift_bits : ℕ → ℕ → ℕ → ℕ
shift_bits val skip width = val / 2 ^ (skip * width) * 2 ^ (64 - width) % u64_mod / 2 ^ (64 - width)

unfoldable pub get_bits : ℕ → ℕ → ℕ → ℕ
unfolding shift_bits
get_bits blocksize_bits bix level = shift_bits bix level (blocksize_bits - 3)

unfoldable pub child_no : ℕ → ℕ → ℕ
child_no blocksize bix = bit_and bix (blocksize / 8 - 1)

-- `1ULL << (LOGFS_BLOCK_BITS * height)`: a shift by 64 or more, from height 8 on, is undefined.
unfoldable pub maxbix : {S : Type 0} → ℕ → Cmd S ℕ
maxbix height s =
    if ltb (logfs_block_bits * height) 64
    then ok (2 ^ (logfs_block_bits * height)) s
    else stop fault

-- `while (bix > maxbix(height)) height++;` with fuel for each test.
unfoldable pub grow_height : {S : Type 0} → ℕ → ℕ → ℕ → Cmd S ℕ
unfolding maxbix
grow_height zero bix height = halt out_of_fuel
grow_height (suc f) bix height = do
  most ← maxbix height
  if ltb most bix then grow_height f bix (height + 1) else pure height

module _ {D : Type 0} where
  -- `(1 << ((blocksize_bits - 3) * level)) - 1` with an `int` on the left: undefined from 31 on
  unfoldable pub bixmask : ℕ → Cmd (Super D) ℕ
  bixmask level s =
      let shift = (s.blocksize_bits - 3) * level in
      if level == 0 then pure 0 s else if ltb shift 31 then pure (2 ^ shift - 1) s else halt fault s

  -- `inode->di.di_data[i] = cpu_to_be64(ofs)`
  unfoldable pub set_di_data : Ptr → ℕ → ℕ → Cmd (Super D) (Unit {0})
  unfolding get_inode set_inode
  set_di_data p i ofs = do
    inode ← get_inode p
    if ltb i (length inode.di.di_data)
        then set_inode p
            (record inode { di = record (inode.di) { di_data = set inode.di.di_data i ofs } })
        else halt fault

  unfoldable pub write_direct : Env D → Ptr → ℕ → ℕ → ℕ → List ℕ → Cmd (Super D) Errno
  unfolding set_di_data logfs_segment_write
  write_direct env inode ino bix type buf = do
    r ← logfs_segment_write env buf type ino bix 0
    elim r [ error e ↦ pure e | value ofs ↦ (do set_di_data inode bix ofs; pure 0) ]

  -- `iblock[i] = cpu_to_be64(ofs)`
  unfoldable pub set_child : Ptr → ℕ → ℕ → Cmd (Super D) (Unit {0})
  unfolding get_block set_block
  set_child p i ofs = do
    b ← get_block p
    if ltb i (length b) then set_block p (set b i ofs) else halt fault

  unfoldable pub write_loop : Env D → Ptr → ℕ → ℕ → ℕ → ℕ → List ℕ → Cmd (Super D) Errno
  unfolding bixmask set_child find_or_create_block logfs_segment_write get_bits
  write_loop env inode ino bix level type buf = do
    mask ← bixmask (level + 1)
    iblock ← find_or_create_block inode (bit_or bix mask) (level + 1)
    if iblock == 0 then pure enomem else do
      r ← logfs_segment_write env buf type ino bix level
      elim r [
        | error e ↦ pure e
        | value ofs ↦ (do
          s ← get
          set_child iblock (get_bits s.blocksize_bits bix level) ofs
          pure 0)
      ]

  -- Nine tests are enough: the one at height 8 is undefined.
  unfoldable pub grow_inode : Ptr → ℕ → ℕ → Cmd (Super D) (Unit {0})
  unfolding grow_height get_inode set_inode
  grow_inode p bix level = if not (level == 0) then pure tt else do
    inode ← get_inode p
    height ← grow_height 9 bix inode.di.di_height
    set_inode p (record inode { di = record (inode.di) { di_height = height } })

  unfoldable pub logfs_file_write : Env D → ℕ → ℕ → ℕ → ℕ → List ℕ → Cmd (Super D) Errno
  unfolding find_or_create_inode write_direct grow_inode write_loop
  logfs_file_write env ino bix level type buf = do
    inode ← find_or_create_inode ino
    if inode == 0
        then pure enomem
        else if (level == 0) && ltb bix i0_blocks
        then write_direct env inode ino bix type buf
        else (do grow_inode inode bix level; write_loop env inode ino bix level type buf)

  -- `btree_remove64(&inode->block_tree[level], btree_last64(…))`: index and address of the block
  unfoldable pub remove_last : Ptr → ℕ → Cmd (Super D) (ℕ × Ptr)
  unfolding get_tree set_tree in_heap btree_last64 btree_remove64
  remove_last inode level = do
    tree ← get_tree inode level
    bix ← in_heap (btree_last64 tree)
    (iblock, tree') ← in_heap (btree_remove64 tree bix)
    set_tree inode level tree'
    pure (bix, iblock)

  -- The `for (;;)` of `logfs_file_flush`: the blocks of one level, from the lowest on. The freed
  -- block keeps its address, which nothing uses again.
  unfoldable pub flush_level : Env D → ℕ → ℕ → Ptr → ℕ → Cmd (Super D) Errno
  flush_level env zero ino inode level = halt out_of_fuel
  flush_level env (suc f) ino inode level = do
    (bix, iblock) ← remove_last inode level
    if iblock == 0 then pure 0 else do
      words ← get_block iblock
      err ← logfs_file_write env ino bix level obj_block (flat_map be64 words)
      if err == 0 then flush_level env f ino inode level else pure err

  -- The levels below the height, `r` of them left
  unfoldable pub flush_levels : Env D → ℕ → ℕ → Ptr → ℕ → ℕ → Cmd (Super D) Errno
  flush_levels env fuel ino inode zero level = pure 0
  flush_levels env fuel ino inode (suc r) level = do
    err ← flush_level env fuel ino inode level
    if err == 0 then flush_levels env fuel ino inode r (level + 1) else pure err

  -- The one block at the height goes to the indirect pointer.
  unfoldable pub flush_root : Env D → ℕ → Ptr → ℕ → Cmd (Super D) Errno
  flush_root env ino inode level = do
    (bix, iblock) ← remove_last inode level
    if iblock == 0 then halt abort else do
      words ← get_block iblock
      r ← logfs_segment_write env (flat_map be64 words) obj_block ino bix level
      elim r [ error e ↦ pure e | value ofs ↦ (do set_di_data inode indirect_index ofs; pure 0) ]

  -- `fuel` is more than the number of indirect blocks on any level.
  unfoldable pub logfs_file_flush : Env D → ℕ → ℕ → Cmd (Super D) Errno
  unfolding flush_levels flush_level flush_root remove_last logfs_file_write set_di_data get_block
  logfs_file_flush env fuel ino = do
    inode ← find_or_create_inode ino
    if inode == 0 then halt abort else do
      i ← get_inode inode
      if i.di.di_height == 0 then pure 0 else do
        err ← flush_levels env fuel ino inode (i.di.di_height - 1) 1
        if err == 0 then flush_root env ino inode i.di.di_height else pure err
