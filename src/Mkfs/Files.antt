-- ===== src/Mkfs/Files.antt =====
-- The segment file and the root directory.
use logfsprogs.Common.{ℕ, zero, suc, ◌+◌, ◌*◌, ◌/◌, Bool, ◌==◌, ltb, not, if◌then◌else◌, replicate}
use logfsprogs.Common.Outcome.{Cmd, out_of_fuel, pure, halt, get, Errno, enomem, ◌>>=◌, ◌>>◌}
use logfsprogs.Abi.{
  encode_disk_inode, logfs_ino_master, logfs_ino_root, logfs_ino_segfile, obj_block, obj_inode,
  logfs_if_compressed,
}
use logfsprogs.Super.{Super, Env, get_inode, set_inode}
use logfsprogs.Inodes.{find_or_create_inode}
use logfsprogs.ReadWrite.{logfs_file_write, logfs_file_flush}

-- `S_IFREG` and `S_IFDIR | 0755`
abbrev pub mode_regular : ℕ
mode_regular = 0o100000

abbrev pub mode_directory : ℕ
mode_directory = 0o40755

module _ {D : Type 0} where
  unfoldable pub write_inode : Env D → ℕ → Cmd (Super D) Errno
  unfolding find_or_create_inode get_inode logfs_file_write encode_disk_inode
  write_inode env ino = do
    p ← find_or_create_inode ino
    if p == 0 then pure enomem else do
      inode ← get_inode p
      logfs_file_write env logfs_ino_master ino 0 obj_inode (encode_disk_inode inode.di)

  -- `for (ofs = 0; ofs * blocksize < no_segs * 8; ofs++)` with fuel
  unfoldable pub segment_file_loop : Env D → ℕ → ℕ → Cmd (Super D) Errno
  segment_file_loop env zero ofs = halt out_of_fuel
  segment_file_loop env (suc f) ofs = do
    s ← get
    if ltb (ofs * s.blocksize) (s.no_segs * 8)
        then (do
          err ← logfs_file_write env logfs_ino_segfile ofs 0 obj_block (replicate s.blocksize 0)
          if err == 0 then segment_file_loop env f (ofs + 1) else pure err)
        else pure 0

  unfoldable pub write_segment_file : Env D → Cmd (Super D) Errno
  unfolding segment_file_loop find_or_create_inode get_inode set_inode logfs_file_write
      logfs_file_flush write_inode
  write_segment_file env = do
    p ← find_or_create_inode logfs_ino_segfile
    if p == 0 then pure enomem else do
      inode ← get_inode p
      s ← get
      set_inode p (record inode {
        di = record (inode.di) {
          di_flags = 0;
          di_mode = mode_regular;
          di_refcount = 1;
          di_size = s.no_segs * 8;
        };
      })
      err ← segment_file_loop env (s.no_segs * 8 / s.blocksize + 2) 0
      if not (err == 0) then pure err else do
        err' ← logfs_file_flush env (s.no_segs * 8 / s.blocksize + 2) logfs_ino_segfile
        if err' == 0 then write_inode env logfs_ino_segfile else pure err'

  unfoldable pub write_rootdir : Env D → Bool → Cmd (Super D) Errno
  unfolding find_or_create_inode get_inode set_inode write_inode
  write_rootdir env compress_rootdir = do
    p ← find_or_create_inode logfs_ino_root
    if p == 0 then pure enomem else do
      inode ← get_inode p
      set_inode p (record inode {
        di = record (inode.di) {
          di_flags = if compress_rootdir then logfs_if_compressed else 0;
          di_mode = mode_directory;
          di_refcount = 1;
        };
      })
      write_inode env logfs_ino_root
