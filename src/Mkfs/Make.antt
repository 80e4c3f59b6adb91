-- ===== src/Mkfs/Make.antt =====
-- `mkfs`: the order of the parts, each with the message of its failure.
use logfsprogs.Common.{Bool, not, ◌==◌, replicate}
use logfsprogs.Common.Outcome.{
  Cmd, get, put, could_not_erase_superblocks, could_not_write_segment_file,
  could_not_create_root_inode, could_not_write_segments, could_not_create_journal,
  could_not_create_superblock, Errno, pure, ◌>>=◌, ◌>>◌,
}
use logfsprogs.Super.{Super, Env}
use logfsprogs.Segment.{flush_segments}
use logfsprogs.Mkfs.Config.{Config, fail_if, configure}
use logfsprogs.Mkfs.Prepare.{prepare_journal}
use logfsprogs.Mkfs.Files.{write_segment_file, write_rootdir}
use logfsprogs.Mkfs.Journal.{Zlib, make_journal}
use logfsprogs.Mkfs.Superblock.{make_super}

module _ {D : Type 0} where
  -- `zalloc(no_segs * sizeof(segment_entry[0]))`
  unfoldable pub alloc_entries : Cmd (Super D) (Unit {0})
  alloc_entries = do
    s ← get
    put (record s { segment_entry = replicate s.no_segs (record { ec_level = 0; valid = 0 }) })

  -- `mkfs` up to the segments' flush. `prepare_sb` is the entry of `dev_ops`; the two answers are
  -- what the user types.
  unfoldable pub make_files :
      Env D → Cmd (Super D) Errno → Config → Bool → Bool → Cmd (Super D) Config
  unfolding configure alloc_entries prepare_journal write_segment_file write_rootdir flush_segments
  make_files env prepare_sb config go_on skip_erase = do
    c ← configure config go_on skip_erase
    alloc_entries
    ret ← prepare_sb
    fail_if (not (ret == 0)) could_not_erase_superblocks
    prepare_journal env c.no_journal_segs
    ret ← write_segment_file env
    fail_if (not (ret == 0)) could_not_write_segment_file
    ret ← write_rootdir env c.compress_rootdir
    fail_if (not (ret == 0)) could_not_create_root_inode
    ret ← flush_segments env
    fail_if (not (ret == 0)) could_not_write_segments
    pure c

  unfoldable pub mkfs :
      Env D → Zlib → Cmd (Super D) Errno → Config → Bool → Bool → Cmd (Super D) (Unit {0})
  unfolding make_files make_journal make_super
  mkfs env deflate prepare_sb config go_on skip_erase = do
    c ← make_files env prepare_sb config go_on skip_erase
    ret ← make_journal env deflate c.blockshift
    fail_if (not (ret == 0)) could_not_create_journal
    ret ← make_super env c
    fail_if (not (ret == 0)) could_not_create_superblock
