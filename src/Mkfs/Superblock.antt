-- ===== src/Mkfs/Superblock.antt =====
-- `make_super`: the superblock and its two copies.
use logfsprogs.Common.{◌+◌, ◌-◌, max, [], ◌∷◌, ◌++◌, ◌==◌, ltb, if◌then◌else◌, take, replicate}
use logfsprogs.Common.Outcome.{Cmd, fault, pure, halt, get, Errno, ◌>>=◌}
use logfsprogs.Kerncompat.{align}
use logfsprogs.Abi.{
  DiskSuper, encode_disk_super, logfs_magic, seg_super, logfs_segment_headersize,
  logfs_journal_segs,
}
use logfsprogs.Super.{Super, Env, logfs_crc32}
use logfsprogs.Segment.{memcpy, dev_write}
use logfsprogs.Mkfs.Config.{Config}
use logfsprogs.Mkfs.Journal.{set_segment_header}

-- The structure, with `ds_crc` over all that follows it.
unfoldable pub disk_super : {D : Type 0} → Env D → Config → Super D → DiskSuper
unfolding set_segment_header encode_disk_super logfs_crc32
disk_super env c s =
    let ds : DiskSuper = record {
      ds_sh = set_segment_header env seg_super 0 0;
      ds_magic = logfs_magic;
      ds_crc = 0;
      ds_ifile_levels = 3;
      ds_iblock_levels = 4;
      ds_data_levels = 1;
      ds_segment_shift = c.segshift;
      ds_block_shift = c.blockshift;
      ds_write_shift = c.writeshift;
      pad0 = replicate 6 0;
      ds_filesystem_size = s.fssize;
      ds_segment_size = 0;
      ds_bad_seg_reserve = max c.bad_seg_reserve c.no_journal_segs;
      ds_feature_incompat = 0;
      ds_feature_ro_compat = 0;
      ds_feature_compat = 0;
      ds_feature_flags = 0;
      ds_root_reserve = 0;
      ds_speed_reserve = 0;
      ds_journal_seg =
          take c.no_journal_segs s.journal_seg
          ++ replicate (logfs_journal_segs - c.no_journal_segs) 0;
      ds_super_ofs = s.sb_ofs1 ∷ s.sb_ofs2 ∷ [];
      pad3 = replicate 8 0;
    } in
    record ds {
      ds_crc = logfs_crc32 env (encode_disk_super ds) 256 (logfs_segment_headersize + 12);
    }

-- More than 16 journal segments leave the array. The second copy is written after the first.
unfoldable pub make_super : {D : Type 0} → Env D → Config → Cmd (Super D) Errno
unfolding disk_super memcpy dev_write align
make_super env c = do
  s ← get
  if ltb logfs_journal_segs c.no_journal_segs then halt fault else do
    sector ← memcpy (replicate (align 256 s.writesize) 0) 0 (encode_disk_super (disk_super env c s))
    ret ← dev_write env s.sb_ofs1 (align 256 s.writesize) sector
    if ret == 0 then dev_write env s.sb_ofs2 (align 256 s.writesize) sector else pure ret
