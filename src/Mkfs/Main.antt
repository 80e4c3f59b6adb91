-- ===== src/Mkfs/Main.antt =====
-- `main` of mklogfs: the check of zlib, the command line, the device, and `mkfs`.
use logfsprogs.Common.{ℕ, Bool, false, if◌then◌else◌, List, [], none, replicate}
use logfsprogs.Common.Outcome.{Run, ok, stop, Cmd, Errno, ◌>>◌}
use logfsprogs.Abi.{logfs_no_areas, logfs_journal_segs}
use logfsprogs.Super.{Super, Env, check_crc32}
use logfsprogs.Btree.Heap.{Heap, btree_init}
use logfsprogs.Mkfs.Config.{Config, default_config}
use logfsprogs.Mkfs.Options.{Opt, parse_args}
use logfsprogs.Mkfs.Open.{System, Opened, open_device}
use logfsprogs.Mkfs.Prepare.{mtd_prepare_sb, bdev_prepare_sb}
use logfsprogs.Mkfs.Journal.{Zlib}
use logfsprogs.Mkfs.Make.{mkfs}

-- `zalloc(sizeof(*sb))`, and the fields that `__open_device` sets.
unfoldable pub new_super : {D : Type 0} → Opened → Heap → D → Super D
unfolding btree_init
new_super o heap dev = record {
  fssize = o.fssize;
  segsize = 0;
  erasesize = o.erasesize;
  blocksize = 0;
  blocksize_bits = 0;
  writesize = 0;
  no_segs = 0;
  journal_seg = replicate logfs_journal_segs 0;
  used_bytes = 0;
  lastseg = 0;
  area = replicate logfs_no_areas (record { segno = 0; used_bytes = 0; buf = none });
  segment_entry = [];
  sb_ofs1 = 0;
  sb_ofs2 = 0;
  ino_tree = btree_init;
  heap = heap;
  inodes = [];
  blocks = [];
  dev = dev;
}

-- `mtd_ops` and `bdev_ops` differ in `prepare_sb` and in the erase of the device, which is part of
-- an `Env`.
unfoldable pub prepare_sb : {D : Type 0} → Bool → Env D → Cmd (Super D) Errno
unfolding mtd_prepare_sb bdev_prepare_sb
prepare_sb is_mtd env = if is_mtd then mtd_prepare_sb env else bdev_prepare_sb env

-- What is known of the options and the device before `mkfs` starts.
unfoldable pub start : {D : Type 0} → Env D → System → List Opt → ℕ → Cmd Config Opened
unfolding check_crc32 parse_args open_device
start env sys opts operands = check_crc32 env >> parse_args opts operands >> open_device sys

-- `main`; `env is_mtd` is the device of that kind.
unfoldable pub mklogfs :
    {D : Type 0}
    → (Bool → Env D)
    → Zlib
    → System
    → List Opt
    → ℕ
    → Bool
    → Bool
    → Heap
    → D
    → Run (Super D) (Unit {0})
unfolding start new_super prepare_sb mkfs
mklogfs env deflate sys opts operands go_on skip_erase heap dev =
    elim (start (env false) sys opts operands default_config) [
      | stop r ↦ stop r
      | ok o c ↦
          mkfs (env o.is_mtd) deflate (prepare_sb o.is_mtd (env o.is_mtd)) c go_on skip_erase
            (new_super o heap dev)
    ]
