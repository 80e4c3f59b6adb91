-- ===== src/Tests/Image.antt =====
-- A whole run of `mkfs` on a small device that records where it is written to.
use logfsprogs.Common.{
  ℕ, ◌-◌, ◌*◌, ◌≡◌, refl, true, false, List, [], ◌∷◌, none, length, replicate, ◌++◌,
}
use logfsprogs.Common.Outcome.{Run, ok, stop}
use mathlib.Core.List.{flat_map}
use logfsprogs.Kerncompat.{be}
use logfsprogs.Btree.Head64.{btree_lookup64, btree_insert64}
use logfsprogs.Super.{Super, Env}
use logfsprogs.Mkfs.Config.{Config, default_config}
use logfsprogs.Mkfs.Prepare.{bdev_prepare_sb}
use logfsprogs.Mkfs.Journal.{Zlib}
use logfsprogs.Mkfs.Make.{mkfs}

abbrev Log : Type 0
Log = List (ℕ × ℕ)

abbrev env : Env Log
env = record {
  crc32 = λ bytes. length bytes;
  dev_write = λ ofs size buf d. (0, d ++ (ofs, size) ∷ []);
  dev_erase = λ ofs size d. (0, d);
}

abbrev no_zlib : Zlib
no_zlib input room = record { done = false; out = [] }

abbrev device : ℕ → Super Log
device size = record {
  fssize = size;
  segsize = 0;
  erasesize = 0;
  blocksize = 0;
  blocksize_bits = 0;
  writesize = 0;
  no_segs = 0;
  journal_seg = replicate 16 0;
  used_bytes = 0;
  lastseg = 0;
  area = replicate 12 (record { segno = 0; used_bytes = 0; buf = none });
  segment_entry = [];
  sb_ofs1 = 0;
  sb_ofs2 = 0;
  ino_tree = record { node = 0; height = 0 };
  heap = record { cells = λ _. none; pool = 100 ∷ 101 ∷ 102 ∷ [] };
  inodes = [];
  blocks = [];
  dev = [];
}

abbrev options : Config
options = record default_config { user_segshift = 13; interactive_mode = false }

abbrev writes : Run (Super Log) (Unit {0}) → Log
writes (ok _ s) = s.dev
writes (stop _) = []

-- Two area segments, the journal and the two superblocks.
image_writes :
    writes (mkfs env no_zlib (bdev_prepare_sb env) options true true (device (16 * 8192)))
    ≡ (5 * 8192, 8192) ∷ (6 * 8192, 8192) ∷ (8192, 8192) ∷ (0, 256) ∷ (15 * 8192 - 4096, 256) ∷ []
unfolding mkfs bdev_prepare_sb btree_lookup64 btree_insert64 be flat_map
image_writes = refl
