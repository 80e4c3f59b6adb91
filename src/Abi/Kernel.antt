-- ===== src/Abi/Kernel.antt =====
-- The rest of `logfs_abi.h`: what the kernel reads or writes and mklogfs leaves alone.
use logfsprogs.Common.{ℕ, ◌+◌, ◌-◌, ◌*◌, ◌^◌, bit_and, List, ◌∷◌, ◌++◌, []}
use mathlib.Core.List.{flat_map}
use logfsprogs.Kerncompat.{be16, be32, be64, u64_mod}
use logfsprogs.Abi.{
  logfs_blocksize, logfs_block_factor, logfs_embedded_fields, logfs_object_headersize,
  logfs_segment_headersize, logfs_if_compressed, i0_blocks,
}

abbrev pub i1_blocks : ℕ
i1_blocks = logfs_block_factor

abbrev pub i2_blocks : ℕ
i2_blocks = logfs_block_factor * i1_blocks

abbrev pub i3_blocks : ℕ
i3_blocks = logfs_block_factor * i2_blocks

abbrev pub i4_blocks : ℕ
i4_blocks = logfs_block_factor * i3_blocks

abbrev pub i5_blocks : ℕ
i5_blocks = logfs_block_factor * i4_blocks

abbrev pub logfs_embedded_size : ℕ
logfs_embedded_size = logfs_embedded_fields * 8

abbrev pub logfs_i0_size : ℕ
logfs_i0_size = i0_blocks * logfs_blocksize

abbrev pub logfs_i1_size : ℕ
logfs_i1_size = i1_blocks * logfs_blocksize

abbrev pub logfs_i2_size : ℕ
logfs_i2_size = i2_blocks * logfs_blocksize

abbrev pub logfs_i3_size : ℕ
logfs_i3_size = i3_blocks * logfs_blocksize

abbrev pub logfs_i4_size : ℕ
logfs_i4_size = i4_blocks * logfs_blocksize

abbrev pub logfs_i5_size : ℕ
logfs_i5_size = i5_blocks * logfs_blocksize

abbrev pub logfs_fully_populated : ℕ
logfs_fully_populated = 2 ^ 63

-- `ofs & ~LOGFS_FULLY_POPULATED`
unfoldable pub pure_ofs : ℕ → ℕ
pure_ofs ofs = bit_and ofs (u64_mod - 1 - logfs_fully_populated)

abbrev pub logfs_max_namelen : ℕ
logfs_max_namelen = 255

abbrev pub max_cached_segs : ℕ
max_cached_segs = 64

abbrev pub logfs_max_objectsize : ℕ
logfs_max_objectsize = logfs_object_headersize + logfs_blocksize

abbrev pub logfs_segment_reserve : ℕ
logfs_segment_reserve = logfs_segment_headersize + logfs_max_objectsize - 1

abbrev pub logfs_if_dirty : ℕ
logfs_if_dirty = 0x2000_0000

abbrev pub logfs_if_zombie : ℕ
logfs_if_zombie = 0x4000_0000

abbrev pub logfs_if_stillborn : ℕ
logfs_if_stillborn = 0x8000_0000

abbrev pub logfs_fl_user_visible : ℕ
logfs_fl_user_visible = logfs_if_compressed

abbrev pub logfs_fl_user_modifiable : ℕ
logfs_fl_user_modifiable = logfs_if_compressed

abbrev pub logfs_fl_inherited : ℕ
logfs_fl_inherited = logfs_if_compressed

-- The indexes of 64-bit words within an inode.
abbrev pub inode_height_ofs : ℕ
inode_height_ofs = 0

abbrev pub inode_used_ofs : ℕ
inode_used_ofs = 6

abbrev pub inode_size_ofs : ℕ
inode_size_ofs = 7

abbrev pub inode_pointer_ofs : ℕ
inode_pointer_ofs = 8

-- `name` has `LOGFS_MAX_NAMELEN` bytes.
pub record DiskDentry : Type 0 where
  pub ino : ℕ
  pub namelen : ℕ
  pub type : ℕ
  pub name : List ℕ

unfoldable pub encode_disk_dentry : DiskDentry → List ℕ
encode_disk_dentry d = be64 d.ino ++ be16 d.namelen ++ d.type ∷ d.name

unfoldable pub encode_segment_entry : ℕ → ℕ → List ℕ
encode_segment_entry ec_level valid = be32 ec_level ++ be32 valid

pub data Vim : Type 0 where
  default : Vim
  segfile : Vim

pub record JeArea : Type 0 where
  pub segno : ℕ
  pub used_bytes : ℕ
  pub gc_level : ℕ
  pub vim : ℕ

unfoldable pub encode_je_area : JeArea → List ℕ
encode_je_area a = be32 a.segno ++ be32 a.used_bytes ++ a.gc_level ∷ a.vim ∷ []

-- Arrays whose length the journal header gives.
unfoldable pub encode_je_spillout : List ℕ → List ℕ
encode_je_spillout so_segment = flat_map be64 so_segment

unfoldable pub encode_je_journal_ec : List ℕ → List ℕ
encode_je_journal_ec ec = flat_map be32 ec

pub record JeFreeSegments : Type 0 where
  pub segno : ℕ
  pub ec : ℕ

unfoldable pub encode_je_free_segments : JeFreeSegments → List ℕ
encode_je_free_segments f = be32 f.segno ++ be32 f.ec

pub record SegAlias : Type 0 where
  pub old_segno : ℕ
  pub new_segno : ℕ

unfoldable pub encode_seg_alias : SegAlias → List ℕ
encode_seg_alias a = be32 a.old_segno ++ be32 a.new_segno

abbrev pub je_first : ℕ
je_first = 1

abbrev pub jeg_base : ℕ
jeg_base = 0

abbrev pub je_erasecount : ℕ
je_erasecount = 5

abbrev pub je_spillout : ℕ
je_spillout = 6

abbrev pub je_area : ℕ
je_area = 0xe

abbrev pub je_last : ℕ
je_last = 0xe
