-- ===== src/Abi.antt =====
-- `logfs_abi.h`: the constants and the on-medium structures, with their bytes. A structure's fields
-- hold the numbers that they stand for; `encode` gives the packed big-endian layout.
pub mod Sizes
pub mod Kernel
use logfsprogs.Common.{ℕ, ◌+◌, ◌*◌, ◌/◌, List, [], ◌∷◌, ◌++◌, map, replicate, set}
use mathlib.Core.List.{flat_map}
use logfsprogs.Kerncompat.{be16, be32, be64}

abbrev pub logfs_magic : ℕ
logfs_magic = 0x7a3a8e5cb9d5bf67

abbrev pub logfs_blocksize : ℕ
logfs_blocksize = 4096

abbrev pub logfs_block_factor : ℕ
logfs_block_factor = logfs_blocksize / 8

abbrev pub logfs_block_bits : ℕ
logfs_block_bits = 9

abbrev pub i0_blocks : ℕ
i0_blocks = 16

abbrev pub indirect_index : ℕ
indirect_index = i0_blocks

abbrev pub logfs_embedded_fields : ℕ
logfs_embedded_fields = i0_blocks + 1

abbrev pub logfs_max_indirect : ℕ
logfs_max_indirect = 5

abbrev pub logfs_max_levels : ℕ
logfs_max_levels = logfs_max_indirect + 1

abbrev pub logfs_no_areas : ℕ
logfs_no_areas = 2 * logfs_max_levels

abbrev pub logfs_journal_segs : ℕ
logfs_journal_segs = 16

abbrev pub logfs_object_headersize : ℕ
logfs_object_headersize = 0x1c

abbrev pub logfs_segment_headersize : ℕ
logfs_segment_headersize = 0x18

abbrev pub seg_super : ℕ
seg_super = 1

abbrev pub seg_journal : ℕ
seg_journal = 2

abbrev pub seg_ostore : ℕ
seg_ostore = 3

abbrev pub obj_block : ℕ
obj_block = 4

abbrev pub obj_inode : ℕ
obj_inode = 5

abbrev pub obj_dentry : ℕ
obj_dentry = 6

abbrev pub logfs_ino_master : ℕ
logfs_ino_master = 1

abbrev pub logfs_ino_root : ℕ
logfs_ino_root = 2

abbrev pub logfs_ino_segfile : ℕ
logfs_ino_segfile = 3

abbrev pub logfs_reserved_inos : ℕ
logfs_reserved_inos = 16

abbrev pub logfs_if_compressed : ℕ
logfs_if_compressed = 4

-- `RESERVED` and `BADSEG`
abbrev pub reserved : ℕ
reserved = 0xffff_ffff

abbrev pub badseg : ℕ
badseg = 0xffff_ffff

abbrev pub compr_none : ℕ
compr_none = 0

abbrev pub compr_zlib : ℕ
compr_zlib = 1

abbrev pub je_type_commit : ℕ
je_type_commit = 2

abbrev pub je_type_dynsb : ℕ
je_type_dynsb = 3

abbrev pub je_type_anchor : ℕ
je_type_anchor = 4

abbrev pub je_type_obj_alias : ℕ
je_type_obj_alias = 0xd

pub record SegmentHeader : Type 0 where
  pub crc : ℕ
  pub pad : ℕ
  pub type : ℕ
  pub level : ℕ
  pub segno : ℕ
  pub ec : ℕ
  pub gec : ℕ

-- A `u8` field is its own byte.
unfoldable pub encode_segment_header : SegmentHeader → List ℕ
encode_segment_header h =
    be32 h.crc ++ be16 h.pad ++ h.type ∷ h.level ∷ be32 h.segno ++ be32 h.ec ++ be64 h.gec

pub record ObjectHeader : Type 0 where
  pub crc : ℕ
  pub len : ℕ
  pub type : ℕ
  pub compr : ℕ
  pub ino : ℕ
  pub bix : ℕ
  pub data_crc : ℕ

unfoldable pub encode_object_header : ObjectHeader → List ℕ
encode_object_header h =
    be32 h.crc ++ be16 h.len ++ h.type ∷ h.compr ∷ be64 h.ino ++ be64 h.bix ++ be32 h.data_crc

-- `di_data` has `LOGFS_EMBEDDED_FIELDS` pointers.
pub record DiskInode : Type 0 where
  pub di_mode : ℕ
  pub di_height : ℕ
  pub di_pad : ℕ
  pub di_flags : ℕ
  pub di_uid : ℕ
  pub di_gid : ℕ
  pub di_ctime : ℕ
  pub di_mtime : ℕ
  pub di_atime : ℕ
  pub di_refcount : ℕ
  pub di_generation : ℕ
  pub di_used_bytes : ℕ
  pub di_size : ℕ
  pub di_data : List ℕ

unfoldable pub encode_disk_inode : DiskInode → List ℕ
encode_disk_inode di =
    be16 di.di_mode
    ++ di.di_height ∷ di.di_pad ∷ be32 di.di_flags
    ++ be32 di.di_uid
    ++ be32 di.di_gid
    ++ be64 di.di_ctime
    ++ be64 di.di_mtime
    ++ be64 di.di_atime
    ++ be32 di.di_refcount
    ++ be32 di.di_generation
    ++ be64 di.di_used_bytes
    ++ be64 di.di_size
    ++ flat_map be64 di.di_data

-- What `zalloc` leaves.
abbrev pub zero_disk_inode : DiskInode
zero_disk_inode = record {
  di_mode = 0;
  di_height = 0;
  di_pad = 0;
  di_flags = 0;
  di_uid = 0;
  di_gid = 0;
  di_ctime = 0;
  di_mtime = 0;
  di_atime = 0;
  di_refcount = 0;
  di_generation = 0;
  di_used_bytes = 0;
  di_size = 0;
  di_data = replicate logfs_embedded_fields 0;
}

pub record SegmentEntry : Type 0 where
  pub ec_level : ℕ
  pub valid : ℕ

pub record JournalHeader : Type 0 where
  pub h_crc : ℕ
  pub h_len : ℕ
  pub h_datalen : ℕ
  pub h_type : ℕ
  pub h_compr : ℕ
  pub h_pad : List ℕ

unfoldable pub encode_journal_header : JournalHeader → List ℕ
encode_journal_header h =
    be32 h.h_crc ++ be16 h.h_len ++ be16 h.h_datalen ++ be16 h.h_type ++ h.h_compr ∷ h.h_pad

pub record JeDynsb : Type 0 where
  pub ds_gec : ℕ
  pub ds_sweeper : ℕ
  pub ds_rename_dir : ℕ
  pub ds_rename_pos : ℕ
  pub ds_victim_ino : ℕ
  pub ds_victim_parent : ℕ
  pub ds_used_bytes : ℕ
  pub ds_generation : ℕ
  pub pad : ℕ

unfoldable pub encode_je_dynsb : JeDynsb → List ℕ
encode_je_dynsb d =
    be64 d.ds_gec
    ++ be64 d.ds_sweeper
    ++ be64 d.ds_rename_dir
    ++ be64 d.ds_rename_pos
    ++ be64 d.ds_victim_ino
    ++ be64 d.ds_victim_parent
    ++ be64 d.ds_used_bytes
    ++ be32 d.ds_generation
    ++ be32 d.pad

pub record JeAnchor : Type 0 where
  pub da_size : ℕ
  pub da_last_ino : ℕ
  pub da_used_bytes : ℕ
  pub da_height : ℕ
  pub pad : List ℕ
  pub da_data : List ℕ

unfoldable pub encode_je_anchor : JeAnchor → List ℕ
encode_je_anchor a =
    be64 a.da_size
    ++ be64 a.da_last_ino
    ++ be64 a.da_used_bytes
    ++ a.da_height ∷ a.pad
    ++ flat_map be64 a.da_data

pub record ObjAlias : Type 0 where
  pub ino : ℕ
  pub bix : ℕ
  pub val : ℕ
  pub level : ℕ
  pub pad : List ℕ
  pub child_no : ℕ

unfoldable pub encode_obj_alias : ObjAlias → List ℕ
encode_obj_alias a = be64 a.ino ++ be64 a.bix ++ be64 a.val ++ a.level ∷ a.pad ++ be16 a.child_no

pub record DiskSuper : Type 0 where
  pub ds_sh : SegmentHeader
  pub ds_magic : ℕ
  pub ds_crc : ℕ
  pub ds_ifile_levels : ℕ
  pub ds_iblock_levels : ℕ
  pub ds_data_levels : ℕ
  pub ds_segment_shift : ℕ
  pub ds_block_shift : ℕ
  pub ds_write_shift : ℕ
  pub pad0 : List ℕ
  pub ds_filesystem_size : ℕ
  pub ds_segment_size : ℕ
  pub ds_bad_seg_reserve : ℕ
  pub ds_feature_incompat : ℕ
  pub ds_feature_ro_compat : ℕ
  pub ds_feature_compat : ℕ
  pub ds_feature_flags : ℕ
  pub ds_root_reserve : ℕ
  pub ds_speed_reserve : ℕ
  pub ds_journal_seg : List ℕ
  pub ds_super_ofs : List ℕ
  pub pad3 : List ℕ

unfoldable pub encode_disk_super : DiskSuper → List ℕ
unfolding encode_segment_header
encode_disk_super ds =
    encode_segment_header ds.ds_sh
    ++ be64 ds.ds_magic
    ++ be32 ds.ds_crc
    ++ ds.ds_ifile_levels ∷ ds.ds_iblock_levels ∷ ds.ds_data_levels ∷ ds.ds_segment_shift
      ∷ ds.ds_block_shift ∷ ds.ds_write_shift ∷ ds.pad0
    ++ be64 ds.ds_filesystem_size
    ++ be32 ds.ds_segment_size
    ++ be32 ds.ds_bad_seg_reserve
    ++ be64 ds.ds_feature_incompat
    ++ be64 ds.ds_feature_ro_compat
    ++ be64 ds.ds_feature_compat
    ++ be64 ds.ds_feature_flags
    ++ be64 ds.ds_root_reserve
    ++ be64 ds.ds_speed_reserve
    ++ flat_map be32 ds.ds_journal_seg
    ++ flat_map be64 ds.ds_super_ofs
    ++ flat_map be64 ds.pad3
