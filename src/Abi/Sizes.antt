-- ===== src/Abi/Sizes.antt =====
-- The sizes that `SIZE_CHECK` asks for: the encoded structures have as many bytes as the headers say.
use logfsprogs.Common.{ℕ, ◌*◌, ◌≡◌, List, [], ◌∷◌, length, length-append, arith}
use mathlib.Core.List.{flat_map}
use logfsprogs.Kerncompat.{be}
use logfsprogs.Kerncompat.Endian.{length-be}
use logfsprogs.Abi.{
  SegmentHeader, encode_segment_header, ObjectHeader, encode_object_header, DiskInode,
  encode_disk_inode, JournalHeader, encode_journal_header, JeDynsb, encode_je_dynsb, JeAnchor,
  encode_je_anchor, ObjAlias, encode_obj_alias, DiskSuper, encode_disk_super, logfs_embedded_fields,
  logfs_journal_segs,
}

length-flat_map-be : (w : ℕ) (xs : List ℕ) → length (flat_map (be w) xs) ≡ length xs * w
unfolding flat_map
length-flat_map-be w [] = omega arith
length-flat_map-be w (x ∷ xs) =
    omega
      (arith, length-append (be w x) (flat_map (be w) xs), length-be w x, length-flat_map-be w xs)

ruleset sizes = (length-append, length-be, length-flat_map-be)

pub length-encode_segment_header : (h : SegmentHeader) → length (encode_segment_header h) ≡ 24
unfolding encode_segment_header
length-encode_segment_header h = simp sizes

pub length-encode_object_header : (h : ObjectHeader) → length (encode_object_header h) ≡ 28
unfolding encode_object_header
length-encode_object_header h = simp sizes

pub length-encode_journal_header :
    (h : JournalHeader) → length h.h_pad ≡ 5 → length (encode_journal_header h) ≡ 16
unfolding encode_journal_header
length-encode_journal_header h p = simp (sizes, p)

pub length-encode_disk_inode :
    (di : DiskInode)
    → length di.di_data ≡ logfs_embedded_fields
    → length (encode_disk_inode di) ≡ 200
unfolding encode_disk_inode
length-encode_disk_inode di p = simp (sizes, p)

pub length-encode_obj_alias : (a : ObjAlias) → length a.pad ≡ 5 → length (encode_obj_alias a) ≡ 32
unfolding encode_obj_alias
length-encode_obj_alias a p = simp (sizes, p)

pub length-encode_je_dynsb : (d : JeDynsb) → length (encode_je_dynsb d) ≡ 64
unfolding encode_je_dynsb
length-encode_je_dynsb d = simp sizes

pub length-encode_je_anchor :
    (a : JeAnchor)
    → length a.pad ≡ 7
    → length a.da_data ≡ logfs_embedded_fields
    → length (encode_je_anchor a) ≡ 168
unfolding encode_je_anchor
length-encode_je_anchor a p q = simp (sizes, p, q)

pub length-encode_disk_super :
    (ds : DiskSuper)
    → length ds.pad0 ≡ 6
    → length ds.ds_journal_seg ≡ logfs_journal_segs
    → length ds.ds_super_ofs ≡ 2
    → length ds.pad3 ≡ 8
    → length (encode_disk_super ds) ≡ 256
unfolding encode_disk_super encode_segment_header
length-encode_disk_super ds p q r t = simp (sizes, p, q, r, t)
