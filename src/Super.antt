-- ===== src/Super.antt =====
-- `logfs.h`: the in-memory state of the program. `D` is the state of the device behind the file
-- descriptor. Inodes and indirect blocks are objects on the heap: an address `p` stands for the
-- element `p - 1` of `inodes` or `blocks`, the trees hold these addresses, and 0 is NULL.
use logfsprogs.Common.{
  ℕ, ◌+◌, ◌-◌, ◌*◌, ◌%◌, bit_and, bit_or, List, Option, none, some, ◌==◌, leb, if◌then◌else◌,
  length, get_elem?, set, take, drop, replicate,
}
use logfsprogs.Common.Outcome.{ok, stop, exit, crc32_bad, fault, Cmd, Errno}
use logfsprogs.Kerncompat.{u32_mod, u64_mod}
use logfsprogs.Abi.{DiskInode, zero_disk_inode, SegmentEntry, logfs_max_levels}
use logfsprogs.Btree.Heap.{Heap, Head}

-- `struct logfs_area`; `buf` is `none` where it is NULL.
pub record Area : Type 0 where
  pub segno : ℕ
  pub used_bytes : ℕ
  pub buf : Option (List ℕ)

-- `struct inode`
pub record Inode : Type 0 where
  pub block_tree : List Head
  pub di : DiskInode

abbrev pub zero_inode : Inode
zero_inode = record {
  block_tree = replicate logfs_max_levels (record { node = 0; height = 0 });
  di = zero_disk_inode;
}

-- `struct super_block`
pub record Super (D : Type 0) : Type 0 where
  pub fssize : ℕ
  pub segsize : ℕ
  pub erasesize : ℕ
  pub blocksize : ℕ
  pub blocksize_bits : ℕ
  pub writesize : ℕ
  pub no_segs : ℕ
  pub journal_seg : List ℕ
  pub used_bytes : ℕ
  pub lastseg : ℕ
  pub area : List Area
  pub segment_entry : List SegmentEntry
  pub sb_ofs1 : ℕ
  pub sb_ofs2 : ℕ
  pub ino_tree : Head
  pub heap : Heap
  pub inodes : List Inode
  pub blocks : List (List ℕ)
  pub dev : D

-- What the program calls and does not implement: zlib's `crc32(0, buf, len)`, and the device
-- behind `dev_ops->write(sb, ofs, size, buf)` and `dev_ops->erase(sb, ofs, size)`.
pub record Env (D : Type 0) : Type 0 where
  pub crc32 : List ℕ → ℕ
  pub dev_write : ℕ → ℕ → List ℕ → D → Errno × D
  pub dev_erase : ℕ → ℕ → D → Errno × D

-- `logfs_crc32(data, len, skip)`: the complement, cut to 32 bits.
unfoldable pub logfs_crc32 : {D : Type 0} → Env D → List ℕ → ℕ → ℕ → ℕ
logfs_crc32 env bytes len skip =
    (u64_mod - 1 - env.crc32 (take (len - skip) (drop skip bytes))) % u32_mod

-- The library's sum must be the one that the kernel computes.
unfoldable pub check_crc32 : {D S : Type 0} → Env D → Cmd S (Unit {0})
unfolding logfs_crc32
check_crc32 env s =
    if logfs_crc32 env (replicate 4 0) 4 0 == 0xdebb20e3 then ok tt s else stop (exit crc32_bad)

-- `ec_level(ec, level)`
unfoldable pub ec_level : ℕ → ℕ → ℕ
ec_level ec level = bit_or (ec * 16 % u32_mod) (bit_and level 0xf)

-- A call of the B+tree within the program's state.
unfoldable pub in_heap : {D A : Type 0} → Cmd Heap A → Cmd (Super D) A
in_heap m s = elim (m s.heap) [ ok a h ↦ ok a (record s { heap = h }) | stop r ↦ stop r ]

-- `sb->segment_entry[segno] = …`, a fault out of range
unfoldable pub set_entry : {D : Type 0} → ℕ → SegmentEntry → Cmd (Super D) (Unit {0})
set_entry segno e s =
    if leb (segno + 1) (length s.segment_entry)
    then ok tt (record s { segment_entry = set s.segment_entry segno e })
    else stop fault

-- `sb->area + i`, read and written
abbrev pub some_or_fault : {S A : Type 0} → Option A → Cmd S A
some_or_fault none s = stop fault
some_or_fault (some a) s = ok a s

unfoldable pub get_area : {D : Type 0} → ℕ → Cmd (Super D) Area
get_area i s = some_or_fault (get_elem? s.area i) s

unfoldable pub set_area : {D : Type 0} → ℕ → Area → Cmd (Super D) (Unit {0})
set_area i a s = ok tt (record s { area = set s.area i a })

-- An inode behind its address, read and written
unfoldable pub get_inode : {D : Type 0} → ℕ → Cmd (Super D) Inode
get_inode p s = if p == 0 then stop fault else some_or_fault (get_elem? s.inodes (p - 1)) s

unfoldable pub set_inode : {D : Type 0} → ℕ → Inode → Cmd (Super D) (Unit {0})
set_inode p i s = ok tt (record s { inodes = set s.inodes (p - 1) i })

-- An indirect block behind its address, read and written
unfoldable pub get_block : {D : Type 0} → ℕ → Cmd (Super D) (List ℕ)
get_block p s = if p == 0 then stop fault else some_or_fault (get_elem? s.blocks (p - 1)) s

unfoldable pub set_block : {D : Type 0} → ℕ → List ℕ → Cmd (Super D) (Unit {0})
set_block p b s = ok tt (record s { blocks = set s.blocks (p - 1) b })
