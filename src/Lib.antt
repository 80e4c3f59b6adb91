-- ===== src/Lib.antt =====
-- A model of mklogfs, the program that makes LogFS file systems, and of the B+tree library inside it.
--
-- The program chooses the sizes from the command line, reserves the segments of the superblocks and
-- of the journal, writes the segment file and the root directory as objects into areas, writes the
-- areas out, then the journal's first segment, then the two superblocks. Inodes and indirect blocks
-- are found through B+trees.
--
--   Kerncompat  kerncompat.h: `be` (cpu_to_be16, cpu_to_be32, cpu_to_be64), `align` (ALIGN), Bitops
--   Abi         logfs_abi.h: constants, the structures on the medium and their bytes; Kernel has
--               those that only the file system itself uses
--   Super       logfs.h and check_crc32 of lib.c: super_block, logfs_area, inode, logfs_crc32
--   Btree       btree.c and btree.h: Node (nodes as words, keys, values), Heap (allocation),
--               Search, Insert, Remove (with btree_merge), Visit, Head64 and Typed (the wrappers)
--   Inodes      find_or_create_inode and find_or_create_block of readwrite.c
--   Segment     segment.c: allocation of segments, areas, logfs_segment_write, flush_segments
--   ReadWrite   readwrite.c: slots, heights, logfs_file_write, logfs_file_flush
--   Mkfs        mkfs.c: Device (safe_pwrite and the device operations), Config (the first half of
--               mkfs), Prepare, Files, Entries and Journal, Superblock, Make (mkfs as a whole),
--               Options (the command line), Open (__open_device), Main (main)
--   Fsck        fsck.c, which looks at its options and checks nothing yet
--   Tests       a session of the B+tree, a whole run of mkfs, and the theorems at concrete inputs
--
-- The other modules below these hold the theorems: Btree/Slots, Position, Others and Trip on nodes;
-- Btree/Leaf, Dropped, Small, Map, Rooted, Removal, Round, Merged and Greatest on trees of one leaf
-- as finite maps; Btree/Deep and the modules below it on trees of any height, whose keys are below a
-- limit (2 ^ 64 for keys of 64 bits); Inodes/Once; Segment/Alloc, Areas, Opening, Closing, Object,
-- Store and Flush; ReadWrite/Bits and Height; Mkfs/Pwrite, Sizes, Aliases, Reserve, Superblocks,
-- Chosen, CommandLine and Shifts; Kerncompat/Align and Endian; Abi/Sizes.
--
-- Sound is about the parts together. It has the relation that steps from device to device by the
-- erase and by the write of a whole segment, and the invariant of the super block that every command
-- up to the flush of the segments keeps; Common/Keeps has the rules by which a command made of others
-- keeps an invariant. The modules below Sound follow the calls: Inodes, Segments, Objects, Writing,
-- Making, Start.
--
-- Functions have the names of the source; a loop is `f_loop`, a branch that is a step of its own has
-- a name for what it does. A function that changes the program's state is a command: a map from the
-- state to a result with a new state, or to the reason for which the program stops: a call of `fail`,
-- of `BUG`, a fault (an access outside of the memory that the program owns), or missing fuel. A
-- negative error code is modelled by its magnitude. A pointer to a tree node, an inode or an indirect
-- block is an address; 0 is NULL. A fixed-width integer keeps its wrap-around as a remainder. A field
-- in big-endian order is the number that it stands for; the `encode_` functions give its bytes.
--
-- Parameters: zlib's `crc32` and `deflate`, the device's write and erase (`Env`), `pwrite` and the
-- erase requests and whether `malloc` succeeds (`Os`), what `getopt_long` returns (`Opt`), what the
-- system says of the device and `ffs` (`System`), the answers that the user types. Allocation of tree
-- nodes takes its addresses from a pool that may be empty or hold 0, a failed allocation.
--
-- Fuel: `get_segment` has one round more than there are segments left; `safe_pwrite` needs the bytes
-- and the interruptions of the file; `grow_height` has 9 tests, since the one at height 8 is a shift
-- that C leaves undefined; `mtd_scan` looks at 64 segments at most. The B+tree's loops recurse on
-- the height, and its insertion and removal on fuel that the wrappers set from the height;
-- `btree_merge` needs more rounds than the victim has pairs.
--
-- Not modelled: what is printed, the wrappers that look up, insert and remove with a 32-bit key (they
-- read 8 bytes of a key of 4), the compiler annotations and the structures of kerncompat.h that
-- nothing uses, and a failing `zalloc` (it writes to the result before anybody can test it).
pub mod Common
pub mod Kerncompat
pub mod Abi
pub mod Super
pub mod Btree
pub mod Inodes
pub mod Segment
pub mod ReadWrite
pub mod Mkfs
pub mod Fsck
pub mod Sound
mod Tests
