-- ===== src/Mkfs.antt =====
-- `mkfs.c`: the devices, the parameters of the new file system, its first inodes, the journal, the
-- superblock, and the order in which `mkfs` makes them.
pub mod Device
pub mod Pwrite
pub mod Config
pub mod Options
pub mod Open
pub mod CommandLine
pub mod Chosen
pub mod Shifts
pub mod Sizes
pub mod Prepare
pub mod Superblocks
pub mod Reserve
pub mod Files
pub mod Entries
pub mod Aliases
pub mod Journal
pub mod Superblock
pub mod Make
pub mod Main
