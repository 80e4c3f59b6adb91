-- ===== src/Btree.antt =====
-- The in-memory B+tree (`btree.c`, `btree.h`). `Node` is the layout of one node and the routines on
-- its words, `Heap` the nodes in memory, `Search`, `Insert`, `Remove` and `Visit` the operations on a
-- tree, `Head64` and `Typed` the wrappers with typed keys; the other modules hold theorems, on nodes
-- (Slots, Position, Others, Trip) and on trees of one leaf as finite maps (Leaf, Dropped, Map, Removal,
-- Small, Rooted, Round, Merged, Greatest) and on trees of any height (Deep).
pub mod Node
pub mod Heap
pub mod Search
pub mod Insert
pub mod Remove
pub mod Visit
pub mod Head64
pub mod Typed
pub mod Slots
pub mod Position
pub mod Others
pub mod Trip
pub mod Leaf
pub mod Small
pub mod Map
pub mod Dropped
pub mod Rooted
pub mod Removal
pub mod Round
pub mod Merged
pub mod Greatest
pub mod Deep
