-- ===== src/Btree/Heap.antt =====
-- The nodes in memory, and the head of a tree. `calloc` is not the program's: `pool` is the sequence
-- of addresses that it is going to return, with NULL where it fails and for ever after its end.
use logfsprogs.Common.{ℕ, zero, suc, List, [], ◌∷◌, Option, none, some, ◌==◌, if◌then◌else◌}
use logfsprogs.Common.Outcome.{Run, ok, Cmd, stop, fault}
use logfsprogs.Btree.Node.{Ptr, null, Node, zero_node}

pub record Heap : Type 0 where
  pub cells : Ptr → Option Node
  pub pool : List Ptr

-- `struct btree_head`
pub record Head : Type 0 where
  pub node : Ptr
  pub height : ℕ

unfoldable pub btree_init : Head
btree_init = record { node = null; height = 0 }

unfoldable pub write : (Ptr → Option Node) → Ptr → Option Node → Ptr → Option Node
write cells p c q = if q == p then c else cells q

-- Reading or writing through NULL or through an address that holds no node is a fault.
unfoldable pub load : Ptr → Cmd Heap Node
load p h = elim (h.cells p) [ none ↦ stop fault | some n ↦ ok n h ]

unfoldable pub store : Ptr → Node → Cmd Heap (Unit {0})
unfolding write
store p n h = elim (h.cells p) [
  | none ↦ stop fault
  | some _ ↦ ok tt (record h { cells = write h.cells p (some n) })
]

unfoldable pub free : Ptr → Cmd Heap (Unit {0})
unfolding write
free p h = elim (h.cells p) [
  | none ↦ stop fault
  | some _ ↦ ok tt (record h { cells = write h.cells p none })
]

unfoldable pub take_address : List Ptr → Heap → Run Heap Ptr
take_address [] h = ok null h
take_address (zero ∷ rest) h = ok null (record h { pool = rest })
take_address (suc p ∷ rest) h =
    ok (suc p) (record { cells = write h.cells (suc p) (some zero_node); pool = rest })

unfoldable pub btree_node_alloc : Cmd Heap Ptr
unfolding take_address write zero_node
btree_node_alloc h = take_address h.pool h
