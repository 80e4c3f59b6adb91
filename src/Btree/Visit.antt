-- ===== src/Btree/Visit.antt =====
-- `btree_visitor` and `btree_grim_visitor`. A callback is modelled by the calls that it receives:
-- element, key and index, in order.
use logfsprogs.Common.{
  ℕ, zero, suc, ◌+◌, ◌-◌, Bool, true, false, List, [], ◌∷◌, ◌++◌, ◌==◌, if◌then◌else◌,
}
use logfsprogs.Common.Outcome.{Cmd, pure, ◌>>=◌, ◌>>◌}
use logfsprogs.Btree.Node.{Geo, Ptr, null, Key, bkey, bval}
use logfsprogs.Btree.Heap.{Heap, Head, btree_init, load, free}

pub record Call : Type 0 where
  pub elem : Ptr
  pub key : Key
  pub index : ℕ

-- `count`, and the calls made so far.
pub record Trace : Type 0 where
  pub count : ℕ
  pub calls : List Call

-- The loop over the slots of one node; `visit` is what is done with a child.
slots_loop : Geo → Ptr → (Ptr → Key → Trace → Cmd Heap Trace) → ℕ → ℕ → Trace → Cmd Heap Trace
slots_loop geo node visit zero i t = pure t
slots_loop geo node visit (suc r) i t = do
  n ← load node
  if bval geo n i == 0
      then pure t
      else do t' ← visit (bval geo n i) (bkey geo n i) t; slots_loop geo node visit r (i + 1) t'

-- `func(child, opaque, bkey(geo, node, i), count++, func2)`
call_func : Ptr → Key → Trace → Cmd Heap Trace
call_func child key t = pure (record {
  count = t.count + 1;
  calls = t.calls ++ (record { elem = child; key = key; index = t.count }) ∷ [];
})

-- `__btree_for_each` at height `h + 1`
for_each : Geo → Bool → ℕ → Ptr → Trace → Cmd Heap Trace
for_each geo reap zero node t = do
  t' ← slots_loop geo node call_func geo.no_pairs 0 t
  if reap then free node else pure tt
  pure t'
for_each geo reap (suc h) node t = do
  t' ← slots_loop geo node (λ child key. for_each geo reap h child) geo.no_pairs 0 t
  if reap then free node else pure tt
  pure t'

abbrev no_trace : Trace
no_trace = record { count = 0; calls = [] }

unfoldable pub btree_visitor : Geo → Head → Cmd Heap Trace
unfolding for_each slots_loop call_func load free bval bkey
btree_visitor geo head =
    if head.node == null
    then pure no_trace
    else for_each geo false (head.height - 1) head.node no_trace

-- Every node is freed, and the head starts anew.
unfoldable pub btree_grim_visitor : Geo → Head → Cmd Heap (Trace × Head)
unfolding for_each slots_loop call_func load free bval bkey btree_init
btree_grim_visitor geo head = do
  t ←
      if head.node == null
      then pure no_trace
      else for_each geo true (head.height - 1) head.node no_trace
  pure (t, btree_init)
