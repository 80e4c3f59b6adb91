-- ===== src/Btree/Typed.antt =====
-- The wrappers of `btree.h` for initialisation, merging and visiting, and the callbacks of
-- `btree.c` that unpack the key. A typed callback is modelled by the calls that it receives.
use logfsprogs.Common.{ℕ, ◌%◌, List, map, get_or}
use logfsprogs.Common.Outcome.{Cmd, pure, Errno, ◌>>=◌}
use logfsprogs.Kerncompat.{u32_mod}
use logfsprogs.Btree.Node.{Ptr, Geo, btree_geo32, btree_geo64, btree_geo128}
use logfsprogs.Btree.Heap.{Heap, Head, btree_init}
use logfsprogs.Btree.Remove.{btree_merge}
use logfsprogs.Btree.Visit.{Call, Trace, btree_visitor, btree_grim_visitor}

-- A call with a key of type `K`: the fourth argument is the index.
pub record TypedCall (K : Type 0) : Type 0 where
  pub elem : Ptr
  pub key : K
  pub index : ℕ

unfoldable pub btree_initl : Head
unfolding btree_init
btree_initl = btree_init

unfoldable pub btree_init32 : Head
unfolding btree_init
btree_init32 = btree_init

unfoldable pub btree_init64 : Head
unfolding btree_init
btree_init64 = btree_init

unfoldable pub btree_init128 : Head
unfolding btree_init
btree_init128 = btree_init

-- `fuel` is more than the number of pairs in the victim.
unfoldable pub btree_mergel : ℕ → Head → Head → Cmd Heap (Errno × Head × Head)
unfolding btree_merge
btree_mergel fuel target victim = btree_merge btree_geo32 fuel target victim

unfoldable pub btree_merge32 : ℕ → Head → Head → Cmd Heap (Errno × Head × Head)
unfolding btree_merge
btree_merge32 fuel target victim = btree_merge btree_geo32 fuel target victim

unfoldable pub btree_merge64 : ℕ → Head → Head → Cmd Heap (Errno × Head × Head)
unfolding btree_merge
btree_merge64 fuel target victim = btree_merge btree_geo64 fuel target victim

unfoldable pub btree_merge128 : ℕ → Head → Head → Cmd Heap (Errno × Head × Head)
unfolding btree_merge
btree_merge128 fuel target victim = btree_merge btree_geo128 fuel target victim

unfoldable pub visitorl : Call → TypedCall ℕ
visitorl c = record { elem = c.elem; key = get_or c.key 0 0; index = c.index }

-- On a little-endian machine the `u32` at the key's address is the low half of its first word.
unfoldable pub visitor32 : Call → TypedCall ℕ
visitor32 c = record { elem = c.elem; key = get_or c.key 0 0 % u32_mod; index = c.index }

unfoldable pub visitor64 : Call → TypedCall ℕ
visitor64 c = record { elem = c.elem; key = get_or c.key 0 0; index = c.index }

unfoldable pub visitor128 : Call → TypedCall (ℕ × ℕ)
visitor128 c = record { elem = c.elem; key = (get_or c.key 0 0, get_or c.key 1 0); index = c.index }

-- The result of a visit: the count, and the calls that the typed callback received.
abbrev typed : {K : Type 0} → (Call → TypedCall K) → Trace → ℕ × List (TypedCall K)
typed visit t = (t.count, map visit t.calls)

abbrev visited :
    {K : Type 0} → (Call → TypedCall K) → Geo → Head → Cmd Heap (ℕ × List (TypedCall K))
visited visit geo head = do t ← btree_visitor geo head; pure (typed visit t)

abbrev grim :
    {K : Type 0} → (Call → TypedCall K) → Geo → Head → Cmd Heap ((ℕ × List (TypedCall K)) × Head)
grim visit geo head = do (t, head') ← btree_grim_visitor geo head; pure (typed visit t, head')

unfoldable pub btree_visitorl : Head → Cmd Heap (ℕ × List (TypedCall ℕ))
unfolding visitorl btree_visitor
btree_visitorl head = visited visitorl btree_geo32 head

unfoldable pub btree_visitor32 : Head → Cmd Heap (ℕ × List (TypedCall ℕ))
unfolding visitor32 btree_visitor
btree_visitor32 head = visited visitor32 btree_geo32 head

unfoldable pub btree_visitor64 : Head → Cmd Heap (ℕ × List (TypedCall ℕ))
unfolding visitor64 btree_visitor
btree_visitor64 head = visited visitor64 btree_geo64 head

unfoldable pub btree_visitor128 : Head → Cmd Heap (ℕ × List (TypedCall (ℕ × ℕ)))
unfolding visitor128 btree_visitor
btree_visitor128 head = visited visitor128 btree_geo128 head

unfoldable pub btree_grim_visitorl : Head → Cmd Heap ((ℕ × List (TypedCall ℕ)) × Head)
unfolding visitorl btree_grim_visitor
btree_grim_visitorl head = grim visitorl btree_geo32 head

unfoldable pub btree_grim_visitor32 : Head → Cmd Heap ((ℕ × List (TypedCall ℕ)) × Head)
unfolding visitor32 btree_grim_visitor
btree_grim_visitor32 head = grim visitor32 btree_geo32 head

unfoldable pub btree_grim_visitor64 : Head → Cmd Heap ((ℕ × List (TypedCall ℕ)) × Head)
unfolding visitor64 btree_grim_visitor
btree_grim_visitor64 head = grim visitor64 btree_geo64 head

unfoldable pub btree_grim_visitor128 : Head → Cmd Heap ((ℕ × List (TypedCall (ℕ × ℕ))) × Head)
unfolding visitor128 btree_grim_visitor
btree_grim_visitor128 head = grim visitor128 btree_geo128 head
