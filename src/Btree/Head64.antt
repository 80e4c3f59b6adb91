-- ===== src/Btree/Head64.antt =====
-- The wrappers of `btree.h` with keys of one `u64`, one `unsigned long` or two `u64`.
use logfsprogs.Common.{ℕ, [], ◌∷◌, Option, none, some, get_or}
use logfsprogs.Common.Outcome.{Cmd, pure, Errno, ◌>>=◌}
use logfsprogs.Btree.Node.{Ptr, Key, btree_geo32, btree_geo64, btree_geo128}
use logfsprogs.Btree.Heap.{Heap, Head}
use logfsprogs.Btree.Search.{btree_last, btree_lookup}
use logfsprogs.Btree.Insert.{btree_insert}
use logfsprogs.Btree.Remove.{btree_remove}

unfoldable pub btree_lookup64 : Head → ℕ → Cmd Heap Ptr
unfolding btree_lookup
btree_lookup64 head key = btree_lookup btree_geo64 head (key ∷ [])

unfoldable pub btree_insert64 : Head → ℕ → Ptr → Cmd Heap (Errno × Head)
unfolding btree_insert
btree_insert64 head key val = btree_insert btree_geo64 head (key ∷ []) val

unfoldable pub btree_remove64 : Head → ℕ → Cmd Heap (Ptr × Head)
unfolding btree_remove
btree_remove64 head key = btree_remove btree_geo64 head (key ∷ [])

-- `*key`, or 0 where the tree is empty
abbrev first_word : Option Key → ℕ
first_word none = 0
first_word (some k) = get_or k 0 0

unfoldable pub btree_last64 : Head → Cmd Heap ℕ
unfolding btree_last
btree_last64 head = do key ← btree_last btree_geo64 head; pure (first_word key)

unfoldable pub btree_lookupl : Head → ℕ → Cmd Heap Ptr
unfolding btree_lookup
btree_lookupl head key = btree_lookup btree_geo32 head (key ∷ [])

unfoldable pub btree_insertl : Head → ℕ → Ptr → Cmd Heap (Errno × Head)
unfolding btree_insert
btree_insertl head key val = btree_insert btree_geo32 head (key ∷ []) val

unfoldable pub btree_removel : Head → ℕ → Cmd Heap (Ptr × Head)
unfolding btree_remove
btree_removel head key = btree_remove btree_geo32 head (key ∷ [])

unfoldable pub btree_lookup128 : Head → ℕ → ℕ → Cmd Heap Ptr
unfolding btree_lookup
btree_lookup128 head k1 k2 = btree_lookup btree_geo128 head (k1 ∷ k2 ∷ [])

unfoldable pub btree_insert128 : Head → ℕ → ℕ → Ptr → Cmd Heap (Errno × Head)
unfolding btree_insert
btree_insert128 head k1 k2 val = btree_insert btree_geo128 head (k1 ∷ k2 ∷ []) val

unfoldable pub btree_remove128 : Head → ℕ → ℕ → Cmd Heap (Ptr × Head)
unfolding btree_remove
btree_remove128 head k1 k2 = btree_remove btree_geo128 head (k1 ∷ k2 ∷ [])

abbrev two_words : Option Key → ℕ × ℕ
two_words none = (0, 0)
two_words (some k) = (get_or k 0 0, get_or k 1 0)

unfoldable pub btree_last128 : Head → Cmd Heap (ℕ × ℕ)
unfolding btree_last
btree_last128 head = do key ← btree_last btree_geo128 head; pure (two_words key)
