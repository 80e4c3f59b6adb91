-- ===== src/Tests/Trees.antt =====
-- Runs of the B+tree.
use logfsprogs.Common.{ℕ, zero, suc, ◌+◌, ◌≡◌, refl, List, [], ◌∷◌, none}
use logfsprogs.Common.Outcome.{Run, ok, stop, Cmd, pure, ◌>>=◌}
use logfsprogs.Btree.Node.{Ptr}
use logfsprogs.Btree.Heap.{Heap, Head, btree_init}
use logfsprogs.Btree.Head64.{btree_lookup64, btree_insert64, btree_remove64, btree_last64}

addresses : ℕ → ℕ → List Ptr
addresses zero p = []
addresses (suc n) p = p ∷ addresses n (p + 1)

start : Heap
unfolding addresses
start = record { cells = λ _. none; pool = addresses 40 1 }

insert_all : List ℕ → Head → Cmd Heap Head
insert_all [] h = pure h
insert_all (k ∷ ks) h = do (_, h') ← btree_insert64 h k (k + 1000); insert_all ks h'

remove_all : List ℕ → Head → Cmd Heap Head
remove_all [] h = pure h
remove_all (k ∷ ks) h = do (_, h') ← btree_remove64 h k; remove_all ks h'

lookup_all : List ℕ → Head → Cmd Heap (List ℕ)
lookup_all [] h = pure []
lookup_all (k ∷ ks) h = do v ← btree_lookup64 h k; vs ← lookup_all ks h; pure (v ∷ vs)

abbrev up_to : ℕ → List ℕ
up_to zero = []
up_to (suc n) = suc n ∷ up_to n

abbrev answer : {A : Type 0} → A → Run Heap A → A
answer d (ok a s) = a
answer d (stop r) = d

session : Cmd Heap (List ℕ)
unfolding insert_all remove_all lookup_all btree_init btree_lookup64 btree_insert64 btree_remove64
    btree_last64 start
session = do
  h ← insert_all (up_to 30) btree_init
  h ← insert_all (50 ∷ 40 ∷ 45 ∷ 33 ∷ []) h
  h ← remove_all (3 ∷ 7 ∷ 9 ∷ 10 ∷ 11 ∷ 12 ∷ []) h
  l ← btree_last64 h
  vs ← lookup_all (1 ∷ 3 ∷ 12 ∷ 13 ∷ 45 ∷ []) h
  pure (l ∷ h.height ∷ vs)

session_runs : answer [] (session start) ≡ 50 ∷ 2 ∷ 1001 ∷ 0 ∷ 0 ∷ 1013 ∷ 1045 ∷ []
unfolding session
session_runs = refl
