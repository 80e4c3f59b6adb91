-- ===== src/Tests/Leaves.antt =====
-- The theorems on leaves at a node with three pairs.
use logfsprogs.Common.{ℕ, zero, suc, ◌+◌, ◌≤◌, ◌<◌, ◌≡◌, ◌≢◌, refl, arith, [], ◌∷◌, some, none}
use logfsprogs.Btree.Node.{Node, btree_geo64, getpos}
use logfsprogs.Btree.Search.{leaf_lookup}
use logfsprogs.Btree.Insert.{insert_pair}
use logfsprogs.Btree.Remove.{remove_pair}
use logfsprogs.Btree.Slots.{word, Inserted, Removed, insert_pair-Inserted, remove_pair-Removed}
use logfsprogs.Btree.Trip.{remove_pair-insert_pair}
use logfsprogs.Btree.Position.{First, getpos-First, leaf_lookup-insert_pair}
use logfsprogs.Btree.Others.{
  leaf_lookup-insert_pair_other, leaf_lookup-remove_pair, leaf_lookup-remove_pair_other,
}

abbrev leaf : Node
leaf = 30 ∷ 20 ∷ 10 ∷ 0 ∷ 0 ∷ 0 ∷ 0 ∷ 0 ∷ 3 ∷ 2 ∷ 1 ∷ 0 ∷ 0 ∷ 0 ∷ 0 ∷ 0 ∷ []

empty : (j : ℕ) → 3 ≤ j → j < 8 → word leaf j ≡ 0
empty zero le lt = absurd (omega arith)
empty (suc zero) le lt = absurd (omega arith)
empty (suc (suc zero)) le lt = absurd (omega arith)
empty (suc (suc (suc zero))) le lt = refl
empty (suc (suc (suc (suc zero)))) le lt = refl
empty (suc (suc (suc (suc (suc zero))))) le lt = refl
empty (suc (suc (suc (suc (suc (suc zero)))))) le lt = refl
empty (suc (suc (suc (suc (suc (suc (suc zero))))))) le lt = refl
empty (suc (suc (suc (suc (suc (suc (suc (suc j)))))))) le lt = absurd (omega arith)

distinct : (j : ℕ) → j < 8 → j ≢ 1 → word leaf j ≢ 20
distinct zero lt ne = λ e. absurd (omega arith)
distinct (suc zero) lt ne = λ e. ne refl
distinct (suc (suc zero)) lt ne = λ e. absurd (omega arith)
distinct (suc (suc (suc j))) lt ne =
    λ e. absurd (omega (arith, empty (suc (suc (suc j))) (omega arith) lt))

getpos_25 : getpos btree_geo64 leaf (25 ∷ []) ≤ 3
unfolding getpos
getpos_25 = omega arith

insert_pair-Inserted_example : Inserted 25 7 1 3 leaf (insert_pair btree_geo64 (25 ∷ []) 7 1 3 leaf)
insert_pair-Inserted_example = insert_pair-Inserted 25 7 1 3 leaf refl (omega arith) (omega arith)

remove_pair-Removed_example : Removed 1 3 leaf (remove_pair btree_geo64 1 3 leaf)
remove_pair-Removed_example = remove_pair-Removed 1 3 leaf refl (omega arith) (omega arith)

remove_pair-insert_pair_example :
    remove_pair btree_geo64 1 (3 + 1) (insert_pair btree_geo64 (25 ∷ []) 7 1 3 leaf) ≡ leaf
remove_pair-insert_pair_example =
    remove_pair-insert_pair 25 7 1 3 leaf refl (omega arith) (omega arith) refl refl

getpos-First_example : First leaf 25 0 (getpos btree_geo64 leaf (25 ∷ []))
getpos-First_example = getpos-First leaf 25 refl

leaf_lookup-insert_pair_example :
    leaf_lookup btree_geo64
      (insert_pair btree_geo64 (25 ∷ []) 7 (getpos btree_geo64 leaf (25 ∷ [])) 3 leaf)
      (25 ∷ [])
      8
      0
    ≡ some 7
leaf_lookup-insert_pair_example = leaf_lookup-insert_pair 25 7 3 leaf refl (omega arith) getpos_25

leaf_lookup-insert_pair_other_example :
    leaf_lookup btree_geo64 (insert_pair btree_geo64 (25 ∷ []) 7 1 3 leaf) (10 ∷ []) 8 0
    ≡ leaf_lookup btree_geo64 leaf (10 ∷ []) 8 0
leaf_lookup-insert_pair_other_example =
    leaf_lookup-insert_pair_other 25 7 1 3 leaf refl (omega arith) (omega arith) empty 10
      (λ e. absurd (omega arith)) (λ e. absurd (omega arith))

leaf_lookup-remove_pair_example :
    leaf_lookup btree_geo64 (remove_pair btree_geo64 1 3 leaf) (20 ∷ []) 8 0 ≡ none
leaf_lookup-remove_pair_example =
    leaf_lookup-remove_pair 1 3 leaf refl (omega arith) (omega arith) empty distinct
      (λ e. absurd (omega arith))

leaf_lookup-remove_pair_other_example :
    leaf_lookup btree_geo64 (remove_pair btree_geo64 1 3 leaf) (10 ∷ []) 8 0
    ≡ leaf_lookup btree_geo64 leaf (10 ∷ []) 8 0
leaf_lookup-remove_pair_other_example =
    leaf_lookup-remove_pair_other 1 3 leaf refl (omega arith) (omega arith) empty 10
      (λ e. absurd (omega arith)) (λ e. absurd (omega arith))
