-- ===== src/Btree/Trip.antt =====
-- A pair that is put into a node with 64-bit keys is found there, and its removal restores the node.
use logfsprogs.Common.{
  ℕ, suc, ◌+◌, ◌-◌, ◌≤◌, ◌<◌, ◌≡◌, inl, inr, refl, sym, ap, ◌∙◌, arith, ltb, Bool-cases, List, [],
  ◌∷◌, length,
}
use logfsprogs.Btree.Node.{Node, btree_geo64}
use logfsprogs.Btree.Insert.{insert_pair}
use logfsprogs.Btree.Remove.{remove_pair}
use logfsprogs.Btree.Slots.{word, insert_pair-Inserted, remove_pair-Removed}

words_ext :
    (xs ys : List ℕ)
    → length xs ≡ length ys
    → ((q : ℕ) → q < length xs → word xs q ≡ word ys q)
    → xs ≡ ys
words_ext [] [] width same = refl
words_ext [] (y ∷ ys) width same = absurd (omega arith)
words_ext (x ∷ xs) [] width same = absurd (omega arith)
words_ext (x ∷ xs) (y ∷ ys) width same =
    let rest = words_ext xs ys (omega arith) (λ q lt. same (suc q) (omega arith)) in
    ap (λ t. x ∷ t) rest ∙ ap (λ t. t ∷ ys) (same 0 (omega arith))

-- In a node with 64-bit keys whose slot at the fill is empty, the removal of the pair that
-- `insert_pair` put in gives back the node.
pub remove_pair-insert_pair :
    (k v pos fill : ℕ) (node : Node)
    → length node ≡ 16
    → fill < 8
    → pos ≤ fill
    → word node fill ≡ 0
    → word node (8 + fill) ≡ 0
    → remove_pair btree_geo64 pos (fill + 1) (insert_pair btree_geo64 (k ∷ []) v pos fill node)
      ≡ node
remove_pair-insert_pair k v pos fill node width room le no_key no_value =
    let mid = insert_pair btree_geo64 (k ∷ []) v pos fill node in
    let a = insert_pair-Inserted k v pos fill node width room le in
    let b = remove_pair-Removed pos (fill + 1) mid a.width (omega arith) (omega arith) in
    words_ext (remove_pair btree_geo64 pos (fill + 1) mid) node (b.width ∙ sym width) (λ q lt.
      elim (Bool-cases (ltb q 8)) [
        | inl key ↦
            let h : q < 8 = ground arith in
            elim (Bool-cases (ltb q 7)) [
              | inl low ↦ ground (arith, b.keys q h, a.keys q h, a.keys (q + 1) (ground arith))
              | inr top ↦ ground (arith, b.keys q h, a.keys q h)
            ]
        | inr value ↦
            let i = q - 8 in
            let e : 8 + i ≡ q = ground arith in
            let h : i < 8 = omega arith in
            ap (word (remove_pair btree_geo64 pos (fill + 1) mid)) (sym e)
            ∙ elim (Bool-cases (ltb i 7)) [
              | inl low ↦
                  ground (arith, b.values i h, a.values i h, a.values (i + 1) (ground arith))
              | inr top ↦ ground (arith, b.values i h, a.values i h)
            ]
            ∙ ap (word node) e
      ])
