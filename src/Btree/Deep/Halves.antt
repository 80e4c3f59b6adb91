-- ===== src/Btree/Deep/Halves.antt =====
-- The two halves that `split` makes of a full node.
use logfsprogs.Common.{
  ℕ, zero, suc, ◌+◌, ◌*◌, ◌≤◌, ◌<◌, ◌≡◌, inl, inr, refl, ap, ◌∙◌, arith, ◌==◌, Bool-cases,
  if◌then◌else◌, length, length-set, set,
}
use mathlib.Core.Path.{subst}
use logfsprogs.Btree.Node.{
  Node, zero_node, btree_geo64, bkey, bval, setkey, setval, longcpy, longset, copypair, clearpair,
}
use logfsprogs.Btree.Insert.{split_loop}
use logfsprogs.Btree.Slots.{word, word-set, bkey_word}
use logfsprogs.Btree.Leaf.{word-replicate}

copy_words :
    (dst src : Node) (j i : ℕ)
    → length dst ≡ 16
    → length src ≡ 16
    → j < 8
    → i < 8
    → (length (copypair btree_geo64 dst j src i) ≡ 16)
      × ((q : ℕ)
          → word (copypair btree_geo64 dst j src i) q
            ≡ (if q == 8 + j then word src (8 + i) else if q == j then word src i else word dst q))
unfolding copypair setval setkey bval bkey longcpy
copy_words dst src j i width width' lt lt' =
    let e : i * 1 ≡ i = omega arith in
    let e' : j * 1 ≡ j = omega arith in
    let one = length-set dst j (word src i) in
    let two = length-set (set dst j (word src i)) (8 + j) (word src (8 + i)) in
    rw (e, bkey_word src i (omega arith), e')
      (
        two ∙ one ∙ width,
        λ q.
            word-set (set dst j (word src i)) (8 + j) (word src (8 + i)) q (omega arith)
            ∙ ap (λ t. if q == 8 + j then word src (8 + i) else t)
                (word-set dst j (word src i) q (omega arith)),
      )

clear_words :
    (node : Node) (i : ℕ)
    → length node ≡ 16
    → i < 8
    → (length (clearpair btree_geo64 node i) ≡ 16)
      × ((q : ℕ)
          → word (clearpair btree_geo64 node i) q
            ≡ (if q == 8 + i then 0 else if q == i then 0 else word node q))
unfolding clearpair longset
clear_words node i width lt =
    let e : i * 1 ≡ i = omega arith in
    let one = length-set node i 0 in
    let two = length-set (set node i 0) (8 + i) 0 in
    rw e (
      two ∙ one ∙ width,
      λ q.
          word-set (set node i 0) (8 + i) 0 q (omega arith)
          ∙ ap (λ t. if q == 8 + i then 0 else t) (word-set node i 0 q (omega arith)),
    )

-- After `i` rounds on a node: its first `i` pairs were copied to the new one, and replaced by those
-- 4 slots further on, whose slots are empty.
pub record Rounds (node new node' : Node) (i : ℕ) : Type 0 where
  pub width : length new ≡ 16
  pub width' : length node' ≡ 16
  pub copied : (j : ℕ) → j < i → (word new j ≡ word node j) × (word new (8 + j) ≡ word node (8 + j))
  pub blank : (j : ℕ) → i ≤ j → j < 8 → (word new j ≡ 0) × (word new (8 + j) ≡ 0)
  pub moved :
      (j : ℕ)
      → j < i
      → (word node' j ≡ word node (j + 4)) × (word node' (8 + j) ≡ word node (8 + (j + 4)))
  pub same :
      (j : ℕ)
      → i ≤ j
      → j < 4
      → (word node' j ≡ word node j) × (word node' (8 + j) ≡ word node (8 + j))
  pub waiting :
      (j : ℕ)
      → i + 4 ≤ j
      → j < 8
      → (word node' j ≡ word node j) × (word node' (8 + j) ≡ word node (8 + j))
  pub cleared : (j : ℕ) → 4 ≤ j → j < i + 4 → (word node' j ≡ 0) × (word node' (8 + j) ≡ 0)

round_lem :
    (node new node' : Node) (i : ℕ)
    → length node ≡ 16
    → i < 4
    → Rounds node new node' i
    → Rounds node
        (copypair btree_geo64 new i node' i)
        (clearpair btree_geo64 (copypair btree_geo64 node' i node' (i + 4)) (i + 4))
        (i + 1)
round_lem node new node' i width lt r =
    let (w1, c1) = copy_words new node' i i r.width r.width' (omega arith) (omega arith) in
    let (w2, c2) = copy_words node' node' i (i + 4) r.width' r.width' (omega arith) (omega arith) in
    let (w3, c3) =
      clear_words (copypair btree_geo64 node' i node' (i + 4)) (i + 4) w2 (omega arith) in
    record {
      width = w1;
      width' = w3;
      copied = λ j h. elim (Bool-cases (j == i)) [
        | inl here ↦
            let e : j ≡ i = ground arith in
            let (sk, sv) = r.same i (omega arith) lt in
            rw e (ground (arith, c1 i, sk), ground (arith, c1 (8 + i), sv))
        | inr before ↦ (
          ground (arith, c1 j, (r.copied j (ground arith)).0),
          ground (arith, c1 (8 + j), (r.copied j (ground arith)).1),
        )
      ];
      blank = λ j l h. (
        ground (arith, c1 j, (r.blank j (omega arith) h).0),
        ground (arith, c1 (8 + j), (r.blank j (omega arith) h).1),
      );
      moved = λ j h. elim (Bool-cases (j == i)) [
        | inl here ↦
            let e : j ≡ i = ground arith in
            let (sk, sv) = r.waiting (i + 4) (omega arith) (omega arith) in
            rw e (ground (arith, c3 i, c2 i, sk), ground (arith, c3 (8 + i), c2 (8 + i), sv))
        | inr before ↦ (
          ground (arith, c3 j, c2 j, (r.moved j (ground arith)).0),
          ground (arith, c3 (8 + j), c2 (8 + j), (r.moved j (ground arith)).1),
        )
      ];
      same = λ j l h. (
        ground (arith, c3 j, c2 j, (r.same j (omega arith) h).0),
        ground (arith, c3 (8 + j), c2 (8 + j), (r.same j (omega arith) h).1),
      );
      waiting = λ j l h. (
        ground (arith, c3 j, c2 j, (r.waiting j (omega arith) h).0),
        ground (arith, c3 (8 + j), c2 (8 + j), (r.waiting j (omega arith) h).1),
      );
      cleared = λ j l h. elim (Bool-cases (j == i + 4)) [
        | inl here ↦ (ground (arith, c3 j), ground (arith, c3 (8 + j)))
        | inr before ↦ (
          ground (arith, c3 j, c2 j, (r.cleared j l (ground arith)).0),
          ground (arith, c3 (8 + j), c2 (8 + j), (r.cleared j l (ground arith)).1),
        )
      ];
    }

rounds_lem :
    (node : Node) (r i : ℕ) (new node' : Node)
    → length node ≡ 16
    → i + r ≡ 4
    → Rounds node new node' i
    → Rounds node
        (split_loop btree_geo64 4 r i new node').0
        (split_loop btree_geo64 4 r i new node').1
        4
unfolding split_loop
rounds_lem node zero i new node' width e a =
    let e' : i ≡ 4 = omega arith in subst (Rounds node new node') e' a
rounds_lem node (suc r) i new node' width e a =
    rounds_lem node r (i + 1) (copypair btree_geo64 new i node' i)
      (clearpair btree_geo64 (copypair btree_geo64 node' i node' (i + 4)) (i + 4)) width
      (omega arith) (round_lem node new node' i width (omega arith) a)

-- The halves: the first 4 pairs, and the last 4.
abbrev pub front_half : Node → Node
front_half node = (split_loop btree_geo64 4 4 0 zero_node node).0

abbrev pub rear_half : Node → Node
rear_half node = (split_loop btree_geo64 4 4 0 zero_node node).1

pub halves : (node : Node) → length node ≡ 16 → Rounds node (front_half node) (rear_half node) 4
unfolding zero_node
halves node width = rounds_lem node 4 0 zero_node node width refl (record {
  width = refl;
  width' = width;
  copied = λ j h. absurd (omega arith);
  blank = λ j l h. (word-replicate 16 j, word-replicate 16 (8 + j));
  moved = λ j h. absurd (omega arith);
  same = λ j l h. (refl, refl);
  waiting = λ j l h. (refl, refl);
  cleared = λ j l h. absurd (omega arith);
})
