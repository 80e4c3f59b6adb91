-- ===== src/Btree/Position.antt =====
-- Where a node with 64-bit keys is searched: `getpos`, and the lookup in a leaf.
use logfsprogs.Common.{
  ℕ, zero, suc, ◌+◌, ◌*◌, ◌≤◌, ◌<◌, ◌≡◌, ◌≢◌, ◌⊎◌, inl, inr, refl, ap, ◌∙◌, arith, true, false,
  ◌==◌, leb, compare, Ordering, Bool-cases, [], ◌∷◌, some, length,
}
use logfsprogs.Btree.Node.{
  Node, btree_geo64, keycmp, longcmp, bkey, bval, is_le, is_eq, getpos, getpos_loop,
}
use logfsprogs.Btree.Search.{leaf_lookup}
use logfsprogs.Btree.Insert.{insert_pair}
use logfsprogs.Btree.Slots.{word, bkey_word, insert_pair-Inserted}

le_step :
    (o : Ordering)
    → is_le (elim o [
      | Ordering.lt ↦ Ordering.lt
      | Ordering.gt ↦ Ordering.gt
      | Ordering.eq ↦ Ordering.eq
    ])
      ≡ elim o [ Ordering.gt ↦ false | _ ↦ true ]
le_step Ordering.lt = refl
le_step Ordering.eq = refl
le_step Ordering.gt = refl

eq_step :
    (o : Ordering)
    → is_eq (elim o [
      | Ordering.lt ↦ Ordering.lt
      | Ordering.gt ↦ Ordering.gt
      | Ordering.eq ↦ Ordering.eq
    ])
      ≡ elim o [ Ordering.eq ↦ true | _ ↦ false ]
eq_step Ordering.lt = refl
eq_step Ordering.eq = refl
eq_step Ordering.gt = refl

module _ (node : Node) (k i : ℕ) (lt : i < length node) where
  key_le : is_le (keycmp btree_geo64 node i (k ∷ [])) ≡ leb (word node i) k
  unfolding keycmp longcmp bkey
  key_le =
      let e : i * 1 ≡ i = omega arith in
      rw (e, bkey_word node i lt) (le_step (compare (word node i) k))

  pub key_eq : is_eq (keycmp btree_geo64 node i (k ∷ [])) ≡ (word node i == k)
  unfolding keycmp longcmp bkey
  key_eq =
      let e : i * 1 ≡ i = omega arith in
      rw (e, bkey_word node i lt) (eq_step (compare (word node i) k))

-- `p` is the first slot from `i` on whose key is at most `k`, or 8 where there is none.
pub record First (node : Node) (k i p : ℕ) : Type 0 where
  pub from : i ≤ p
  pub inside : p ≤ 8
  pub above : (j : ℕ) → i ≤ j → j < p → k < word node j
  pub least : (p ≡ 8) ⊎ (word node p ≤ k)

getpos_loop_lem :
    (node : Node) (k r i : ℕ)
    → length node ≡ 16
    → i + r ≡ 8
    → First node k i (getpos_loop btree_geo64 node (k ∷ []) r i)
unfolding getpos_loop
getpos_loop_lem node k zero i width e = record {
  from = omega arith;
  inside = omega arith;
  above = λ j a b. absurd (omega arith);
  least = inl (omega arith);
}
getpos_loop_lem node k (suc r) i width e =
    rw (key_le node k i (omega arith)) (elim (Bool-cases (leb (word node i) k)) [
      | inl found ↦ rw found (record {
        from = omega arith;
        inside = omega arith;
        above = λ j a b. absurd (omega arith);
        least = inr (ground arith);
      })
      | inr not_yet ↦ rw not_yet (
          let f = getpos_loop_lem node k r (i + 1) width (omega arith) in
          record {
            from = omega (arith, f.from);
            inside = f.inside;
            above = λ j a b. elim (Bool-cases (j == i)) [
              | inl same ↦ let e' : j ≡ i = ground arith in rw e' (ground arith)
              | inr other ↦ f.above j (ground arith) b
            ];
            least = f.least;
          })
    ])

-- In a node with 64-bit keys `getpos` gives the first slot whose key is at most the key that is
-- looked for: all earlier keys are greater, and the slot is 8 where every key is greater.
pub getpos-First :
    (node : Node) (k : ℕ) → length node ≡ 16 → First node k 0 (getpos btree_geo64 node (k ∷ []))
unfolding getpos
getpos-First node k width = getpos_loop_lem node k 8 0 width refl

-- A slot with the key, and none before it from `i` on.
pub leaf_lookup_lem :
    (node : Node) (k p r i : ℕ)
    → length node ≡ 16
    → i + r ≡ 8
    → i ≤ p
    → p < 8
    → word node p ≡ k
    → ((j : ℕ) → j < p → word node j ≢ k)
    → leaf_lookup btree_geo64 node (k ∷ []) r i ≡ some (word node (8 + p))
unfolding leaf_lookup bval
leaf_lookup_lem node k p zero i width e le lt here before = absurd (omega arith)
leaf_lookup_lem node k p (suc r) i width e le lt here before =
    rw (key_eq node k i (omega arith)) (elim (Bool-cases (word node i == k)) [
      | inl found ↦
          let e' : word node i ≡ k = ground arith in
          let low : ¬ (i < p) = λ l. before i l e' in
          let same : i ≡ p = omega arith in rw found (ap (λ n. some (word node (8 + n))) same)
      | inr other ↦
          let ne : i ≢ p = λ same. absurd (ground (arith, here, ap (word node) same)) in
          rw other
            (leaf_lookup_lem node k p r (i + 1) width (omega arith) (omega arith) lt here before)
    ])

-- In a node with 64-bit keys that has room: a pair that `insert_pair` put where `getpos` says, at
-- most at the fill, is found by the lookup in the leaf.
pub leaf_lookup-insert_pair :
    (k v fill : ℕ) (node : Node)
    → length node ≡ 16
    → fill < 8
    → getpos btree_geo64 node (k ∷ []) ≤ fill
    → leaf_lookup btree_geo64
        (insert_pair btree_geo64 (k ∷ []) v (getpos btree_geo64 node (k ∷ [])) fill node)
        (k ∷ [])
        8
        0
      ≡ some v
leaf_lookup-insert_pair k v fill node width room le =
    let pos = getpos btree_geo64 node (k ∷ []) in
    let f = getpos-First node k width in
    let a = insert_pair-Inserted k v pos fill node width room le in
    let node' = insert_pair btree_geo64 (k ∷ []) v pos fill node in
    leaf_lookup_lem node' k pos 8 0 a.width refl (omega arith) (omega arith)
      (ground (arith, a.keys pos (omega arith)))
      (λ j lt same. absurd (ground (arith, a.keys j (omega arith), f.above j (omega arith) lt)))
    ∙ ap some (ground (arith, a.values pos (omega arith)))
