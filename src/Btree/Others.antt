-- ===== src/Btree/Others.antt =====
-- The pairs of a leaf that an insertion or removal is not about.
use logfsprogs.Common.{
  ℕ, zero, suc, ◌+◌, ◌-◌, ◌≤◌, ◌<◌, ◌≡◌, ◌≢◌, ◌⊎◌, inl, inr, refl, sym, ap, ◌∙◌, arith, false, ◌==◌,
  ltb, Bool-cases, [], ◌∷◌, none, some, length,
}
use logfsprogs.Btree.Node.{Node, btree_geo64}
use logfsprogs.Btree.Search.{leaf_lookup}
use logfsprogs.Btree.Insert.{insert_pair}
use logfsprogs.Btree.Remove.{remove_pair}
use logfsprogs.Btree.Slots.{word, insert_pair-Inserted, remove_pair-Removed}
use logfsprogs.Btree.Position.{leaf_lookup_lem, key_eq}

-- No slot from `i` on has the key.
pub no_slot_lem :
    (node : Node) (k r i : ℕ)
    → length node ≡ 16
    → i + r ≡ 8
    → ((j : ℕ) → j < 8 → word node j ≢ k)
    → leaf_lookup btree_geo64 node (k ∷ []) r i ≡ none
unfolding leaf_lookup
no_slot_lem node k zero i width e absent = refl
no_slot_lem node k (suc r) i width e absent =
    let no : (word node i == k) ≡ false = ground (arith, absent i (omega arith)) in
    rw (key_eq node k i (omega arith), no) (no_slot_lem node k r (i + 1) width (omega arith) absent)

-- Slot `p` is the first that has the key.
pub record Holds (node : Node) (k p : ℕ) : Type 0 where
  pub inside : p < 8
  pub here : word node p ≡ k
  pub before : (j : ℕ) → j < p → word node j ≢ k

pub search_lem :
    (node : Node) (k n : ℕ)
    → n ≤ 8
    → ((p : ℕ) × Holds node k p) ⊎ ((j : ℕ) → j < n → word node j ≢ k)
search_lem node k zero le = inr (λ j lt. absurd (omega arith))
search_lem node k (suc n) le = elim (search_lem node k n (omega arith)) [
  | inl found ↦ inl found
  | inr absent ↦ elim (Bool-cases (word node n == k)) [
    | inl same ↦ inl (n, record { inside = omega arith; here = ground arith; before = absent })
    | inr other ↦ inr (λ j lt. elim (Bool-cases (j == n)) [
      | inl last ↦ let e : j ≡ n = ground arith in rw e (ground arith)
      | inr earlier ↦ absent j (ground arith)
    ])
  ]
]

-- Two leaves with the same answer for a key: both have it, with one value, or none has it.
same_answer :
    (node node' : Node) (k : ℕ)
    → length node ≡ 16
    → length node' ≡ 16
    → ((p : ℕ)
        → Holds node k p
        → (p' : ℕ) × Holds node' k p' × (word node' (8 + p') ≡ word node (8 + p)))
    → (((j : ℕ) → j < 8 → word node j ≢ k) → (j : ℕ) → j < 8 → word node' j ≢ k)
    → leaf_lookup btree_geo64 node' (k ∷ []) 8 0 ≡ leaf_lookup btree_geo64 node (k ∷ []) 8 0
same_answer node node' k width width' moved absent = elim (search_lem node k 8 (omega arith)) [
  | inl (p, h) ↦
      let (p', h', value) = moved p h in
      leaf_lookup_lem node' k p' 8 0 width' refl (omega arith) h'.inside h'.here h'.before
      ∙ ap some value
      ∙ sym (leaf_lookup_lem node k p 8 0 width refl (omega arith) h.inside h.here h.before)
  | inr none_has ↦
      no_slot_lem node' k 8 0 width' refl (absent none_has)
      ∙ sym (no_slot_lem node k 8 0 width refl none_has)
]

-- In a node with 64-bit keys whose slots from the fill on are empty, `insert_pair` leaves the answer
-- for every other key than 0 and the new one as it was.
pub leaf_lookup-insert_pair_other :
    (k v pos fill : ℕ) (node : Node)
    → length node ≡ 16
    → fill < 8
    → pos ≤ fill
    → ((j : ℕ) → fill ≤ j → j < 8 → word node j ≡ 0)
    → (k' : ℕ) → k' ≢ k
    → k' ≢ 0
    → leaf_lookup btree_geo64 (insert_pair btree_geo64 (k ∷ []) v pos fill node) (k' ∷ []) 8 0
      ≡ leaf_lookup btree_geo64 node (k' ∷ []) 8 0
leaf_lookup-insert_pair_other k v pos fill node width room le empty k' ne some_key =
    let a = insert_pair-Inserted k v pos fill node width room le in
    same_answer node (insert_pair btree_geo64 (k ∷ []) v pos fill node) k' width a.width
      (λ p h.
        let low : p < fill = not_empty p h in
        elim (Bool-cases (ltb p pos)) [
          | inl front ↦ (
            p,
            record {
              inside = h.inside;
              here = ground (arith, a.keys p h.inside, h.here);
              before = λ j lt. ground (arith, a.keys j (omega (arith, h.inside)), h.before j lt);
            },
            ground (arith, a.values p h.inside),
          )
          | inr behind ↦ (
            p + 1,
            record {
              inside = omega arith;
              here = ground (arith, a.keys (p + 1) (omega arith), h.here);
              before = λ j lt. elim (Bool-cases (ltb j pos)) [
                | inl front ↦ ground (arith, a.keys j (omega arith), h.before j (ground arith))
                | inr not_front ↦ ground (arith, a.keys j (omega arith), h.before (j - 1), ne)
              ];
            },
            ground (arith, a.values (p + 1) (omega arith)),
          )
        ])
      (λ absent j lt. ground (arith, a.keys j lt, absent j lt, absent (j - 1) (omega arith), ne))
  where
    not_empty : (p : ℕ) → Holds node k' p → p < fill
    not_empty p h = elim (Bool-cases (ltb p fill)) [
      | inl low ↦ ground arith
      | inr high ↦ absurd (some_key (sym h.here ∙ empty p (ground arith) h.inside))
    ]

-- In a node with 64-bit keys, a key that is not 0 and stands in one slot, below the fill, is no
-- longer found once `remove_pair` removed that slot, where the slots from the fill on are empty.
pub leaf_lookup-remove_pair :
    (pos fill : ℕ) (node : Node)
    → length node ≡ 16
    → fill ≤ 8
    → pos < fill
    → ((j : ℕ) → fill ≤ j → j < 8 → word node j ≡ 0)
    → ((j : ℕ) → j < 8 → j ≢ pos → word node j ≢ word node pos)
    → word node pos ≢ 0
    → leaf_lookup btree_geo64 (remove_pair btree_geo64 pos fill node) (word node pos ∷ []) 8 0
      ≡ none
leaf_lookup-remove_pair pos fill node width room lt empty distinct some_key =
    let a = remove_pair-Removed pos fill node width room lt in
    no_slot_lem (remove_pair btree_geo64 pos fill node) (word node pos) 8 0 a.width refl (λ j h.
      elim (Bool-cases (ltb j pos)) [
        | inl front ↦
            ground (arith, a.keys j h, distinct j h (λ e. absurd (ground arith)), some_key)
        | inr behind ↦ elim (Bool-cases (ltb j (fill - 1))) [
          | inl inner ↦ ground (
            arith,
            a.keys j h,
            distinct (j + 1) (ground arith) (λ e. absurd (ground arith)),
            some_key,
          )
          | inr outer ↦ elim (Bool-cases (j == fill - 1)) [
            | inl last ↦ ground (arith, a.keys j h, some_key)
            | inr past ↦ ground (arith, a.keys j h, empty j (ground arith) h, some_key)
          ]
        ]
      ])

-- In a node with 64-bit keys whose slots from the fill on are empty, `remove_pair` leaves the answer
-- for every key but 0 and the one in the removed slot as it was.
pub leaf_lookup-remove_pair_other :
    (pos fill : ℕ) (node : Node)
    → length node ≡ 16
    → fill ≤ 8
    → pos < fill
    → ((j : ℕ) → fill ≤ j → j < 8 → word node j ≡ 0)
    → (k' : ℕ) → k' ≢ word node pos
    → k' ≢ 0
    → leaf_lookup btree_geo64 (remove_pair btree_geo64 pos fill node) (k' ∷ []) 8 0
      ≡ leaf_lookup btree_geo64 node (k' ∷ []) 8 0
leaf_lookup-remove_pair_other pos fill node width room lt empty k' ne some_key =
    let a = remove_pair-Removed pos fill node width room lt in
    same_answer node (remove_pair btree_geo64 pos fill node) k' width a.width
      (λ p h.
        let low : p < fill = not_empty p h in
        elim (Bool-cases (ltb p pos)) [
          | inl front ↦ (
            p,
            record {
              inside = h.inside;
              here = ground (arith, a.keys p h.inside, h.here);
              before = λ j l. ground (arith, a.keys j (omega (arith, h.inside)), h.before j l);
            },
            ground (arith, a.values p h.inside),
          )
          | inr behind ↦
              let up : pos < p = past p h (ground arith) in
              let e : p - 1 + 1 ≡ p = omega arith in
              let h0 : p - 1 < 8 = omega arith in
              (
                p - 1,
                record {
                  inside = h0;
                  here = ground (arith, a.keys (p - 1) h0, ap (word node) e, h.here);
                  before = λ j l. ground (
                    arith,
                    a.keys j (omega arith),
                    h.before j (omega arith),
                    h.before (j + 1) (omega arith),
                  );
                },
                ground (arith, a.values (p - 1) h0, ap (λ q. word node (8 + q)) e),
              )
        ])
      (λ absent j h. elim (Bool-cases (ltb j (fill - 1))) [
        | inl inner ↦ ground (arith, a.keys j h, absent j h, absent (j + 1) (ground arith))
        | inr outer ↦ ground (arith, a.keys j h, absent j h, some_key)
      ])
  where
    not_empty : (p : ℕ) → Holds node k' p → p < fill
    not_empty p h = elim (Bool-cases (ltb p fill)) [
      | inl low ↦ ground arith
      | inr high ↦ absurd (some_key (sym h.here ∙ empty p (ground arith) h.inside))
    ]

    past : (p : ℕ) → Holds node k' p → pos ≤ p → pos < p
    past p h le = elim (Bool-cases (p == pos)) [
      | inl same ↦ let e : p ≡ pos = ground arith in absurd (ne (sym h.here ∙ ap (word node) e))
      | inr other ↦ ground arith
    ]
