-- ===== src/Btree/Leaf.antt =====
-- A leaf with 64-bit keys as a finite map: the pairs in the slots up to the fill, greatest key first.
use logfsprogs.Common.{
  ℕ, zero, suc, ◌+◌, ◌-◌, ◌≤◌, ◌<◌, ◌≡◌, ◌≢◌, ◌⊎◌, inl, inr, refl, sym, ap, ◌∙◌, arith, true, false,
  ◌==◌, ==_refl, ltb, leb, Bool-cases, if◌then◌else◌, [], ◌∷◌, length, replicate,
}
use logfsprogs.Btree.Node.{Node, zero_node, btree_geo64, bval, getpos, getfill, getfill_loop}
use logfsprogs.Btree.Search.{leaf_lookup, or_null}
use logfsprogs.Btree.Insert.{insert_pair}
use logfsprogs.Btree.Slots.{word, insert_pair-Inserted}
use logfsprogs.Btree.Position.{leaf_lookup_lem, getpos-First}
use logfsprogs.Btree.Others.{no_slot_lem, search_lem}

-- A map from keys to values; 0 stands for no value.
abbrev pub update : (ℕ → ℕ) → ℕ → ℕ → ℕ → ℕ
update m k v q = if q == k then v else m q

-- The node has `c` pairs, sorted with the greatest key first, which are those of the map; the other
-- slots are empty.
pub record Leaf (m : ℕ → ℕ) (c : ℕ) (node : Node) : Type 0 where
  pub width : length node ≡ 16
  pub room : c ≤ 8
  pub sorted : (i j : ℕ) → i < j → j < c → word node j < word node i
  pub filled : (j : ℕ) → j < c → word node (8 + j) ≢ 0
  pub no_key : (j : ℕ) → c ≤ j → j < 8 → word node j ≡ 0
  pub no_value : (j : ℕ) → c ≤ j → j < 8 → word node (8 + j) ≡ 0
  pub maps : (j : ℕ) → j < c → m (word node j) ≡ word node (8 + j)
  pub only : (k : ℕ) → ((j : ℕ) → j < c → word node j ≢ k) → m k ≡ 0

pub leaf_lookup-Leaf :
    (m : ℕ → ℕ) (c : ℕ) (node : Node)
    → Leaf m c node
    → (k : ℕ) → or_null (leaf_lookup btree_geo64 node (k ∷ []) 8 0) ≡ m k
leaf_lookup-Leaf m c node a k = elim (search_lem node k 8 (omega arith)) [
  | inr absent ↦
      ap or_null (no_slot_lem node k 8 0 a.width refl absent)
      ∙ sym (a.only k (λ j lt. absent j (omega (arith, a.room))))
  | inl (p, h) ↦
      ap or_null (leaf_lookup_lem node k p 8 0 a.width refl (omega arith) h.inside h.here h.before)
      ∙ elim (Bool-cases (ltb p c)) [
        | inl low ↦ sym (a.maps p (ground arith)) ∙ ap m h.here
        | inr high ↦
            a.no_value p (ground arith) h.inside
            ∙ sym (a.only k (λ j lt. h.before j (ground arith)))
      ]
]

pub getfill_loop_lem :
    (node : Node) (c r i : ℕ)
    → i + r ≡ 8
    → i ≤ c
    → c ≤ 8
    → ((j : ℕ) → j < c → word node (8 + j) ≢ 0)
    → ((j : ℕ) → c ≤ j → j < 8 → word node (8 + j) ≡ 0)
    → getfill_loop btree_geo64 node r i ≡ c
unfolding getfill_loop bval
getfill_loop_lem node c zero i e le room filled empty = omega arith
getfill_loop_lem node c (suc r) i e le room filled empty = elim (Bool-cases (i == c)) [
  | inl last ↦
      let s : i ≡ c = ground arith in
      let z : (word node (8 + i) == 0) ≡ true =
        ground (arith, empty i (omega arith) (omega arith)) in
      rw z s
  | inr inner ↦
      let lt : i < c = ground arith in
      let z : (word node (8 + i) == 0) ≡ false = ground (arith, filled i lt) in
      rw z (getfill_loop_lem node c r (i + 1) (omega arith) (omega arith) room filled empty)
]

pub getfill-Leaf :
    (m : ℕ → ℕ) (c : ℕ) (node : Node)
    → Leaf m c node
    → (i : ℕ) → i ≤ c
    → getfill btree_geo64 node i ≡ c
unfolding getfill
getfill-Leaf m c node a i le =
    let room = a.room in getfill_loop_lem node c (8 - i) i (omega arith) le room a.filled a.no_value

-- The keys in the leaf are those that the map has a value for.
pub absent-Leaf :
    (m : ℕ → ℕ) (c : ℕ) (node : Node)
    → Leaf m c node
    → (k : ℕ) → m k ≡ 0
    → (j : ℕ) → j < c
    → word node j ≢ k
absent-Leaf m c node a k free j lt e = a.filled j lt (sym (a.maps j lt) ∙ ap m e ∙ free)

pub word-replicate : (n j : ℕ) → word (replicate n 0) j ≡ 0
word-replicate zero j = refl
word-replicate (suc n) zero = refl
word-replicate (suc n) (suc j) = word-replicate n j

pub zero-Leaf : (m : ℕ → ℕ) → ((k : ℕ) → m k ≡ 0) → Leaf m 0 zero_node
unfolding zero_node
zero-Leaf m free = record {
  width = refl;
  room = omega arith;
  sorted = λ i j l h. absurd (omega arith);
  filled = λ j h. absurd (omega arith);
  no_key = λ j l h. word-replicate 16 j;
  no_value = λ j l h. word-replicate 16 (8 + j);
  maps = λ j h. absurd (omega arith);
  only = λ k h. free k;
}

-- Where the pairs of a leaf stand after an insertion, and where the new one stands.
module _ (m : ℕ → ℕ) (c : ℕ) (node : Node) (a : Leaf m c node) (k v : ℕ) (room : c < 8)
    (free : m k ≡ 0) where
  abbrev pos : ℕ
  pos = getpos btree_geo64 node (k ∷ [])

  abbrev node' : Node
  node' = insert_pair btree_geo64 (k ∷ []) v pos c node

  pub getpos-Leaf : pos ≤ c
  getpos-Leaf =
      let f = getpos-First node k a.width in
      elim (Bool-cases (leb pos c)) [
        | inl low ↦ ground arith
        | inr high ↦
            let z = a.no_key c (omega arith) room in
            let over = f.above c (omega arith) (ground arith) in absurd (omega arith)
      ]

  greater : (j : ℕ) → j < pos → k < word node j
  greater j lt = (getpos-First node k a.width).above j (omega arith) lt

  smaller : (j : ℕ) → pos ≤ j → j < c → word node j < k
  smaller j le lt =
      let f = getpos-First node k a.width in
      let ne = absent-Leaf m c node a k free pos (omega arith) in
      elim f.least [
        | inl end ↦ absurd (omega arith)
        | inr least ↦ elim (Bool-cases (pos == j)) [
          | inl here ↦ let e : pos ≡ j = ground arith in let w = ap (word node) e in ground arith
          | inr past ↦ let s = a.sorted pos j (ground arith) lt in ground arith
        ]
      ]

  -- Slot `j'` of the new leaf holds the new pair or what slot `j` of the old one held.
  abbrev Origin : ℕ → Type 0
  Origin j' =
      ((j' ≡ pos) × (word node' j' ≡ k) × (word node' (8 + j') ≡ v))
      ⊎ ((j : ℕ) × (j < c)
          × (word node' j' ≡ word node j)
          × (word node' (8 + j') ≡ word node (8 + j))
          × (((j < pos) × (j' ≡ j)) ⊎ ((pos ≤ j) × (j' ≡ j + 1))))

  origin : (j' : ℕ) → j' < c + 1 → Origin j'
  origin j' lt =
      let le = getpos-Leaf in
      let b = insert_pair-Inserted k v pos c node a.width room le in
      let ks = b.keys j' (omega arith) in
      let vs = b.values j' (omega arith) in
      elim (Bool-cases (j' == pos)) [
        | inl here ↦ inl (ground arith, ground arith, ground arith)
        | inr other ↦ elim (Bool-cases (ltb pos j')) [
          | inl behind ↦
              inr
                (j' - 1, ground arith, ground arith, ground arith, inr (ground arith, ground arith))
          | inr front ↦ inr (j', ground arith, ground arith, ground arith, inl (ground arith, refl))
        ]
      ]

  kept : (j : ℕ) → j < c → (j' : ℕ) × (j' < c + 1) × (word node' j' ≡ word node j)
  kept j lt =
      let le = getpos-Leaf in
      let b = insert_pair-Inserted k v pos c node a.width room le in
      elim (Bool-cases (ltb j pos)) [
        | inl front ↦ let ks = b.keys j (omega arith) in (j, omega arith, ground arith)
        | inr behind ↦ let ks = b.keys (j + 1) (omega arith) in (j + 1, omega arith, ground arith)
      ]

  sorted' : (i j : ℕ) → i < j → j < c + 1 → word node' j < word node' i
  sorted' i j lt top = elim (origin i (omega arith)) [
    | inl (at, ki, vi) ↦ elim (origin j top) [
      | inl (at', kj, vj) ↦ absurd (omega arith)
      | inr (q, h, kj, vj, inl (low, e)) ↦ absurd (omega arith)
      | inr (q, h, kj, vj, inr (high, e)) ↦ let s = smaller q high h in omega arith
    ]
    | inr (p, g, ki, vi, inl (low, e)) ↦ elim (origin j top) [
      | inl (at', kj, vj) ↦ let s = greater p low in omega arith
      | inr (q, h, kj, vj, inl (low', e')) ↦ let s = a.sorted p q (omega arith) h in omega arith
      | inr (q, h, kj, vj, inr (high, e')) ↦ let s = a.sorted p q (omega arith) h in omega arith
    ]
    | inr (p, g, ki, vi, inr (high, e)) ↦ elim (origin j top) [
      | inl (at', kj, vj) ↦ absurd (omega arith)
      | inr (q, h, kj, vj, inl (low', e')) ↦ absurd (omega arith)
      | inr (q, h, kj, vj, inr (high', e')) ↦ let s = a.sorted p q (omega arith) h in omega arith
    ]
  ]

  -- The new leaf has one pair more, and is the updated map.
  pub insert_pair-Leaf : v ≢ 0 → Leaf (update m k v) (c + 1) node'
  insert_pair-Leaf some_value =
      let le = getpos-Leaf in
      let b = insert_pair-Inserted k v pos c node a.width room le in
      record {
        width = b.width;
        room = omega arith;
        sorted = sorted';
        filled = λ j lt e. elim (origin j lt) [
          | inl (at, kj, vj) ↦ some_value (sym vj ∙ e)
          | inr (q, h, kj, vj, side) ↦ a.filled q h (sym vj ∙ e)
        ];
        no_key = λ j l h. ground (arith, b.keys j h, a.no_key j (omega arith) h);
        no_value = λ j l h. ground (arith, b.values j h, a.no_value j (omega arith) h);
        maps = λ j lt. elim (origin j lt) [
          | inl (at, kj, vj) ↦ rw (kj, ==_refl k) (sym vj)
          | inr (q, h, kj, vj, side) ↦
              let ne = absent-Leaf m c node a k free q h in
              let no : (word node q == k) ≡ false = ground arith in
              rw (kj, no) (a.maps q h ∙ sym vj)
        ];
        only = λ q absent. elim (Bool-cases (q == k)) [
          | inl same ↦
              let e : q ≡ k = ground arith in
              let ks = b.keys pos (omega arith) in absurd (absent pos (omega arith) (ground arith))
          | inr other ↦
              rw other
                (a.only q (λ j lt e. let (j', h, same) = kept j lt in absent j' h (same ∙ e)))
        ];
      }
