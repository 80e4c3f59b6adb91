-- ===== src/Btree/Dropped.antt =====
-- A leaf with 64-bit keys as a finite map, after `remove_pair`.
use logfsprogs.Common.{
  ℕ, ◌+◌, ◌-◌, ◌<◌, ◌≡◌, ◌≢◌, ◌⊎◌, inl, inr, refl, sym, ap, ◌∙◌, arith, false, ◌==◌, ltb,
  Bool-cases, [], ◌∷◌,
}
use logfsprogs.Btree.Node.{Node, btree_geo64, getpos}
use logfsprogs.Btree.Remove.{remove_pair}
use logfsprogs.Btree.Slots.{word, remove_pair-Removed}
use logfsprogs.Btree.Position.{getpos-First}
use logfsprogs.Btree.Leaf.{Leaf, update}

-- No key stands in two slots.
pub distinct-Leaf :
    (m : ℕ → ℕ) (c : ℕ) (node : Node)
    → Leaf m c node
    → (i j : ℕ) → i < c
    → j < c
    → word node i ≡ word node j
    → i ≡ j
distinct-Leaf m c node a i j hi hj e = elim (Bool-cases (i == j)) [
  | inl same ↦ ground arith
  | inr other ↦ elim (Bool-cases (ltb i j)) [
    | inl below ↦ let s = a.sorted i j (ground arith) hj in absurd (omega arith)
    | inr above ↦ let s = a.sorted j i (ground arith) hi in absurd (omega arith)
  ]
]

-- A key of the map is found in a slot, and `getpos` gives that slot.
pub getpos_there :
    (m : ℕ → ℕ) (c : ℕ) (node : Node)
    → Leaf m c node
    → (p : ℕ) → p < c
    → getpos btree_geo64 node (word node p ∷ []) ≡ p
getpos_there m c node a p lt =
    let room = a.room in
    let f = getpos-First node (word node p) a.width in
    let q = getpos btree_geo64 node (word node p ∷ []) in
    elim (Bool-cases (ltb p q)) [
      | inl below ↦ let s = f.above p (omega arith) (ground arith) in absurd (omega arith)
      | inr not_below ↦ elim (Bool-cases (q == p)) [
        | inl same ↦ ground arith
        | inr other ↦
            let above : q < p = ground arith in
            let s = a.sorted q p above lt in
            elim f.least [ inl end ↦ absurd (omega arith) | inr least ↦ absurd (omega arith) ]
      ]
    ]

module _ (m : ℕ → ℕ) (c : ℕ) (node : Node) (a : Leaf m c node) (p : ℕ) (lt : p < c) where
  abbrev node' : Node
  node' = remove_pair btree_geo64 p c node

  -- What slot `j'` holds now was in slot `j`.
  abbrev Origin : ℕ → Type 0
  Origin j' =
      (j : ℕ) × (j < c)
      × (j ≢ p)
      × (word node' j' ≡ word node j)
      × (word node' (8 + j') ≡ word node (8 + j))
      × (((j < p) × (j ≡ j')) ⊎ ((p < j) × (j ≡ j' + 1)))

  origin : (j' : ℕ) → j' < c - 1 → Origin j'
  origin j' low =
      let b = remove_pair-Removed p c node a.width a.room lt in
      let room = a.room in
      let ks = b.keys j' (omega arith) in
      let vs = b.values j' (omega arith) in
      elim (Bool-cases (ltb j' p)) [
        | inl front ↦ (
          j',
          omega arith,
          (λ e. absurd (ground arith)),
          ground arith,
          ground arith,
          inl (ground arith, refl),
        )
        | inr behind ↦ (
          j' + 1,
          omega arith,
          (λ e. absurd (ground arith)),
          ground arith,
          ground arith,
          inr (ground arith, refl),
        )
      ]

  kept : (j : ℕ) → j < c → j ≢ p → (j' : ℕ) × (j' < c - 1) × (word node' j' ≡ word node j)
  kept j h ne =
      let b = remove_pair-Removed p c node a.width a.room lt in
      let room = a.room in
      elim (Bool-cases (ltb j p)) [
        | inl front ↦
            let low : j < c - 1 = ground arith in
            let ks = b.keys j (omega arith) in (j, low, ground arith)
        | inr behind ↦
            let above : p < j = ground arith in
            let e : j - 1 + 1 ≡ j = omega arith in
            let ks = b.keys (j - 1) (omega arith) in
            (j - 1, omega arith, ground (arith, ap (word node) e))
      ]

  other_key : (j : ℕ) → j < c → j ≢ p → (word node j == word node p) ≡ false
  other_key j h ne = elim (Bool-cases (word node j == word node p)) [
    | inr other ↦ other
    | inl same ↦ absurd (ne (distinct-Leaf m c node a j p h lt (ground arith)))
  ]

  sorted' : (i j : ℕ) → i < j → j < c - 1 → word node' j < word node' i
  sorted' i j less top =
      let (p1, h1, n1, k1, v1, s1) = origin i (omega arith) in
      let (p2, h2, n2, k2, v2, s2) = origin j top in
      let s = a.sorted p1 p2 (ground (arith, s1, s2)) h2 in omega arith

  -- The new leaf has one pair less: that of the removed slot.
  pub remove_pair-Leaf : Leaf (update m (word node p) 0) (c - 1) node'
  remove_pair-Leaf =
      let b = remove_pair-Removed p c node a.width a.room lt in
      let room = a.room in
      record {
        width = b.width;
        room = omega arith;
        sorted = sorted';
        filled = λ j h e. let (q, hq, ne, kq, vq, side) = origin j h in a.filled q hq (sym vq ∙ e);
        no_key = λ j l h. elim (Bool-cases (j == c - 1)) [
          | inl last ↦ ground (arith, b.keys j h)
          | inr past ↦ ground (arith, b.keys j h, a.no_key j (ground arith) h)
        ];
        no_value = λ j l h. elim (Bool-cases (j == c - 1)) [
          | inl last ↦ ground (arith, b.values j h)
          | inr past ↦ ground (arith, b.values j h, a.no_value j (ground arith) h)
        ];
        maps = λ j h.
            let (q, hq, ne, kq, vq, side) = origin j h in
            let no : (word node q == word node p) ≡ false = other_key q hq ne in
            rw (kq, no) (a.maps q hq ∙ sym vq);
        only = λ q absent. elim (Bool-cases (q == word node p)) [
          | inl same ↦ rw same refl
          | inr other ↦ rw other (
              a.only q (λ j h e.
                let (j', h', same) = kept j h (λ z. absurd (ground (arith, ap (word node) z))) in
                absent j' h' (same ∙ e)))
        ];
      }
