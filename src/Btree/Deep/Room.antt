-- ===== src/Btree/Deep/Room.antt =====
-- Insertion into a node that has room, in a tree of any height.
use logfsprogs.Common.{
  ℕ, ◌+◌, ◌-◌, ◌≤◌, ◌<◌, ◌≡◌, ◌≢◌, ◌⊎◌, inl, inr, refl, sym, ap, ◌∙◌, arith, false, Option, some,
  ◌==◌, ltb, Bool-cases, [], ◌∷◌,
}
use mathlib.Core.Path.{subst}
use logfsprogs.Btree.Node.{Node, Ptr, btree_geo64, getpos}
use logfsprogs.Btree.Insert.{insert_pair}
use logfsprogs.Btree.Slots.{word, Inserted, insert_pair-Inserted}
use logfsprogs.Btree.Deep.Place.{getpos-Block}
use logfsprogs.Btree.Deep.{Tags, Slots, Block, bound, low_slot, below_bound, slots_apart}

-- What slots and gaps stand for before and after a pair (k, v) comes to the level: a slot or gap
-- around the key is cut in two.
pub record Edit (G : ℕ → ℕ → Type 0) (C : ℕ → ℕ → Ptr → Type 0) (G2 : ℕ → ℕ → Type 0)
    (C2 : ℕ → ℕ → Ptr → Type 0) (k : ℕ) (v : Ptr) : Type 0 where
  pub other : (s up : ℕ) (x : Ptr) → s < up → (up ≤ k) ⊎ (k < s) → C s up x → C2 s up x
  pub cut : (s up : ℕ) (x : Ptr) → s < k → k < up → C s up x → C2 s k x × C2 k up v
  pub other_gap : (a b : ℕ) → (b ≤ k) ⊎ (k < a) → G a b → G2 a b
  pub cut_gap : (a b : ℕ) → a ≤ k → k < b → G a b → G2 a k × C2 k b v
  pub new : (up : ℕ) (x : Ptr) → k < up → C k up x → ⊥

-- A node with a new slot `pos` for the key, the slots from there on moved by one.
module _ (cells cells' : Ptr → Option Node) (g g' : Tags) (L : ℕ) (G G2 : ℕ → ℕ → Type 0)
    (C C2 : ℕ → ℕ → Ptr → Type 0) (lo hi : ℕ) (q : Ptr) (b : Block cells g L G C lo hi q) (k : ℕ)
    (v : Ptr) (edit : Edit G C G2 C2 k v) (from : lo ≤ k) (to : k < hi) (room : b.count < 8)
    (some_v : v ≢ 0) where
  abbrev pos : ℕ
  pos = getpos btree_geo64 b.node (k ∷ [])

  abbrev c : ℕ
  c = b.count

  abbrev node' : Node
  node' = insert_pair btree_geo64 (k ∷ []) v pos c b.node

  abbrev Place : Type 0
  Place =
      ((pos < c) × (word b.node pos < k) × (k < bound b.node hi pos))
      ⊎ ((pos ≡ c) × (k < word b.node (c - 1)))

  place : Place
  place = getpos-Block cells g L G C lo hi q b k to edit.new

  pub pos_le : pos ≤ c
  pos_le = elim place [ inl (inner, low, high) ↦ omega arith | inr (past, low) ↦ omega arith ]

  moved : Inserted k v pos c b.node node'
  moved = insert_pair-Inserted k v pos c b.node b.slots.width room pos_le

  new_slot : (word node' pos ≡ k) × (word node' (8 + pos) ≡ v)
  new_slot =
      let le = pos_le in
      (ground (arith, moved.keys pos (omega arith)), ground (arith, moved.values pos (omega arith)))

  front_slot :
      (j : ℕ)
      → j < pos
      → (word node' j ≡ word b.node j)
        × (word node' (8 + j) ≡ word b.node (8 + j))
        × (k < word b.node j)
  front_slot j lt =
      let le = pos_le in
      let no : (pos == 0) ≡ false = ground arith in
      let s = b.slots in
      (
        ground (arith, moved.keys j (omega arith)),
        ground (arith, moved.values j (omega arith)),
        elim place [
          | inr (past, low) ↦ let w = low_slot s j (omega arith) in omega arith
          | inl (inner, low, high) ↦ let w = slots_apart s j pos lt inner in omega arith
        ],
      )

  rear_slot :
      (j : ℕ)
      → pos ≤ j
      → j < c
      → (word node' (j + 1) ≡ word b.node j)
        × (word node' (8 + (j + 1)) ≡ word b.node (8 + j))
        × (word b.node j < k)
  rear_slot j le lt =
      let s = b.slots in
      (
        ground (arith, moved.keys (j + 1) (omega arith)),
        ground (arith, moved.values (j + 1) (omega arith)),
        elim place [
          | inr (past, low) ↦ absurd (omega arith)
          | inl (inner, low, high) ↦ elim (Bool-cases (pos == j)) [
            | inl same ↦ let e : pos ≡ j = ground arith in let w = ap (word b.node) e in omega arith
            | inr past ↦ let w = s.sorted pos j (ground arith) lt in omega arith
          ]
        ],
      )

  -- Slot `j` of the new node: an old one in front, the new one, or an old one behind.
  Kind : ℕ → Type 0
  Kind j = (j < pos) ⊎ (j ≡ pos) ⊎ ((i : ℕ) × (pos ≤ i) × (i < c) × (j ≡ i + 1))

  kind : (j : ℕ) → j < c + 1 → Kind j
  unfolding Kind
  kind j lt = elim (Bool-cases (ltb j pos)) [
    | inl front ↦ inl (ground arith)
    | inr behind ↦ elim (Bool-cases (j == pos)) [
      | inl here ↦ inr (inl (ground arith))
      | inr past ↦ inr (inr (j - 1, ground arith, ground arith, ground arith))
    ]
  ]

  sorted' : (i j : ℕ) → i < j → j < c + 1 → word node' j < word node' i
  unfolding Kind
  sorted' i j lt top =
      let s = b.slots in
      let (key, value) = new_slot in
      elim (kind i (omega arith)) [
        | inl fi ↦
            let (ki, vi, above) = front_slot i fi in
            elim (kind j top) [
              | inl fj ↦
                  let (kj, vj, above') = front_slot j fj in
                  let le = pos_le in let w = s.sorted i j lt (omega arith) in omega arith
              | inr (inl e) ↦ let w = ap (word node') e in omega arith
              | inr (inr (x, le, lx, e)) ↦
                  let (kj, vj, below) = rear_slot x le lx in
                  let w = ap (word node') e in omega arith
            ]
        | inr (inl e) ↦
            let w = ap (word node') e in
            elim (kind j top) [
              | inl fj ↦ absurd (omega arith)
              | inr (inl e') ↦ absurd (omega arith)
              | inr (inr (x, le, lx, e')) ↦
                  let (kj, vj, below) = rear_slot x le lx in
                  let w' = ap (word node') e' in omega arith
            ]
        | inr (inr (y, le, ly, e)) ↦
            let (ki, vi, below) = rear_slot y le ly in
            let w = ap (word node') e in
            elim (kind j top) [
              | inl fj ↦ absurd (omega arith)
              | inr (inl e') ↦ absurd (omega arith)
              | inr (inr (x, le', lx, e')) ↦
                  let (kj, vj, below') = rear_slot x le' lx in
                  let w' = ap (word node') e' in
                  let w'' = s.sorted y x (omega arith) lx in omega arith
            ]
      ]

  last_lem : (lo ≤ word node' c) × G2 lo (word node' c)
  last_lem =
      let s = b.slots in
      let (key, value) = new_slot in
      let bottom = s.low in
      elim place [
        | inl (inner, low, high) ↦
            let (kc, vc, below) = rear_slot (c - 1) (omega arith) (omega arith) in
            let e : c - 1 + 1 ≡ c = omega arith in
            let w = sym (ap (word node') e) ∙ kc in
            (
              omega arith,
              subst (G2 lo) (sym w)
                  (edit.other_gap lo (word b.node (c - 1)) (inl (omega arith)) b.gap),
            )
        | inr (past, low) ↦
            let w = sym (ap (word node') past) ∙ key in
            (
              omega arith,
              subst (G2 lo) (sym w) (edit.cut_gap lo (word b.node (c - 1)) from low b.gap).0,
            )
      ]

  Slots' : Slots lo hi (c + 1) node'
  unfolding Kind
  Slots' =
      let s = b.slots in
      let le = pos_le in
      let (key, value) = new_slot in
      record {
        width = moved.width;
        some_pair = omega arith;
        room = omega arith;
        sorted = sorted';
        filled = λ j lt z. elim (kind j lt) [
          | inl fj ↦ s.filled j (omega arith) (sym (front_slot j fj).1 ∙ z)
          | inr (inl e) ↦ some_v (sym value ∙ sym (ap (λ y. word node' (8 + y)) e) ∙ z)
          | inr (inr (x, le', lx, e)) ↦
              s.filled x lx (sym (rear_slot x le' lx).1 ∙ sym (ap (λ y. word node' (8 + y)) e) ∙ z)
        ];
        no_key = λ j l h. ground (arith, moved.keys j h, s.no_key j (omega arith) h);
        no_value = λ j l h. ground (arith, moved.values j h, s.no_value j (omega arith) h);
        low =
            let e : c + 1 - 1 ≡ c = omega arith in
            let w = ap (word node') e in let l = last_lem.0 in omega arith;
        high = elim (kind 0 (omega arith)) [
          | inl f0 ↦ let (k0, v0, above) = front_slot 0 f0 in let top = s.high in omega arith
          | inr (inl e) ↦ let w = ap (word node') e in omega arith
          | inr (inr (x, le', lx, e)) ↦ absurd (omega arith)
        ];
      }

  -- Up to the new slot every slot ends where it ended.
  same_bound : (j : ℕ) → j ≤ pos → bound node' hi j ≡ bound b.node hi j
  same_bound j le = elim (Bool-cases (j == 0)) [
    | inl first ↦ rw first refl
    | inr later ↦ rw later (front_slot (j - 1) (ground arith)).0
  ]

  new_entry : C2 k (bound b.node hi pos) v
  new_entry = elim place [
    | inl (inner, low, high) ↦
        (edit.cut (word b.node pos) (bound b.node hi pos) (word b.node (8 + pos)) low high
          (b.entries pos inner)).1
    | inr (past, low) ↦
        let some_pair = b.slots.some_pair in
        let no : (pos == 0) ≡ false = ground arith in
        let e : pos - 1 ≡ c - 1 = omega arith in
        rw (no, e) (edit.cut_gap lo (word b.node (c - 1)) from low b.gap).1
  ]

  rear_entry : (i : ℕ) → pos ≤ i → i < c → C2 (word b.node i) (word node' i) (word b.node (8 + i))
  rear_entry i le lt =
      let s = b.slots in
      let (key, value) = new_slot in
      let (ki, vi, below) = rear_slot i le lt in
      elim (Bool-cases (i == pos)) [
        | inl here ↦
            let e : i ≡ pos = ground arith in
            elim place [
              | inr (past, low) ↦ absurd (omega arith)
              | inl (inner, low, high) ↦
                  subst (λ y. C2 (word b.node y) (word node' y) (word b.node (8 + y))) (sym e)
                    (subst (λ y. C2 (word b.node pos) y (word b.node (8 + pos))) (sym key)
                      (edit.cut (word b.node pos) (bound b.node hi pos) (word b.node (8 + pos)) low
                        high (b.entries pos inner)).0)
            ]
        | inr past ↦
            let more : pos < i = ground arith in
            let above : pos ≤ i - 1 = omega arith in
            let e : i - 1 + 1 ≡ i = omega arith in
            let (kp, vp, under) = rear_slot (i - 1) above (omega arith) in
            let w : bound b.node hi i ≡ word node' i =
              bound_at i (omega arith) ∙ sym kp ∙ ap (word node') e in
            subst (λ y. C2 (word b.node i) y (word b.node (8 + i))) w
              (edit.other (word b.node i) (bound b.node hi i) (word b.node (8 + i))
                (below_bound s i lt) (inl (let z = bound_at i (omega arith) in omega arith))
                (b.entries i lt))
      ]
    where
      bound_at : (i : ℕ) → 0 < i → bound b.node hi i ≡ word b.node (i - 1)
      bound_at i lt = let no : (i == 0) ≡ false = ground arith in rw no refl

  entries' : (j : ℕ) → j < c + 1 → C2 (word node' j) (bound node' hi j) (word node' (8 + j))
  unfolding Kind
  entries' j lt =
      let s = b.slots in
      let (key, value) = new_slot in
      elim (kind j lt) [
        | inl fj ↦
            let (kj, vj, above) = front_slot j fj in
            let le = pos_le in
            rw (kj, vj, same_bound j (omega arith))
              (edit.other (word b.node j) (bound b.node hi j) (word b.node (8 + j))
                (below_bound s j (omega arith)) (inr above) (b.entries j (omega arith)))
        | inr (inl e) ↦
            subst (λ y. C2 (word node' y) (bound node' hi y) (word node' (8 + y))) (sym e)
              (rw (key, value, same_bound pos (omega arith)) new_entry)
        | inr (inr (i, le, li, e)) ↦
            let (ki, vi, below) = rear_slot i le li in
            let no : (i + 1 == 0) ≡ false = ground arith in
            let p : i + 1 - 1 ≡ i = omega arith in
            subst (λ y. C2 (word node' y) (bound node' hi y) (word node' (8 + y))) (sym e)
              (rw (ki, vi, no, p) (rear_entry i le li))
      ]

  -- The node with its new slot is a block of the level after the change.
  pub insert_pair-Block :
      cells' q ≡ some node'
      → g'.lev q ≡ g.lev q
      → g'.top q ≡ g.top q
      → Block cells' g' L G2 C2 lo hi q
  insert_pair-Block there lev top =
      let e : c + 1 - 1 ≡ c = omega arith in
      record {
        some_node = b.some_node;
        level = lev ∙ b.level;
        end = top ∙ b.end;
        node = node';
        there = there;
        count = c + 1;
        slots = Slots';
        entries = entries';
        gap = subst (λ y. G2 lo (word node' y)) (sym e) last_lem.1;
      }
