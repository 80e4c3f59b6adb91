-- ===== src/Btree/Slots.antt =====
-- The slots of a node with 64-bit keys under insertion and removal of a pair.
use logfsprogs.Common.{
  ℕ, zero, suc, ◌+◌, ◌-◌, ◌*◌, ◌≤◌, ◌<◌, ◌≡◌, inl, inr, refl, ap, ◌∙◌, arith, ◌&&◌, ◌==◌, ltb, leb,
  if◌then◌else◌, Bool-cases, [], ◌∷◌, length, get_or, set, take, drop, length-set, get_or-set_self,
  get_or-set_ne,
}
use logfsprogs.Btree.Node.{
  Node, btree_geo64, bkey, bval, setkey, setval, longcpy, copypair, clearpair, longset,
}
use logfsprogs.Btree.Insert.{shift_up, insert_pair}
use logfsprogs.Btree.Remove.{shift_down, remove_pair}

-- Word `q` of a node: key `i` is word `i`, value `i` is word `8 + i`.
abbrev pub word : Node → ℕ → ℕ
word node q = get_or node q 0

pub word-set :
    (node : Node) (i v q : ℕ)
    → i < length node
    → word (set node i v) q ≡ (if q == i then v else word node q)
word-set node i v q lt = elim (Bool-cases (q == i)) [
  | inl same ↦ let e : q ≡ i = ground arith in rw (same, e) (get_or-set_self node i v 0 lt)
  | inr other ↦ rw other (get_or-set_ne node i q v 0 (ground arith))
]

-- A key is written to one word.
pub setkey-words :
    (node : Node) (i k : ℕ)
    → length node ≡ 16
    → i < 8
    → (length (setkey btree_geo64 node (k ∷ []) i) ≡ 16)
      × ((q : ℕ)
          → word (setkey btree_geo64 node (k ∷ []) i) q ≡ (if q == i then k else word node q))
unfolding setkey longcpy
setkey-words node i k width lt =
    let e : i * 1 ≡ i = omega arith in
    rw e (length-set node i k ∙ width, λ q. word-set node i k q (omega arith))

pub bkey_word : (node : Node) (i : ℕ) → i < length node → take 1 (drop i node) ≡ word node i ∷ []
bkey_word [] i lt = absurd (omega arith)
bkey_word (x ∷ xs) zero lt = refl
bkey_word (x ∷ xs) (suc i) lt = bkey_word xs i (omega arith)

pub copypair_words :
    (node : Node) (j i : ℕ)
    → length node ≡ 16
    → i < 8
    → copypair btree_geo64 node j node i
      ≡ set (set node j (word node i)) (8 + j) (word node (8 + i))
unfolding copypair setval setkey bval bkey longcpy
copypair_words node j i width lt =
    let e : i * 1 ≡ i = omega arith in
    let e' : j * 1 ≡ j = omega arith in rw (e, bkey_word node i (omega arith), e') refl

-- A pair copied within a node, word by word.
word-copypair :
    (node : Node) (j i q : ℕ)
    → length node ≡ 16
    → i < 8
    → j < 8
    → word (copypair btree_geo64 node j node i) q
      ≡ (if q == 8 + j then word node (8 + i) else if q == j then word node i else word node q)
word-copypair node j i q width lt lt' =
    rw
      (
        copypair_words node j i width lt,
        word-set (set node j (word node i)) (8 + j) (word node (8 + i)) q
            (omega (arith, length-set node j (word node i))),
        word-set node j (word node i) q (omega arith),
      )
      refl

length-copypair :
    (node : Node) (j i : ℕ)
    → length node ≡ 16
    → i < 8
    → length (copypair btree_geo64 node j node i) ≡ 16
length-copypair node j i width lt =
    rw
      (
        copypair_words node j i width lt,
        length-set (set node j (word node i)) (8 + j) (word node (8 + i)),
        length-set node j (word node i),
      )
      width

-- The words of a node after its pairs from `pos` to `pos + r` moved up by one; `base` is 0 for the
-- keys and 8 for the values.
abbrev moved_up : ℕ → ℕ → Node → ℕ → ℕ → ℕ
moved_up pos r node base i =
    if ltb pos i && leb i (pos + r) then word node (base + (i - 1)) else word node (base + i)

shift_up_lem :
    (pos r : ℕ) (node : Node)
    → length node ≡ 16
    → pos + r < 8
    → (length (shift_up btree_geo64 pos r node) ≡ 16)
      × ((i : ℕ)
          → i < 8
          → (word (shift_up btree_geo64 pos r node) i ≡ moved_up pos r node 0 i)
            × (word (shift_up btree_geo64 pos r node) (8 + i) ≡ moved_up pos r node 8 i))
unfolding shift_up
shift_up_lem pos zero node width lt = (width, λ i h. (ground arith, ground arith))
shift_up_lem pos (suc r) node width lt =
    let node' = copypair btree_geo64 node (pos + suc r) node (pos + r) in
    let w =
      λ (q : ℕ). word-copypair node (pos + suc r) (pos + r) q width (omega arith) (omega arith) in
    let (len, rest) =
      shift_up_lem pos r node' (length-copypair node (pos + suc r) (pos + r) width (omega arith))
        (omega arith) in
    (
      len,
      λ i h. (
        ground (arith, (rest i h).0, w (0 + i), w (0 + (i - 1))),
        ground (arith, (rest i h).1, w (8 + i), w (8 + (i - 1))),
      ),
    )

abbrev moved_down : ℕ → ℕ → Node → ℕ → ℕ → ℕ
moved_down pos r node base i =
    if leb pos i && ltb i (pos + r) then word node (base + (i + 1)) else word node (base + i)

shift_down_lem :
    (r pos : ℕ) (node : Node)
    → length node ≡ 16
    → pos + r < 8
    → (length (shift_down btree_geo64 r pos (pos + 1) node) ≡ 16)
      × ((i : ℕ)
          → i < 8
          → (word (shift_down btree_geo64 r pos (pos + 1) node) i ≡ moved_down pos r node 0 i)
            × (word (shift_down btree_geo64 r pos (pos + 1) node) (8 + i)
                ≡ moved_down pos r node 8 i))
unfolding shift_down
shift_down_lem zero pos node width lt = (width, λ i h. (ground arith, ground arith))
shift_down_lem (suc r) pos node width lt =
    let node' = copypair btree_geo64 node pos node (pos + 1) in
    let w = λ (q : ℕ). word-copypair node pos (pos + 1) q width (omega arith) (omega arith) in
    let (len, rest) =
      shift_down_lem r (pos + 1) node' (length-copypair node pos (pos + 1) width (omega arith))
        (omega arith) in
    (
      len,
      λ i h. (
        ground (arith, (rest i h).0, w (0 + i), w (0 + (i + 1))),
        ground (arith, (rest i h).1, w (8 + i), w (8 + (i + 1))),
      ),
    )

-- `node'` is `node` with the pair (k, v) at slot `pos` and the pairs up to slot `fill` moved up.
pub record Inserted (k v pos fill : ℕ) (node node' : Node) : Type 0 where
  pub width : length node' ≡ 16
  pub keys :
      (i : ℕ)
      → i < 8
      → word node' i ≡ (
          if i == pos
          then k
          else if ltb pos i && leb i fill
          then word node (i - 1)
          else word node i)
  pub values :
      (i : ℕ)
      → i < 8
      → word node' (8 + i) ≡ (
          if i == pos
          then v
          else if ltb pos i && leb i fill
          then word node (8 + (i - 1))
          else word node (8 + i))

-- `node'` is `node` without slot `pos`: later pairs moved down, the last one of `fill` cleared.
pub record Removed (pos fill : ℕ) (node node' : Node) : Type 0 where
  pub width : length node' ≡ 16
  pub keys :
      (i : ℕ)
      → i < 8
      → word node' i ≡ (
          if i == fill - 1
          then 0
          else if leb pos i && ltb i (fill - 1)
          then word node (i + 1)
          else word node i)
  pub values :
      (i : ℕ)
      → i < 8
      → word node' (8 + i) ≡ (
          if i == fill - 1
          then 0
          else if leb pos i && ltb i (fill - 1)
          then word node (8 + (i + 1))
          else word node (8 + i))

-- A node with 64-bit keys that has room, and a slot up to its fill: `insert_pair` puts the pair into
-- the slot, moves the pairs from there up to the fill up by one, and keeps all other words.
pub insert_pair-Inserted :
    (k v pos fill : ℕ) (node : Node)
    → length node ≡ 16
    → fill < 8
    → pos ≤ fill
    → Inserted k v pos fill node (insert_pair btree_geo64 (k ∷ []) v pos fill node)
unfolding insert_pair setkey setval longcpy
insert_pair-Inserted k v pos fill node width room le =
    let node' = shift_up btree_geo64 pos (fill - pos) node in
    let (len, rest) = shift_up_lem pos (fill - pos) node width (omega arith) in
    let e : pos * 1 ≡ pos = omega arith in
    let w = λ (q : ℕ).
      word-set (set node' pos k) (8 + pos) v q (omega (arith, length-set node' pos k))
      ∙ ap (λ t. if q == 8 + pos then v else t) (word-set node' pos k q (omega arith)) in
    rw e (record {
      width = length-set (set node' pos k) (8 + pos) v ∙ length-set node' pos k ∙ len;
      keys = λ i h. ground (arith, (rest i h).0, w i);
      values = λ i h. ground (arith, (rest i h).1, w (8 + i));
    })

-- A node with 64-bit keys, and a slot below its fill: `remove_pair` moves the pairs behind the slot
-- down by one, clears the last pair, and keeps all other words.
pub remove_pair-Removed :
    (pos fill : ℕ) (node : Node)
    → length node ≡ 16
    → fill ≤ 8
    → pos < fill
    → Removed pos fill node (remove_pair btree_geo64 pos fill node)
unfolding remove_pair clearpair longset
remove_pair-Removed pos fill node width room lt =
    let last = fill - 1 in
    let node' = shift_down btree_geo64 (fill - 1 - pos) pos (pos + 1) node in
    let (len, rest) = shift_down_lem (fill - 1 - pos) pos node width (omega arith) in
    let e : (fill - 1) * 1 ≡ fill - 1 = omega arith in
    let w = λ (q : ℕ).
      word-set (set node' last 0) (8 + last) 0 q (omega (arith, length-set node' last 0))
      ∙ ap (λ t. if q == 8 + last then 0 else t) (word-set node' last 0 q (omega arith)) in
    rw e (record {
      width = length-set (set node' last 0) (8 + last) 0 ∙ length-set node' last 0 ∙ len;
      keys = λ i h. ground (arith, (rest i h).0, w i);
      values = λ i h. ground (arith, (rest i h).1, w (8 + i));
    })
