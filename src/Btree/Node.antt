-- ===== src/Btree/Node.antt =====
-- One node of the B+tree: an array of `unsigned long`, first the keys, then the values.
-- A word is a number below 2 ^ 64, a key a list of `keylen` words, a pointer a number, NULL 0.
use logfsprogs.Common.{
  ℕ, zero, suc, ◌+◌, ◌-◌, ◌*◌, ◌/◌, compare, Ordering, max, Bool, true, false, List, [], ◌∷◌, ◌==◌,
  if◌then◌else◌, get_or, set, take, drop, replicate,
}

pub record Geo : Type 0 where
  pub keylen : ℕ
  pub no_pairs : ℕ

-- `sizeof(long)`, `BITS_PER_LONG`, `NODESIZE` and `LONG_PER_U64` on a 64-bit machine.
abbrev pub sizeof_long : ℕ
sizeof_long = 8

abbrev pub nodesize : ℕ
nodesize = max 128 128

abbrev pub long_per_u64 : ℕ
long_per_u64 = 64 / (sizeof_long * 8)

abbrev pub node_words : ℕ
node_words = nodesize / sizeof_long

abbrev pub btree_geo32 : Geo
btree_geo32 = record { keylen = 1; no_pairs = nodesize / sizeof_long / 2 }

abbrev pub btree_geo64 : Geo
btree_geo64 = record {
  keylen = long_per_u64;
  no_pairs = nodesize / sizeof_long / (1 + long_per_u64);
}

abbrev pub btree_geo128 : Geo
btree_geo128 = record {
  keylen = 2 * long_per_u64;
  no_pairs = nodesize / sizeof_long / (1 + 2 * long_per_u64);
}

abbrev pub Ptr : Type 0
Ptr = ℕ

abbrev pub null : Ptr
null = 0

abbrev pub Key : Type 0
Key = List ℕ

abbrev pub Node : Type 0
Node = List ℕ

-- Negative, zero and positive are `lt`, `eq` and `gt`.
unfoldable pub longcmp : List ℕ → List ℕ → ℕ → Ordering
longcmp l1 l2 zero = Ordering.eq
longcmp (x ∷ l1) (y ∷ l2) (suc n) =
    let rest = longcmp l1 l2 n in
    elim (compare x y) [
      | Ordering.lt ↦ Ordering.lt
      | Ordering.gt ↦ Ordering.gt
      | Ordering.eq ↦ rest
    ]
longcmp _ _ (suc n) = Ordering.eq

-- `longcpy(&dest[d], src, n)`
unfoldable pub longcpy : Node → ℕ → List ℕ → ℕ → Node
longcpy dest d src zero = dest
longcpy dest d [] (suc n) = dest
longcpy dest d (x ∷ src) (suc n) = longcpy (set dest d x) (d + 1) src n

-- `longset(&s[d], c, n)`
unfoldable pub longset : Node → ℕ → ℕ → ℕ → Node
longset s d c zero = s
longset s d c (suc n) = longset (set s d c) (d + 1) c n

unfoldable pub bkey : Geo → Node → ℕ → Key
bkey geo node n = take geo.keylen (drop (n * geo.keylen) node)

unfoldable pub bval : Geo → Node → ℕ → ℕ
bval geo node n = get_or node (geo.no_pairs * geo.keylen + n) 0

unfoldable pub setkey : Geo → Node → Key → ℕ → Node
unfolding longcpy
setkey geo node key n = longcpy node (n * geo.keylen) key geo.keylen

unfoldable pub setval : Geo → Node → ℕ → ℕ → Node
setval geo node val n = set node (geo.no_pairs * geo.keylen + n) val

unfoldable pub clearpair : Geo → Node → ℕ → Node
unfolding longset
clearpair geo node n =
    set (longset node (n * geo.keylen) 0 geo.keylen) (geo.no_pairs * geo.keylen + n) 0

unfoldable pub keycmp : Geo → Node → ℕ → Key → Ordering
unfolding longcmp bkey
keycmp geo node pos key = longcmp (bkey geo node pos) key geo.keylen

abbrev pub is_le : Ordering → Bool
is_le Ordering.gt = false
is_le _ = true

abbrev pub is_eq : Ordering → Bool
is_eq Ordering.eq = true
is_eq _ = false

-- `for (; i < no_pairs; i++) if (keycmp(geo, node, i, key) <= 0) break;` with `r` rounds left
unfoldable pub getpos_loop : Geo → Node → Key → ℕ → ℕ → ℕ
unfolding keycmp
getpos_loop geo node key zero i = i
getpos_loop geo node key (suc r) i =
    let rest = getpos_loop geo node key r (i + 1) in
    if is_le (keycmp geo node i key) then i else rest

unfoldable pub getpos : Geo → Node → Key → ℕ
unfolding getpos_loop
getpos geo node key = getpos_loop geo node key geo.no_pairs 0

unfoldable pub getfill_loop : Geo → Node → ℕ → ℕ → ℕ
unfolding bval
getfill_loop geo node zero i = i
getfill_loop geo node (suc r) i =
    let rest = getfill_loop geo node r (i + 1) in if bval geo node i == 0 then i else rest

unfoldable pub getfill : Geo → Node → ℕ → ℕ
unfolding getfill_loop
getfill geo node start = getfill_loop geo node (geo.no_pairs - start) start

-- One slot copied: `setkey(dst, bkey(src, i), j); setval(dst, bval(src, i), j);`
unfoldable pub copypair : Geo → Node → ℕ → Node → ℕ → Node
unfolding setkey setval bkey bval
copypair geo dst j src i = setval geo (setkey geo dst (bkey geo src i) j) (bval geo src i) j

-- What `calloc(1, NODESIZE)` returns.
unfoldable pub zero_node : Node
zero_node = replicate node_words 0
