-- ===== src/Btree/Deep/Find.antt =====
-- `find_level` in a tree of any height: the node of a level whose range has the key, with the last
-- key of the nodes on the way lowered where that is needed.
use logfsprogs.Common.{ℕ, suc, ◌≤◌, ◌<◌, ◌≡◌, ◌≢◌, ◌⊎◌, refl, Option}
use logfsprogs.Btree.Node.{Node, Ptr}
use logfsprogs.Btree.Heap.{Heap}
use logfsprogs.Btree.Deep.{Tags, Block, Tree, Same, map-Block}

-- In heap `h1`, made from `h`, the node at `q` is the one of level `L` for the key; whatever block is
-- put there for the same range, with what else is the same, makes a tree again.
pub record Found (h h1 : Heap) (g : Tags) (k d L : ℕ) (G : ℕ → ℕ → Type 0)
    (C : ℕ → ℕ → Ptr → Type 0) (lo hi : ℕ) (root q : Ptr) : Type 1 where
  pub lo' : ℕ
  pub hi' : ℕ
  pub block : Block h1.cells g L G C lo' hi' q
  pub from : lo' ≤ k
  pub to : k < hi'
  pub low : lo ≤ lo'
  pub high : hi' ≤ hi
  pub frame : (x : Ptr) → g.lev x ≤ L → x ≢ q → h1.cells x ≡ h.cells x
  pub pool : h1.pool ≡ h.pool
  pub focus :
      (cells : Ptr → Option Node) (g2 : Tags) (G2 : ℕ → ℕ → Type 0) (C2 : ℕ → ℕ → Ptr → Type 0)
      → ((x : Ptr) → L ≤ g.lev x → x ≢ q → Same h1.cells g cells g2 x)
      → ((s up : ℕ) (x : Ptr) → s < up → (up ≤ lo') ⊎ (hi' ≤ s) → C s up x → C2 s up x)
      → ((a b : ℕ) → (b ≤ lo') ⊎ (hi' ≤ a) → G a b → G2 a b)
      → Block cells g2 L G2 C2 lo' hi' q
      → Tree cells g2 d L G2 C2 lo hi root

-- What the slots of the level above stand for, but for the one with the found node, can be changed.
abbrev pub Raise :
    Heap
    → Heap
    → Tags
    → ℕ
    → ℕ
    → (ℕ → ℕ → Type 0)
    → (ℕ → ℕ → Ptr → Type 0)
    → ℕ
    → ℕ
    → Ptr
    → ℕ
    → ℕ
    → Ptr
    → Type 1
Raise h h1 g d L G C lo hi root lo' hi' q =
    (cells : Ptr → Option Node) (g2 : Tags) (G2 : ℕ → ℕ → Type 0) (D2 : ℕ → ℕ → Ptr → Type 0)
    → ((x : Ptr) → suc L ≤ g.lev x → Same h1.cells g cells g2 x)
    → ((s up : ℕ) (x : Ptr)
        → s < up
        → (up ≤ lo') ⊎ (hi' ≤ s)
        → Block h.cells g L G C s up x
        → D2 s up x)
    → ((a b : ℕ) → (b ≤ lo') ⊎ (hi' ≤ a) → G a b → G2 a b)
    → D2 lo' hi' q
    → Tree cells g2 d (suc L) G2 D2 lo hi root

-- What was found, by less of what is known of its slots.
unfoldable pub weaken_Found :
    (h h1 : Heap) (g : Tags) (k d L : ℕ) (G G' : ℕ → ℕ → Type 0) (C C' : ℕ → ℕ → Ptr → Type 0)
    (lo hi : ℕ) (root q : Ptr)
    → ((s up : ℕ) (x : Ptr) → C s up x → C' s up x)
    → ((a b : ℕ) → G a b → G' a b)
    → Found h h1 g k d L G C lo hi root q
    → Found h h1 g k d L G' C' lo hi root q
weaken_Found h h1 g k d L G G' C C' lo hi root q entry gap f = record {
  lo' = f.lo';
  hi' = f.hi';
  block =
      map-Block h1.cells h1.cells g g L G G' C C' f.lo' f.hi' q f.block (refl, refl, refl)
        (λ s up x le lt top. entry s up x) (λ a b le top. gap a b);
  from = f.from;
  to = f.to;
  low = f.low;
  high = f.high;
  frame = f.frame;
  pool = f.pool;
  focus = λ cells g2 G2 C2 same entry' gap' b.
      f.focus cells g2 G2 C2 same (λ s up x lt apart c. entry' s up x lt apart (entry s up x c))
        (λ a b apart c. gap' a b apart (gap a b c)) b;
}
