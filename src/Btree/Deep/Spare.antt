-- ===== src/Btree/Deep/Spare.antt =====
-- The addresses that `calloc` is going to return are those of no node of the tree.
use logfsprogs.Common.{
  ℕ, zero, suc, ◌≡◌, ◌≢◌, ◌⊎◌, inl, inr, refl, sym, ap, ◌∙◌, arith, false, List, [], ◌∷◌, some,
  ◌==◌, if◌then◌else◌, Bool-cases,
}
use mathlib.Core.Path.{subst}
use logfsprogs.Common.Outcome.{ok}
use logfsprogs.Btree.Node.{Ptr, zero_node}
use logfsprogs.Btree.Heap.{Heap, write, btree_node_alloc, take_address}

abbrev pub Absent : Ptr → List Ptr → Type 0
Absent p [] = Unit {0}
Absent p (r ∷ rest) = (r ≢ p) × Absent p rest

-- NULL stands for a failed allocation; the other addresses have no level, and occur once.
abbrev pub Spare : (Ptr → ℕ) → List Ptr → Type 0
Spare lev [] = Unit {0}
Spare lev (p ∷ rest) = ((p ≡ 0) ⊎ ((lev p ≡ 0) × Absent p rest)) × Spare lev rest

-- The levels with that of a new node.
abbrev pub with_level : (Ptr → ℕ) → Ptr → ℕ → Ptr → ℕ
with_level lev new L x = if x == new then L else lev x

pub with_level_Spare :
    (lev : Ptr → ℕ) (new : Ptr) (L : ℕ) (pool : List Ptr)
    → Absent new pool
    → Spare lev pool
    → Spare (with_level lev new L) pool
with_level_Spare lev new L [] absent spare = tt
with_level_Spare lev new L (p ∷ rest) (ne, absent) (first, spare) = (
  elim first [
    | inl none ↦ inl none
    | inr (low, once) ↦ let no : (p == new) ≡ false = ground arith in inr (rw no low, once)
  ],
  with_level_Spare lev new L rest absent spare,
)

pub without_level_Spare :
    (lev : Ptr → ℕ) (new : Ptr) (L : ℕ) (pool : List Ptr)
    → lev new ≡ 0
    → Spare (with_level lev new L) pool
    → Spare lev pool
without_level_Spare lev new L [] low spare = tt
without_level_Spare lev new L (p ∷ rest) low (first, spare) = (
  elim first [
    | inl none ↦ inl none
    | inr (zero_level, once) ↦ inr (
      elim (Bool-cases (p == new)) [
        | inl same ↦ let e : p ≡ new = ground arith in ap lev e ∙ low
        | inr other ↦ subst (λ t. (if t then L else lev p) ≡ 0) other zero_level
      ],
      once,
    )
  ],
  without_level_Spare lev new L rest low spare,
)

-- No memory.
abbrev pub NoNode : (Ptr → ℕ) → Heap → Type 0
NoNode lev h =
    (h' : Heap) × (btree_node_alloc h ≡ ok 0 h') × (h'.cells ≡ h.cells) × Spare lev h'.pool

-- A new node.
abbrev pub NewNode : (Ptr → ℕ) → Heap → Type 0
NewNode lev h =
    (new : Ptr) × (h' : Heap) × (btree_node_alloc h ≡ ok new h')
    × (new ≢ 0)
    × (lev new ≡ 0)
    × (h'.cells ≡ write h.cells new (some zero_node))
    × ((L : ℕ) → Spare (with_level lev new L) h'.pool)

take_lem :
    (lev : Ptr → ℕ) (pool : List Ptr) (h : Heap)
    → btree_node_alloc h ≡ take_address pool h
    → Spare lev pool
    → h.pool ≡ pool
    → NoNode lev h ⊎ NewNode lev h
unfolding take_address
take_lem lev [] h run spare same = inl (h, run, refl, subst (Spare lev) (sym same) tt)
take_lem lev (zero ∷ rest) h run (first, spare) same =
    inl (record h { pool = rest }, run, refl, spare)
take_lem lev (suc p ∷ rest) h run (first, spare) same = elim first [
  | inl none ↦ absurd (omega arith)
  | inr (low, once) ↦ inr (
    suc p,
    record { cells = write h.cells (suc p) (some zero_node); pool = rest },
    run,
    (λ e. absurd (omega arith)),
    low,
    refl,
    λ L. with_level_Spare lev (suc p) L rest once spare,
  )
]

pub btree_node_alloc_cases :
    (lev : Ptr → ℕ) (h : Heap) → Spare lev h.pool → NoNode lev h ⊎ NewNode lev h
unfolding btree_node_alloc
btree_node_alloc_cases lev h spare = take_lem lev h.pool h refl spare refl
