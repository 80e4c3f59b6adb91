-- ===== src/Sound/Inodes.antt =====
-- Inodes and indirect blocks: found, made, and changed apart from their bytes.
use logfsprogs.Common.{
  ℕ, ◌-◌, ◌%◌, ◌≡◌, refl, sym, ap, ◌∙◌, arith, Bool-cases, Option-cases, inl, inr, List, [], ◌∷◌,
  none, some, Option, not, ◌==◌, get_elem?,
}
use mathlib.Core.Path.{subst}
use logfsprogs.Common.Outcome.{Cmd, Run, Ends, Ends-mono, ◌>>=◌, ok, stop, pure, get}
use logfsprogs.Common.Keeps.{
  AnyStop, Safe, Keeps, Safe-bind, Keeps-bind, Keeps-then, Keeps-if, Keeps-pure,
}
use logfsprogs.Kerncompat.{u64_mod}
use logfsprogs.Super.{
  Super, Env, Inode, zero_inode, in_heap, some_or_fault, get_inode, set_inode, get_block, set_block,
}
use logfsprogs.Btree.Heap.{Heap, Head}
use logfsprogs.Btree.Head64.{btree_lookup64, btree_insert64}
use logfsprogs.Inodes.{
  find_or_create_inode, find_or_create_block, get_tree, set_tree, new_inode, new_block,
  set_ino_tree,
}
use logfsprogs.Sound.{Sound, Sound-same, total-append, total-set}

module _ {D : Type 0} (env : Env D) (n z : ℕ) (d0 : D) where
  abbrev Inv : Super D → Type 0
  Inv = Sound env n z d0

  in_heap-Run :
      {A : Type 0} (s : Super D)
      → Inv s
      → (r : Run Heap A)
      → Safe Inv (elim r [ ok a h ↦ ok a (record s { heap = h }) | stop x ↦ stop x ])
  in_heap-Run s v (ok a h) = Sound-same env n z d0 s _ v refl v.bytes refl
  in_heap-Run s v (stop x) = tt

  pub in_heap-Keeps : {A : Type 0} (m : Cmd Heap A) → Keeps Inv (in_heap {A = A} m)
  unfolding in_heap
  in_heap-Keeps m s v = in_heap-Run s v (m s.heap)

  pub some_or_fault-Keeps : {A : Type 0} (o : Option A) → Keeps Inv (some_or_fault o)
  some_or_fault-Keeps none s v = tt
  some_or_fault-Keeps (some a) s v = v

  -- An inode is read from where it stands.
  abbrev pub Read : ℕ → Super D → Inode → Super D → Type 0
  Read p s x t = (t ≡ s) × (get_elem? s.inodes (p - 1) ≡ some x)

  pub get_inode-Read : (p : ℕ) (s : Super D) → Ends (Read p s) AnyStop (get_inode p s)
  unfolding get_inode
  get_inode-Read p s = elim (Bool-cases (p == 0)) [
    | inl null ↦ rw null tt
    | inr there ↦ elim (Option-cases (get_elem? s.inodes (p - 1))) [
      | inl absent ↦ rw (there, absent) tt
      | inr (x, found) ↦ rw (there, found) (refl, found)
    ]
  ]

  pub get_inode-Keeps : (p : ℕ) → Keeps Inv (get_inode p)
  get_inode-Keeps p s v =
      Ends-mono (Read p s) (λ _ t. Inv t) AnyStop AnyStop (get_inode p s) (get_inode-Read p s)
        (λ x t (same, found). subst Inv (sym same) v) (λ r h. h)

  -- An inode replaced by one with as many bytes.
  pub set_inode-Sound :
      (p : ℕ) (s : Super D) (x y : Inode)
      → Inv s
      → get_elem? s.inodes (p - 1) ≡ some x
      → y.di.di_used_bytes ≡ x.di.di_used_bytes
      → Safe Inv (set_inode p y s)
  unfolding set_inode
  set_inode-Sound p s x y v found same =
      Sound-same env n z d0 s _ v refl
        (ap (λ k. k % u64_mod) (omega (arith, total-set s.inodes (p - 1) x y found)) ∙ v.bytes) refl

  -- Read, then replaced, with something done in between that leaves the state alone.
  pub change_inode :
      {B : Type 0} (p : ℕ) (k : Inode → Cmd (Super D) B) (s : Super D)
      → Inv s
      → ((x : Inode) → get_elem? s.inodes (p - 1) ≡ some x → Safe Inv (k x s))
      → Safe Inv ((get_inode p >>= k) s)
  change_inode p k s v next =
      Safe-bind Inv (Read p s) (get_inode p s) k (get_inode-Read p s)
        (λ x t (same, found). subst (λ u. Safe Inv (k x u)) (sym same) (next x found))

  new_inode-Keeps : Keeps Inv new_inode
  unfolding new_inode
  new_inode-Keeps s v =
      Sound-same env n z d0 s _ v refl
        (ap (λ k. k % u64_mod) (omega (arith, total-append s.inodes (zero_inode ∷ []))) ∙ v.bytes)
        refl

  new_block-Keeps : Keeps Inv new_block
  unfolding new_block
  new_block-Keeps s v = Sound-same env n z d0 s _ v refl v.bytes refl

  set_ino_tree-Keeps : (head : Head) → Keeps Inv (set_ino_tree head)
  unfolding set_ino_tree
  set_ino_tree-Keeps head s v = Sound-same env n z d0 s _ v refl v.bytes refl

  pub get_block-Keeps : (p : ℕ) → Keeps Inv (get_block p)
  unfolding get_block
  get_block-Keeps p s v = elim (Bool-cases (p == 0)) [
    | inl null ↦ rw null tt
    | inr there ↦ rw there (some_or_fault-Keeps (get_elem? s.blocks (p - 1)) s v)
  ]

  pub set_block-Keeps : (p : ℕ) (b : List ℕ) → Keeps Inv (set_block p b)
  unfolding set_block
  set_block-Keeps p b s v = Sound-same env n z d0 s _ v refl v.bytes refl

  pub get-Keeps :
      {B : Type 0} (k : Super D → Cmd (Super D) B)
      → ((s : Super D) → Keeps Inv (k s))
      → Keeps Inv (get >>= k)
  get-Keeps k next s v = next s s v

  pub find_or_create_inode-Keeps : (ino : ℕ) → Keeps Inv (find_or_create_inode ino)
  unfolding find_or_create_inode
  find_or_create_inode-Keeps ino = get-Keeps _ (λ s.
      Keeps-bind Inv (in_heap (btree_lookup64 s.ino_tree ino)) _ (in_heap-Keeps _) (λ p.
        Keeps-if Inv (not (p == 0)) (pure p) _ (Keeps-pure Inv p) (
          Keeps-bind Inv new_inode _ new_inode-Keeps (λ new.
            Keeps-bind Inv (in_heap (btree_insert64 s.ino_tree ino new)) _ (in_heap-Keeps _)
              (λ (err, head).
                Keeps-then Inv (set_ino_tree head) _ (set_ino_tree-Keeps head)
                  (Keeps-if Inv (err == 0) (pure new) (pure 0) (λ _ v. v) (λ _ v. v)))))))

  pub get_tree-Keeps : (p level : ℕ) → Keeps Inv (get_tree p level)
  unfolding get_tree
  get_tree-Keeps p level =
      Keeps-bind Inv (get_inode p) _ (get_inode-Keeps p)
        (λ i. some_or_fault-Keeps (get_elem? i.block_tree level))

  pub set_tree-Keeps : (p level : ℕ) (head : Head) → Keeps Inv (set_tree p level head)
  unfolding set_tree
  set_tree-Keeps p level head s v =
      change_inode p _ s v (λ x found. set_inode-Sound p s x _ v found refl)

  pub find_or_create_block-Keeps : (p bix level : ℕ) → Keeps Inv (find_or_create_block p bix level)
  unfolding find_or_create_block
  find_or_create_block-Keeps p bix level =
      Keeps-bind Inv (get_tree p level) _ (get_tree-Keeps p level) (λ tree.
        Keeps-bind Inv (in_heap (btree_lookup64 tree bix)) _ (in_heap-Keeps _) (λ q.
          Keeps-if Inv (not (q == 0)) (pure q) _ (Keeps-pure Inv q) (
            Keeps-bind Inv new_block _ new_block-Keeps (λ new.
              Keeps-bind Inv (in_heap (btree_insert64 tree bix new)) _ (in_heap-Keeps _)
                (λ (err, head).
                  Keeps-then Inv (set_tree p level head) _ (set_tree-Keeps p level head)
                    (Keeps-if Inv (err == 0) (pure new) (pure 0) (λ _ v. v) (λ _ v. v)))))))
