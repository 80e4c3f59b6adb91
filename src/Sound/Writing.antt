-- ===== src/Sound/Writing.antt =====
-- Files, their indirect blocks and the flush of a file keep the invariant.
use logfsprogs.Common.{
  ℕ, zero, suc, ◌+◌, ◌-◌, ◌*◌, ◌^◌, ◌≡◌, refl, sym, bit_or, Bool-cases, inl, inr, List, set, not,
  ◌&&◌, ◌==◌, ltb, length,
}
use mathlib.Core.List.{flat_map}
use mathlib.Core.Path.{subst}
use logfsprogs.Common.Outcome.{Ends, pure, fault, halt, abort}
use logfsprogs.Common.Keeps.{
  AnyStop, Safe, Safe-bind, Keeps, Keeps-bind, Keeps-then, Keeps-if, Keeps-result,
}
use logfsprogs.Kerncompat.{be64}
use logfsprogs.Abi.{i0_blocks, indirect_index, logfs_block_bits, obj_block}
use logfsprogs.Super.{Super, Env, get_inode, set_inode, get_block, set_block, in_heap}
use logfsprogs.Btree.Head64.{btree_last64, btree_remove64}
use logfsprogs.Inodes.{find_or_create_inode, find_or_create_block, get_tree, set_tree}
use logfsprogs.Segment.{logfs_segment_write}
use logfsprogs.ReadWrite.{
  get_bits, bixmask, set_di_data, write_direct, set_child, write_loop, maxbix, grow_height,
  grow_inode, logfs_file_write, remove_last, flush_level, flush_levels, flush_root,
  logfs_file_flush,
}
use logfsprogs.Sound.{Sound}
use logfsprogs.Sound.Inodes.{
  find_or_create_inode-Keeps, find_or_create_block-Keeps, change_inode, set_inode-Sound,
  get_inode-Keeps, get-Keeps, get_tree-Keeps, set_tree-Keeps, in_heap-Keeps, get_block-Keeps,
  set_block-Keeps,
}
use logfsprogs.Sound.Objects.{logfs_segment_write-Keeps}

module _ {D : Type 0} (env : Env D) (n z : ℕ) (d0 : D) where
  abbrev Inv : Super D → Type 0
  Inv = Sound env n z d0

  bixmask-Keeps : (level : ℕ) → Keeps Inv (bixmask level)
  unfolding bixmask
  bixmask-Keeps level s v = elim (Bool-cases (level == 0)) [
    | inl zero_level ↦ rw zero_level v
    | inr above ↦ rw above (elim (Bool-cases (ltb ((s.blocksize_bits - 3) * level) 31)) [
      | inl defined ↦ rw defined v
      | inr undefined ↦ rw undefined tt
    ])
  ]

  set_di_data-Keeps : (p i ofs : ℕ) → Keeps Inv (set_di_data p i ofs)
  unfolding set_di_data
  set_di_data-Keeps p i ofs s v = change_inode env n z d0 p _ s v (λ x found.
      elim (Bool-cases (ltb i (length x.di.di_data))) [
        | inl inside ↦ rw inside (set_inode-Sound env n z d0 p s x _ v found refl)
        | inr outside ↦ rw outside tt
      ])

  pub write_direct-Keeps :
      (p ino bix type : ℕ) (buf : List ℕ) → Keeps Inv (write_direct env p ino bix type buf)
  unfolding write_direct
  write_direct-Keeps p ino bix type buf =
      Keeps-bind Inv (logfs_segment_write env buf type ino bix 0) _
        (logfs_segment_write-Keeps env n z d0 buf type ino bix 0)
        (Keeps-result Inv _ _ (λ e. λ _ w. w)
          (λ ofs.
            Keeps-then Inv (set_di_data p bix ofs) _ (set_di_data-Keeps p bix ofs) (λ _ w. w)))

  set_child-Keeps : (p i ofs : ℕ) → Keeps Inv (set_child p i ofs)
  unfolding set_child
  set_child-Keeps p i ofs = Keeps-bind Inv (get_block p) _ (get_block-Keeps env n z d0 p) (λ b.
      Keeps-if Inv (ltb i (length b)) (set_block p (set b i ofs)) (halt fault)
        (set_block-Keeps env n z d0 p (set b i ofs)) (λ _ _. tt))

  write_loop-Keeps :
      (p ino bix level type : ℕ) (buf : List ℕ)
      → Keeps Inv (write_loop env p ino bix level type buf)
  unfolding write_loop
  write_loop-Keeps p ino bix level type buf =
      Keeps-bind Inv (bixmask (level + 1)) _ (bixmask-Keeps (level + 1)) (λ mask.
        Keeps-bind Inv (find_or_create_block p (bit_or bix mask) (level + 1)) _
          (find_or_create_block-Keeps env n z d0 p (bit_or bix mask) (level + 1))
          (λ iblock.
            Keeps-if Inv (iblock == 0) (pure _) _ (λ _ w. w)
              (Keeps-bind Inv (logfs_segment_write env buf type ino bix level) _
                (logfs_segment_write-Keeps env n z d0 buf type ino bix level)
                (Keeps-result Inv _ _ (λ e. λ _ w. w)
                  (λ ofs. get-Keeps env n z d0 _ (λ s.
                    Keeps-then Inv (set_child iblock (get_bits s.blocksize_bits bix level) ofs) _
                      (set_child-Keeps iblock (get_bits s.blocksize_bits bix level) ofs)
                      (λ _ w. w)))))))

  -- The loop of heights does not touch the state.
  grow_height-same :
      {S : Type 0} (f bix height : ℕ) (s : S)
      → Ends (λ _ t. t ≡ s) AnyStop (grow_height f bix height s)
  unfolding grow_height maxbix
  grow_height-same zero bix height s = tt
  grow_height-same (suc f) bix height s = elim (Bool-cases (ltb (logfs_block_bits * height) 64)) [
    | inr undefined ↦ rw undefined tt
    | inl defined ↦ rw defined (elim (Bool-cases (ltb (2 ^ (logfs_block_bits * height)) bix)) [
      | inl more ↦ rw more (grow_height-same f bix (height + 1) s)
      | inr enough ↦ rw enough refl
    ])
  ]

  grow_inode-Keeps : (p bix level : ℕ) → Keeps Inv (grow_inode p bix level)
  unfolding grow_inode
  grow_inode-Keeps p bix level =
      Keeps-if Inv (not (level == 0)) (pure tt) _ (λ _ w. w)
        (λ s v. change_inode env n z d0 p _ s v (λ x found.
          Safe-bind Inv (λ _ t. t ≡ s) (grow_height 9 bix x.di.di_height s) _
            (grow_height-same 9 bix x.di.di_height s)
            (λ height t e.
              subst
                (λ u.
                  Safe Inv (set_inode p (record x { di = record (x.di) { di_height = height } }) u))
                (sym e) (set_inode-Sound env n z d0 p s x _ v found refl))))

  pub logfs_file_write-Keeps :
      (ino bix level type : ℕ) (buf : List ℕ)
      → Keeps Inv (logfs_file_write env ino bix level type buf)
  unfolding logfs_file_write
  logfs_file_write-Keeps ino bix level type buf =
      Keeps-bind Inv (find_or_create_inode ino) _ (find_or_create_inode-Keeps env n z d0 ino) (λ p.
        Keeps-if Inv (p == 0) (pure _) _ (λ _ w. w)
          (Keeps-if Inv ((level == 0) && ltb bix i0_blocks) (write_direct env p ino bix type buf) _
            (write_direct-Keeps p ino bix type buf)
            (Keeps-then Inv (grow_inode p bix level) _ (grow_inode-Keeps p bix level)
              (write_loop-Keeps p ino bix level type buf))))

  remove_last-Keeps : (p level : ℕ) → Keeps Inv (remove_last p level)
  unfolding remove_last
  remove_last-Keeps p level =
      Keeps-bind Inv (get_tree p level) _ (get_tree-Keeps env n z d0 p level) (λ tree.
        Keeps-bind Inv (in_heap (btree_last64 tree)) _ (in_heap-Keeps env n z d0 _) (λ bix.
          Keeps-bind Inv (in_heap (btree_remove64 tree bix)) _ (in_heap-Keeps env n z d0 _)
            (λ (iblock, tree').
              Keeps-then Inv (set_tree p level tree') _ (set_tree-Keeps env n z d0 p level tree')
                (λ _ w. w))))

  flush_level-Keeps : (f ino p level : ℕ) → Keeps Inv (flush_level env f ino p level)
  unfolding flush_level
  flush_level-Keeps zero ino p level = λ _ _. tt
  flush_level-Keeps (suc f) ino p level =
      Keeps-bind Inv (remove_last p level) _ (remove_last-Keeps p level) (λ (bix, iblock).
        Keeps-if Inv (iblock == 0) (pure _) _ (λ _ w. w)
          (Keeps-bind Inv (get_block iblock) _ (get_block-Keeps env n z d0 iblock) (λ words.
            Keeps-bind Inv (logfs_file_write env ino bix level obj_block (flat_map be64 words)) _
              (logfs_file_write-Keeps ino bix level obj_block (flat_map be64 words))
              (λ err.
                Keeps-if Inv (err == 0) (flush_level env f ino p level) (pure err)
                  (flush_level-Keeps f ino p level) (λ _ w. w)))))

  flush_levels-Keeps : (fuel ino p r level : ℕ) → Keeps Inv (flush_levels env fuel ino p r level)
  unfolding flush_levels
  flush_levels-Keeps fuel ino p zero level = λ _ w. w
  flush_levels-Keeps fuel ino p (suc r) level =
      Keeps-bind Inv (flush_level env fuel ino p level) _ (flush_level-Keeps fuel ino p level)
        (λ err.
          Keeps-if Inv (err == 0) (flush_levels env fuel ino p r (level + 1)) (pure err)
            (flush_levels-Keeps fuel ino p r (level + 1)) (λ _ w. w))

  flush_root-Keeps : (ino p level : ℕ) → Keeps Inv (flush_root env ino p level)
  unfolding flush_root
  flush_root-Keeps ino p level =
      Keeps-bind Inv (remove_last p level) _ (remove_last-Keeps p level) (λ (bix, iblock).
        Keeps-if Inv (iblock == 0) (halt abort) _ (λ _ _. tt)
          (Keeps-bind Inv (get_block iblock) _ (get_block-Keeps env n z d0 iblock) (λ words.
            Keeps-bind Inv (logfs_segment_write env (flat_map be64 words) obj_block ino bix level) _
              (logfs_segment_write-Keeps env n z d0 (flat_map be64 words) obj_block ino bix level)
              (Keeps-result Inv _ _ (λ e. λ _ w. w)
                (λ ofs.
                  Keeps-then Inv (set_di_data p indirect_index ofs) _
                    (set_di_data-Keeps p indirect_index ofs) (λ _ w. w))))))

  pub logfs_file_flush-Keeps : (fuel ino : ℕ) → Keeps Inv (logfs_file_flush env fuel ino)
  unfolding logfs_file_flush
  logfs_file_flush-Keeps fuel ino =
      Keeps-bind Inv (find_or_create_inode ino) _ (find_or_create_inode-Keeps env n z d0 ino) (λ p.
        Keeps-if Inv (p == 0) (halt abort) _ (λ _ _. tt)
          (Keeps-bind Inv (get_inode p) _ (get_inode-Keeps env n z d0 p) (λ i.
            Keeps-if Inv (i.di.di_height == 0) (pure _) _ (λ _ w. w)
              (Keeps-bind Inv (flush_levels env fuel ino p (i.di.di_height - 1) 1) _
                (flush_levels-Keeps fuel ino p (i.di.di_height - 1) 1)
                (λ err.
                  Keeps-if Inv (err == 0) (flush_root env ino p i.di.di_height) (pure err)
                    (flush_root-Keeps ino p i.di.di_height) (λ _ w. w))))))
