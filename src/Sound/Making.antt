-- ===== src/Sound/Making.antt =====
-- The parts of `mkfs` in front of the journal keep the invariant.
use logfsprogs.Common.{
  ℕ, zero, suc, ◌+◌, ◌-◌, ◌*◌, ◌/◌, ◌%◌, refl, Bool, Bool-cases, inl, inr, replicate, not, ◌==◌,
  ltb, length,
}
use logfsprogs.Common.Outcome.{pure, Errno}
use logfsprogs.Common.Keeps.{Keeps, Safe-bind, Keeps-bind, Keeps-then, Keeps-if}
use logfsprogs.Kerncompat.{u32_mod, u64_mod}
use logfsprogs.Abi.{
  logfs_ino_master, logfs_ino_root, logfs_ino_segfile, obj_inode, obj_block, encode_disk_inode,
}
use logfsprogs.Super.{Super, Env, set_entry, get_inode, set_inode}
use logfsprogs.Inodes.{find_or_create_inode}
use logfsprogs.Segment.{get_segment}
use logfsprogs.ReadWrite.{logfs_file_write, logfs_file_flush}
use logfsprogs.Mkfs.Prepare.{
  reserved_entry, set_ofs1, set_ofs2, first_superblock, bdev_prepare_sb, set_journal_seg,
  prepare_loop, prepare_journal,
}
use logfsprogs.Mkfs.Files.{write_inode, segment_file_loop, write_segment_file, write_rootdir}
use logfsprogs.Sound.{Sound, Sound-same}
use logfsprogs.Sound.Inodes.{
  find_or_create_inode-Keeps, change_inode, set_inode-Sound, get_inode-Keeps, get-Keeps,
}
use logfsprogs.Sound.Segments.{get_segment-Keeps, set_entry-Keeps}
use logfsprogs.Sound.Writing.{logfs_file_write-Keeps, logfs_file_flush-Keeps}

module _ {D : Type 0} (env : Env D) (n z : ℕ) (d0 : D) where
  abbrev Inv : Super D → Type 0
  Inv = Sound env n z d0

  set_ofs1-Keeps : (ofs : ℕ) → Keeps Inv (set_ofs1 ofs)
  unfolding set_ofs1
  set_ofs1-Keeps ofs s v = Sound-same env n z d0 s _ v refl v.bytes refl

  set_ofs2-Keeps : (ofs : ℕ) → Keeps Inv (set_ofs2 ofs)
  unfolding set_ofs2
  set_ofs2-Keeps ofs s v = Sound-same env n z d0 s _ v refl v.bytes refl

  first_superblock-Keeps : Keeps Inv (first_superblock env)
  unfolding first_superblock
  first_superblock-Keeps =
      Keeps-bind Inv (get_segment env) _ (get_segment-Keeps env n z d0) (λ segno.
        Keeps-then Inv (set_entry segno reserved_entry) _
          (set_entry-Keeps env n z d0 segno reserved_entry)
          (get-Keeps env n z d0 _ (λ s. set_ofs1-Keeps (segno * s.segsize))))

  pub bdev_prepare_sb-Keeps : Keeps Inv (bdev_prepare_sb env)
  unfolding bdev_prepare_sb
  bdev_prepare_sb-Keeps = Keeps-then Inv (first_superblock env) _ first_superblock-Keeps (
      get-Keeps env n z d0 _ (λ s.
        Keeps-then Inv (set_entry _ reserved_entry) _ (set_entry-Keeps env n z d0 _ reserved_entry)
          (let ofs = (s.no_segs + u32_mod - 1) % u32_mod * s.segsize + u64_mod - 0x1000 in
            Keeps-then Inv {B = Errno} (set_ofs2 ofs) (pure 0) (set_ofs2-Keeps ofs) (λ _ w. w))))

  set_journal_seg-Keeps : (i segno : ℕ) → Keeps Inv (set_journal_seg i segno)
  unfolding set_journal_seg
  set_journal_seg-Keeps i segno s v = elim (Bool-cases (ltb i (length s.journal_seg))) [
    | inl inside ↦ rw inside (Sound-same env n z d0 s _ v refl v.bytes refl)
    | inr outside ↦ rw outside tt
  ]

  prepare_loop-Keeps : (r i : ℕ) → Keeps Inv (prepare_loop env r i)
  unfolding prepare_loop
  prepare_loop-Keeps zero i = λ _ w. w
  prepare_loop-Keeps (suc r) i =
      Keeps-bind Inv (get_segment env) _ (get_segment-Keeps env n z d0) (λ segno.
        Keeps-then Inv (set_journal_seg i segno) _ (set_journal_seg-Keeps i segno) (
          Keeps-then Inv (set_entry segno reserved_entry) _
            (set_entry-Keeps env n z d0 segno reserved_entry) (prepare_loop-Keeps r (i + 1))))

  pub prepare_journal-Keeps :
      (no_journal_segs : ℕ) → Keeps Inv (prepare_journal env no_journal_segs)
  unfolding prepare_journal
  prepare_journal-Keeps no_journal_segs = prepare_loop-Keeps no_journal_segs 0

  pub write_inode-Keeps : (ino : ℕ) → Keeps Inv (write_inode env ino)
  unfolding write_inode
  write_inode-Keeps ino =
      Keeps-bind Inv (find_or_create_inode ino) _ (find_or_create_inode-Keeps env n z d0 ino) (λ p.
        Keeps-if Inv (p == 0) (pure _) _ (λ _ w. w)
          (Keeps-bind Inv (get_inode p) _ (get_inode-Keeps env n z d0 p) (λ i.
            logfs_file_write-Keeps env n z d0 logfs_ino_master ino 0 obj_inode
              (encode_disk_inode i.di))))

  segment_file_loop-Keeps : (f ofs : ℕ) → Keeps Inv (segment_file_loop env f ofs)
  unfolding segment_file_loop
  segment_file_loop-Keeps zero ofs = λ _ _. tt
  segment_file_loop-Keeps (suc f) ofs = get-Keeps env n z d0 _ (λ s.
      Keeps-if Inv (ltb (ofs * s.blocksize) (s.no_segs * 8)) _ (pure _)
        (Keeps-bind Inv
          (logfs_file_write env logfs_ino_segfile ofs 0 obj_block (replicate s.blocksize 0)) _
          (logfs_file_write-Keeps env n z d0 logfs_ino_segfile ofs 0 obj_block
            (replicate s.blocksize 0))
          (λ err.
            Keeps-if Inv (err == 0) (segment_file_loop env f (ofs + 1)) (pure err)
              (segment_file_loop-Keeps f (ofs + 1)) (λ _ w. w)))
        (λ _ w. w))

  pub write_segment_file-Keeps : Keeps Inv (write_segment_file env)
  unfolding write_segment_file
  write_segment_file-Keeps =
      Keeps-bind Inv (find_or_create_inode logfs_ino_segfile) _
        (find_or_create_inode-Keeps env n z d0 logfs_ino_segfile)
        (λ p.
          Keeps-if Inv (p == 0) (pure _) _ (λ _ w. w)
            (λ s v. change_inode env n z d0 p _ s v (λ x found.
              Safe-bind Inv (λ _ t. Inv t) (set_inode p _ s) _
                (set_inode-Sound env n z d0 p s x _ v found refl)
                (λ _ t w.
                  let fuel = s.no_segs * 8 / s.blocksize + 2 in
                  Keeps-bind Inv (segment_file_loop env fuel 0) _ (segment_file_loop-Keeps fuel 0)
                    (λ err.
                      Keeps-if Inv (not (err == 0)) (pure err) _ (λ _ w. w)
                        (Keeps-bind Inv (logfs_file_flush env fuel logfs_ino_segfile) _
                          (logfs_file_flush-Keeps env n z d0 fuel logfs_ino_segfile)
                          (λ err'.
                            Keeps-if Inv (err' == 0) (write_inode env logfs_ino_segfile) (pure err')
                              (write_inode-Keeps logfs_ino_segfile) (λ _ w. w))))
                    t w))))

  pub write_rootdir-Keeps : (compress : Bool) → Keeps Inv (write_rootdir env compress)
  unfolding write_rootdir
  write_rootdir-Keeps compress =
      Keeps-bind Inv (find_or_create_inode logfs_ino_root) _
        (find_or_create_inode-Keeps env n z d0 logfs_ino_root)
        (λ p.
          Keeps-if Inv (p == 0) (pure _) _ (λ _ w. w)
            (λ s v. change_inode env n z d0 p _ s v (λ x found.
              Safe-bind Inv (λ _ t. Inv t) (set_inode p _ s) _
                (set_inode-Sound env n z d0 p s x _ v found refl)
                (λ _ t w. write_inode-Keeps logfs_ino_root t w))))
