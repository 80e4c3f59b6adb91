-- ===== src/Mkfs/Prepare.antt =====
-- The segments of the two superblocks and of the journal.
use logfsprogs.Common.{
  ℕ, zero, suc, ◌+◌, ◌-◌, ◌*◌, ◌%◌, ◌||◌, ◌==◌, ltb, leb, if◌then◌else◌, length, set,
}
use logfsprogs.Common.Outcome.{
  Cmd, ok, stop, fault, out_of_fuel, pure, halt, get, Errno, eio, ◌>>=◌, ◌>>◌,
}
use logfsprogs.Kerncompat.{u32_mod, u64_mod}
use logfsprogs.Abi.{SegmentEntry, reserved}
use logfsprogs.Super.{Super, Env, ec_level, set_entry}
use logfsprogs.Segment.{get_segment}

-- The entry of a segment that holds a superblock or the journal.
unfoldable pub reserved_entry : SegmentEntry
unfolding ec_level
reserved_entry = record { ec_level = ec_level 1 0; valid = reserved }

module _ {D : Type 0} where
  unfoldable pub set_ofs1 : ℕ → Cmd (Super D) (Unit {0})
  set_ofs1 ofs s = ok tt (record s { sb_ofs1 = ofs % u64_mod })

  unfoldable pub set_ofs2 : ℕ → Cmd (Super D) (Unit {0})
  set_ofs2 ofs s = ok tt (record s { sb_ofs2 = ofs % u64_mod })

  -- `dev_ops->erase`, called by its name in `mtd_prepare_sb`
  unfoldable pub dev_erase : Env D → ℕ → ℕ → Cmd (Super D) Errno
  dev_erase env ofs size s =
      let (err, dev') = env.dev_erase ofs size s.dev in ok err (record s { dev = dev' })

  -- `for (; segno > no_segs - 64; segno--)`, in 32 bits: the segment at which the loop ends
  unfoldable pub mtd_scan : Env D → ℕ → ℕ → Cmd (Super D) ℕ
  mtd_scan env zero segno = halt out_of_fuel
  mtd_scan env (suc f) segno = do
    s ← get
    if ltb ((s.no_segs + u32_mod - 64) % u32_mod) segno
        then (do
          err ← dev_erase env (segno * s.segsize % u64_mod) s.segsize
          if err == 0
              then (do
                set_entry segno reserved_entry
                set_ofs2 ((segno + 1) % u32_mod * s.segsize + u64_mod - 0x1000)
                pure segno)
              else mtd_scan env f ((segno + u32_mod - 1) % u32_mod))
        else pure segno

  unfoldable pub first_superblock : Env D → Cmd (Super D) (Unit {0})
  first_superblock env = do
    segno ← get_segment env
    set_entry segno reserved_entry
    s ← get
    set_ofs1 (segno * s.segsize)

  unfoldable pub mtd_prepare_sb : Env D → Cmd (Super D) Errno
  unfolding first_superblock mtd_scan dev_erase set_ofs1 set_ofs2 get_segment set_entry
      reserved_entry
  mtd_prepare_sb env = do
    first_superblock env
    s ← get
    segno ← mtd_scan env 64 ((s.no_segs + u32_mod - 1) % u32_mod)
    t ← get
    if (segno == (s.no_segs + u32_mod - 64) % u32_mod) || leb t.sb_ofs2 t.sb_ofs1
        then pure eio
        else pure 0

  unfoldable pub bdev_prepare_sb : Env D → Cmd (Super D) Errno
  unfolding first_superblock set_ofs1 set_ofs2 get_segment set_entry reserved_entry
  bdev_prepare_sb env = do
    first_superblock env
    s ← get
    set_entry ((s.no_segs + u32_mod - 1) % u32_mod) reserved_entry
    set_ofs2 ((s.no_segs + u32_mod - 1) % u32_mod * s.segsize + u64_mod - 0x1000)
    pure 0

  -- `sb->journal_seg[i] = segno`, a fault behind the array
  unfoldable pub set_journal_seg : ℕ → ℕ → Cmd (Super D) (Unit {0})
  set_journal_seg i segno s =
      if ltb i (length s.journal_seg)
      then ok tt (record s { journal_seg = set s.journal_seg i segno })
      else stop fault

  -- The loop from `i` on, with `r` rounds left
  unfoldable pub prepare_loop : Env D → ℕ → ℕ → Cmd (Super D) (Unit {0})
  unfolding set_journal_seg get_segment set_entry reserved_entry
  prepare_loop env zero i = pure tt
  prepare_loop env (suc r) i = do
    segno ← get_segment env
    set_journal_seg i segno
    set_entry segno reserved_entry
    prepare_loop env r (i + 1)

  unfoldable pub prepare_journal : Env D → ℕ → Cmd (Super D) (Unit {0})
  unfolding prepare_loop
  prepare_journal env no_journal_segs = prepare_loop env no_journal_segs 0
