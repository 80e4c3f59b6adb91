-- ===== src/Mkfs/Config.antt =====
-- The options, and the first half of `mkfs`: the parameters are checked and the sizes follow.
use logfsprogs.Common.{
  ℕ, ◌+◌, ◌*◌, ◌/◌, ◌%◌, ◌^◌, Bool, true, false, not, ◌==◌, ltb, leb, if◌then◌else◌,
}
use logfsprogs.Common.Outcome.{
  Cmd, ok, Failure, exit, segment_shift_too_large, segment_shift_not_above_block_shift,
  blockshift_must_be_12, writeshift_too_large, segment_shift_below_write_shift, aborting, pure,
  halt, ◌>>◌,
}
use logfsprogs.Kerncompat.{u8_mod, u32_mod, u64_mod}
use logfsprogs.Super.{Super}

-- The variables at the top of `mkfs.c`. A `user_…` of 2 ^ 32 - 1 is one that was not given.
pub record Config : Type 0 where
  pub user_segshift : ℕ
  pub user_blockshift : ℕ
  pub user_writeshift : ℕ
  pub segshift : ℕ
  pub blockshift : ℕ
  pub writeshift : ℕ
  pub no_journal_segs : ℕ
  pub bad_seg_reserve : ℕ
  pub compress_rootdir : Bool
  pub quick_bad_block_scan : Bool
  pub interactive_mode : Bool

abbrev pub default_config : Config
default_config = record {
  user_segshift = 0xffff_ffff;
  user_blockshift = 0xffff_ffff;
  user_writeshift = 0xffff_ffff;
  segshift = 18;
  blockshift = 12;
  writeshift = 0;
  no_journal_segs = 4;
  bad_seg_reserve = 4;
  compress_rootdir = false;
  quick_bad_block_scan = false;
  interactive_mode = true;
}

-- `if (user_… + 1) … = user_…;` with an 8-bit variable on the left
unfoldable pub chosen : ℕ → ℕ → ℕ
chosen user default = if (user + 1) % u32_mod == 0 then default else user % u8_mod

unfoldable pub choose_shifts : Config → Config
unfolding chosen
choose_shifts c = record c {
  segshift = chosen c.user_segshift c.segshift;
  blockshift = chosen c.user_blockshift c.blockshift;
  writeshift = chosen c.user_writeshift c.writeshift;
}

abbrev pub fail_if : {S : Type 0} → Bool → Failure → Cmd S (Unit {0})
fail_if b e s = if b then halt (exit e) s else ok tt s

-- The checks in the source's order.
unfoldable pub check_shifts : {S : Type 0} → Config → Cmd S (Unit {0})
check_shifts c = do
  fail_if (ltb 30 c.segshift) segment_shift_too_large
  fail_if (leb c.segshift c.blockshift) segment_shift_not_above_block_shift
  fail_if (not (c.blockshift == 12)) blockshift_must_be_12
  fail_if (ltb 16 c.writeshift) writeshift_too_large
  fail_if (ltb c.segshift c.writeshift) segment_shift_below_write_shift

-- The device size is cut to whole segments.
unfoldable pub set_sizes : {D : Type 0} → Config → Cmd (Super D) (Unit {0})
set_sizes c s =
    let no_segs = s.fssize / 2 ^ c.segshift % u32_mod in
    ok tt (record s {
      segsize = 2 ^ c.segshift;
      blocksize = 2 ^ c.blockshift;
      blocksize_bits = c.blockshift;
      writesize = 2 ^ c.writeshift;
      no_segs = no_segs;
      fssize = no_segs * 2 ^ c.segshift % u64_mod;
    })

-- One question; `answer` says whether the user wrote "yes".
abbrev pub ask : {S : Type 0} → Bool → Bool → Cmd S (Unit {0})
ask asked answer s = if asked then fail_if (not answer) aborting s else ok tt s

unfoldable pub configure : {D : Type 0} → Config → Bool → Bool → Cmd (Super D) Config
unfolding choose_shifts check_shifts set_sizes
configure c go_on skip_erase = do
  check_shifts (choose_shifts c)
  set_sizes (choose_shifts c)
  ask c.interactive_mode go_on
  ask c.quick_bad_block_scan skip_erase
  pure (choose_shifts c)
