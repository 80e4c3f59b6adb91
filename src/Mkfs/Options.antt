-- ===== src/Mkfs/Options.antt =====
-- The command line of mklogfs. `getopt_long` is the C library's: a command line is modelled by the
-- options that it returns, with the value of `strtoul(optarg, NULL, 0)` for those that have one, and
-- by the number of arguments behind them.
use logfsprogs.Common.{ℕ, ◌%◌, true, false, not, ◌==◌, List, [], ◌∷◌}
use logfsprogs.Common.Outcome.{Cmd, ok, stop, help, exit, usage, ◌>>◌}
use logfsprogs.Kerncompat.{u32_mod}
use logfsprogs.Mkfs.Config.{Config, fail_if}

-- The values of `c` that the `switch` tells apart. `getopt_long` never returns `b`, which stands
-- neither in `short_opts` nor in `long_opts`.
pub data Opt : Type 0 where
  blockshift : ℕ → Opt
  bad_segment_reserve : ℕ → Opt
  compress : Opt
  journal_segments : ℕ → Opt
  help_wanted : Opt
  non_interactive : Opt
  demo_mode : Opt
  segshift : ℕ → Opt
  writeshift : ℕ → Opt
  unknown : Opt

-- One round of the `switch`; the variables have 32 bits.
unfoldable pub parse_option : Opt → Cmd Config (Unit {0})
parse_option (blockshift n) c = ok tt (record c { user_blockshift = n % u32_mod })
parse_option (bad_segment_reserve n) c = ok tt (record c { bad_seg_reserve = n % u32_mod })
parse_option compress c = ok tt (record c { compress_rootdir = true })
parse_option (journal_segments n) c = ok tt (record c { no_journal_segs = n % u32_mod })
parse_option help_wanted c = stop help
parse_option non_interactive c = ok tt (record c { interactive_mode = false })
parse_option demo_mode c = ok tt (record c { quick_bad_block_scan = true })
parse_option (segshift n) c = ok tt (record c { user_segshift = n % u32_mod })
parse_option (writeshift n) c = ok tt (record c { user_writeshift = n % u32_mod })
parse_option unknown c = stop (exit usage)

unfoldable pub parse_options : List Opt → Cmd Config (Unit {0})
unfolding parse_option
parse_options [] c = ok tt c
parse_options (o ∷ rest) c = (parse_option o >> parse_options rest) c

-- `if (optind != argc - 1)`
unfoldable pub parse_args : List Opt → ℕ → Cmd Config (Unit {0})
unfolding parse_options
parse_args opts operands = parse_options opts >> fail_if (not (operands == 1)) usage
