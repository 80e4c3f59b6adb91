-- ===== src/Fsck.antt =====
-- `fsck.c`: the options, the check of zlib, and nothing else yet.
use logfsprogs.Common.{ℕ, List, [], ◌∷◌, not, ◌==◌}
use logfsprogs.Common.Outcome.{Cmd, ok, stop, help, exit, usage, unknown_option, ◌>>◌}
use logfsprogs.Super.{Env, check_crc32}
use logfsprogs.Mkfs.Config.{fail_if}

-- What `getopt_long` returns, `h` or another value.
pub data Opt : Type 0 where
  help_wanted : Opt
  other : Opt

unfoldable pub parse_options : {S : Type 0} → List Opt → Cmd S (Unit {0})
parse_options [] s = ok tt s
parse_options (help_wanted ∷ rest) s = stop help
parse_options (other ∷ rest) s = stop (exit unknown_option)

-- `main` of logfsck; `operands` is the number of arguments behind the options.
unfoldable pub logfsck : {S D : Type 0} → Env D → List Opt → ℕ → Cmd S (Unit {0})
unfolding check_crc32 parse_options
logfsck env opts operands = do
  check_crc32 env
  parse_options opts
  fail_if (not (operands == 1)) usage
