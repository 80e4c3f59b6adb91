-- ===== src/Mkfs/Chosen.antt =====
-- What a list of options says of the configuration.
use logfsprogs.Common.{
  ℕ, ◌%◌, ◌≡◌, ◌⊎◌, refl, Bool, true, false, ◌||◌, if◌then◌else◌, List, [], ◌∷◌, Option, none, some,
}
use logfsprogs.Common.Outcome.{Stop, help, exit, usage}
use logfsprogs.Kerncompat.{u32_mod}
use logfsprogs.Mkfs.Config.{Config}
use logfsprogs.Mkfs.Options.{
  Opt, blockshift, bad_segment_reserve, compress, journal_segments, help_wanted, non_interactive,
  demo_mode, segshift, writeshift, unknown,
}

-- The value that an option gives to one variable, if it sets that one.
abbrev pub block_value : Opt → Option ℕ
block_value (blockshift n) = some n
block_value _ = none

abbrev pub segment_value : Opt → Option ℕ
segment_value (segshift n) = some n
segment_value _ = none

abbrev pub write_value : Opt → Option ℕ
write_value (writeshift n) = some n
write_value _ = none

abbrev pub journal_value : Opt → Option ℕ
journal_value (journal_segments n) = some n
journal_value _ = none

abbrev pub reserve_value : Opt → Option ℕ
reserve_value (bad_segment_reserve n) = some n
reserve_value _ = none

abbrev pub value_or : Option ℕ → ℕ → ℕ
value_or none d = d
value_or (some n) d = n % u32_mod

abbrev pub or_else : Option ℕ → Option ℕ → Option ℕ
or_else none o = o
or_else (some n) o = some n

-- The value of the last option that sets a variable.
abbrev pub last_given : (Opt → Option ℕ) → List Opt → Option ℕ
last_given f [] = none
last_given f (o ∷ rest) = or_else (last_given f rest) (f o)

abbrev pub last_value : (Opt → Option ℕ) → List Opt → ℕ → ℕ
last_value f opts d = value_or (last_given f opts) d

pub value_step :
    (later now : Option ℕ) (d : ℕ)
    → value_or later (value_or now d) ≡ value_or (or_else later now) d
value_step none now d = refl
value_step (some n) now d = refl

abbrev pub is_compress : Opt → Bool
is_compress compress = true
is_compress _ = false

abbrev pub is_non_interactive : Opt → Bool
is_non_interactive non_interactive = true
is_non_interactive _ = false

abbrev pub is_demo_mode : Opt → Bool
is_demo_mode demo_mode = true
is_demo_mode _ = false

abbrev pub is_help : Opt → Bool
is_help help_wanted = true
is_help _ = false

abbrev pub is_unknown : Opt → Bool
is_unknown unknown = true
is_unknown _ = false

abbrev pub any : (Opt → Bool) → List Opt → Bool
any f [] = false
any f (o ∷ rest) = f o || any f rest

-- The configuration `d` that the options `opts` make of `c`.
pub record Chosen (opts : List Opt) (c d : Config) : Type 0 where
  pub block : d.user_blockshift ≡ last_value block_value opts c.user_blockshift
  pub segment : d.user_segshift ≡ last_value segment_value opts c.user_segshift
  pub write : d.user_writeshift ≡ last_value write_value opts c.user_writeshift
  pub journal : d.no_journal_segs ≡ last_value journal_value opts c.no_journal_segs
  pub reserve : d.bad_seg_reserve ≡ last_value reserve_value opts c.bad_seg_reserve
  pub compressed : d.compress_rootdir ≡ (c.compress_rootdir || any is_compress opts)
  pub asked :
      d.interactive_mode ≡ (if any is_non_interactive opts then false else c.interactive_mode)
  pub demo : d.quick_bad_block_scan ≡ (c.quick_bad_block_scan || any is_demo_mode opts)
  pub no_help : any is_help opts ≡ false
  pub all_known : any is_unknown opts ≡ false
  pub shifts :
      (d.segshift ≡ c.segshift) × (d.blockshift ≡ c.blockshift) × (d.writeshift ≡ c.writeshift)

-- Why the options were refused.
abbrev pub Refused : List Opt → Stop → Type 0
Refused opts r =
    ((r ≡ help) × (any is_help opts ≡ true)) ⊎ ((r ≡ exit usage) × (any is_unknown opts ≡ true))
