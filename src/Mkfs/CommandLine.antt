-- ===== src/Mkfs/CommandLine.antt =====
-- What the options and the device leave in the configuration.
use logfsprogs.Common.{
  ℕ, ◌%◌, ◌≡◌, inl, inr, refl, sym, ap, ◌∙◌, Bool, true, false, ◌||◌, if◌then◌else◌, List, [], ◌∷◌,
  Option,
}
use logfsprogs.Common.Outcome.{Stop, Ends, Ends-mono}
use mathlib.Core.Bool.{or-false, or_assoc}
use logfsprogs.Kerncompat.{u32_mod}
use logfsprogs.Mkfs.Config.{Config}
use logfsprogs.Mkfs.Options.{
  Opt, blockshift, bad_segment_reserve, compress, journal_segments, help_wanted, non_interactive,
  demo_mode, segshift, writeshift, unknown, parse_option, parse_options,
}
use logfsprogs.Mkfs.Chosen.{
  block_value, segment_value, write_value, journal_value, reserve_value, value_or, last_given,
  is_compress, is_non_interactive, is_demo_mode, is_help, is_unknown, any, Chosen, Refused,
  value_step,
}

-- One round: the configuration `e` that option `o` makes of `c`.
record Round (o : Opt) (c e : Config) : Type 0 where
  block : e.user_blockshift ≡ value_or (block_value o) c.user_blockshift
  segment : e.user_segshift ≡ value_or (segment_value o) c.user_segshift
  write : e.user_writeshift ≡ value_or (write_value o) c.user_writeshift
  journal : e.no_journal_segs ≡ value_or (journal_value o) c.no_journal_segs
  reserve : e.bad_seg_reserve ≡ value_or (reserve_value o) c.bad_seg_reserve
  compressed : e.compress_rootdir ≡ (c.compress_rootdir || is_compress o)
  asked : e.interactive_mode ≡ (if is_non_interactive o then false else c.interactive_mode)
  demo : e.quick_bad_block_scan ≡ (c.quick_bad_block_scan || is_demo_mode o)
  no_help : is_help o ≡ false
  known : is_unknown o ≡ false
  shifts : (e.segshift ≡ c.segshift) × (e.blockshift ≡ c.blockshift) × (e.writeshift ≡ c.writeshift)

switch_step :
    (now later d : Bool)
    → (if later then false else (if now then false else d)) ≡ (if now || later then false else d)
switch_step true true d = refl
switch_step true false d = refl
switch_step false later d = refl

or_both : (x y : Bool) → x ≡ false → y ≡ false → (x || y) ≡ false
or_both x y p q = rw (p, q) refl

or_true : (x y : Bool) → y ≡ true → (x || y) ≡ true
or_true true y p = refl
or_true false y p = p

Chosen-Round :
    (o : Opt) (rest : List Opt) (c e d : Config)
    → Round o c e
    → Chosen rest e d
    → Chosen (o ∷ rest) c d
Chosen-Round o rest c e d r g =
    let number = λ (f : Opt → Option ℕ) (old : ℕ). value_step (last_given f rest) (f o) old in
    record {
      block =
          g.block
          ∙ ap (value_or (last_given block_value rest)) r.block
          ∙ number block_value c.user_blockshift;
      segment =
          g.segment
          ∙ ap (value_or (last_given segment_value rest)) r.segment
          ∙ number segment_value c.user_segshift;
      write =
          g.write
          ∙ ap (value_or (last_given write_value rest)) r.write
          ∙ number write_value c.user_writeshift;
      journal =
          g.journal
          ∙ ap (value_or (last_given journal_value rest)) r.journal
          ∙ number journal_value c.no_journal_segs;
      reserve =
          g.reserve
          ∙ ap (value_or (last_given reserve_value rest)) r.reserve
          ∙ number reserve_value c.bad_seg_reserve;
      compressed =
          g.compressed
          ∙ ap (λ b. b || any is_compress rest) r.compressed
          ∙ or_assoc c.compress_rootdir (is_compress o) (any is_compress rest);
      asked =
          g.asked
          ∙ ap (λ b. if any is_non_interactive rest then false else b) r.asked
          ∙ switch_step (is_non_interactive o) (any is_non_interactive rest) c.interactive_mode;
      demo =
          g.demo
          ∙ ap (λ b. b || any is_demo_mode rest) r.demo
          ∙ or_assoc c.quick_bad_block_scan (is_demo_mode o) (any is_demo_mode rest);
      no_help = or_both (is_help o) (any is_help rest) r.no_help g.no_help;
      all_known = or_both (is_unknown o) (any is_unknown rest) r.known g.all_known;
      shifts = (g.shifts.0 ∙ r.shifts.0, g.shifts.1 ∙ r.shifts.1, g.shifts.2 ∙ r.shifts.2);
    }

Refused-later : (o : Opt) (rest : List Opt) (r : Stop) → Refused rest r → Refused (o ∷ rest) r
Refused-later o rest r (inl (e, h)) = inl (e, or_true (is_help o) (any is_help rest) h)
Refused-later o rest r (inr (e, h)) = inr (e, or_true (is_unknown o) (any is_unknown rest) h)

quiet_Round :
    (o : Opt) (c e : Config)
    → e.user_blockshift ≡ value_or (block_value o) c.user_blockshift
    → e.user_segshift ≡ value_or (segment_value o) c.user_segshift
    → e.user_writeshift ≡ value_or (write_value o) c.user_writeshift
    → e.no_journal_segs ≡ value_or (journal_value o) c.no_journal_segs
    → e.bad_seg_reserve ≡ value_or (reserve_value o) c.bad_seg_reserve
    → e.compress_rootdir ≡ (c.compress_rootdir || is_compress o)
    → e.interactive_mode ≡ (if is_non_interactive o then false else c.interactive_mode)
    → e.quick_bad_block_scan ≡ (c.quick_bad_block_scan || is_demo_mode o)
    → is_help o ≡ false
    → is_unknown o ≡ false
    → (e.segshift ≡ c.segshift) × (e.blockshift ≡ c.blockshift) × (e.writeshift ≡ c.writeshift)
    → Round o c e
quiet_Round o c e b g w j r x a d h u t = record {
  block = b;
  segment = g;
  write = w;
  journal = j;
  reserve = r;
  compressed = x;
  asked = a;
  demo = d;
  no_help = h;
  known = u;
  shifts = t;
}

-- A round that returns, and the rest.
round_lem :
    (o : Opt) (rest : List Opt) (c e : Config)
    → Round o c e
    → Ends (λ _ d. Chosen rest e d) (Refused rest) (parse_options rest e)
    → Ends (λ _ d. Chosen (o ∷ rest) c d) (Refused (o ∷ rest)) (parse_options rest e)
round_lem o rest c e r h =
    Ends-mono (λ _ d. Chosen rest e d) (λ _ d. Chosen (o ∷ rest) c d) (Refused rest)
      (Refused (o ∷ rest)) (parse_options rest e) h (λ _ d g. Chosen-Round o rest c e d r g)
      (λ x q. Refused-later o rest x q)

-- `parse_options` ends for every list of options. It returns only if there is no help option and no
-- unknown one, and then each number is the one that was given last, or the old one, and each switch
-- is set exactly if it was given or set before. Otherwise it leaves with the help text or with the
-- usage text, for an option in the list.
pub parse_options-Chosen :
    (opts : List Opt) (c : Config)
    → Ends (λ _ d. Chosen opts c d) (Refused opts) (parse_options opts c)
unfolding parse_options parse_option
parse_options-Chosen [] c = record {
  block = refl;
  segment = refl;
  write = refl;
  journal = refl;
  reserve = refl;
  compressed = sym (or-false c.compress_rootdir);
  asked = refl;
  demo = sym (or-false c.quick_bad_block_scan);
  no_help = refl;
  all_known = refl;
  shifts = (refl, refl, refl);
}
parse_options-Chosen (help_wanted ∷ rest) c = inl (refl, refl)
parse_options-Chosen (unknown ∷ rest) c = inr (refl, refl)
parse_options-Chosen ((blockshift n) ∷ rest) c =
    round_lem (blockshift n) rest c (record c { user_blockshift = n % u32_mod })
      (quiet_Round (blockshift n) c _ refl refl refl refl refl (sym (or-false c.compress_rootdir))
        refl (sym (or-false c.quick_bad_block_scan)) refl refl (refl, refl, refl))
      (parse_options-Chosen rest (record c { user_blockshift = n % u32_mod }))
parse_options-Chosen ((bad_segment_reserve n) ∷ rest) c =
    round_lem (bad_segment_reserve n) rest c (record c { bad_seg_reserve = n % u32_mod })
      (quiet_Round (bad_segment_reserve n) c _ refl refl refl refl refl
        (sym (or-false c.compress_rootdir)) refl (sym (or-false c.quick_bad_block_scan)) refl refl
        (refl, refl, refl))
      (parse_options-Chosen rest (record c { bad_seg_reserve = n % u32_mod }))
parse_options-Chosen (compress ∷ rest) c =
    round_lem compress rest c (record c { compress_rootdir = true })
      (quiet_Round compress c _ refl refl refl refl refl
        (sym (or_true c.compress_rootdir true refl)) refl (sym (or-false c.quick_bad_block_scan))
        refl refl (refl, refl, refl))
      (parse_options-Chosen rest (record c { compress_rootdir = true }))
parse_options-Chosen ((journal_segments n) ∷ rest) c =
    round_lem (journal_segments n) rest c (record c { no_journal_segs = n % u32_mod })
      (quiet_Round (journal_segments n) c _ refl refl refl refl refl
        (sym (or-false c.compress_rootdir)) refl (sym (or-false c.quick_bad_block_scan)) refl refl
        (refl, refl, refl))
      (parse_options-Chosen rest (record c { no_journal_segs = n % u32_mod }))
parse_options-Chosen (non_interactive ∷ rest) c =
    round_lem non_interactive rest c (record c { interactive_mode = false })
      (quiet_Round non_interactive c _ refl refl refl refl refl (sym (or-false c.compress_rootdir))
        refl (sym (or-false c.quick_bad_block_scan)) refl refl (refl, refl, refl))
      (parse_options-Chosen rest (record c { interactive_mode = false }))
parse_options-Chosen (demo_mode ∷ rest) c =
    round_lem demo_mode rest c (record c { quick_bad_block_scan = true })
      (quiet_Round demo_mode c _ refl refl refl refl refl (sym (or-false c.compress_rootdir)) refl
        (sym (or_true c.quick_bad_block_scan true refl)) refl refl (refl, refl, refl))
      (parse_options-Chosen rest (record c { quick_bad_block_scan = true }))
parse_options-Chosen ((segshift n) ∷ rest) c =
    round_lem (segshift n) rest c (record c { user_segshift = n % u32_mod })
      (quiet_Round (segshift n) c _ refl refl refl refl refl (sym (or-false c.compress_rootdir))
        refl (sym (or-false c.quick_bad_block_scan)) refl refl (refl, refl, refl))
      (parse_options-Chosen rest (record c { user_segshift = n % u32_mod }))
parse_options-Chosen ((writeshift n) ∷ rest) c =
    round_lem (writeshift n) rest c (record c { user_writeshift = n % u32_mod })
      (quiet_Round (writeshift n) c _ refl refl refl refl refl (sym (or-false c.compress_rootdir))
        refl (sym (or-false c.quick_bad_block_scan)) refl refl (refl, refl, refl))
      (parse_options-Chosen rest (record c { user_writeshift = n % u32_mod }))
