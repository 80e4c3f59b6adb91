-- ===== src/Tests/Invariant.antt =====
-- The theorems on the invariant, the command line and the opening of the device at concrete inputs.
use logfsprogs.Common.{
  ℕ, zero, suc, Bool-cases, inl, inr, sym, ap, ◌∙◌, ◌-◌, ◌%◌, ◌+◌, ◌*◌, ◌/◌, ◌^◌, ◌≤◌, ◌<◌, ◌≡◌,
  refl, arith, true, false, List, [], ◌∷◌, none, some, length, replicate, get_elem?, if◌then◌else◌,
  ◌==◌,
}
use logfsprogs.Common.Outcome.{Ends, Returns}
use logfsprogs.Common.Keeps.{AnyStop}
use native.Mathlib.Nat.{
  pow-suc, pow-succ', mul_assoc, div-add-mod, mul-add-mod_self_left, mod-lt, mod-eq_of_lt,
}
use logfsprogs.Kerncompat.{u32_mod}
use logfsprogs.Super.{Super, Area, Env}
use logfsprogs.Btree.Heap.{Heap}
use logfsprogs.Segment.{logfs_segment_write}
use logfsprogs.Mkfs.Config.{default_config, chosen, choose_shifts}
use logfsprogs.Mkfs.Options.{Opt, segshift, compress, non_interactive, parse_options}
use logfsprogs.Mkfs.Open.{System, MtdInfo, Opened, open_mtd}
use logfsprogs.Mkfs.CommandLine.{parse_options-Chosen}
use logfsprogs.Mkfs.Shifts.{two_pos, IsFfs, MtdOpened, MtdRefused, open_mtd-shifts}
use logfsprogs.Mkfs.Chosen.{Chosen, Refused}
use logfsprogs.Mkfs.Prepare.{bdev_prepare_sb}
use logfsprogs.Mkfs.Make.{make_files}
use logfsprogs.Mkfs.Main.{new_super}
use logfsprogs.Inodes.{find_or_create_inode}
use logfsprogs.Inodes.Once.{Numbered, Once, find_or_create_inode-Once}
use logfsprogs.Sound.{Sound, begin}
use logfsprogs.Sound.Start.{closed, all_closed, Made, make_files-Made}
use logfsprogs.Sound.Objects.{logfs_segment_write-Sound}

abbrev env : Env ℕ
env = record {
  crc32 = λ bytes. length bytes;
  dev_write = λ ofs size buf d. (0, d + 1);
  dev_erase = λ ofs size d. (if ofs == 0 then 5 else 0, d + 1);
}

abbrev heap : Heap
heap = record { cells = λ _. none; pool = 100 ∷ 101 ∷ [] }

abbrev state : Super ℕ
state = record {
  fssize = 4 * 8192;
  segsize = 8192;
  erasesize = 8192;
  blocksize = 4096;
  blocksize_bits = 12;
  writesize = 1;
  no_segs = 4;
  journal_seg = replicate 16 0;
  used_bytes = 0;
  lastseg = 0;
  area = replicate 12 closed;
  segment_entry = replicate 4 (record { ec_level = 0; valid = 0 });
  sb_ofs1 = 0;
  sb_ofs2 = 0;
  ino_tree = record { node = 0; height = 0 };
  heap = heap;
  inodes = [];
  blocks = [];
  dev = 0;
}

none_open : (i : ℕ) (a : Area) (b : List ℕ) → get_elem? state.area i ≡ some a → a.buf ≡ some b → ⊥
none_open i a b there filled = absurd (cc (filled, all_closed 12 i a there))

Sound-state : Sound env 4 8192 0 state
Sound-state = record {
  valid = record {
    room = record { last = omega arith; small = omega arith; entries = refl };
    wide = omega arith;
    small = omega arith;
    fits = λ i a b o. absurd (none_open i a b o.there o.filled);
    apart = λ i j a c b d o u ne. absurd (none_open i a b o.there o.filled);
  };
  segs = refl;
  size = refl;
  bytes = refl;
  reach = begin;
}

logfs_segment_write-Sound_example :
    Ends
      (λ _ t. Sound env 4 8192 0 t)
      AnyStop
      (logfs_segment_write env (replicate 4096 7) 4 7 0 0 state)
logfs_segment_write-Sound_example =
    logfs_segment_write-Sound env 4 8192 0 (replicate 4096 7) 4 7 0 0 state Sound-state

abbrev no_inode : ℕ → ℕ
no_inode k = 0

none_yet : Numbered no_inode 0 state
none_yet = record {
  tree = inl (record { low = refl; rootless = refl; count = refl; no_pairs = λ k. refl });
  made = λ k. omega arith;
  apart = λ j k some_j e. absurd (some_j refl);
}

find_or_create_inode-Once_example :
    Returns (λ p t. Once no_inode 0 3 p t) (find_or_create_inode 3 state)
find_or_create_inode-Once_example =
    find_or_create_inode-Once no_inode 0 3 state none_yet (omega arith)

abbrev opened : Opened
opened = record { is_mtd = false; erasesize = 0; fssize = 16 * 262144 }

few_segments : opened.fssize / 2 ^ (choose_shifts default_config).segshift + 1 < u32_mod
unfolding choose_shifts chosen
few_segments = omega arith

make_files-Made_example :
    Ends
      (λ _ t. Made env opened heap 0 t)
      AnyStop
      (make_files env (bdev_prepare_sb env) default_config true true (new_super opened heap 0))
make_files-Made_example =
    make_files-Made env opened heap 0 default_config true true (omega arith) few_segments

abbrev options : List Opt
options = segshift 20 ∷ compress ∷ segshift 17 ∷ non_interactive ∷ []

parse_options-Chosen_example :
    Ends
      (λ _ d. Chosen options default_config d)
      (Refused options)
      (parse_options options default_config)
parse_options-Chosen_example = parse_options-Chosen options default_config

-- The place of the lowest bit, looked for in `r` bits.
lowest_bit : ℕ → ℕ → ℕ
lowest_bit zero n = 0
lowest_bit (suc r) n = let rest = lowest_bit r (n / 2) in if n % 2 == 1 then 1 else rest + 1

double_mod : (m d : ℕ) → 0 < d → (2 * m) % (2 * d) ≡ 2 * (m % d)
double_mod m d pos =
    let whole = div-add-mod m d in
    let low = mod-lt m {m = d} pos in
    let assoc = mul_assoc 2 d (m / d) in
    let e : 2 * m ≡ 2 * d * (m / d) + 2 * (m % d) = omega arith in
    ap (λ x. x % (2 * d)) e
    ∙ mul-add-mod_self_left (2 * d) (m / d) (2 * (m % d))
    ∙ mod-eq_of_lt (omega arith)

record LowBit (r n f : ℕ) : Type 0 where
  some_bit : 0 < f
  width : f ≤ r
  lowest : n % 2 ^ f ≡ 2 ^ (f - 1)

lowest_bit-LowBit : (r n : ℕ) → 0 < n → n < 2 ^ r → LowBit r n (lowest_bit r n)
unfolding lowest_bit
lowest_bit-LowBit zero n pos lt = absurd (omega arith)
lowest_bit-LowBit (suc r) n pos lt =
    let double = pow-suc 2 r in
    elim (Bool-cases (n % 2 == 1)) [
      | inl odd ↦
          rw odd (record { some_bit = omega arith; width = omega arith; lowest = ground arith })
      | inr even ↦
          let half : 2 * (n / 2) ≡ n = ground arith in
          let l = lowest_bit-LowBit r (n / 2) (omega arith) (omega arith) in
          let f = lowest_bit r (n / 2) in
          let some = l.some_bit in
          let positive : 0 < 2 ^ f = two_pos f in
          let wide = l.width in
          let e : f + 1 ≡ suc f = omega arith in
          let e' : f ≡ suc (f - 1) = omega arith in
          let power : 2 ^ (f + 1) ≡ 2 * 2 ^ f = ap (λ x. 2 ^ x) e ∙ pow-succ' 2 f in
          let power' : 2 * 2 ^ (f - 1) ≡ 2 ^ f = sym (ap (λ x. 2 ^ x) e' ∙ pow-succ' 2 (f - 1)) in
          let back : f + 1 - 1 ≡ f = omega arith in
          rw even (record {
            some_bit = omega arith;
            width = omega arith;
            lowest =
                ap (λ d. n % d) power
                ∙ ap (λ x. x % (2 * 2 ^ f)) (sym half)
                ∙ double_mod (n / 2) (2 ^ f) (omega arith)
                ∙ ap (λ x. 2 * x) l.lowest
                ∙ power'
                ∙ sym (ap (λ x. 2 ^ x) back);
          })
    ]

abbrev find_first : ℕ → ℕ
find_first n = if n == 0 then 0 else lowest_bit 32 n

find_first-LowBit : (n : ℕ) → 0 < n → n < u32_mod → LowBit 32 n (find_first n)
find_first-LowBit n pos lt =
    let some_bits : (n == 0) ≡ false = ground arith in rw some_bits (lowest_bit-LowBit 32 n pos lt)

find_first-IsFfs : IsFfs find_first
find_first-IsFfs = record {
  zero_bits = refl;
  some_bit = λ n pos lt. (find_first-LowBit n pos lt).some_bit;
  width = λ n lt. elim (Bool-cases (n == 0)) [
    | inl empty ↦ rw empty (omega arith)
    | inr bits ↦ (find_first-LowBit n (ground arith) lt).width
  ];
  lowest = λ n pos lt. (find_first-LowBit n pos lt).lowest;
}

abbrev mtd : MtdInfo
mtd = record { size = 4194304; erasesize = 2 ^ 17; writesize = 2 ^ 11 }

abbrev system : System
system = record {
  opened = true;
  stat = none;
  mtd_info = some mtd;
  sys_size = some 8388608;
  block_size = none;
  ffs = find_first;
}

open_mtd-shifts_example :
    Ends (MtdOpened system mtd default_config) (MtdRefused mtd) (open_mtd system 90 default_config)
open_mtd-shifts_example =
    open_mtd-shifts system mtd default_config find_first-IsFfs (omega arith) (omega arith) refl
