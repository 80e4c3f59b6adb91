-- ===== src/Tests/Making.antt =====
-- The theorems on the making of a file system at concrete inputs.
use logfsprogs.Common.{
  ℕ, zero, suc, ◌+◌, ◌*◌, ◌/◌, ◌%◌, ◌<◌, ◌≡◌, refl, arith, List, [], ◌∷◌, none, length, replicate,
  get_or, if◌then◌else◌, ◌==◌,
}
use logfsprogs.Common.Outcome.{Ends}
use logfsprogs.Kerncompat.{u32_mod}
use logfsprogs.Abi.{SegmentEntry}
use logfsprogs.Super.{Super, Env}
use logfsprogs.Segment.Alloc.{HasRoom, Exhausted}
use logfsprogs.Mkfs.Entries.{alias_loop}
use logfsprogs.Mkfs.Aliases.{read_alias, no_entry, entry_word, alias_loop-entry_word}
use logfsprogs.Mkfs.Prepare.{bdev_prepare_sb, prepare_journal}
use logfsprogs.Segment.Closing.{NoMore}
use logfsprogs.Mkfs.Reserve.{Reserved, prepare_journal-Reserved}
use logfsprogs.Mkfs.Superblocks.{Prepared, bdev_prepare_sb-Prepared}

-- A device whose first segment cannot be erased.
abbrev env : Env ℕ
env = record {
  crc32 = λ bytes. length bytes;
  dev_write = λ ofs size buf d. (0, d + 1);
  dev_erase = λ ofs size d. (if ofs == 0 then 5 else 0, d + 1);
}

abbrev device : Super ℕ
device = record {
  fssize = 4 * 8192;
  segsize = 8192;
  erasesize = 8192;
  blocksize = 4096;
  blocksize_bits = 12;
  writesize = 1;
  no_segs = 4;
  journal_seg = replicate 16 0;
  used_bytes = 0;
  lastseg = 0;
  area = replicate 12 (record { segno = 0; used_bytes = 0; buf = none });
  segment_entry = replicate 4 no_entry;
  sb_ofs1 = 0;
  sb_ofs2 = 0;
  ino_tree = record { node = 0; height = 0 };
  heap = record { cells = λ _. none; pool = [] };
  inodes = [];
  blocks = [];
  dev = 0;
}

HasRoom-device : HasRoom device
HasRoom-device = record { last = omega arith; small = omega arith; entries = refl }

bdev_prepare_sb-Prepared_example :
    Ends
      (λ e t. (e ≡ 0) × ((segno : ℕ) × Prepared env device t segno))
      (Exhausted env device)
      (bdev_prepare_sb env device)
bdev_prepare_sb-Prepared_example =
    bdev_prepare_sb-Prepared env device HasRoom-device (omega arith) (omega arith) (omega arith)

prepare_journal-Reserved_example :
    Ends (λ _ t. Reserved 0 2 device t) NoMore (prepare_journal env 2 device)
prepare_journal-Reserved_example =
    prepare_journal-Reserved env 2 device HasRoom-device (omega arith)

abbrev entries : List SegmentEntry
entries =
    record { ec_level = 16; valid = 0xffff_ffff }
    ∷ no_entry
    ∷ record { ec_level = 17; valid = 4124 }
    ∷ []

valid_fits : (q : ℕ) → (get_or entries q no_entry).valid < u32_mod
valid_fits zero = omega arith
valid_fits (suc zero) = omega arith
valid_fits (suc (suc zero)) = omega arith
valid_fits (suc (suc (suc q))) = omega arith

alias_loop-entry_word_example :
    read_alias (alias_loop 9 0 entries) (2 / 512) (2 % 512) ≡ entry_word entries 2
alias_loop-entry_word_example = alias_loop-entry_word entries 2 valid_fits
