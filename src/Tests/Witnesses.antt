-- ===== src/Tests/Witnesses.antt =====
-- The theorems at concrete inputs.
use logfsprogs.Common.{
  ℕ, ◌+◌, ◌-◌, ◌*◌, ◌/◌, ◌^◌, ◌≤◌, ◌<◌, ◌≡◌, ◌⊎◌, refl, arith, true, ◌&&◌, ◌==◌, leb, ltb,
  if◌then◌else◌, List, [], ◌∷◌, none, some, length, replicate, get_or,
}
use logfsprogs.Common.Outcome.{Ends, Returns, ok, fault}
use logfsprogs.Kerncompat.{be, of_be, align}
use logfsprogs.Super.{Area, Super, Env}
use logfsprogs.Segment.{get_segment}
use logfsprogs.Segment.Alloc.{HasRoom, Taken, Exhausted, get_segment-first_good}
use logfsprogs.Common.{bit_or, ◌↔◌}
use logfsprogs.Kerncompat.{u32_mod}
use logfsprogs.Kerncompat.Align.{align_sixteen}
use logfsprogs.Kerncompat.Endian.{of_be-be_fits}
use logfsprogs.ReadWrite.{get_bits, bixmask, grow_height}
use logfsprogs.ReadWrite.Bits.{get_bits-bixmask}
use logfsprogs.ReadWrite.Height.{Reaches, Grown, grow_height-Grown, grow_height-too_low}
use logfsprogs.Mkfs.Device.{Os, wrote, safe_pwrite}
use logfsprogs.Mkfs.Pwrite.{Documented, Written, safe_pwrite-overlay}
use logfsprogs.Mkfs.Config.{default_config, chosen, choose_shifts, configure}
use logfsprogs.Mkfs.Sizes.{IsLegal, Agreed, Sized, configure-Sized}

-- A device that counts the calls and cannot erase its second segment.
abbrev env : Env ℕ
env = record {
  crc32 = λ bytes. length bytes;
  dev_write = λ ofs size buf d. (0, d + 1);
  dev_erase = λ ofs size d. (if ofs == 64 then 5 else 0, d + 1);
}

abbrev bytes64 : List ℕ
bytes64 = replicate 64 0xff

abbrev area0 : Area
area0 = record { segno = 0; used_bytes = 24; buf = some bytes64 }

-- One area, open and empty; its segment is the only one taken.
abbrev state : Super ℕ
state = record {
  fssize = 256;
  segsize = 64;
  erasesize = 64;
  blocksize = 12;
  blocksize_bits = 12;
  writesize = 1;
  no_segs = 4;
  journal_seg = replicate 16 0;
  used_bytes = 0;
  lastseg = 1;
  area = area0 ∷ [];
  segment_entry = replicate 4 (record { ec_level = 0; valid = 0 });
  sb_ofs1 = 0;
  sb_ofs2 = 0;
  ino_tree = record { node = 0; height = 0 };
  heap = record { cells = λ _. none; pool = [] };
  inodes = [];
  blocks = [];
  dev = 0;
}

HasRoom-state : HasRoom state
HasRoom-state = record { last = omega arith; small = omega arith; entries = refl }

-- Segment 1 cannot be erased, so segment 2 is taken.
get_segment-first_good_example :
    Ends (Taken env state) (Exhausted env state) (get_segment env state)
get_segment-first_good_example = get_segment-first_good env state HasRoom-state

payload : List ℕ
payload = 1 ∷ 2 ∷ 3 ∷ []

of_be-be_fits_example : of_be 0 (be 4 0xdead_beef) ≡ 0xdead_beef
of_be-be_fits_example = of_be-be_fits 4 0xdead_beef (omega arith)

align_sixteen_example : align 33 16 ≡ (33 + 15) / 16 * 16
align_sixteen_example = align_sixteen 33 (omega arith)

get_bits-bixmask_example :
    (mask : ℕ) × (bixmask 2 state ≡ ok mask state)
    × ((a b : ℕ)
        → ((bit_or a mask ≡ bit_or b mask) × (get_bits 12 a 1 ≡ get_bits 12 b 1))
          ↔ (a / 512 ^ 1 ≡ b / 512 ^ 1))
    × ((a : ℕ) → get_bits 12 a 1 < 512)
get_bits-bixmask_example = get_bits-bixmask state 1 refl (omega arith)

abbrev no_state : Unit {0}
no_state = tt

grow_height-Grown_example :
    Ends
      (λ r t. (t ≡ no_state) × Grown 513 0 r)
      (λ x. (x ≡ fault) × ((8 ≤ 0) ⊎ (2 ^ 63 < 513)))
      (grow_height 9 513 0 no_state)
grow_height-Grown_example = grow_height-Grown no_state 513 0

grow_height-too_low_example :
    Returns
      (λ r t. (t ≡ no_state) × (r ≡ 2) × ¬ (Reaches r (512 ^ 2)))
      (grow_height 9 (512 ^ 2) 0 no_state)
grow_height-too_low_example = grow_height-too_low no_state 2 0 (omega arith) (omega arith)

-- A file of which each call writes one byte.
abbrev one_byte : Os (ℕ → ℕ)
one_byte = record {
  malloc = λ size. true;
  pwrite = λ buf ofs file.
      (wrote 1, λ q. if leb ofs q && ltb q (ofs + 1) then get_or buf (q - ofs) 0 else file q);
  memerase = λ ofs size file. (0, file);
  memerase64 = λ ofs size file. (0, file);
}

abbrev content : (ℕ → ℕ) → ℕ → ℕ
content file = file

abbrev patience : (ℕ → ℕ) → ℕ
patience file = 0

one_byte-Documented :
    (buf : List ℕ) (ofs : ℕ) (file : ℕ → ℕ)
    → 0 < length buf
    → Documented content patience buf ofs file (one_byte.pwrite buf ofs file)
one_byte-Documented buf ofs file h = (omega arith, omega arith, λ q. refl, omega arith)

safe_pwrite-overlay_example :
    Returns (Written content payload 10 (λ _. 0)) (safe_pwrite one_byte 3 payload 10 (λ _. 0))
unfolding payload
safe_pwrite-overlay_example =
    safe_pwrite-overlay one_byte content patience one_byte-Documented 3 payload 10 (λ _. 0)
      (omega arith) (omega arith)

abbrev device : Super ℕ
device = record state { fssize = 1000000 }

device_fits : device.fssize / 2 ^ (choose_shifts default_config).segshift < u32_mod
unfolding choose_shifts chosen
device_fits = omega arith

configure-Sized_example :
    Ends
      (λ c' t.
        (c' ≡ choose_shifts default_config)
        × IsLegal c'
        × Agreed default_config true true
        × Sized c' device t)
      (λ r. ¬ (IsLegal (choose_shifts default_config) × Agreed default_config true true))
      (configure default_config true true device)
configure-Sized_example = configure-Sized default_config true true device (omega arith) device_fits
