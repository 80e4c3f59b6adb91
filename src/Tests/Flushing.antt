-- ===== src/Tests/Flushing.antt =====
-- The flush of two open areas among the twelve.
use logfsprogs.Common.{
  ℕ, zero, suc, ◌≤◌, ◌<◌, ◌≡◌, refl, sym, ap, ◌∙◌, arith, List, [], ◌∷◌, none, some, length,
  replicate, get_elem?,
}
use mathlib.Core.Path.{subst}
use mathlib.Core.Option.{some-injective}
use logfsprogs.Common.Outcome.{Returns}
use logfsprogs.Abi.{logfs_no_areas}
use logfsprogs.Super.{Area, Super, Env}
use logfsprogs.Segment.{flush_segments}
use logfsprogs.Segment.Areas.{Open, Fits, IsValid}
use logfsprogs.Segment.Flush.{Flushed, flush_segments-Flushed}
use logfsprogs.Sound.Start.{closed, all_closed}

-- A device that keeps the offsets of the writes.
abbrev env : Env (List ℕ)
env = record {
  crc32 = λ bytes. length bytes;
  dev_write = λ ofs size buf d. (0, ofs ∷ d);
  dev_erase = λ ofs size d. (0, d);
}

abbrev bytes64 : List ℕ
bytes64 = replicate 64 0xff

abbrev open_at : ℕ → Area
open_at i = record { segno = i; used_bytes = 30; buf = some bytes64 }

abbrev areas : List Area
areas = open_at 0 ∷ open_at 1 ∷ replicate 10 closed

abbrev state : Super (List ℕ)
state = record {
  fssize = 256;
  segsize = 64;
  erasesize = 64;
  blocksize = 12;
  blocksize_bits = 12;
  writesize = 1;
  no_segs = 4;
  journal_seg = replicate 16 0;
  used_bytes = 12;
  lastseg = 2;
  area = areas;
  segment_entry = replicate 4 (record { ec_level = 0; valid = 0 });
  sb_ofs1 = 0;
  sb_ofs2 = 0;
  ino_tree = record { node = 0; height = 0 };
  heap = record { cells = λ _. none; pool = [] };
  inodes = [];
  blocks = [];
  dev = [];
}

open_areas :
    (i : ℕ) (a : Area) (b : List ℕ)
    → get_elem? areas i ≡ some a
    → a.buf ≡ some b
    → (i < 2) × (open_at i ≡ a)
open_areas zero a b there filled = (omega arith, some-injective (open_at 0) a there)
open_areas (suc zero) a b there filled = (omega arith, some-injective (open_at 1) a there)
open_areas (suc (suc i)) a b there filled = absurd (cc (filled, all_closed 10 i a there))

Fits-state : (i : ℕ) (a : Area) (b : List ℕ) → Open state i a b → Fits state a b
Fits-state i a b o =
    let (low, same) = open_areas i a b o.there o.filled in
    let content : bytes64 ≡ b = some-injective bytes64 b (ap (λ x. x.buf) same ∙ o.filled) in
    record {
      width = ap length (sym content);
      low = subst (λ x. 24 ≤ x.used_bytes) same (omega arith);
      high = subst (λ x. x.used_bytes ≤ 64) same (omega arith);
      taken = subst (λ x. x.segno < 2) same low;
    }

IsValid-state : IsValid state
IsValid-state = record {
  room = record { last = omega arith; small = omega arith; entries = refl };
  wide = omega arith;
  small = omega arith;
  fits = Fits-state;
  apart = λ i j a c b d o o' ne e. ne (
      ap (λ x. x.segno) (open_areas i a b o.there o.filled).1
      ∙ e
      ∙ sym (ap (λ x. x.segno) (open_areas j c d o'.there o'.filled).1));
}

flush_segments-Flushed_example :
    Returns (Flushed env 0 logfs_no_areas state) (flush_segments env state)
flush_segments-Flushed_example = flush_segments-Flushed env state IsValid-state (omega arith)
