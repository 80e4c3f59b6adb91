-- ===== src/Sound.antt =====
-- What holds of the program's state between operations, from the preparation of the device to the
-- journal: the areas are in order, the bytes of the inodes add up to the file system's count, and
-- the device was only changed by erases and writes of whole segments of the file system.
pub mod Inodes
pub mod Segments
pub mod Objects
pub mod Writing
pub mod Making
pub mod Start
use logfsprogs.Common.{
  ℕ, zero, suc, ◌+◌, ◌-◌, ◌*◌, ◌%◌, ◌≤◌, ◌<◌, ◌≡◌, refl, sym, ap, ◌∙◌, arith, List, [], ◌∷◌, ◌++◌,
  none, some, length, set, get_elem?,
}
use mathlib.Core.Path.{subst}
use logfsprogs.Kerncompat.{u64_mod}
use logfsprogs.Super.{Super, Env, Inode, zero_inode}
use logfsprogs.Segment.Alloc.{HasRoom}
use logfsprogs.Segment.Areas.{Fits, Open, IsValid}

-- The device states that can be reached from `d0` by erasing and writing segments below `n`, each of
-- `z` bytes.
pub data Reaches {D : Type 0} (env : Env D) (n z : ℕ) (d0 : D) : D → Type 0 where
  begin : Reaches env n z d0 d0
  written :
      (d : D)
      → Reaches env n z d0 d
      → (segno : ℕ) → segno < n
      → (b : List ℕ) → length b ≡ z
      → Reaches env n z d0 (env.dev_write (segno * z % u64_mod) z b d).1
  erased :
      (d : D)
      → Reaches env n z d0 d
      → (segno : ℕ) → segno < n
      → Reaches env n z d0 (env.dev_erase (segno * z % u64_mod) z d).1

-- The sum of `di_used_bytes`.
abbrev pub total : List Inode → ℕ
total [] = 0
total (x ∷ xs) = x.di.di_used_bytes + total xs

pub total-append : (xs ys : List Inode) → total (xs ++ ys) ≡ total xs + total ys
total-append [] ys = omega arith
total-append (x ∷ xs) ys = omega (arith, total-append xs ys)

pub total-set :
    (xs : List Inode) (i : ℕ) (x y : Inode)
    → get_elem? xs i ≡ some x
    → total (set xs i y) + x.di.di_used_bytes ≡ total xs + y.di.di_used_bytes
total-set [] i x y h = cc
total-set (w ∷ xs) zero x y h =
    let same : w ≡ x = cc h in omega (arith, ap (λ v. v.di.di_used_bytes) same)
total-set (w ∷ xs) (suc i) x y h = omega (arith, total-set xs i x y h)

-- The part of the state that the areas depend on.
abbrev pub core : {D : Type 0} → Super D → Super (Unit {0})
core s = record {
  fssize = 0;
  segsize = s.segsize;
  erasesize = 0;
  blocksize = s.blocksize;
  blocksize_bits = 0;
  writesize = 0;
  no_segs = s.no_segs;
  journal_seg = [];
  used_bytes = 0;
  lastseg = s.lastseg;
  area = s.area;
  segment_entry = s.segment_entry;
  sb_ofs1 = 0;
  sb_ofs2 = 0;
  ino_tree = record { node = 0; height = 0 };
  heap = record { cells = λ _. none; pool = [] };
  inodes = [];
  blocks = [];
  dev = tt;
}

module _ {D : Type 0} (s : Super D) where
  pub core-IsValid : IsValid s → IsValid (core s)
  core-IsValid v = record {
    room = record { last = v.room.last; small = v.room.small; entries = v.room.entries };
    wide = v.wide;
    small = v.small;
    fits = λ i a b o.
        let f = v.fits i a b (record { there = o.there; filled = o.filled }) in
        record { width = f.width; low = f.low; high = f.high; taken = f.taken };
    apart = λ i j a c b d o u.
        v.apart i j a c b d (record { there = o.there; filled = o.filled })
          (record { there = u.there; filled = u.filled });
  }

  pub IsValid-of_core : IsValid (core s) → IsValid s
  IsValid-of_core v = record {
    room = record { last = v.room.last; small = v.room.small; entries = v.room.entries };
    wide = v.wide;
    small = v.small;
    fits = λ i a b o.
        let f = v.fits i a b (record { there = o.there; filled = o.filled }) in
        record { width = f.width; low = f.low; high = f.high; taken = f.taken };
    apart = λ i j a c b d o u.
        v.apart i j a c b d (record { there = o.there; filled = o.filled })
          (record { there = u.there; filled = u.filled });
  }

-- The invariant, for a file system of `n` segments of `z` bytes on a device that was in state `d0`.
pub record Sound {D : Type 0} (env : Env D) (n z : ℕ) (d0 : D) (s : Super D) : Type 0 where
  pub valid : IsValid (core s)
  pub segs : s.no_segs ≡ n
  pub size : s.segsize ≡ z
  pub bytes : total s.inodes % u64_mod ≡ s.used_bytes
  pub reach : Reaches env n z d0 s.dev

-- A change of fields that the invariant does not read, or only through the sum.
pub Sound-same :
    {D : Type 0} (env : Env D) (n z : ℕ) (d0 : D) (s t : Super D)
    → Sound env n z d0 s
    → core t ≡ core s
    → total t.inodes % u64_mod ≡ t.used_bytes
    → t.dev ≡ s.dev
    → Sound env n z d0 t
Sound-same env n z d0 s t v same bytes dev = record {
  valid = subst IsValid (sym same) v.valid;
  segs = ap (λ c. c.no_segs) same ∙ v.segs;
  size = ap (λ c. c.segsize) same ∙ v.size;
  bytes = bytes;
  reach = subst (Reaches env n z d0) (sym dev) v.reach;
}
