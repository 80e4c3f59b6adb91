-- ===== src/Mkfs/Superblocks.antt =====
-- Where `bdev_prepare_sb` puts the two superblocks of a block device.
use logfsprogs.Common.{
  ℕ, zero, suc, ◌+◌, ◌-◌, ◌*◌, ◌%◌, ◌≤◌, ◌<◌, ◌≡◌, inl, inr, refl, sym, ap, ◌∙◌, arith, ◌==◌,
  Bool-cases, length, get_or, set, length-set, get_or-set_self, get_or-set_ne,
}
use logfsprogs.Common.Outcome.{Ends, Ends-bind, Cmd, Errno, get, pure, ◌>>=◌, ◌>>◌}
use mathlib.Core.Path.{subst}
use native.Mathlib.Nat.{mul-le-mul_right}
use logfsprogs.Kerncompat.{u32_mod, u64_mod}
use logfsprogs.Abi.{SegmentEntry}
use logfsprogs.Super.{Super, Env, set_entry}
use logfsprogs.Segment.{get_segment}
use logfsprogs.Segment.Alloc.{Taken, Exhausted, HasRoom, get_segment-first_good}
use logfsprogs.Segment.Closing.{set_entry_lem}
use logfsprogs.Mkfs.Prepare.{reserved_entry, first_superblock, set_ofs1, set_ofs2, bdev_prepare_sb}

-- The state `t` after the preparation, with the first superblock in segment `segno`.
pub record Prepared {D : Type 0} (env : Env D) (s t : Super D) (segno : ℕ) : Type 0 where
  pub between : Super D
  pub taken : Taken env s segno between
  pub first : t.sb_ofs1 ≡ segno * s.segsize
  pub second : t.sb_ofs2 + 0x1000 ≡ (s.no_segs - 1) * s.segsize
  pub first_entry : (d : SegmentEntry) → get_or t.segment_entry segno d ≡ reserved_entry
  pub last_entry : (d : SegmentEntry) → get_or t.segment_entry (s.no_segs - 1) d ≡ reserved_entry
  pub frame :
      t
      ≡ record between { segment_entry = t.segment_entry; sb_ofs1 = t.sb_ofs1; sb_ofs2 = t.sb_ofs2 }

predecessor : (n p : ℕ) → 1 ≤ n → (n - 1) * p + p ≡ n * p
predecessor zero p le = absurd (omega arith)
predecessor (suc n) p le = let e : suc n - 1 ≡ n = omega arith in rw e (omega arith)

module _ {D : Type 0} (env : Env D) where
  abbrev after_first : ℕ → Super D → Super D
  after_first segno u = record u {
    segment_entry = set u.segment_entry segno reserved_entry;
    sb_ofs1 = segno * u.segsize % u64_mod;
  }

  abbrev First : Super D → Super D → Type 0
  First s t = (segno : ℕ) × (u : Super D) × Taken env s segno u × (t ≡ after_first segno u)

  first_superblock_lem :
      (s : Super D) → HasRoom s → Ends (λ _ t. First s t) (Exhausted env s) (first_superblock env s)
  unfolding first_superblock set_ofs1
  first_superblock_lem s v =
      Ends-bind (Taken env s) (Exhausted env s) (λ _ t. First s t) (get_segment env s) _
        (get_segment-first_good env s v)
        (λ segno u taken.
          let lt : segno < length u.segment_entry =
            omega (arith, taken.inside, taken.width, v.entries) in
          let entry = set_entry_lem segno reserved_entry u lt in rw entry (segno, u, taken, refl))

  -- The state at the end.
  abbrev after_second : ℕ → Super D → Super D
  after_second segno u = record (after_first segno u) {
    segment_entry = set (set u.segment_entry segno reserved_entry) (u.no_segs - 1) reserved_entry;
    sb_ofs2 = ((u.no_segs - 1) * u.segsize + u64_mod - 0x1000) % u64_mod;
  }

  after_second-Prepared :
      (s : Super D)
      → HasRoom s
      → 2 ≤ s.no_segs
      → 0x1000 ≤ s.segsize
      → s.no_segs * s.segsize < u64_mod
      → (segno : ℕ) (u : Super D) → Taken env s segno u
      → Prepared env s (after_second segno u) segno
  after_second-Prepared s v two page fits segno u taken =
      let n : u.no_segs ≡ s.no_segs = ap (λ x. x.no_segs) taken.frame in
      let z : u.segsize ≡ s.segsize = ap (λ x. x.segsize) taken.frame in
      let width = length-set u.segment_entry segno reserved_entry in
      let inner : segno * s.segsize ≤ s.no_segs * s.segsize =
        mul-le-mul_right s.segsize (omega (arith, taken.inside)) in
      let outer : (s.no_segs - 1) * s.segsize + s.segsize ≡ s.no_segs * s.segsize =
        predecessor s.no_segs s.segsize (omega arith) in
      let more : 1 * s.segsize ≤ (s.no_segs - 1) * s.segsize =
        mul-le-mul_right s.segsize (omega arith) in
      record {
        between = u;
        taken = taken;
        first = rw z (omega arith);
        second = rw (z, n) (omega arith);
        first_entry = λ d. elim (Bool-cases (u.no_segs - 1 == segno)) [
          | inl one ↦
              let e : u.no_segs - 1 ≡ segno = ground arith in
              rw e (
                get_or-set_self (set u.segment_entry segno reserved_entry) segno reserved_entry d
                  (omega (arith, taken.inside, taken.width, v.entries)))
          | inr two_segs ↦
              get_or-set_ne (set u.segment_entry segno reserved_entry) (u.no_segs - 1) segno
                reserved_entry d (ground arith)
              ∙ get_or-set_self u.segment_entry segno reserved_entry d
                  (omega (arith, taken.inside, taken.width, v.entries))
        ];
        last_entry = λ d.
            let e : u.no_segs - 1 ≡ s.no_segs - 1 = omega arith in
            rw e (
              get_or-set_self (set u.segment_entry segno reserved_entry) (s.no_segs - 1)
                reserved_entry d (omega (arith, taken.width, v.entries)));
        frame = refl;
      }

  -- What follows the first superblock.
  abbrev second_superblock : Cmd (Super D) Errno
  second_superblock = do
    s ← get
    set_entry ((s.no_segs + u32_mod - 1) % u32_mod) reserved_entry
    set_ofs2 ((s.no_segs + u32_mod - 1) % u32_mod * s.segsize + u64_mod - 0x1000)
    pure 0

  -- Where `get_segment` has room as in `HasRoom`, with at least two segments of at least 4096 bytes
  -- and less than 2 ^ 64 bytes in all: `bdev_prepare_sb` returns 0, or fails as `get_segment` does.
  -- If it returns, the first superblock is at the start of the segment that `get_segment` gave, the
  -- second one 4096 bytes in front of the last segment, so not in it, the entries of the first one's
  -- segment and of the last segment are reserved, and the rest is as `get_segment` left it.
  pub bdev_prepare_sb-Prepared :
      (s : Super D)
      → HasRoom s
      → 2 ≤ s.no_segs
      → 0x1000 ≤ s.segsize
      → s.no_segs * s.segsize < u64_mod
      → Ends
          (λ e t. (e ≡ 0) × ((segno : ℕ) × Prepared env s t segno))
          (Exhausted env s)
          (bdev_prepare_sb env s)
  unfolding bdev_prepare_sb set_ofs2
  bdev_prepare_sb-Prepared s v two page fits =
      Ends-bind (λ _ t. First s t) (Exhausted env s)
        (λ e t. (e ≡ 0) × ((segno : ℕ) × Prepared env s t segno)) (first_superblock env s) _
        (first_superblock_lem s v)
        (λ _ t (segno, u, taken, same).
          let n : u.no_segs ≡ s.no_segs = ap (λ x. x.no_segs) taken.frame in
          let last : (u.no_segs + u32_mod - 1) % u32_mod ≡ u.no_segs - 1 = omega (arith, v.small) in
          let entry = set_entry_lem (u.no_segs - 1) reserved_entry (after_first segno u) (
            omega
              (arith, length-set u.segment_entry segno reserved_entry, taken.width, v.entries)) in
          subst
            (λ x.
              Ends (λ e w. (e ≡ 0) × ((n : ℕ) × Prepared env s w n)) (Exhausted env s)
                (second_superblock x))
            (sym same)
            (rw (last, entry)
              (refl, (segno, after_second-Prepared s v two page fits segno u taken))))
