-- ===== src/Sound/Start.antt =====
-- From the opened device to the flush of the segments: the invariant is set up and kept.
use logfsprogs.Common.{
  ℕ, zero, suc, ◌+◌, ◌*◌, ◌/◌, ◌%◌, ◌^◌, ◌≤◌, ◌<◌, ◌≡◌, refl, sym, ap, ◌∙◌, arith, Bool, true,
  false, not, ◌==◌, List, none, some, replicate, length-replicate, get_elem?,
}
use mathlib.Core.Path.{subst}
use mathlib.Core.Option.{some-injective}
use native.Mathlib.Nat.{le-div_iff_mul-le, pow-le-pow_right}
use logfsprogs.Common.Outcome.{
  Cmd, Ends, Ends-bind, Ends-mono, Failure, could_not_erase_superblocks,
  could_not_write_segment_file, could_not_create_root_inode, could_not_write_segments, pure, ◌>>=◌,
  ◌>>◌,
}
use logfsprogs.Common.Keeps.{AnyStop, Safe, Keeps, Safe-bind, Keeps-bind, Keeps-then}
use logfsprogs.Kerncompat.{u32_mod, u64_mod}
use logfsprogs.Super.{Super, Area, Env}
use logfsprogs.Btree.Heap.{Heap}
use logfsprogs.Segment.{flush_segments}
use logfsprogs.Mkfs.Config.{Config, choose_shifts, configure, fail_if}
use logfsprogs.Mkfs.Sizes.{IsLegal, Agreed, Sized, configure-Sized}
use logfsprogs.Mkfs.Open.{Opened}
use logfsprogs.Mkfs.Prepare.{bdev_prepare_sb, prepare_journal}
use logfsprogs.Mkfs.Files.{write_segment_file, write_rootdir}
use logfsprogs.Mkfs.Make.{alloc_entries, make_files}
use logfsprogs.Mkfs.Main.{new_super}
use logfsprogs.Sound.{Sound, Reaches, begin, total}
use logfsprogs.Sound.Making.{
  bdev_prepare_sb-Keeps, prepare_journal-Keeps, write_segment_file-Keeps, write_rootdir-Keeps,
}
use logfsprogs.Sound.Objects.{flush_segments-Keeps}

abbrev pub closed : Area
closed = record { segno = 0; used_bytes = 0; buf = none }

pub all_closed : (k i : ℕ) (a : Area) → get_elem? (replicate k closed) i ≡ some a → a.buf ≡ none
all_closed zero i a h = absurd (cc h)
all_closed (suc k) zero a h = ap (λ x. x.buf) (sym (some-injective closed a h))
all_closed (suc k) (suc i) a h = all_closed k i a h

fail_if-Keeps : {S : Type 0} (P : S → Type 0) (b : Bool) (f : Failure) → Keeps P (fail_if b f)
fail_if-Keeps P true f s p = tt
fail_if-Keeps P false f s p = p

module _ {D : Type 0} (env : Env D) (o : Opened) (heap : Heap) (dev : D) where
  -- The state behind `configure` and the allocation of the entries.
  configured-Sound :
      (c : Config) (t : Super D)
      → IsLegal c
      → Sized c (new_super o heap dev) t
      → o.fssize / 2 ^ c.segshift + 1 < u32_mod
      → Safe (Sound env t.no_segs t.segsize dev) (alloc_entries t)
  unfolding alloc_entries new_super
  configured-Sound c t legal z few =
      let area = ap (λ x. x.area) z.frame in
      let last : t.lastseg ≡ 0 = ap (λ x. x.lastseg) z.frame in
      let count : t.no_segs ≤ o.fssize / 2 ^ c.segshift =
        (le-div_iff_mul-le {k = 2 ^ c.segshift} {x = t.no_segs} {y = o.fssize}
            (omega (arith, z.wide, z.segsize))).1
          (subst (λ q. t.no_segs * q ≤ o.fssize) z.segsize (omega (arith, z.whole, z.within))) in
      let size : 2 ^ c.segshift ≤ 2 ^ 30 =
        pow-le-pow_right {n = 2} (omega arith) {i = c.segshift} {j = 30} legal.below in
      let none_open : (i : ℕ) (a : Area) (b : List ℕ)
          → get_elem? t.area i ≡ some a
          → a.buf ≡ some b
          → ⊥ =
        λ i a b there filled.
          absurd (cc (filled, all_closed 12 i a (ap (λ x. get_elem? x i) (sym area) ∙ there))) in
      record {
        valid = record {
          room = record {
            last = omega arith;
            small = omega arith;
            entries = length-replicate t.no_segs _;
          };
          wide = omega (arith, z.wide, z.blocksize);
          small = omega (arith, z.segsize);
          fits = λ i a b u. absurd (none_open i a b u.there u.filled);
          apart = λ i j a x b d u w ne. absurd (none_open i a b u.there u.filled);
        };
        segs = refl;
        size = refl;
        bytes = ap (λ x. total x.inodes % u64_mod) z.frame ∙ sym (ap (λ x. x.used_bytes) z.frame);
        reach = subst (Reaches env t.no_segs t.segsize dev) (sym (ap (λ x. x.dev) z.frame)) begin;
      }

  -- The commands behind `alloc_entries`.
  abbrev rest : Config → Cmd (Super D) Config
  rest c = do
    ret ← bdev_prepare_sb env
    fail_if (not (ret == 0)) could_not_erase_superblocks
    prepare_journal env c.no_journal_segs
    ret ← write_segment_file env
    fail_if (not (ret == 0)) could_not_write_segment_file
    ret ← write_rootdir env c.compress_rootdir
    fail_if (not (ret == 0)) could_not_create_root_inode
    ret ← flush_segments env
    fail_if (not (ret == 0)) could_not_write_segments
    pure c

  rest-Keeps : (n z : ℕ) (c : Config) → Keeps (Sound env n z dev) (rest c)
  rest-Keeps n z c =
      let P = Sound env n z dev in
      let failing = λ (b : Bool) (f : Failure). fail_if-Keeps P b f in
      Keeps-bind P (bdev_prepare_sb env) _ (bdev_prepare_sb-Keeps env n z dev) (λ r0.
        Keeps-then P (fail_if (not (r0 == 0)) could_not_erase_superblocks) _ (failing _ _) (
          Keeps-then P (prepare_journal env c.no_journal_segs) _
            (prepare_journal-Keeps env n z dev c.no_journal_segs)
            (Keeps-bind P (write_segment_file env) _ (write_segment_file-Keeps env n z dev) (λ r1.
              Keeps-then P (fail_if (not (r1 == 0)) could_not_write_segment_file) _ (failing _ _) (
                Keeps-bind P (write_rootdir env c.compress_rootdir) _
                  (write_rootdir-Keeps env n z dev c.compress_rootdir)
                  (λ r2.
                    Keeps-then P (fail_if (not (r2 == 0)) could_not_create_root_inode) _
                      (failing _ _)
                      (Keeps-bind P (flush_segments env) _ (flush_segments-Keeps env n z dev) (λ r3.
                        Keeps-then P (fail_if (not (r3 == 0)) could_not_write_segments) (pure c)
                          (failing _ _) (λ _ w. w)))))))))

  -- The invariant with the file system's own sizes, which fit into the device.
  pub record Made (t : Super D) : Type 0 where
    pub sound : Sound env t.no_segs t.segsize dev t
    pub within : t.no_segs * t.segsize ≤ o.fssize

  Made-Sound : (n z : ℕ) → n * z ≤ o.fssize → (t : Super D) → Sound env n z dev t → Made t
  Made-Sound n z le t v = record {
    sound =
        subst (λ m. Sound env m t.segsize dev t) (sym v.segs)
          (subst (λ m. Sound env n m dev t) (sym v.size) v);
    within =
        subst (λ m. m * t.segsize ≤ o.fssize) (sym v.segs)
          (subst (λ m. n * m ≤ o.fssize) (sym v.size) le);
  }

  behind_configure :
      (c : Config) (t : Super D)
      → IsLegal c
      → Sized c (new_super o heap dev) t
      → o.fssize / 2 ^ c.segshift + 1 < u32_mod
      → Ends (λ _ u. Made u) AnyStop ((alloc_entries >> rest c) t)
  unfolding new_super
  behind_configure c t legal z few =
      let P = Sound env t.no_segs t.segsize dev in
      let le : t.no_segs * t.segsize ≤ o.fssize = omega (arith, z.whole, z.within) in
      Ends-mono (λ _ u. P u) (λ _ u. Made u) AnyStop AnyStop ((alloc_entries >> rest c) t)
        (Safe-bind P (λ _ u. P u) (alloc_entries t) _ (configured-Sound c t legal z few)
          (λ _ u v. rest-Keeps t.no_segs t.segsize c u v))
        (λ _ u v. Made-Sound t.no_segs t.segsize le u v) (λ r h. h)

  size_few :
      (c : Config)
      → o.fssize < u64_mod
      → o.fssize / 2 ^ (choose_shifts c).segshift + 1 < u32_mod
      → ((new_super o heap dev).fssize < u64_mod)
        × ((new_super o heap dev).fssize / 2 ^ (choose_shifts c).segshift < u32_mod)
  unfolding new_super
  size_few c big few = (big, omega arith)

  -- A block device of less than 2 ^ 64 bytes and less than 2 ^ 32 - 1 segments: when `mkfs` has flushed
  -- the segments, the areas are in order, the bytes of all inodes add up to the file system's count
  -- modulo 2 ^ 64, and the device was changed by erases and writes of whole segments only, each of
  -- them below `no_segs`, all of which lie within the device.
  pub make_files-Made :
      (c : Config) (go_on skip_erase : Bool)
      → o.fssize < u64_mod
      → o.fssize / 2 ^ (choose_shifts c).segshift + 1 < u32_mod
      → Ends
          (λ _ t. Made t)
          AnyStop
          (make_files env (bdev_prepare_sb env) c go_on skip_erase (new_super o heap dev))
  unfolding make_files
  make_files-Made c go_on skip_erase big few =
      let s = new_super o heap dev in
      let fits = size_few c big few in
      let Q = λ (c' : Config) (t : Super D).
        (c' ≡ choose_shifts c) × IsLegal c' × Agreed c go_on skip_erase × Sized c' s t in
      Ends-bind Q AnyStop (λ _ t. Made t) (configure c go_on skip_erase s) _
        (Ends-mono Q Q (λ r. ¬ (IsLegal (choose_shifts c) × Agreed c go_on skip_erase)) AnyStop
          (configure c go_on skip_erase s) (configure-Sized c go_on skip_erase s fits.0 fits.1)
          (λ _ t q. q) (λ r h. tt))
        (λ c' t (e, legal, agreed, sized).
          behind_configure c' t legal sized
            (subst (λ x. o.fssize / 2 ^ x.segshift + 1 < u32_mod) (sym e) few))
