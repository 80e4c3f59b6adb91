-- ===== src/Mkfs/Sizes.antt =====
-- What `mkfs` accepts, and the sizes that follow.
use logfsprogs.Common.{
  ◌+◌, ◌*◌, ◌/◌, ◌%◌, ◌^◌, ◌≤◌, ◌<◌, ◌≡◌, refl, arith, Bool, true, false, not, ◌==◌, ltb, leb,
  Bool-cases, inl, inr, ◌&&◌, ◌≢◌, ap, sym, ◌∙◌,
}
use logfsprogs.Common.Outcome.{
  Ends, Ends-bind, Ends-mono, Returns, Returns-bind, Stop, pure, Cmd, exit, aborting, ◌>>◌,
}
use mathlib.Core.Path.{subst}
use logfsprogs.Kerncompat.{u32_mod, u64_mod}
use logfsprogs.Super.{Super}
use native.Mathlib.Nat.{pow-le-pow_right, div-mul-le_self, lt-div-mul-add}
use logfsprogs.Mkfs.Config.{Config, choose_shifts, check_shifts, set_sizes, ask, configure}

-- The shifts that the program supports.
pub record IsLegal (c : Config) : Type 0 where
  pub block : c.blockshift ≡ 12
  pub above : 12 < c.segshift
  pub below : c.segshift ≤ 30
  pub write : c.writeshift ≤ 16
  pub fits : c.writeshift ≤ c.segshift

-- The answers that the user was asked for were "yes".
abbrev pub Agreed : Config → Bool → Bool → Type 0
Agreed c go_on skip_erase =
    (c.interactive_mode && not go_on ≡ false) × (c.quick_bad_block_scan && not skip_erase ≡ false)

-- `t` is `s` with the sizes of `c` and as many whole segments as the device has.
pub record Sized {D : Type 0} (c : Config) (s t : Super D) : Type 0 where
  pub segsize : t.segsize ≡ 2 ^ c.segshift
  pub blocksize : t.blocksize ≡ 4096
  pub bits : t.blocksize_bits ≡ 12
  pub whole : t.fssize ≡ t.no_segs * t.segsize
  pub within : t.fssize ≤ s.fssize
  pub most : s.fssize < t.fssize + t.segsize
  pub wide : 8192 ≤ t.segsize
  pub frame : t ≡ record s {
    fssize = t.fssize;
    segsize = t.segsize;
    blocksize = t.blocksize;
    blocksize_bits = t.blocksize_bits;
    writesize = t.writesize;
    no_segs = t.no_segs;
  }

check_shifts_lem :
    {S : Type 0} (c : Config) (s : S)
    → Ends (λ _ t. (t ≡ s) × IsLegal c) (λ r. ¬ (IsLegal c)) (check_shifts c s)
unfolding check_shifts
check_shifts_lem c s = elim (Bool-cases (ltb 30 c.segshift)) [
  | inl a ↦ rw a (λ l. absurd (ground (arith, l.below)))
  | inr a ↦ rw a (elim (Bool-cases (leb c.segshift c.blockshift)) [
    | inl b ↦ rw b (λ l. absurd (ground (arith, l.above, l.block)))
    | inr b ↦ rw b (elim (Bool-cases (c.blockshift == 12)) [
      | inr d ↦ rw d (λ l. absurd (ground (arith, l.block)))
      | inl d ↦ rw d (elim (Bool-cases (ltb 16 c.writeshift)) [
        | inl e ↦ rw e (λ l. absurd (ground (arith, l.write)))
        | inr e ↦ rw e (elim (Bool-cases (ltb c.segshift c.writeshift)) [
          | inl f ↦ rw f (λ l. absurd (ground (arith, l.fits)))
          | inr f ↦ rw f (
            refl,
            record {
              block = ground arith;
              above = ground arith;
              below = ground arith;
              write = ground arith;
              fits = ground arith;
            },
          )
        ])
      ])
    ])
  ])
]

set_sizes-Sized :
    {D : Type 0} (c : Config) (s : Super D)
    → IsLegal c
    → s.fssize < u64_mod
    → s.fssize / 2 ^ c.segshift < u32_mod
    → Returns (λ _ t. Sized c s t) (set_sizes c s)
unfolding set_sizes
set_sizes-Sized c s l big fits =
    let p = 2 ^ c.segshift in
    let least : 2 ^ 13 ≤ p =
      pow-le-pow_right {n = 2} (omega arith) {i = 13} {j = c.segshift} (omega (arith, l.above)) in
    let one : s.fssize / p % u32_mod ≡ s.fssize / p = omega arith in
    let low : s.fssize / p * p ≤ s.fssize = div-mul-le_self s.fssize p in
    let high : s.fssize < s.fssize / p * p + p =
      lt-div-mul-add {a = s.fssize} {b = p} (omega arith) in
    let two : s.fssize / p % u32_mod * p % u64_mod ≡ s.fssize / p * p = rw one (omega arith) in
    record {
      segsize = refl;
      blocksize = ap (λ n. 2 ^ n) l.block;
      bits = l.block;
      whole = two ∙ ap (λ n. n * p) (sym one);
      within = omega arith;
      most = omega arith;
      wide = omega arith;
      frame = refl;
    }

-- A question in front of `k`.
asked_lem :
    {S A : Type 0} (asked answer : Bool) (s : S) (bad : Stop → Type 0) (good : A → S → Type 0)
    (k : Cmd S A)
    → ((r : Stop) → (asked && not answer ≢ false) → bad r)
    → ((asked && not answer ≡ false) → Ends good bad (k s))
    → Ends good bad ((ask asked answer >> k) s)
asked_lem false answer s bad good k refuse next = next refl
asked_lem true true s bad good k refuse next = next refl
asked_lem true false s bad good k refuse next =
    refuse (exit aborting) (λ e. absurd (ground (arith, e)))

-- What `mkfs` asks for before it touches the device.
abbrev Accepts : Config → Bool → Bool → Type 0
Accepts c go_on skip_erase = IsLegal (choose_shifts c) × Agreed c go_on skip_erase

questions_lem :
    {D : Type 0} (c : Config) (go_on skip_erase : Bool) (s t : Super D)
    → IsLegal (choose_shifts c)
    → Sized (choose_shifts c) s t
    → Ends
        (λ c' u. (c' ≡ choose_shifts c) × IsLegal c' × Agreed c go_on skip_erase × Sized c' s u)
        (λ r. ¬ (Accepts c go_on skip_erase))
        ((ask c.interactive_mode go_on
            >> (ask c.quick_bad_block_scan skip_erase >> pure (choose_shifts c)))
          t)
questions_lem {D} c go_on skip_erase s t legal sized =
    let bad = λ (r : Stop). ¬ (Accepts c go_on skip_erase) in
    let good = λ (c' : Config) (u : Super D).
      (c' ≡ choose_shifts c) × IsLegal c' × Agreed c go_on skip_erase × Sized c' s u in
    asked_lem c.interactive_mode go_on t bad good _ (λ _ no (l, (x, y)). no x)
      (λ first.
        asked_lem c.quick_bad_block_scan skip_erase t bad good _ (λ _ no (l, (x, y)). no y)
          (λ then_. (refl, legal, (first, then_), sized)))

-- On a device of less than 2 ^ 64 bytes and less than 2 ^ 32 segments, `configure` returns exactly if
-- the shifts are legal and the questions that are asked are answered with "yes". It then gives the
-- configuration with the user's shifts; the segment size is a power of two from 8192 on, the block
-- size 4096, the device is cut to whole segments and loses less than one, and nothing else changes.
pub configure-Sized :
    {D : Type 0} (c : Config) (go_on skip_erase : Bool) (s : Super D)
    → s.fssize < u64_mod
    → s.fssize / 2 ^ (choose_shifts c).segshift < u32_mod
    → Ends
        (λ c' t. (c' ≡ choose_shifts c) × IsLegal c' × Agreed c go_on skip_erase × Sized c' s t)
        (λ r. ¬ (IsLegal (choose_shifts c) × Agreed c go_on skip_erase))
        (configure c go_on skip_erase s)
unfolding configure
configure-Sized {D} c go_on skip_erase s big fits =
    let bad = λ (r : Stop). ¬ (Accepts c go_on skip_erase) in
    let good = λ (c' : Config) (t : Super D).
      (c' ≡ choose_shifts c) × IsLegal c' × Agreed c go_on skip_erase × Sized c' s t in
    Ends-bind (λ (_ : Unit {0}) t. (t ≡ s) × IsLegal (choose_shifts c)) bad good
      (check_shifts (choose_shifts c) s) _
      (Ends-mono (λ (_ : Unit {0}) t. (t ≡ s) × IsLegal (choose_shifts c))
        (λ (_ : Unit {0}) t. (t ≡ s) × IsLegal (choose_shifts c))
        (λ r. ¬ (IsLegal (choose_shifts c))) bad (check_shifts (choose_shifts c) s)
        (check_shifts_lem (choose_shifts c) s) (λ _ t h. h) (λ r h x. h x.0))
      (λ _ t (same, legal).
        Returns-bind (λ _ u. Sized (choose_shifts c) s u) good bad (set_sizes (choose_shifts c) t) _
          (subst (λ x. Returns (λ _ u. Sized (choose_shifts c) s u) (set_sizes (choose_shifts c) x))
            (sym same) (set_sizes-Sized (choose_shifts c) s legal big fits))
          (λ _ u sized. questions_lem c go_on skip_erase s u legal sized))
