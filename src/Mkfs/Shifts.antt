-- ===== src/Mkfs/Shifts.antt =====
-- What the opening of an MTD device leaves in the configuration, and when it fails.
use logfsprogs.Common.{
  ℕ, zero, suc, ◌+◌, ◌-◌, ◌*◌, ◌%◌, ◌^◌, ◌≤◌, ◌<◌, ◌≡◌, ◌⊎◌, inl, inr, refl, sym, ap, ◌∙◌, arith,
  true, ◌==◌, ltb, Bool-cases, none, some,
}
use mathlib.Core.Path.{subst}
use native.Mathlib.Nat.{pow-suc, pow-le-pow_right, mul_assoc, mul-mod_right, mod-eq_of_lt}
use logfsprogs.Common.Outcome.{
  Ends, Stop, ok, stop, exit, fault, Failure, erasesize_not_power_of_2, writesize_not_power_of_2,
}
use logfsprogs.Kerncompat.{u8_mod, u32_mod}
use logfsprogs.Mkfs.Config.{Config}
use logfsprogs.Mkfs.Open.{
  System, MtdInfo, Opened, mtd_size, size_shift, set_segshift, set_writeshift, open_mtd,
}

-- `ffs` of the C library on 32 bits: 0 for 0, else the place of the lowest bit that is set, from 1 on.
pub record IsFfs (ffs : ℕ → ℕ) : Type 0 where
  pub zero_bits : ffs 0 ≡ 0
  pub some_bit : (n : ℕ) → 0 < n → n < u32_mod → 0 < ffs n
  pub width : (n : ℕ) → n < u32_mod → ffs n ≤ 32
  pub lowest : (n : ℕ) → 0 < n → n < u32_mod → n % 2 ^ ffs n ≡ 2 ^ (ffs n - 1)

abbrev pub IsPower : ℕ → Type 0
IsPower n = (k : ℕ) × (n ≡ 2 ^ k)

pub two_pos : (h : ℕ) → 0 < 2 ^ h
two_pos zero = omega arith
two_pos (suc h) = rw pow-suc (omega (arith, two_pos h))

pow_sum : (f j : ℕ) → 2 ^ (f + j) ≡ 2 ^ f * 2 ^ j
pow_sum f zero = let e : f + 0 ≡ f = omega arith in rw e (omega arith)
pow_sum f (suc j) =
    let e : f + suc j ≡ suc (f + j) = omega arith in
    rw (e, pow-suc 2 (f + j), pow-suc 2 j, pow_sum f j) (mul_assoc (2 ^ f) (2 ^ j) 2)

-- The lowest bit of a power of two is the only one.
only_bit : (k f : ℕ) → 2 ^ k % 2 ^ f ≡ 2 ^ (f - 1) → 2 ^ k ≡ 2 ^ (f - 1)
only_bit k f law = elim (Bool-cases (ltb k f)) [
  | inl low ↦
      let up = pow-le-pow_right {n = 2} (omega arith) {i = suc k} {j = f} (ground arith) in
      let double = pow-suc 2 k in
      let some = two_pos k in
      let less : 2 ^ k < 2 ^ f = omega arith in sym (mod-eq_of_lt less) ∙ law
  | inr high ↦
      let le : f ≤ k = ground arith in
      let e : k ≡ f + (k - f) = omega arith in
      let none_left : 2 ^ k % 2 ^ f ≡ 0 =
        ap (λ x. 2 ^ x % 2 ^ f) e
        ∙ ap (λ x. x % 2 ^ f) (pow_sum f (k - f))
        ∙ mul-mod_right (2 ^ f) (2 ^ (k - f)) in
      let some = two_pos (f - 1) in absurd (omega arith)
]

-- A size that is 0, or whose lowest bit is the sign of an `int`: `1 << shift` is undefined.
abbrev pub NoShift : ℕ → Type 0
NoShift n = (n ≡ 0) ⊎ (n ≡ 2 ^ 31)

abbrev NoShiftOf : ℕ → Failure → Stop → Type 0
NoShiftOf n failure x = ((x ≡ exit failure) × ¬ (IsPower n)) ⊎ ((x ≡ fault) × NoShift n)

size_shift_cases :
    (sys : System) (n : ℕ) (failure : Failure) (c : Config)
    → IsFfs sys.ffs
    → n < u32_mod
    → ((a : ℕ) × (n ≡ 2 ^ a) × (a ≤ 30) × (size_shift sys n failure c ≡ ok a c))
      ⊎ ((x : Stop) × NoShiftOf n failure x × (size_shift sys n failure c ≡ stop x))
unfolding size_shift
size_shift_cases sys n failure c law width = elim (Bool-cases (n == 0)) [
  | inl empty ↦
      let e : n ≡ 0 = ground arith in
      let z : sys.ffs n ≡ 0 = ap sys.ffs e ∙ law.zero_bits in
      inr (fault, inr (refl, inl e), rw z refl)
  | inr some_bits ↦
      let pos : 0 < n = ground arith in
      let place = law.some_bit n pos width in
      let most = law.width n width in
      let low = law.lowest n pos width in
      let shift : (sys.ffs n + u8_mod - 1) % u8_mod ≡ sys.ffs n - 1 = omega arith in
      elim (Bool-cases (ltb 30 (sys.ffs n - 1))) [
        | inl high ↦
            let last : sys.ffs n ≡ 32 = ground arith in
            let w : n % 2 ^ 32 ≡ 2 ^ 31 =
              sym (ap (λ f. n % 2 ^ f) last) ∙ low ∙ ap (λ f. 2 ^ (f - 1)) last in
            inr (fault, inr (refl, inr (omega arith)), rw (shift, high) refl)
        | inr fits ↦ elim (Bool-cases (n == 2 ^ (sys.ffs n - 1))) [
          | inl same ↦ inl (sys.ffs n - 1, ground arith, ground arith, rw (shift, fits, same) refl)
          | inr other ↦ inr (
            exit failure,
            inl (
              refl,
              λ (k, e).
                  let w = only_bit k (sys.ffs n) (ap (λ x. x % 2 ^ sys.ffs n) (sym e) ∙ low) in
                  let whole : n ≡ 2 ^ (sys.ffs n - 1) = e ∙ w in absurd (ground (arith, whole)),
            ),
            rw (shift, fits, other) refl,
          )
        ]
      ]
]

-- The device is opened: the shifts are the logarithms of its sizes, its size is the one that the
-- newer interface gives, or that of the older one where there is no newer, and nothing else of the
-- configuration changes.
pub record MtdOpened (sys : System) (mtd : MtdInfo) (c : Config) (o : Opened) (c' : Config)
    : Type 0 where
  pub erase_shift : ℕ
  pub write_shift : ℕ
  pub erase : mtd.erasesize ≡ 2 ^ erase_shift
  pub write : mtd.writesize ≡ 2 ^ write_shift
  pub small : (erase_shift ≤ 30) × (write_shift ≤ 30)
  pub config : c' ≡ record c { segshift = erase_shift; writeshift = write_shift }
  pub kind : o.is_mtd ≡ true
  pub erasesize : o.erasesize ≡ mtd.erasesize
  pub newer : (n : ℕ) → sys.sys_size ≡ some n → o.fssize ≡ n
  pub older : sys.sys_size ≡ none → o.fssize ≡ mtd.size

-- The reasons for which the opening fails.
abbrev pub MtdRefused : MtdInfo → Stop → Type 0
MtdRefused mtd x =
    ((x ≡ exit erasesize_not_power_of_2) × ¬ (IsPower mtd.erasesize))
    ⊎ ((x ≡ exit writesize_not_power_of_2) × IsPower mtd.erasesize × ¬ (IsPower mtd.writesize))
    ⊎ ((x ≡ fault) × (NoShift mtd.erasesize ⊎ NoShift mtd.writesize))

sizes_lem :
    (sys : System) (mtd : MtdInfo) (c : Config) (a b : ℕ)
    → mtd.erasesize ≡ 2 ^ a
    → mtd.writesize ≡ 2 ^ b
    → a ≤ 30
    → b ≤ 30
    → MtdOpened sys mtd c
        (record {
          is_mtd = true;
          erasesize = mtd.erasesize;
          fssize = mtd_size sys.sys_size mtd.size;
        })
        (record c { segshift = a; writeshift = b })
sizes_lem sys mtd c a b erase write small small' = record {
  erase_shift = a;
  write_shift = b;
  erase = erase;
  write = write;
  small = (small, small');
  config = refl;
  kind = refl;
  erasesize = refl;
  newer = λ n e. ap (λ o. mtd_size o mtd.size) e;
  older = λ e. ap (λ o. mtd_size o mtd.size) e;
}

-- For an MTD device whose erase and write sizes are 32-bit numbers, with `ffs` as the C library
-- has it, `open_mtd` ends in one of these ways. It opens the device, if both sizes are powers of two
-- up to 2 ^ 30; the shifts become their logarithms, the size is that of the newer interface if there
-- is one and else that of the older, and nothing else of the configuration changes. Or it fails with
-- the message for the first of the two sizes that is no power of two. Or the shift that it tests a
-- size with is undefined, and then one of the sizes is 0 or 2 ^ 31.
pub open_mtd-shifts :
    (sys : System) (mtd : MtdInfo) (c : Config)
    → IsFfs sys.ffs
    → mtd.erasesize < u32_mod
    → mtd.writesize < u32_mod
    → sys.mtd_info ≡ some mtd
    → Ends (MtdOpened sys mtd c) (MtdRefused mtd) (open_mtd sys 90 c)
unfolding open_mtd set_segshift set_writeshift
open_mtd-shifts sys mtd c law erase_width write_width info =
    elim (size_shift_cases sys mtd.erasesize erasesize_not_power_of_2 c law erase_width) [
      | inr (x, why, run) ↦
          rw (info, run)
            (elim why [
              | inl (e, none_such) ↦ inl (e, none_such)
              | inr (e, bad) ↦ inr (inr (e, inl bad))
            ])
      | inl (a, erase, small, run) ↦
          elim (size_shift_cases sys mtd.writesize writesize_not_power_of_2
            (record c { segshift = a }) law write_width) [
              | inr (x, why, run') ↦
                  rw (info, run, run')
                    (elim why [
                      | inl (e, none_such) ↦ inr (inl (e, (a, erase), none_such))
                      | inr (e, bad) ↦ inr (inr (e, inr bad))
                    ])
              | inl (b, write, small', run') ↦
                  let opened : open_mtd sys 90 c
                      ≡ ok
                          (record {
                            is_mtd = true;
                            erasesize = mtd.erasesize;
                            fssize = mtd_size sys.sys_size mtd.size;
                          })
                          (record c { segshift = a; writeshift = b }) =
                    rw (info, run, run') refl in
                  subst (Ends (MtdOpened sys mtd c) (MtdRefused mtd)) (sym opened)
                    (sizes_lem sys mtd c a b erase write small small')
            ]
    ]
