-- ===== src/ReadWrite/Bits.antt =====
-- The slot of a block in its indirect block, and the index of that indirect block.
use logfsprogs.Common.{
  ℕ, zero, suc, ◌+◌, ◌*◌, ◌/◌, ◌%◌, ◌^◌, ◌<◌, ◌≡◌, ap, bit_or, arith, ◌↔◌, zero, suc,
}
use logfsprogs.Common.Bits.{mod_split, pow_nine, pow_pos, ones, bit_or-ones}
use native.Mathlib.Numerals.{add-one}
use native.Mathlib.Nat.{
  mul_comm, mul-div_cancel, mul-mod_left, add-zero, pow-suc, div-div-eq-div-mul,
  eq_of_mul-eq-mul_right,
}
use logfsprogs.ReadWrite.{shift_bits, get_bits, bixmask}
use logfsprogs.Super.{Super}
use logfsprogs.Common.Outcome.{ok}

-- Moving a value up and down again within 64 bits keeps its low bits.
shift_low : (x p q : ℕ) → 0 < p → x * p % (q * p) / p ≡ x % q
shift_low x p q h = rw (
  mul_comm q p,
  mod_split (x * p) p q,
  mul-div_cancel x h,
  mul-mod_left x p,
  add-zero (x % q * p),
  mul-div_cancel (x % q) h,
)

-- For a field of 9 bits the three shifts of `__get_bits` are the digit of the block index in base
-- 512 that belongs to the level.
pub get_bits_lem : (bix level : ℕ) → get_bits 12 bix level ≡ bix / 512 ^ level % 512
unfolding get_bits shift_bits
get_bits_lem bix level =
    rw (mul_comm level 9, pow_nine level) (shift_low (bix / 512 ^ level) (2 ^ 55) 512 (omega arith))

-- With blocks of 4096 bytes and up to level 3 the mask is defined, and has 9 bits for each level.
bixmask_lem :
    {D : Type 0} (s : Super D) (level : ℕ)
    → s.blocksize_bits ≡ 12
    → level < 3
    → bixmask (level + 1) s ≡ ok (ones (9 * (level + 1))) s
unfolding bixmask ones
bixmask_lem s zero h lt = simp h
bixmask_lem s (suc zero) h lt = simp h
bixmask_lem s (suc (suc zero)) h lt = simp h
bixmask_lem s (suc (suc (suc level))) h lt = absurd (omega arith)

-- The index of the parent block: two blocks have one parent exactly when they agree above the level.
parent_iff :
    (a b level : ℕ)
    → (bit_or a (ones (9 * (level + 1))) ≡ bit_or b (ones (9 * (level + 1))))
      ↔ (a / 512 ^ (level + 1) ≡ b / 512 ^ (level + 1))
parent_iff a b level =
    rw (bit_or-ones (9 * (level + 1)) a, bit_or-ones (9 * (level + 1)) b, pow_nine (level + 1))
      (
        λ e.
            eq_of_mul-eq-mul_right (512 ^ (level + 1)) (pow_pos (level + 1)) (a / 512 ^ (level + 1))
              (b / 512 ^ (level + 1)) (omega arith),
        λ e. ap (λ t. t * 512 ^ (level + 1) + ones (9 * (level + 1))) e,
      )

pow_up : (a level : ℕ) → a / 512 ^ (level + 1) ≡ a / 512 ^ level / 512
pow_up a level = rw (add-one level, pow-suc, div-div-eq-div-mul)

-- Below level 3, with 4096-byte blocks, `bixmask` gives a mask such that the parent's index and the
-- slot together say which block is meant: two block indices have one parent and one slot exactly
-- when they belong to one block of that level, and the slot is below 512.
pub get_bits-bixmask :
    {D : Type 0} (s : Super D) (level : ℕ)
    → s.blocksize_bits ≡ 12
    → level < 3
    → (mask : ℕ) × (bixmask (level + 1) s ≡ ok mask s)
      × ((a b : ℕ)
          → ((bit_or a mask ≡ bit_or b mask) × (get_bits 12 a level ≡ get_bits 12 b level))
            ↔ (a / 512 ^ level ≡ b / 512 ^ level))
      × ((a : ℕ) → get_bits 12 a level < 512)
get_bits-bixmask s level h lt = (
  ones (9 * (level + 1)),
  bixmask_lem s level h lt,
  λ a b.
      rw (get_bits_lem a level, get_bits_lem b level)
        (
          λ (p, q). omega (arith, (parent_iff a b level).0 p, pow_up a level, pow_up b level),
          λ e. (
            (parent_iff a b level).1 (omega (arith, pow_up a level, pow_up b level)),
            ap (λ t. t % 512) e,
          ),
        ),
  λ a. rw (get_bits_lem a level) (omega arith),
)
