-- ===== src/Kerncompat/Align.antt =====
-- Alignment to 16, the unit of the journal.
use logfsprogs.Common.{ℕ, ◌+◌, ◌*◌, ◌/◌, ◌%◌, ◌<◌, ◌≡◌, arith}
use logfsprogs.Common.Bits.{ones, bit_and-ones, bit_and-shifted}
use logfsprogs.Kerncompat.{u64_mod, align}

-- Where x + 15 is below 2 ^ 64, `ALIGN(x, 16)` is `x` rounded up to a multiple of 16.
pub align_sixteen : (x : ℕ) → x + 15 < u64_mod → align x 16 ≡ (x + 15) / 16 * 16
unfolding align ones
align_sixteen x h = omega (
  arith,
  bit_and-shifted 4 ((x + 15) % u64_mod) (ones 60),
  bit_and-ones 60 ((x + 15) % u64_mod / 16),
)
