-- ===== src/Kerncompat/Endian.antt =====
-- The bytes of a field, and back.
use logfsprogs.Common.{ℕ, zero, suc, ◌+◌, ◌*◌, ◌/◌, ◌%◌, ◌^◌, ◌<◌, ◌≡◌, refl, ap, length, arith}
use native.Mathlib.Nat.{pow-suc, mod-eq_of_lt}
use logfsprogs.Common.Bits.{mod_split}
use logfsprogs.Kerncompat.{be, of_be}

pub length-be : (w n : ℕ) → length (be w n) ≡ w
unfolding be
length-be zero n = refl
length-be (suc w) n = ap suc (length-be w n)

pub of_be-be : (w n acc : ℕ) → of_be acc (be w n) ≡ acc * 256 ^ w + n % 256 ^ w
unfolding be of_be
of_be-be zero n acc = omega arith
of_be-be (suc w) n acc =
    rw (pow-suc, of_be-be w n (acc * 256 + n / 256 ^ w % 256))
      (omega (arith, mod_split n (256 ^ w) 256))

-- What is written as a big-endian field of `w` bytes is read back, if it fits.
pub of_be-be_fits : (w n : ℕ) → n < 256 ^ w → of_be 0 (be w n) ≡ n
of_be-be_fits w n h = omega (arith, of_be-be w n 0, mod-eq_of_lt h)
