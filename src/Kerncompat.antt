-- ===== src/Kerncompat.antt =====
-- `kerncompat.h`: alignment and big-endian fields. A `__be` field of a structure is modelled by the
-- number that it stands for; `be` gives its bytes in memory, which `cpu_to_be16`, `cpu_to_be32` and
-- `cpu_to_be64` produce.
pub mod Align
pub mod Endian
pub mod Bitops
use logfsprogs.Common.{ℕ, zero, suc, ◌+◌, ◌-◌, ◌*◌, ◌/◌, ◌%◌, ◌^◌, bit_and, List, [], ◌∷◌}

abbrev pub u8_mod : ℕ
u8_mod = 2 ^ 8

abbrev pub u16_mod : ℕ
u16_mod = 2 ^ 16

abbrev pub u32_mod : ℕ
u32_mod = 2 ^ 32

abbrev pub u64_mod : ℕ
u64_mod = 2 ^ 64

-- `ALIGN(x, a)` for a 64-bit `x`: `(x + (a - 1)) & ~(a - 1)`
unfoldable pub align : ℕ → ℕ → ℕ
align x a = bit_and ((x + (a - 1)) % u64_mod) (u64_mod - 1 - (a - 1))

-- The `w` bytes of a big-endian field.
unfoldable pub be : ℕ → ℕ → List ℕ
be zero n = []
be (suc w) n = n / 256 ^ w % 256 ∷ be w n

abbrev pub be16 : ℕ → List ℕ
be16 n = be 2 n

abbrev pub be32 : ℕ → List ℕ
be32 n = be 4 n

abbrev pub be64 : ℕ → List ℕ
be64 n = be 8 n

-- `be16_to_cpu`, `be32_to_cpu`, `be64_to_cpu`: the number that bytes stand for.
unfoldable pub of_be : ℕ → List ℕ → ℕ
of_be acc [] = acc
of_be acc (b ∷ bs) = of_be (acc * 256 + b) bs
