-- ===== src/Kerncompat/Bitops.antt =====
-- The bit operations of `kerncompat.h`: bit `nr` of an array of `unsigned long`. An index behind the
-- array is an access outside of it.
use logfsprogs.Common.{
  ℕ, ◌-◌, ◌*◌, ◌/◌, ◌%◌, ◌^◌, bit_and, bit_or, List, ltb, if◌then◌else◌, Option, none, some, length,
  get_or, set,
}
use logfsprogs.Kerncompat.{u64_mod}

-- `sizeof(long) * 8`
abbrev pub bits_per_long : ℕ
bits_per_long = 8 * 8

-- `BITOP_MASK(nr)`: `1UL << (nr % BITS_PER_LONG)`
unfoldable pub bitop_mask : ℕ → ℕ
bitop_mask nr = 2 ^ (nr % bits_per_long)

unfoldable pub bitop_word : ℕ → ℕ
bitop_word nr = nr / bits_per_long

-- `__set_bit`
unfoldable pub set_bit : ℕ → List ℕ → Option (List ℕ)
unfolding bitop_mask bitop_word
set_bit nr addr =
    let p = bitop_word nr in
    if ltb p (length addr)
    then some (set addr p (bit_or (get_or addr p 0) (bitop_mask nr)))
    else none

-- `__clear_bit`
unfoldable pub clear_bit : ℕ → List ℕ → Option (List ℕ)
unfolding bitop_mask bitop_word
clear_bit nr addr =
    let p = bitop_word nr in
    if ltb p (length addr)
    then some (set addr p (bit_and (get_or addr p 0) (u64_mod - 1 - bitop_mask nr)))
    else none

-- `nr & (BITS_PER_LONG - 1)` is the shift.
unfoldable pub test_bit : ℕ → List ℕ → Option ℕ
unfolding bitop_word
test_bit nr addr =
    let p = bitop_word nr in
    if ltb p (length addr)
    then some (bit_and 1 (get_or addr p 0 / 2 ^ bit_and nr (bits_per_long - 1)))
    else none
