-- ===== src/Common/Bits.antt =====
-- Masks of the form 2 ^ k - 1: `&` takes the low bits, `|` fills them with ones.
use Prim.Native.Nat.{
  ℕ, zero, suc, ◌+◌, ◌*◌, ◌/◌, ◌%◌, ◌^◌, ◌≤◌, ◌<◌, min, max, bit_and, bit_or, digits,
  bit_and-bitwise, bit_or-bitwise,
}
use mathlib.Core.Path.{◌≡◌, refl, sym, ap, ◌∙◌}
use native.Mathlib.Nat.{
  mod-add-div', pow-suc, pow-zero, mul-one, div-one, mod-eq-sub-div-mul, div-div-eq-div-mul,
  div-mul-le_self, mul_comm,
}
use native.Mathlib.Omega.{arith}

-- `digits` takes its fuel first; what exceeds the number is not used.
module _ (base : ℕ → ℕ) (op : ℕ → ℕ → ℕ) where
  spare : (n fuel a b : ℕ) → a ≤ n → n ≤ fuel → digits base op fuel a b ≡ digits base op n a b
  spare zero zero zero b le more = refl
  spare zero (suc fuel) zero b le more = refl
  spare zero fuel (suc a) b le more = absurd (omega arith)
  spare (suc n) zero a b le more = absurd (omega arith)
  spare (suc n) (suc fuel) zero b le more = refl
  spare (suc n) (suc fuel) (suc a) b le more =
      let half : suc a / 2 ≤ n = omega arith in
      ap (λ t. t * 2 + op (suc a % 2) (b % 2)) (spare n fuel (suc a / 2) (b / 2) half (omega arith))

  last_digit :
      (a b : ℕ)
      → digits base op (suc a) (suc a) b
        ≡ digits base op (suc a / 2) (suc a / 2) (b / 2) * 2 + op (suc a % 2) (b % 2)
  last_digit a b =
      let le : suc a / 2 ≤ a = omega arith in
      ap (λ t. t * 2 + op (suc a % 2) (b % 2))
        (spare (suc a / 2) a (suc a / 2) (b / 2) (omega arith) le)

pub zero-bit_or : (b : ℕ) → bit_or 0 b ≡ b
zero-bit_or = bit_or-bitwise 0

pub bit_and_step : (x y : ℕ) → bit_and x y ≡ bit_and (x / 2) (y / 2) * 2 + min (x % 2) (y % 2)
bit_and_step zero y = simp bit_and-bitwise (omega arith)
bit_and_step (suc n) y =
    bit_and-bitwise (suc n) y
    ∙ last_digit (λ _. 0) min n y
    ∙ ap (λ t. t * 2 + min (suc n % 2) (y % 2)) (sym (bit_and-bitwise (suc n / 2) (y / 2)))

pub bit_or_step : (x y : ℕ) → bit_or x y ≡ bit_or (x / 2) (y / 2) * 2 + max (x % 2) (y % 2)
bit_or_step zero y = omega (arith, zero-bit_or y, zero-bit_or (y / 2))
bit_or_step (suc n) y =
    bit_or-bitwise (suc n) y
    ∙ last_digit (λ c. c) max n y
    ∙ ap (λ t. t * 2 + max (suc n % 2) (y % 2)) (sym (bit_or-bitwise (suc n / 2) (y / 2)))

-- The numbers up to a bound, since half of a number is below the next.
neutral_up_to : (bound a : ℕ) → a ≤ bound → (bit_and a 0 ≡ 0) × (bit_or a 0 ≡ a)
neutral_up_to bound zero le = (refl, refl)
neutral_up_to zero (suc a) le = absurd (omega arith)
neutral_up_to (suc bound) (suc a) le =
    let rest = neutral_up_to bound (suc a / 2) (omega arith) in
    (omega (arith, bit_and_step (suc a) 0, rest.0), omega (arith, bit_or_step (suc a) 0, rest.1))

pub bit_and-zero : (a : ℕ) → bit_and a 0 ≡ 0
bit_and-zero a = (neutral_up_to a a (omega arith)).0

bit_or-zero : (a : ℕ) → bit_or a 0 ≡ a
bit_or-zero a = (neutral_up_to a a (omega arith)).1

-- The k-bit mask, by recursion.
unfoldable pub ones : ℕ → ℕ
ones zero = 0
ones (suc k) = ones k * 2 + 1

pub ones-pow : (k : ℕ) → ones k + 1 ≡ 2 ^ k
unfolding ones
ones-pow zero = refl
ones-pow (suc k) = simp pow-suc (omega (arith, ones-pow k))

half_odd : (n : ℕ) → (n * 2 + 1) / 2 ≡ n
half_odd n = omega arith

-- The low k + 1 bits are the lowest bit and the low k bits of the rest.
mod_double : (a p : ℕ) → a % (p * 2) ≡ a / 2 % p * 2 + a % 2
mod_double a p = omega (
  arith,
  mod-eq-sub-div-mul a (p * 2),
  mod-eq-sub-div-mul (a / 2) p,
  div-div-eq-div-mul a 2 p,
  div-mul-le_self a (p * 2),
  div-mul-le_self (a / 2) p,
  ap (λ (t : ℕ). t * p * 2) (div-div-eq-div-mul a 2 p ∙ ap (λ (t : ℕ). a / t) (mul_comm 2 p)),
)

pub bit_and-ones : (k a : ℕ) → bit_and a (ones k) ≡ a % 2 ^ k
unfolding ones
bit_and-ones zero a = omega (arith, bit_and-zero a)
bit_and-ones (suc k) a =
    rw
      (
        pow-suc,
        mod_double a (2 ^ k),
        bit_and_step a (ones k * 2 + 1),
        half_odd (ones k),
        bit_and-ones k (a / 2),
      )
      (omega arith)

pub bit_or-ones : (k a : ℕ) → bit_or a (ones k) ≡ a / 2 ^ k * 2 ^ k + ones k
unfolding ones
bit_or-ones zero a = omega (arith, bit_or-zero a)
bit_or-ones (suc k) a =
    rw (pow-suc, bit_or_step a (ones k * 2 + 1), half_odd (ones k), bit_or-ones k (a / 2))
      (omega (
        arith,
        ap (λ (t : ℕ). t * (2 ^ k) * 2)
            (div-div-eq-div-mul a 2 (2 ^ k) ∙ ap (λ (t : ℕ). a / t) (mul_comm 2 (2 ^ k))),
      ))

half_even : (m p : ℕ) → m * (p * 2) / 2 ≡ m * p
half_even m p = omega arith

even_mod : (m p : ℕ) → m * (p * 2) % 2 ≡ 0
even_mod m p = omega arith

-- `&` with a mask whose low k bits are clear drops those bits.
pub bit_and-shifted : (k a m : ℕ) → bit_and a (m * 2 ^ k) ≡ bit_and (a / 2 ^ k) m * 2 ^ k
bit_and-shifted zero a m = simp (pow-zero, mul-one, div-one)
bit_and-shifted (suc k) a m =
    rw
      (
        pow-suc,
        bit_and_step a (m * (2 ^ k * 2)),
        half_even m (2 ^ k),
        bit_and-shifted k (a / 2) m,
        div-div-eq-div-mul a 2 (2 ^ k),
        mul_comm 2 (2 ^ k),
        even_mod m (2 ^ k),
      )
      (omega arith)

-- The remainder by a product, digit by digit.
pub mod_split : (n p q : ℕ) → n % (p * q) ≡ n / p % q * p + n % p
mod_split n p q = omega (
  arith,
  mod-add-div' n (p * q),
  mod-add-div' n p,
  ap (λ (t : ℕ). t * p) (mod-add-div' (n / p) q),
  ap (λ (t : ℕ). t * q * p) (div-div-eq-div-mul n p q),
)

-- The powers of 512, by which a tree of indirect blocks branches.
pub pow_nine : (h : ℕ) → 2 ^ (9 * h) ≡ 512 ^ h
pow_nine zero = refl
pow_nine (suc h) =
    let e : 9 * suc h ≡ suc (suc (suc (suc (suc (suc (suc (suc (suc (9 * h))))))))) = omega arith in
    rw e (simp pow-suc (omega (arith, pow_nine h)))

pub pow_pos : (h : ℕ) → 0 < 512 ^ h
pow_pos zero = omega arith
pow_pos (suc h) = rw pow-suc (omega (arith, pow_pos h))

-- A value in the bits above `k` and one in the bits below.
pub bit_or-shifted : (k x y : ℕ) → y < 2 ^ k → bit_or (x * 2 ^ k) y ≡ x * 2 ^ k + y
bit_or-shifted zero x y lt =
    let none_left : y ≡ 0 = omega arith in
    let one : x * 2 ^ 0 ≡ x = omega arith in rw (none_left, one) (bit_or-zero x ∙ omega arith)
bit_or-shifted (suc k) x y lt =
    let power : 2 ^ suc k ≡ 2 ^ k * 2 = pow-suc 2 k in
    let half : x * (2 ^ k * 2) / 2 ≡ x * 2 ^ k = omega arith in
    let even : x * (2 ^ k * 2) % 2 ≡ 0 = omega arith in
    let small : y / 2 < 2 ^ k = omega arith in
    rw (power, bit_or_step (x * (2 ^ k * 2)) y, half, even, bit_or-shifted k x (y / 2) small)
      (omega arith)
