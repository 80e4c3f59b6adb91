-- ===== src/ReadWrite/Height.antt =====
-- The height that `grow_inode` of `readwrite.c` gives an inode, against the number of blocks that a
-- tree of that height reaches.
use logfsprogs.Common.{
  ℕ, zero, suc, ◌+◌, ◌*◌, ◌^◌, ◌≤◌, ◌<◌, ◌≡◌, ◌⊎◌, inl, inr, ap, refl, arith, true, false, ltb,
  ◌==◌, Bool-cases,
}
use native.Mathlib.Nat.{pow-suc, pow-le-pow_right}
use logfsprogs.Common.Bits.{pow_nine, pow_pos}
use logfsprogs.Common.Outcome.{Ends, Ends-mono, Returns, Stop, ok, stop, fault}
use logfsprogs.ReadWrite.{maxbix, grow_height}

-- A tree of height `h` has 512 ^ h leaves: it reaches block `bix`.
abbrev pub Reaches : ℕ → ℕ → Type 0
Reaches h bix = bix < 512 ^ h

-- What the loop leaves: the height `r` from `height` on.
pub record Grown (bix height r : ℕ) : Type 0 where
  pub up : height ≤ r
  pub defined : r < 8
  pub enough : bix ≤ 512 ^ r
  pub least : (k : ℕ) → height ≤ k → k < r → 512 ^ k < bix

-- The loop comes to a shift by 72 or more: the old height is 8 or more, or the index is above 2 ^ 63.
abbrev pub Undefined : ℕ → ℕ → Stop → Type 0
Undefined bix height x = (x ≡ fault) × ((8 ≤ height) ⊎ (512 ^ 7 < bix))

module _ {S : Type 0} (s : S) where
  maxbix_lem : (h : ℕ) → h < 8 → maxbix h s ≡ ok (512 ^ h) s
  unfolding maxbix
  maxbix_lem h lt =
      let defined : ltb (9 * h) 64 ≡ true = ground arith in rw (defined, pow_nine h) refl

  maxbix_fault : (h : ℕ) → 8 ≤ h → maxbix h s ≡ stop fault
  unfolding maxbix
  maxbix_fault h le = let undefined : ltb (9 * h) 64 ≡ false = ground arith in rw undefined refl

  Grown-step :
      (bix height r : ℕ) → 512 ^ height < bix → Grown bix (height + 1) r → Grown bix height r
  Grown-step bix height r more g = record {
    up = omega (arith, g.up);
    defined = g.defined;
    enough = g.enough;
    least = λ k a b. elim (Bool-cases (k == height)) [
      | inl same ↦ let e : k ≡ height = ground arith in rw e more
      | inr other ↦ g.least k (ground arith) b
    ];
  }

  Undefined-step :
      (bix height : ℕ)
      → height < 8
      → 512 ^ height < bix
      → (x : Stop) → Undefined bix (height + 1) x
      → Undefined bix height x
  Undefined-step bix height lt more x (e, inr above) = (e, inr above)
  Undefined-step bix height lt more x (e, inl le) =
      let last : height ≡ 7 = omega arith in
      let w = ap (λ h. 512 ^ h) last in (e, inr (omega arith))

  grow_height_lem :
      (f bix height : ℕ)
      → 0 < f
      → 9 ≤ height + f
      → Ends
          (λ r t. (t ≡ s) × Grown bix height r)
          (Undefined bix height)
          (grow_height f bix height s)
  unfolding grow_height
  grow_height_lem zero bix height some_fuel enough = absurd (omega arith)
  grow_height_lem (suc f) bix height some_fuel enough = elim (Bool-cases (ltb height 8)) [
    | inr high ↦ let le : 8 ≤ height = ground arith in rw (maxbix_fault height le) (refl, inl le)
    | inl low ↦
        let lt : height < 8 = ground arith in
        rw (maxbix_lem height lt) (elim (Bool-cases (ltb (512 ^ height) bix)) [
          | inr done ↦ rw done (
            refl,
            record {
              up = omega arith;
              defined = lt;
              enough = ground arith;
              least = λ k a b. absurd (omega arith);
            },
          )
          | inl more ↦
              let above : 512 ^ height < bix = ground arith in
              rw more (
                Ends-mono (λ r t. (t ≡ s) × Grown bix (height + 1) r)
                  (λ r t. (t ≡ s) × Grown bix height r) (Undefined bix (height + 1))
                  (Undefined bix height) (grow_height f bix (height + 1) s)
                  (grow_height_lem f bix (height + 1) (omega arith) (omega arith))
                  (λ r t (same, g). (same, Grown-step bix height r above g))
                  (Undefined-step bix height lt above))
        ])
  ]

  -- The loop ends, in one of two ways, and changes nothing else. It leaves the least height from the
  -- old one on whose 512 ^ height is at least the index, and that height is below 8. Or it comes to a
  -- shift that C leaves undefined, and then the old height is 8 or more or the index is above 2 ^ 63.
  pub grow_height-Grown :
      (bix height : ℕ)
      → Ends
          (λ r t. (t ≡ s) × Grown bix height r)
          (λ x. (x ≡ fault) × ((8 ≤ height) ⊎ (2 ^ 63 < bix)))
          (grow_height 9 bix height s)
  grow_height-Grown bix height = grow_height_lem 9 bix height (omega arith) (omega arith)

not_lt→le : (a b : ℕ) → ¬ (b < a) → a ≤ b
not_lt→le a b h = omega arith

pow_step : (r k : ℕ) → r < k → 512 ^ r * 512 ≤ 512 ^ k
pow_step r k h = rw (← pow-suc) (pow-le-pow_right {n = 512} (omega arith) {i = suc r} {j = k} h)

too_low_lem :
    (k height r : ℕ) → height ≤ k → Grown (512 ^ k) height r → (r ≡ k) × ¬ (Reaches r (512 ^ k))
too_low_lem k height r le g =
    let up : r ≤ k = not_lt→le r k (λ lt. absurd (omega (arith, g.least k le lt))) in
    let down : k ≤ r =
      not_lt→le k r (λ lt. absurd (omega (arith, g.enough, pow_pos r, pow_step r k lt))) in
    let same : r ≡ k = omega arith in
    (same, λ short. absurd (omega (arith, ap (λ t. 512 ^ t) same)))

-- The loop tests for `>` where a tree of height k holds the blocks below 512 ^ k: for the block with
-- index 512 ^ k, with k below 8, it stops at height k from any height up to k, and that tree does
-- not reach the block.
pub grow_height-too_low :
    {S : Type 0} (s : S) (k height : ℕ)
    → k < 8
    → height ≤ k
    → Returns
        (λ r t. (t ≡ s) × (r ≡ k) × ¬ (Reaches r (512 ^ k)))
        (grow_height 9 (512 ^ k) height s)
grow_height-too_low s k height h le =
    let most : 512 ^ k ≤ 512 ^ 7 =
      pow-le-pow_right {n = 512} (omega arith) {i = k} {j = 7} (omega arith) in
    Ends-mono (λ r t. (t ≡ s) × Grown (512 ^ k) height r)
      (λ r t. (t ≡ s) × (r ≡ k) × ¬ (Reaches r (512 ^ k))) (Undefined (512 ^ k) height) (λ x. ⊥)
      (grow_height 9 (512 ^ k) height s)
      (grow_height_lem s 9 (512 ^ k) height (omega arith) (omega arith))
      (λ r t (same, g). (same, (too_low_lem k height r le g).0, (too_low_lem k height r le g).1))
      (λ x (e, undefined). elim undefined [ inl high ↦ omega arith | inr above ↦ omega arith ])
