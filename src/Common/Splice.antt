-- ===== src/Common/Splice.antt =====
-- Bytes copied into a buffer: what is read back, and two copies one behind the other.
use logfsprogs.Common.Lists.{
  length, take, drop, splice, length-append, length-take, take-length, drop-length,
}
use Prim.Native.Nat.{ℕ, zero, suc, ◌+◌, ◌≤◌}
use mathlib.Core.Path.{◌≡◌, sym, ap, ◌∙◌}
use mathlib.Core.List.{List, [], ◌∷◌, ◌++◌, append_assoc}
use native.Mathlib.Omega.{arith}

module _ {ℓ} {A : Type ℓ} where
  -- The two parts of an append, by the length of the first.
  pub take-append_eq : (xs ys : List A) (n : ℕ) → n ≡ length xs → take n (xs ++ ys) ≡ xs
  take-append_eq xs ys n h = ap (λ k. take k (xs ++ ys)) h ∙ take-length xs ys

  pub drop-append_eq : (xs ys : List A) (n : ℕ) → n ≡ length xs → drop n (xs ++ ys) ≡ ys
  drop-append_eq xs ys n h = ap (λ k. drop k (xs ++ ys)) h ∙ drop-length xs ys

  pub drop-drop : (m n : ℕ) (xs : List A) → drop n (drop m xs) ≡ drop (m + n) xs
  drop-drop zero n xs = let e : 0 + n ≡ n = omega arith in rw e
  drop-drop (suc m) zero [] = let e : suc m + 0 ≡ suc m = omega arith in rw e
  drop-drop (suc m) (suc n) [] = let e : suc m + suc n ≡ suc (m + suc n) = omega arith in rw e
  drop-drop (suc m) n (x ∷ xs) =
      let e : suc m + n ≡ suc (m + n) = omega arith in rw e (drop-drop m n xs)

  length-take_eq : (n : ℕ) (xs : List A) → n ≤ length xs → n ≡ length (take n xs)
  length-take_eq n xs h = omega (arith, length-take n xs)

  module _ (buf : List A) (ofs : ℕ) (fits : ofs ≤ length buf) where
    -- The bytes in front of a copy are as they were.
    pub take-splice : (src : List A) → take ofs (splice buf ofs src) ≡ take ofs buf
    take-splice src =
        take-append_eq (take ofs buf) (src ++ drop (ofs + length src) buf) ofs
          (length-take_eq ofs buf fits)

    -- The copied bytes are read back.
    pub read-splice : (src : List A) → take (length src) (drop ofs (splice buf ofs src)) ≡ src
    read-splice src =
        ap (take (length src)) (
          drop-append_eq (take ofs buf) (src ++ drop (ofs + length src) buf) ofs
            (length-take_eq ofs buf fits))
        ∙ take-length src (drop (ofs + length src) buf)

    both :
        (src : List A) → splice buf ofs src ≡ (take ofs buf ++ src) ++ drop (ofs + length src) buf
    both src = sym (append_assoc (take ofs buf) src (drop (ofs + length src) buf))

    width : (src : List A) → ofs + length src ≡ length (take ofs buf ++ src)
    width src = omega (arith, length-append (take ofs buf) src, length-take_eq ofs buf fits)

    take-both : (src : List A) → take (ofs + length src) (splice buf ofs src) ≡ take ofs buf ++ src
    take-both src =
        ap (take (ofs + length src)) (both src)
        ∙ take-append_eq (take ofs buf ++ src) (drop (ofs + length src) buf) (ofs + length src)
            (width src)

    -- What stands behind the copy is as it was.
    drop-splice :
        (src : List A) (n : ℕ)
        → drop (ofs + length src + n) (splice buf ofs src) ≡ drop (ofs + length src + n) buf
    drop-splice src n =
        sym (drop-drop (ofs + length src) n (splice buf ofs src))
        ∙ ap (drop n) (
            ap (drop (ofs + length src)) (both src)
            ∙ drop-append_eq (take ofs buf ++ src) (drop (ofs + length src) buf) (ofs + length src)
                (width src))
        ∙ drop-drop (ofs + length src) n buf

    -- Two copies, the second behind the first, are one copy of both.
    pub splice-splice :
        (x y : List A) → splice (splice buf ofs x) (ofs + length x) y ≡ splice buf ofs (x ++ y)
    splice-splice x y =
        let e : ofs + length x + length y ≡ ofs + length (x ++ y) =
          omega (arith, length-append x y) in
        ap (λ t. t ++ (y ++ drop (ofs + length x + length y) (splice buf ofs x))) (take-both x)
        ∙ ap (λ t. (take ofs buf ++ x) ++ (y ++ t))
            (drop-splice x (length y) ∙ ap (λ n. drop n buf) e)
        ∙ append_assoc (take ofs buf) x (y ++ drop (ofs + length (x ++ y)) buf)
        ∙ ap (λ t. take ofs buf ++ t) (sym (append_assoc x y (drop (ofs + length (x ++ y)) buf)))
