-- ===== src/Common/Keeps.antt =====
-- Invariants of commands: what holds before a command holds after it, if it returns.
use logfsprogs.Common.Outcome.{
  Cmd, Run, Stop, ok, stop, Ends, and_then, pure, halt, Result, value, error, ◌>>=◌, ◌>>◌,
}
use logfsprogs.Common.Tests.{if◌then◌else◌}
use Prim.Native.Nat.{ℕ}
use mathlib.Core.Bool.{Bool, true, false}

-- A run that stops has left the program, and nothing is said of it.
abbrev pub AnyStop : Stop → Type 0
AnyStop r = Unit {0}

module _ {S : Type 0} (P : S → Type 0) where
  -- The run ends in a state in which `P` holds, or stops.
  abbrev pub Safe : {A : Type 0} → Run S A → Type 0
  Safe r = Ends (λ _ t. P t) AnyStop r

  abbrev pub Keeps : {A : Type 0} → Cmd S A → Type 0
  Keeps m = (s : S) → P s → Safe (m s)

  -- The rule for a bind, with what is known of the result.
  pub Safe-bind :
      {A B : Type 0} (Q : A → S → Type 0) (r : Run S A) (k : A → Cmd S B)
      → Ends Q AnyStop r
      → ((a : A) (t : S) → Q a t → Safe (k a t))
      → Safe (and_then r k)
  Safe-bind Q (ok a t) k h next = next a t h
  Safe-bind Q (stop r) k h next = tt

  pub Keeps-bind :
      {A B : Type 0} (m : Cmd S A) (k : A → Cmd S B)
      → Keeps m
      → ((a : A) → Keeps (k a))
      → Keeps (m >>= k)
  Keeps-bind m k h next s p = Safe-bind (λ _ t. P t) (m s) k (h s p) (λ a t q. next a t q)

  pub Keeps-then : {A B : Type 0} (m : Cmd S A) (n : Cmd S B) → Keeps m → Keeps n → Keeps (m >> n)
  Keeps-then m n h next = Keeps-bind m (λ _. n) h (λ _. next)

  pub Keeps-if :
      {A : Type 0} (b : Bool) (m n : Cmd S A) → Keeps m → Keeps n → Keeps (if b then m else n)
  Keeps-if true m n h k = h
  Keeps-if false m n h k = k

  pub Keeps-pure : {A : Type 0} (a : A) → Keeps (pure a)
  Keeps-pure a s p = p

  pub Keeps-halt : (A : Type 0) (r : Stop) → Keeps (halt {A = A} r)
  Keeps-halt A r s p = tt

  pub Keeps-result :
      {A B : Type 0} (f : ℕ → Cmd S B) (g : A → Cmd S B)
      → ((e : ℕ) → Keeps (f e))
      → ((a : A) → Keeps (g a))
      → (r : Result A) → Keeps (elim r [ error e ↦ f e | value a ↦ g a ])
  Keeps-result f g h k (error e) = h e
  Keeps-result f g h k (value a) = k a
