-- ===== src/Common/Outcome.antt =====
-- How a run of the program can end, and commands over a state.
use Prim.Native.Nat.{ℕ}

-- The messages with which `fail` is called (`lib.c`, `segment.c`, `mkfs.c`).
pub data Failure : Type 0 where
  no_more_free_segments : Failure
  segment_shift_too_large : Failure
  segment_shift_not_above_block_shift : Failure
  blockshift_must_be_12 : Failure
  writeshift_too_large : Failure
  segment_shift_below_write_shift : Failure
  aborting : Failure
  out_of_memory : Failure
  could_not_erase_superblocks : Failure
  could_not_write_segment_file : Failure
  could_not_create_root_inode : Failure
  could_not_write_segments : Failure
  could_not_create_journal : Failure
  could_not_create_superblock : Failure
  crc32_bad : Failure
  could_not_open_device : Failure
  could_not_stat_device : Failure
  wrong_device_type : Failure
  not_mtd_device : Failure
  mtd_ioctl_failed : Failure
  erasesize_not_power_of_2 : Failure
  writesize_not_power_of_2 : Failure
  block_ioctl_failed : Failure
  unknown_option : Failure
  usage : Failure

-- `exit` is a call of `fail`, or of `usage` and `exit(EXIT_FAILURE)`, `help` one of `usage` and
-- `exit(EXIT_SUCCESS)`, `abort` one of `BUG`, `fault` an access outside of the memory that
-- the program owns or a shift that C leaves undefined.
pub data Stop : Type 0 where
  exit : Failure → Stop
  help : Stop
  abort : Stop
  fault : Stop
  out_of_fuel : Stop

pub data Run (S A : Type 0) : Type 0 where
  ok : A → S → Run S A
  stop : Stop → Run S A

abbrev pub Cmd : Type 0 → Type 0 → Type 0
Cmd S A = S → Run S A

abbrev pub pure : {S A : Type 0} → A → Cmd S A
pure = ok

abbrev pub halt : {S A : Type 0} → Stop → Cmd S A
halt r s = stop r

module _ {S A B : Type 0} where
  abbrev pub and_then : Run S A → (A → Cmd S B) → Run S B
  and_then (ok a s) k = k a s
  and_then (stop r) k = stop r

  infixl 5 ◌>>=◌ ◌>>◌
  abbrev pub ◌>>=◌ : Cmd S A → (A → Cmd S B) → Cmd S B
  m >>= k = λ s. and_then (m s) k

  abbrev pub ◌>>◌ : Cmd S A → Cmd S B → Cmd S B
  m >> n = m >>= λ _. n

abbrev pub get : {S : Type 0} → Cmd S S
get s = ok s s

abbrev pub put : {S : Type 0} → S → Cmd S (Unit {0})
put s _ = ok tt s

-- An `int` result: 0, or the magnitude of a negative error code.
abbrev pub Errno : Type 0
Errno = ℕ

abbrev pub eio : Errno
eio = 5

abbrev pub enomem : Errno
enomem = 12

-- An `s64` or `size_t` result: a value, or the magnitude of a negative error code.
pub data Result (A : Type 0) : Type 0 where
  value : A → Result A
  error : Errno → Result A

module _ {S A : Type 0} where
  -- Every way to return satisfies `P`, every way to stop `Q`.
  abbrev pub Ends : (A → S → Type 0) → (Stop → Type 0) → Run S A → Type 0
  Ends P Q (ok a s) = P a s
  Ends P Q (stop r) = Q r

  -- Total correctness: the run returns, and `P` holds of the result and the state.
  abbrev pub Returns : (A → S → Type 0) → Run S A → Type 0
  Returns P (ok a s) = P a s
  Returns P (stop r) = ⊥

-- The rule for a bind.
pub Ends-bind :
    {S A B : Type 0} (P : A → S → Type 0) (Q : Stop → Type 0) (R : B → S → Type 0) (r : Run S A)
    (k : A → Cmd S B)
    → Ends P Q r
    → ((a : A) (s : S) → P a s → Ends R Q (k a s))
    → Ends R Q (and_then r k)
Ends-bind P Q R (ok a s) k h next = next a s h
Ends-bind P Q R (stop r) k h next = h

pub Ends-mono :
    {S A : Type 0} (P R : A → S → Type 0) (Q T : Stop → Type 0) (r : Run S A)
    → Ends P Q r
    → ((a : A) (s : S) → P a s → R a s)
    → ((x : Stop) → Q x → T x)
    → Ends R T r
Ends-mono P R Q T (ok a s) h good bad = good a s h
Ends-mono P R Q T (stop r) h good bad = bad r h

pub Returns-bind :
    {S A B : Type 0} (P : A → S → Type 0) (R : B → S → Type 0) (Q : Stop → Type 0) (r : Run S A)
    (k : A → Cmd S B)
    → Returns P r
    → ((a : A) (s : S) → P a s → Ends R Q (k a s))
    → Ends R Q (and_then r k)
Returns-bind P R Q (ok a s) k h next = next a s h
Returns-bind P R Q (stop r) k h next = absurd h

pub Returns-then :
    {S A B : Type 0} (P : A → S → Type 0) (R : B → S → Type 0) (r : Run S A) (k : A → Cmd S B)
    → Returns P r
    → ((a : A) (s : S) → P a s → Returns R (k a s))
    → Returns R (and_then r k)
Returns-then P R (ok a s) k h next = next a s h
Returns-then P R (stop r) k h next = absurd h

pub Returns-mono :
    {S A : Type 0} (P R : A → S → Type 0) (r : Run S A)
    → Returns P r
    → ((a : A) (s : S) → P a s → R a s)
    → Returns R r
Returns-mono P R (ok a s) h next = next a s h
Returns-mono P R (stop r) h next = absurd h
