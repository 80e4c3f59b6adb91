-- ===== src/Mkfs/Device.antt =====
-- `safe_pwrite`, `bdev_write`, `bdev_erase` and `mtd_erase`, the operations behind `dev_ops`. The
-- system calls are parameters: `F` is the state of the open file.
use logfsprogs.Common.{
  ℕ, zero, suc, ◌+◌, ◌%◌, Bool, List, [], ◌∷◌, Option, none, some, ◌==◌, ltb, leb, length, take,
  if◌then◌else◌, drop, replicate,
}
use logfsprogs.Common.Outcome.{
  Run, ok, stop, Cmd, out_of_fuel, Errno, eio, exit, out_of_memory, fault, halt, ◌>>=◌,
}
use logfsprogs.Kerncompat.{u64_mod}

-- What `pwrite` did: a short or full write, `EINTR`, or another error.
pub data Pwrite : Type 0 where
  wrote : ℕ → Pwrite
  interrupted : Pwrite
  failed : Errno → Pwrite

-- `malloc` says whether an allocation of a size succeeds; the program leaves at the first that fails.
pub record Os (F : Type 0) : Type 0 where
  pub malloc : ℕ → Bool
  pub pwrite : List ℕ → ℕ → F → Pwrite × F
  pub memerase : ℕ → ℕ → F → Errno × F
  pub memerase64 : ℕ → ℕ → F → Errno × F

-- The file, and `sb->erase_buf`, which is made at the first erase.
pub record Bdev (F : Type 0) : Type 0 where
  pub file : F
  pub erase_buf : Option (List ℕ)

-- The result of one `pwrite`; `again` is the rest of the loop.
abbrev pub after_pwrite :
    {F : Type 0} → (List ℕ → ℕ → F → Run F Errno) → List ℕ → ℕ → Pwrite × F → Run F Errno
after_pwrite again buf ofs (wrote n, file) = again (drop n buf) ((ofs + n) % u64_mod) file
after_pwrite again buf ofs (interrupted, file) = again buf ofs file
after_pwrite again buf ofs (failed e, file) = ok e file

-- The loop of `safe_pwrite`: `buf` is what remains, and each call of `pwrite` takes a unit of fuel.
unfoldable pub safe_pwrite : {F : Type 0} → Os F → ℕ → List ℕ → ℕ → Cmd F Errno
safe_pwrite os f [] ofs file = ok 0 file
safe_pwrite os zero (b ∷ bs) ofs file = stop out_of_fuel
safe_pwrite os (suc f) (b ∷ bs) ofs file =
    after_pwrite (safe_pwrite os f) (b ∷ bs) ofs (os.pwrite (b ∷ bs) ofs file)

-- Every error of `safe_pwrite` becomes `-EIO`.
unfoldable pub bdev_write : {F : Type 0} → Os F → ℕ → ℕ → List ℕ → Cmd (Bdev F) Errno
unfolding safe_pwrite
bdev_write os fuel ofs buf d = elim (safe_pwrite os fuel buf ofs d.file) [
  | stop r ↦ stop r
  | ok e file ↦ ok (if e == 0 then 0 else eio) (record d { file = file })
]

-- A segment of ones; `segsize` is `sb->segsize`.
unfoldable pub erase_buffer : {F : Type 0} → Os F → ℕ → Cmd (Bdev F) (List ℕ)
erase_buffer os segsize d = elim (d.erase_buf) [
  | some b ↦ ok b d
  | none ↦
      let b = replicate segsize 0xff in
      if os.malloc segsize
      then ok b (record d { erase_buf = some b })
      else stop (exit out_of_memory)
]

-- A size above the segment's is read past the end of the buffer.
unfoldable pub bdev_erase : {F : Type 0} → Os F → ℕ → ℕ → ℕ → ℕ → Cmd (Bdev F) Errno
unfolding erase_buffer bdev_write
bdev_erase os fuel segsize ofs size = do
  b ← erase_buffer os segsize
  if ltb (length b) size then halt fault else bdev_write os fuel ofs (take size b)

-- The 64-bit request is used from 4 GiB on.
unfoldable pub mtd_erase : {F : Type 0} → Os F → ℕ → ℕ → F → Errno × F
mtd_erase os ofs size file =
    if leb 0x1_0000_0000 ofs then os.memerase64 ofs size file else os.memerase ofs size file
