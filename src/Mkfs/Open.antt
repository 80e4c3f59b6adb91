-- ===== src/Mkfs/Open.antt =====
-- `__open_device`: which device it is, and its sizes. The results of the system calls and of `ffs`
-- are parameters.
use logfsprogs.Common.{
  ℕ, ◌+◌, ◌-◌, ◌%◌, ◌^◌, Bool, true, false, Option, none, some, not, ◌==◌, ltb, if◌then◌else◌,
}
use logfsprogs.Common.Outcome.{
  Cmd, ok, stop, exit, fault, pure, halt, could_not_open_device, could_not_stat_device,
  wrong_device_type, not_mtd_device, mtd_ioctl_failed, erasesize_not_power_of_2,
  writesize_not_power_of_2, block_ioctl_failed, Failure, ◌>>=◌, ◌>>◌,
}
use logfsprogs.Kerncompat.{u8_mod}
use logfsprogs.Mkfs.Config.{Config, fail_if}

-- `st_mode & S_IFMT`, with the major number of a character device and the size of a file.
pub data FileType : Type 0 where
  socket : FileType
  link : FileType
  directory : FileType
  fifo : FileType
  character : ℕ → FileType
  regular : ℕ → FileType
  block : FileType
  other : FileType

-- The fields of `struct mtd_info_user` that are used.
pub record MtdInfo : Type 0 where
  pub size : ℕ
  pub erasesize : ℕ
  pub writesize : ℕ

-- What the system answers: `none` for a call that fails. `sys_size` is the number in
-- /sys/class/mtd/NAME/size, if that file can be opened.
pub record System : Type 0 where
  pub opened : Bool
  pub stat : Option FileType
  pub mtd_info : Option MtdInfo
  pub sys_size : Option ℕ
  pub block_size : Option ℕ
  pub ffs : ℕ → ℕ

-- The fields of `*sb` that are set; `is_mtd` says which `dev_ops` were chosen.
pub record Opened : Type 0 where
  pub is_mtd : Bool
  pub erasesize : ℕ
  pub fssize : ℕ

-- `shift = ffs(size) - 1` in 8 bits, and the test that `size` is `1 << shift`. From 31 on the shift
-- is not defined in C.
unfoldable pub size_shift : System → ℕ → Failure → Cmd Config ℕ
size_shift sys size failure c =
    let shift = (sys.ffs size + u8_mod - 1) % u8_mod in
    if ltb 30 shift
    then stop fault
    else if size == 2 ^ shift
    then ok shift c
    else stop (exit failure)

abbrev pub or_fail : {S A : Type 0} → Option A → Failure → Cmd S A
or_fail none failure s = stop (exit failure)
or_fail (some a) failure s = ok a s

-- The newer way to find the size, if there is one.
abbrev pub mtd_size : Option ℕ → ℕ → ℕ
mtd_size none size = size
mtd_size (some n) size = n

unfoldable pub set_segshift : ℕ → Cmd Config (Unit {0})
set_segshift n c = ok tt (record c { segshift = n })

unfoldable pub set_writeshift : ℕ → Cmd Config (Unit {0})
set_writeshift n c = ok tt (record c { writeshift = n })

unfoldable pub open_mtd : System → ℕ → Cmd Config Opened
unfolding size_shift set_segshift set_writeshift
open_mtd sys major = do
  fail_if (not (major == 90)) not_mtd_device
  mtd ← or_fail sys.mtd_info mtd_ioctl_failed
  segshift ← size_shift sys mtd.erasesize erasesize_not_power_of_2
  set_segshift segshift
  writeshift ← size_shift sys mtd.writesize writesize_not_power_of_2
  set_writeshift writeshift
  pure
      (record { is_mtd = true; erasesize = mtd.erasesize; fssize = mtd_size sys.sys_size mtd.size })

-- The `switch`
open_type : System → FileType → Cmd Config Opened
unfolding open_mtd
open_type sys (character major) = open_mtd sys major
open_type sys (regular size) = pure (record { is_mtd = false; erasesize = 0; fssize = size })
open_type sys block = do
  size ← or_fail sys.block_size block_ioctl_failed
  pure (record { is_mtd = false; erasesize = 0; fssize = size })
open_type sys other = pure (record { is_mtd = false; erasesize = 0; fssize = 0 })
open_type sys socket = halt (exit wrong_device_type)
open_type sys link = halt (exit wrong_device_type)
open_type sys directory = halt (exit wrong_device_type)
open_type sys fifo = halt (exit wrong_device_type)

unfoldable pub open_device : System → Cmd Config Opened
unfolding open_type
open_device sys = do
  fail_if (not sys.opened) could_not_open_device
  type ← or_fail sys.stat could_not_stat_device
  open_type sys type
