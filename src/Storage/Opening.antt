-- ===== src/Storage/Opening.antt =====
-- `TryFrom<RkDevice> for RkBlockDevice` (src/bin/rktools/storage/mod.rs).
pub mod Sizes
use rkusb.Prelude.{
  ℕ, ◌*◌, ◌%◌, ◌^◌, ◌≡◌, ◌<◌, refl, Action, Result, ok, err, pure, ◌>>=◌, ltb, if◌then◌else◌, OnOk,
  on_ok, on_err, OnOk-bind, Bool-cases, inl, inr, ltb→lt, arith,
}
use rkusb.Bus.{Bus}
use rkusb.Device.{RkDevice}
use rkusb.Device.Commands.{RkFlashInfo, read_storage_info}
use rkusb.Storage.{
  IoError, invalid_data, RkBlockDevice, new_block_device, from_device, lift_io, sector_size,
}

abbrev pub default_lba_subcode : ℕ
default_lba_subcode = 0

-- Thirty seconds, in milliseconds.
abbrev pub default_io_timeout : ℕ
default_io_timeout = 30000

-- `checked_mul` of the disk's sectors by their size.
abbrev pub disk_size : RkFlashInfo → Result IoError ℕ
disk_size info =
    if ltb (info.flash_size * sector_size) (2 ^ 64)
    then ok (info.flash_size * sector_size)
    else err invalid_data

module _ (B : Bus) (dev : RkDevice) where
  abbrev pub storage_info : Action B.State IoError RkFlashInfo
  storage_info s = from_device (read_storage_info B dev s)

  unfoldable pub try_from : Action B.State IoError RkBlockDevice
  try_from = do
    info ← storage_info
    disk_size_bytes ← lift_io (disk_size info)
    pure (new_block_device disk_size_bytes default_lba_subcode default_io_timeout)
