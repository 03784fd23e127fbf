-- ===== src/Upgrade.antt =====
-- Writing the files of a firmware to their partitions
-- (src/bin/rktools/subcommands/upgrade.rs): regular images, and sparse images. A file is the list
-- of its bytes; where a partition starts and how long it is comes from crate gpt.
pub mod Sparse
pub mod Regular
pub mod Firmware
pub mod Command
use rkusb.Prelude.{ℕ, List, Option, none, some, Result, ok, err, Action, pure, ◌>>=◌, take}
use rkusb.Bus.{Bus}
use rkusb.Device.{RkDevice}
use rkusb.Storage.{IoError, invalid_data, RkBlockDevice}
use rkusb.Storage.Seek.{SeekFrom, start, seek}
use rkusb.Copy.{copy}

-- `bytes_len` and `bytes_start` of a partition, or the error that crate gpt makes.
pub record Extent : Type 0 where
  pub bytes_len : Result IoError ℕ
  pub bytes_start : Result IoError ℕ

-- `?` on a value that is no operation.
abbrev pub lift {ℓ} : {S : Type ℓ} {A : Type 0} → Result IoError A → Action S IoError A
lift r s = (r, s)

-- `device.seek(...)?`: the device with its new position.
abbrev pub moved_to : Result IoError ℕ × RkBlockDevice → Result IoError RkBlockDevice
moved_to (ok x, d) = ok d
moved_to (err e, d) = err e

module _ (B : Bus) (dev : RkDevice) where
  pub write_regular_image : Extent → List ℕ → RkBlockDevice → Action B.State IoError RkBlockDevice
  write_regular_image part img d = do
    part_size ← lift part.bytes_len
    part_start ← lift part.bytes_start
    d' ← lift (moved_to (seek d (start part_start)))
    copy B dev (take part_size img) d'
