-- ===== src/Upgrade/Firmware.antt =====
-- The upgrade with a whole firmware (`exec` of src/bin/rktools/subcommands/upgrade.rs), from the
-- device that runs its loader on.
pub mod Images
pub mod Installs
pub mod Executes
use rkusb.Prelude.{
  ℕ, ◌*◌, List, [], ◌∷◌, Bool, true, false, ◌||◌, Option, none, some, Result, ok, err, Action, pure,
  fail, ◌>>=◌, ltb, leb, ◌==◌, if◌then◌else◌, length, same_name,
}
use rkusb.Bus.{Bus}
use rkusb.Device.{RkDevice, RkUsbError}
use rkusb.Device.Commands.{
  RkFlashInfo, Stop, failed, panicked, lba_size, read_storage_info, download_boot,
}
use rkusb.DeviceType.{RkUsbType, unknown, maskrom, loader, msc}
use rkusb.DeviceChoice.{DeviceSelectionError}
use rkusb.Image.{ImageError, RkBootImage}
use rkusb.Image.Firmware.{FwHeader, RkFwImage, new_fw_image, boot_data}
use rkusb.Storage.{IoError, RkBlockDevice}
use rkusb.Storage.Opening.{try_from}
use rkusb.Upgrade.{Extent, write_regular_image}
use rkusb.Upgrade.Sparse.{WriteSparseImageError, write_sparse_image}

-- Errors of crate gpt are numbers; `broken` is a panic, and `endless` a search
-- that goes on.
pub data UpgradeError : Type 0 where
  device_selection : DeviceSelectionError → UpgradeError
  rk_usb : RkUsbError → UpgradeError
  gpt_error : ℕ → UpgradeError
  io : IoError → UpgradeError
  image : ImageError → UpgradeError
  parameter_not_found : UpgradeError
  partition_not_found : UpgradeError
  invalid_partition_name : UpgradeError
  write_sparse_image_error : WriteSparseImageError → UpgradeError
  parameter_too_large : ℕ → UpgradeError
  parameter_too_short : ℕ → UpgradeError
  unknown_rk_usb_type : UpgradeError
  broken : UpgradeError
  endless : UpgradeError

-- A partition of crate gpt, by its name and where it lies.
pub record PartEntry : Type 0 where
  pub name : List ℕ
  pub extent : Extent

-- A file of the archive of crate rkafp: its name as text, if the name has an end, and what its
-- reader gives.
pub record FwFile : Type 0 where
  pub name : Option (List ℕ)
  pub content : Result IoError (List ℕ)

-- The `parameter` of an archive: the size of the file, and what its reader gives.
pub record Parameter : Type 0 where
  pub size : ℕ
  pub content : Result IoError (List ℕ)

pub record Archive : Type 0 where
  pub parameter : Result IoError (Option Parameter)
  pub files : Result IoError (List (Result IoError FwFile))

abbrev pub package_file : List ℕ
package_file =
    b'p' ∷ b'a' ∷ b'c' ∷ b'k' ∷ b'a' ∷ b'g' ∷ b'e' ∷ b'-' ∷ b'f' ∷ b'i' ∷ b'l' ∷ b'e' ∷ []

abbrev pub parameter_name : List ℕ
parameter_name = b'p' ∷ b'a' ∷ b'r' ∷ b'a' ∷ b'm' ∷ b'e' ∷ b't' ∷ b'e' ∷ b'r' ∷ []

abbrev pub super_name : List ℕ
super_name = b's' ∷ b'u' ∷ b'p' ∷ b'e' ∷ b'r' ∷ []

-- `find` over the partitions and `ok_or`.
unfoldable pub find_part : List PartEntry → List ℕ → Result UpgradeError Extent
find_part [] name = err partition_not_found
find_part (entry ∷ entries) name =
    let rest = find_part entries name in if same_name entry.name name then ok entry.extent else rest

abbrev pub io_result : {A : Type 0} → Result IoError A → Result UpgradeError A
io_result (ok a) = ok a
io_result (err e) = err (io e)

abbrev pub image_result : {A : Type 0} → Result ImageError A → Result UpgradeError A
image_result (ok a) = ok a
image_result (err e) = err (image e)

abbrev pub image_or_panic : {A : Type 0} → Option (Result ImageError A) → Result UpgradeError A
image_or_panic (some r) = image_result r
image_or_panic none = err broken

abbrev pub named : Option (List ℕ) → Result UpgradeError (List ℕ)
named (some name) = ok name
named none = err invalid_partition_name

abbrev pub lift {ℓ} : {S : Type ℓ} {A : Type 0} → Result UpgradeError A → Action S UpgradeError A
lift r s = (r, s)

abbrev pub from_io {ℓ} :
    {S : Type ℓ} {A : Type 0} → Result IoError A × S → Result UpgradeError A × S
from_io (ok a, s) = (ok a, s)
from_io (err e, s) = (err (io e), s)

abbrev pub from_sparse {ℓ} :
    {S : Type ℓ} {A : Type 0} → Result WriteSparseImageError A × S → Result UpgradeError A × S
from_sparse (ok a, s) = (ok a, s)
from_sparse (err e, s) = (err (write_sparse_image_error e), s)

abbrev pub from_rk_usb {ℓ} :
    {S : Type ℓ} {A : Type 0} → Result RkUsbError A × S → Result UpgradeError A × S
from_rk_usb (ok a, s) = (ok a, s)
from_rk_usb (err e, s) = (err (rk_usb e), s)

abbrev pub from_stop {ℓ} : {S : Type ℓ} {A : Type 0} → Result Stop A × S → Result UpgradeError A × S
from_stop (ok a, s) = (ok a, s)
from_stop (err (failed e), s) = (err (rk_usb e), s)
from_stop (err panicked, s) = (err broken, s)

-- What is asked of the parameter file; its content is used no further. `split_last_chunk` panics
-- on content of less than two bytes.
abbrev pub check_content : List ℕ → Result UpgradeError (Unit {0})
check_content bytes = if ltb (length bytes) 2 then err broken else ok tt

abbrev pub check_parameter : Option Parameter → Result UpgradeError (Unit {0})
check_parameter none = err parameter_not_found
check_parameter (some param) =
    if ltb (64 * 1024) param.size
    then err (parameter_too_large param.size)
    else if leb param.size 2
    then err (parameter_too_short param.size)
    else (elim param.content [ ok bytes ↦ check_content bytes | err e ↦ err (io e) ])

module _ (B : Bus) (dev : RkDevice) where
  -- One image to its partition: `super` is a sparse one.
  abbrev pub write_image :
      List ℕ → Extent → List ℕ → RkBlockDevice → Action B.State UpgradeError RkBlockDevice
  write_image name part bytes d s =
      if same_name name super_name
      then from_sparse (write_sparse_image B dev part bytes d s)
      else from_io (write_regular_image B dev part bytes d s)

  -- A round of the loop over the files.
  pub write_file :
      List PartEntry → FwFile → RkBlockDevice → Action B.State UpgradeError RkBlockDevice
  write_file partitions file d = do
    name ← lift (named file.name)
    if same_name name package_file || same_name name parameter_name then pure d else (do
      part ← lift (find_part partitions name)
      bytes ← lift (io_result file.content)
      write_image name part bytes d)

  pub write_files :
      List PartEntry
      → List (Result IoError FwFile)
      → RkBlockDevice
      → Action B.State UpgradeError RkBlockDevice
  write_files partitions [] d = pure d
  write_files partitions (entry ∷ entries) d = do
    file ← lift (io_result entry)
    d' ← write_file partitions file d
    write_files partitions entries d'

-- `LogicalBlockSize`, from the size that the device reports; another one ends the upgrade.
abbrev pub logical_block_size : ℕ → Option ℕ
logical_block_size x = if x == 1 then some 512 else if x == 8 then some 4096 else none

-- The code that is not the program's: the sums and texts that a download uses, the size of a time
-- in a header, the archive (crate rkafp), and the partition table as crate gpt opens it.
pub record Parts (B : Bus) : Type 0 where
  pub crc16 : List ℕ → ℕ
  pub from_utf16_lossy : List ℕ → List ℕ
  pub size_of_time : ℕ
  pub header : FwHeader
  pub archive : List ℕ → Archive
  pub open_from_device :
      RkDevice
      → Bool
      → ℕ
      → RkBlockDevice
      → Action B.State UpgradeError (List PartEntry × RkBlockDevice)

module _ (B : Bus) (X : Parts B) where
  -- From the blocks' size on: the partition table, and the files.
  abbrev pub write_firmware : RkDevice → Archive → Option ℕ → Action B.State UpgradeError (Unit {0})
  write_firmware dev fw none = pure tt
  write_firmware dev fw (some lb_size) = do
    d ← λ s. from_io (try_from B dev s)
    (_, d') ← X.open_from_device dev true lb_size d
    (partitions, d'') ← X.open_from_device dev false lb_size d'
    files ← lift (io_result fw.files)
    _ ← write_files B dev partitions files d''
    pure tt

  -- From the firmware and the device that runs its loader on.
  pub install : RkDevice → List ℕ → Action B.State UpgradeError (Unit {0})
  install dev fw_data = do
    let fw = X.archive fw_data
    parameter ← lift (io_result fw.parameter)
    _ ← lift (check_parameter parameter)
    info ← λ s. from_rk_usb (read_storage_info B dev s)
    write_firmware dev fw (logical_block_size (lba_size info))
