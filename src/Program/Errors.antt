-- ===== src/Program/Errors.antt =====
-- The error of a subcommand, `Box<dyn Error>`, by what is in the box.
use rkusb.Prelude.{ℕ, Result, ok, err, Action, Ensures, ensures}
use rkusb.Bus.{UsbError}
use rkusb.Device.{RkUsbError}
use rkusb.DeviceChoice.{DeviceSelectionError, Failure, selection, panicked, out_of_fuel}
use rkusb.Idblock.Rkns.{RkNsParseError}
use rkusb.Image.{ImageError}
use rkusb.Partition.{SelectPartitionError, PartitionTransferError}
use rkusb.Session.{Errors}
use rkusb.Storage.{IoError}
use rkusb.Upgrade.Firmware.{UpgradeError}
use rkusb.UpgradeLoader.{UpgradeLoaderError}

-- `broken` is a panic, and `endless` a search that goes on.
pub data DownloadBootError : Type 0 where
  device_selection : DeviceSelectionError → DownloadBootError
  rk_usb : RkUsbError → DownloadBootError
  image : ImageError → DownloadBootError
  broken endless : DownloadBootError

pub data CommandError : Type 0 where
  rusb : UsbError → CommandError
  device_selection : DeviceSelectionError → CommandError
  rk_usb : RkUsbError → CommandError
  io : IoError → CommandError
  image : ImageError → CommandError
  rk_ns : RkNsParseError → CommandError
  select_partition : SelectPartitionError → CommandError
  partition_transfer : PartitionTransferError → CommandError
  gpt_error : ℕ → CommandError
  download_boot : DownloadBootError → CommandError
  upgrade_loader : UpgradeLoaderError → CommandError
  upgrade : UpgradeError → CommandError
  broken endless : CommandError

abbrev pub from_failure : Failure → CommandError
from_failure (selection e) = CommandError.device_selection e
from_failure panicked = CommandError.broken
from_failure out_of_fuel = CommandError.endless

instance abbrev pub command_errors : Errors CommandError
command_errors = record { from_failure = from_failure; from_rk_usb = CommandError.rk_usb }

abbrev pub download_failure : Failure → DownloadBootError
download_failure (selection e) = DownloadBootError.device_selection e
download_failure panicked = DownloadBootError.broken
download_failure out_of_fuel = DownloadBootError.endless

instance abbrev pub download_errors : Errors DownloadBootError
download_errors = record { from_failure = download_failure; from_rk_usb = DownloadBootError.rk_usb }

-- `?`, with the conversion of the error that it calls.
abbrev pub converted {ℓ} : {S : Type ℓ} {E F A : Type 0} → (E → F) → Result E A × S → Result F A × S
converted f (ok a, s) = (ok a, s)
converted f (err e, s) = (err (f e), s)

abbrev pub or_error {ℓ} : {S : Type ℓ} {E F A : Type 0} → (E → F) → Action S E A → Action S F A
or_error f m s = converted f (m s)

abbrev pub or_result : {E F A : Type 0} → (E → F) → Result E A → Result F A
or_result f (ok a) = ok a
or_result f (err e) = err (f e)

pub converted-Ensures :
    {S E F A : Type 0} {Q : A → S → Type 0} (f : E → F) {r : Result E A × S}
    → Ensures Q r
    → Ensures Q (converted f r)
converted-Ensures f (ensures q) = ensures q
