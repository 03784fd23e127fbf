-- ===== src/Program/DownloadBoot.antt =====
-- The subcommand that downloads a boot image (src/bin/rktools/subcommands/download_boot.rs). `mmap`
-- is the content of the image's file.
pub mod Runs
use rkusb.Prelude.{ℕ, List, Option, Action, ◌>>=◌}
use rkusb.Device.Commands.{Stop, failed, panicked, download_boot}
use rkusb.Image.{new_boot_image}
use rkusb.Program.Errors.{DownloadBootError, download_errors, or_error, or_result}
use rkusb.Session.{Host, State, connect, on_bus, lift}

pub record Args : Type 0 where
  pub mmap : List ℕ
  pub bus : Option ℕ
  pub addr : Option ℕ
  pub wait : Option ℕ

abbrev pub from_stop : Stop → DownloadBootError
from_stop (failed e) = DownloadBootError.rk_usb e
from_stop panicked = DownloadBootError.broken

-- The checksum and the texts are of crate crc and the standard library; a time in a header has
-- `size_of_time` bytes.
pub exec :
    (X : Host)
    → (List ℕ → ℕ)
    → (List ℕ → List ℕ)
    → ℕ
    → ℕ
    → Args
    → Action (State X) DownloadBootError (Unit {0})
exec X crc16 from_utf16_lossy size_of_time fuel args = do
  _ ← connect X fuel args.bus args.addr args.wait
  boot ← lift (or_result DownloadBootError.image (new_boot_image size_of_time args.mmap))
  on_bus X (or_error from_stop (download_boot X.bus crc16 from_utf16_lossy boot))
