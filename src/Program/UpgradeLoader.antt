-- ===== src/Program/UpgradeLoader.antt =====
-- The subcommand that writes a new first boot stage, from its arguments on (`exec` of
-- src/bin/rktools/subcommands/upgrade_loader.rs). `mmap` is the content of the image's file.
pub mod Runs
use rkusb.Prelude.{ℕ, List, Option, Action, ◌>>=◌}
use rkusb.DeviceChoice.{Failure, selection, panicked, out_of_fuel}
use rkusb.Image.{new_boot_image}
use rkusb.Program.Errors.{or_result}
use rkusb.Session.{Host, State, Errors, connect, on_bus, lift}
use rkusb.UpgradeLoader.{
  UpgradeLoaderError, device_selection, rk_usb, image, endless, exec, Args as Installs,
}

-- The functions of other crates, and the size of a time in a header.
pub record Sums : Type 0 where
  pub rc4 : List ℕ → List ℕ → List ℕ
  pub crc16 : List ℕ → ℕ
  pub rk_crc : List ℕ → ℕ
  pub from_utf16_lossy : List ℕ → List ℕ
  pub size_of_time : ℕ

pub record Args : Type 0 where
  pub mmap : List ℕ
  pub bus : Option ℕ
  pub addr : Option ℕ
  pub wait : Option ℕ
  pub installs : Installs

abbrev pub loader_failure : Failure → UpgradeLoaderError
loader_failure (selection e) = device_selection e
loader_failure panicked = UpgradeLoaderError.panicked
loader_failure out_of_fuel = endless

instance abbrev pub loader_errors : Errors UpgradeLoaderError
loader_errors = record { from_failure = loader_failure; from_rk_usb = rk_usb }

pub exec_upgrade_loader :
    (X : Host) → Sums → ℕ → Args → Action (State X) UpgradeLoaderError (Unit {0})
exec_upgrade_loader X sums fuel args = do
  (_, rkdev) ← connect X fuel args.bus args.addr args.wait
  boot_img ← lift (or_result image (new_boot_image sums.size_of_time args.mmap))
  on_bus X (
      exec X.bus rkdev sums.rc4 sums.crc16 sums.rk_crc sums.from_utf16_lossy sums.size_of_time
        boot_img args.installs)
