-- ===== src/Program/Main.antt =====
-- The command line (`handle_command` of src/bin/rktools/main.rs), from the parsed arguments on.
pub mod Sectors
pub mod Partitions
use rkusb.Prelude.{ℕ, List, Option, Result, Action, pure, ◌>>=◌, ◌>>◌}
use rkusb.DeviceChoice.{UsbDevice}
use rkusb.Program.DownloadBoot
use rkusb.Program.Errors.{CommandError, or_error}
use rkusb.Program.Info
use rkusb.Program.Lba
use rkusb.Program.Listing
use rkusb.Program.Reset
use rkusb.Program.Storage
use rkusb.Program.UpgradeLoader
use rkusb.Program.Wait
use rkusb.Session.{Host, State, on_hub, lift}
use rkusb.Upgrade.Command
use rkusb.Upgrade.Firmware.{Parts}

-- `Commands`
pub data Subcommand : Type 0 where
  list : Listing.Args → Subcommand
  download_boot : DownloadBoot.Args → Subcommand
  info : List ℕ → Subcommand
  reset : Reset.Args → Subcommand
  lba : Lba.Args → Subcommand
  wait : Wait.Args → Subcommand
  storage : Storage.Args → Subcommand
  upgrade_loader : UpgradeLoader.Args → Subcommand
  upgrade : Command.Args → List ℕ → Subcommand

-- What a command prints or leaves in files, where it is more than a message.
pub data Output : Type 0 where
  devices : List Listing.Line → Output
  found : UsbDevice → Output
  told : Info.Contents → Output
  file : Option (List ℕ) → Output
  stored : Storage.Report → Output
  done : Output

-- What other crates do for the commands.
pub record Crates (X : Host) : Type 0 where
  pub parts : Parts X.bus
  pub gpt : Storage.Gpt X.bus
  pub sums : UpgradeLoader.Sums
  pub formats : Info.Formats

-- `rusb::Context::new()?`
abbrev pub context : (X : Host) → Action (State X) CommandError (Unit {0})
context X = or_error CommandError.rusb X.new_context

-- `fuel` bounds the rounds of a search for a device.
pub handle_command : (X : Host) → Crates X → ℕ → Subcommand → Action (State X) CommandError Output
handle_command X crates fuel (list args) = do
  context X
  lines ← on_hub X (Listing.exec X.hub args)
  pure (devices lines)
handle_command X crates fuel (download_boot args) = do
  context X
  _ ← or_error CommandError.download_boot (
      DownloadBoot.exec X crates.parts.crc16 crates.parts.from_utf16_lossy crates.parts.size_of_time
        fuel args)
  pure done
handle_command X crates fuel (info mmap) = do
  output ← lift (Info.exec crates.formats mmap)
  pure (told output)
handle_command X crates fuel (reset args) = do context X; _ ← Reset.exec X fuel args; pure done
handle_command X crates fuel (lba args) = do
  context X
  output ← Lba.exec_lba X fuel args
  pure (file output)
handle_command X crates fuel (wait args) = do
  context X
  device ← Wait.exec X fuel args
  pure (found device)
handle_command X crates fuel (storage args) = do
  context X
  output ← Storage.exec X crates.gpt fuel args
  pure (stored output)
handle_command X crates fuel (upgrade_loader args) = do
  context X
  _ ←
      or_error CommandError.upgrade_loader
        (UpgradeLoader.exec_upgrade_loader X crates.sums fuel args)
  pure done
handle_command X crates fuel (upgrade args mmap) = do
  context X
  _ ← or_error CommandError.upgrade (Command.exec X crates.parts fuel args mmap)
  pure done
