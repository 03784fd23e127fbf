-- ===== src/LbaCommand.antt =====
-- The subcommand that reads, writes and erases sectors (src/bin/rktools/subcommands/lba.rs), from an
-- opened device on. A file is the list of its bytes: a read returns its output file.
pub mod Runs
use rkusb.Prelude.{ℕ, ◌*◌, List, Option, none, some, Action, pure, ◌>>=◌, ◌>>◌, replicate}
use rkusb.Bus.{Bus}
use rkusb.Device.{RkDevice, RkUsbError}
use rkusb.Device.Lba.{read_lba, write_lba, erase_lba}

abbrev pub sector_size : ℕ
sector_size = 512

pub record ReadArgs : Type 0 where
  pub begin_sector : ℕ
  pub sector_count : ℕ
  pub subcode : ℕ

-- `input` is the file at the path of the arguments.
pub record WriteArgs : Type 0 where
  pub begin_sector : ℕ
  pub input : List ℕ
  pub subcode : ℕ

pub record EraseArgs : Type 0 where
  pub begin_sector : ℕ
  pub sector_count : ℕ

pub data Command : Type 0 where
  read : ReadArgs → Command
  write : WriteArgs → Command
  erase : EraseArgs → Command

module _ (B : Bus) (dev : RkDevice) where
  -- The output file has its length before it is mapped, and holds zeros.
  pub exec_read : ReadArgs → ℕ → Action B.State RkUsbError (List ℕ)
  exec_read args timeout =
      read_lba B dev args.begin_sector (replicate (args.sector_count * sector_size) 0) args.subcode
        timeout

  pub exec_write : WriteArgs → ℕ → Action B.State RkUsbError (Unit {0})
  exec_write args timeout = write_lba B dev args.begin_sector args.input args.subcode timeout

  pub exec_erase : EraseArgs → ℕ → Action B.State RkUsbError (Unit {0})
  exec_erase args timeout = erase_lba B dev args.begin_sector args.sector_count timeout

  pub exec : Command → ℕ → Action B.State RkUsbError (Option (List ℕ))
  exec (read args) timeout = do file ← exec_read args timeout; pure (some file)
  exec (write args) timeout = do exec_write args timeout; pure none
  exec (erase args) timeout = do exec_erase args timeout; pure none
