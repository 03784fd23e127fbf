-- ===== src/Program/Storage.antt =====
-- The subcommand on storages and partitions, from its arguments on (`exec` of
-- src/bin/rktools/subcommands/storage.rs). Files are lists of bytes.
use rkusb.Prelude.{ℕ, List, [], ◌∷◌, Option, none, some, Action, pure, ◌>>=◌, ◌==◌, if◌then◌else◌}
use rkusb.Bus.{Bus}
use rkusb.Device.{RkDevice}
use rkusb.Device.Commands.{RkFlashInfo, lba_size, switch_storage, read_storage, read_storage_info}
use rkusb.Partition.{Partition, select_partition, exec_partition_read, exec_partition_write}
use rkusb.Program.Errors.{CommandError, partition_transfer, command_errors, or_error, or_result}
use rkusb.Session.{Host, State, connect, on_bus, lift}
use rkusb.Storage.{RkBlockDevice}
use rkusb.Storage.Opening.{try_from}
use rkusb.Upgrade.Firmware.{logical_block_size}

pub record Selector : Type 0 where
  pub name : Option (List ℕ)
  pub guid : Option (List ℕ)
  pub index : Option ℕ

pub data PartitionCommand : Type 0 where
  table : PartitionCommand
  read : Selector → PartitionCommand
  write : Selector → List ℕ → PartitionCommand

pub data Command : Type 0 where
  select : Option ℕ → Command
  info : Command
  partition : PartitionCommand → Command

pub record Args : Type 0 where
  pub bus : Option ℕ
  pub addr : Option ℕ
  pub wait : Option ℕ
  pub command : Command

-- What a command prints, or the output file of a read. `unsupported` is a size of blocks that
-- ends the command without an error.
pub data Report : Type 0 where
  current_storage : Option (ℕ × List ℕ) → Report
  flash_info : RkFlashInfo → Report
  unsupported : ℕ → Report
  partitions : List (ℕ × Partition) → Report
  file : List ℕ → Report
  written : Report

pub storage_name : ℕ → List ℕ
storage_name code =
    if code == 1
    then b'e' ∷ b'M' ∷ b'M' ∷ b'C' ∷ []
    else if code == 2
    then b'S' ∷ b'D' ∷ []
    else if code == 9
    then b'S' ∷ b'P' ∷ b'I' ∷ b' ' ∷ b'N' ∷ b'O' ∷ b'R' ∷ []
    else if code == 11
    then b'N' ∷ b'V' ∷ b'M' ∷ b'e' ∷ []
    else b'U' ∷ b'n' ∷ b'k' ∷ b'n' ∷ b'o' ∷ b'w' ∷ b'n' ∷ []

abbrev named : Option ℕ → Report
named none = current_storage none
named (some code) = current_storage (some (code, storage_name code))

-- Crate gpt: the partitions of the table on the disk, by their index, and the length of one in bytes.
pub record Gpt (B : Bus) : Type 0 where
  pub open_from_device :
      RkDevice
      → ℕ
      → RkBlockDevice
      → Action B.State CommandError (List (ℕ × Partition) × RkBlockDevice)
  pub bytes_len : Partition → Option ℕ

module _ (B : Bus) (gpt : Gpt B) (rkdev : RkDevice) where
  abbrev switch : Option ℕ → Action B.State CommandError (Unit {0})
  switch none = pure tt
  switch (some target) = or_error CommandError.rk_usb (switch_storage B rkdev target)

  pub exec_select : Option ℕ → Action B.State CommandError Report
  exec_select target = do
    _ ← switch target
    code ← or_error CommandError.rk_usb (read_storage B rkdev)
    pure (named code)

  abbrev selected : List (ℕ × Partition) → Selector → Action B.State CommandError Partition
  selected entries by =
      lift (
        or_result CommandError.select_partition (select_partition entries by.name by.guid by.index))

  unfoldable pub exec_table :
      List (ℕ × Partition) → PartitionCommand → Action B.State CommandError Report
  exec_table entries table = pure (partitions entries)
  exec_table entries (read by) = do
    part ← selected entries by
    bytes ← or_error partition_transfer (exec_partition_read B rkdev gpt.bytes_len part)
    pure (file bytes)
  exec_table entries (write by input) = do
    part ← selected entries by
    _ ← or_error partition_transfer (exec_partition_write B rkdev gpt.bytes_len part input)
    pure written

  -- From the size of the blocks on.
  abbrev pub with_blocks : ℕ → Option ℕ → PartitionCommand → Action B.State CommandError Report
  with_blocks size none command = pure (unsupported size)
  with_blocks size (some lb_size) command = do
    d ← or_error CommandError.io (try_from B rkdev)
    (entries, _) ← gpt.open_from_device rkdev lb_size d
    exec_table entries command

  unfoldable pub exec_partition : PartitionCommand → Action B.State CommandError Report
  exec_partition command = do
    got ← or_error CommandError.rk_usb (read_storage_info B rkdev)
    with_blocks (lba_size got) (logical_block_size (lba_size got)) command

  unfoldable pub exec_command : Command → Action B.State CommandError Report
  exec_command (select target) = exec_select target
  exec_command info = do
    got ← or_error CommandError.rk_usb (read_storage_info B rkdev)
    pure (flash_info got)
  exec_command (partition command) = exec_partition command

unfoldable pub exec : (X : Host) → Gpt X.bus → ℕ → Args → Action (State X) CommandError Report
exec X gpt fuel args = do
  (_, rkdev) ← connect X fuel args.bus args.addr args.wait
  on_bus X (exec_command X.bus gpt rkdev args.command)
