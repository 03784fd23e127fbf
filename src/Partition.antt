-- ===== src/Partition.antt =====
-- Partitions by name, GUID or index, and their transfers
-- (src/bin/rktools/subcommands/storage.rs). Files are lists of bytes.
pub mod Selection
pub mod Transfers
use rkusb.Prelude.{
  ◌>>=◌, fail, ℕ, ◌+◌, ◌^◌, List, [], ◌∷◌, Bool, true, false, ◌&&◌, Option, none, some, Result, ok,
  err, Action, same_name, ltb, leb, ◌==◌, if◌then◌else◌, map, length, replicate,
}
use rkusb.Bus.{Bus}
use rkusb.Device.{RkDevice, RkUsbError}
use rkusb.Device.Lba.{read_lba, write_lba}
use rkusb.Storage.Opening.{default_lba_subcode, default_io_timeout}

-- What the code uses of a `Partition` of crate gpt: `guid` is the text of its GUID.
pub record Partition : Type 0 where
  pub name : List ℕ
  pub guid : List ℕ
  pub first_lba : ℕ

pub data SelectPartitionError : Type 0 where
  name_not_found guid_not_found : List ℕ → SelectPartitionError
  index_not_found : ℕ → SelectPartitionError
  unreachable_selector_state : SelectPartitionError

-- `to_ascii_lowercase`
abbrev pub to_ascii_lowercase : List ℕ → List ℕ
to_ascii_lowercase cs = map (λ c. if leb 65 c && leb c 90 then c + 32 else c) cs

-- `find` over the map in the order of its keys, and `ok_or`.
unfoldable pub find_partition :
    (ℕ × Partition → Bool)
    → SelectPartitionError
    → List (ℕ × Partition)
    → Result SelectPartitionError Partition
find_partition accepts e [] = err e
find_partition accepts e (entry ∷ entries) =
    let rest = find_partition accepts e entries in if accepts entry then ok entry.1 else rest

-- The first selector that is given, in this order.
unfoldable pub select_partition :
    List (ℕ × Partition)
    → Option (List ℕ)
    → Option (List ℕ)
    → Option ℕ
    → Result SelectPartitionError Partition
select_partition partitions (some name) guid index =
    find_partition (λ entry. same_name entry.1.name name) (name_not_found name) partitions
select_partition partitions none (some guid) index =
    find_partition (λ entry. same_name (to_ascii_lowercase entry.1.guid) (to_ascii_lowercase guid))
      (guid_not_found guid) partitions
select_partition partitions none none (some index) =
    find_partition (λ entry. entry.0 == index) (index_not_found index) partitions
select_partition partitions none none none = err unreachable_selector_state

pub data PartitionTransferError : Type 0 where
  file_io memory_map size_overflow lba_overflow device_transfer input_too_large :
      PartitionTransferError

abbrev pub or_transfer_error {ℓ} :
    {S : Type ℓ} {A : Type 0} → Result RkUsbError A × S → Result PartitionTransferError A × S
or_transfer_error (ok a, s) = (ok a, s)
or_transfer_error (err e, s) = (err device_transfer, s)

abbrev pub or_file_io {ℓ} : {S : Type ℓ} → Option ℕ → Action S PartitionTransferError ℕ
or_file_io none s = (err file_io, s)
or_file_io (some n) s = (ok n, s)

-- `bytes_len` is of crate gpt: the length of the partition in bytes, or an error.
module _ (B : Bus) (dev : RkDevice) (bytes_len : Partition → Option ℕ) where
  abbrev pub read_sectors : ℕ → List ℕ → Action B.State PartitionTransferError (List ℕ)
  read_sectors pos buf s =
      or_transfer_error (read_lba B dev pos buf default_lba_subcode default_io_timeout s)

  abbrev pub write_sectors : ℕ → List ℕ → Action B.State PartitionTransferError (Unit {0})
  write_sectors pos bytes s =
      or_transfer_error (write_lba B dev pos bytes default_lba_subcode default_io_timeout s)

  -- The value is the output file.
  pub exec_partition_read : Partition → Action B.State PartitionTransferError (List ℕ)
  exec_partition_read part = do
    output_len ← or_file_io (bytes_len part)
    if ltb part.first_lba (2 ^ 32)
        then read_sectors part.first_lba (replicate output_len 0)
        else fail lba_overflow

  pub exec_partition_write : Partition → List ℕ → Action B.State PartitionTransferError (Unit {0})
  exec_partition_write part input = do
    partition_bytes ← or_file_io (bytes_len part)
    if ltb partition_bytes (length input)
        then fail input_too_large
        else if ltb part.first_lba (2 ^ 32)
        then write_sectors part.first_lba input
        else fail lba_overflow
