-- ===== src/Partition/Transfers.antt =====
-- Transfers of partitions against a device that follows the protocol.
use rkusb.Prelude.{
  ℕ, ◌+◌, ◌*◌, ◌/◌, ◌^◌, ◌≤◌, ◌<◌, ◌≡◌, ◌⊎◌, ◌∙◌, ap, List, Option, some, Result, err, Ensures,
  ensures, Ensures-mono, lt→ltb, le→not_ltb, length, replicate, length-replicate, arith,
}
use rkusb.Bus.{Bus}
use rkusb.Disk.{Disk, slice, overlay}
use rkusb.Disk.Laws.{overlay-outside}
use rkusb.Drive.{ready, Link, allowance, allowance-le}
use rkusb.Device.{RkDevice, RkUsbError}
use rkusb.Device.Lba.Writes.{write_lba-overlay}
use rkusb.Device.Lba.Reads.{read_lba-slice}
use rkusb.Partition.{
  Partition, input_too_large, or_transfer_error, exec_partition_read, exec_partition_write,
}

Ensures-or_transfer_error :
    {S A : Type 0} {Q : A → S → Type 0} {r : Result RkUsbError A × S}
    → Ensures Q r
    → Ensures Q (or_transfer_error r)
Ensures-or_transfer_error (ensures q) = ensures q

module _ {B : Bus} {dev : RkDevice} (L : Link B dev) (bytes_len : Partition → Option ℕ)
    (part : Partition) (size : ℕ) (s : B.State) (known : bytes_len part ≡ some size)
    (fits : part.first_lba + size / 512 < 2 ^ 32) (patient : allowance L.step size < 30000)
    (idle : L.phase s ≡ ready) where
  -- A file that is not longer than the partition is written from the sector whose number is that of the
  -- partition's first block, in units of 512 bytes whatever the size of the blocks. Only the bytes of
  -- the file change: what was behind them stays, in the last sector too (it is not padded with zeros),
  -- and so no byte changes before that place or behind it by the length of the partition or more.
  -- Premises: that sector and the count of whole sectors of the partition add up to less than 2^32,
  -- the device is ready, and the allowance for the partition is below 30 seconds.
  -- The device follows the bus protocol, and a call of the bus takes `step` at most (`Link`).
  pub exec_partition_write-overlay :
      (input : List ℕ)
      → length input ≤ size
      → Ensures
          (λ _ s'.
            (L.disk s' ≡ overlay (L.disk s) (part.first_lba * 512) input)
            × ((i : ℕ)
                → (i < part.first_lba * 512) ⊎ (part.first_lba * 512 + size ≤ i)
                → L.disk s' i ≡ L.disk s i)
            × (L.phase s' ≡ ready))
          (exec_partition_write B dev bytes_len part input s)
  unfolding exec_partition_write
  exec_partition_write-overlay input short =
      rw (known, le→not_ltb size (length input) short, lt→ltb part.first_lba (2 ^ 32) (omega arith))
        (Ensures-mono
          (Ensures-or_transfer_error (
            write_lba-overlay L part.first_lba input 0 30000 s (omega arith)
              (omega (arith, allowance-le L.step (length input) size short)) idle))
          λ _ s' (phase, disk, _). (
            disk,
            λ i outside.
                ap (λ (d : Disk). d i) disk
                ∙ overlay-outside (L.disk s) (part.first_lba * 512) size i input short outside,
            phase,
          ))

  -- A partition is read in full: the file holds its bytes, and the disk stays as it is. The premises
  -- are those of a write.
  pub exec_partition_read-slice :
      Ensures
        (λ output s'.
          (output ≡ slice (L.disk s) (part.first_lba * 512) size)
          × (L.disk s' ≡ L.disk s)
          × (L.phase s' ≡ ready))
        (exec_partition_read B dev bytes_len part s)
  unfolding exec_partition_read
  exec_partition_read-slice =
      let buf : List ℕ = replicate size 0 in
      let full : length buf ≡ size = length-replicate size 0 in
      rw (known, lt→ltb part.first_lba (2 ^ 32) (omega arith))
        (Ensures-mono
          (Ensures-or_transfer_error (
            read_lba-slice L part.first_lba buf 0 30000 s (omega arith)
              (omega (arith, allowance-le L.step (length buf) size (omega arith))) idle))
          λ output s' (bytes, phase, disk, _).
            (bytes ∙ ap (slice (L.disk s) (part.first_lba * 512)) full, disk, phase))

-- A file that is longer than its partition is refused, and nothing is sent to the device.
exec_partition_write-too_large :
    (B : Bus) (dev : RkDevice) (bytes_len : Partition → Option ℕ) (part : Partition) (size : ℕ)
    (input : List ℕ) (s : B.State)
    → bytes_len part ≡ some size
    → size < length input
    → exec_partition_write B dev bytes_len part input s ≡ (err input_too_large, s)
unfolding exec_partition_write
exec_partition_write-too_large B dev bytes_len part size input s known long =
    rw (known, lt→ltb size (length input) long)
