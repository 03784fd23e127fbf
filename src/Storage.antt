-- ===== src/Storage.antt =====
-- `RkBlockDevice` (src/bin/rktools/storage/mod.rs): a device as a stream of bytes with a position.
pub mod Reads
pub mod Writes
pub mod Seek
pub mod Opening
use rkusb.Prelude.{
  ℕ, ◌+◌, ◌-◌, ◌*◌, ◌/◌, ◌%◌, ◌^◌, ◌≤◌, List, [], ◌++◌, Result, ok, err, Action, pure, fail, ltb,
  ◌==◌, if◌then◌else◌, min, ◌>>=◌, ◌>>◌, length, take, drop, replicate,
}
use rkusb.Bus.{Bus}
use rkusb.Device.{RkUsbError, RkDevice}
use rkusb.Device.Lba.{read_lba, write_lba}

abbrev pub sector_size : ℕ
sector_size = 512

-- `std::io::Error`, by its kinds; `device` is `io::Error::other`.
pub data IoError : Type 0 where
  invalid_input : IoError
  invalid_data : IoError
  write_zero : IoError
  unexpected_eof : IoError
  device : RkUsbError → IoError

pub record RkBlockDevice : Type 0 where
  pub pos : ℕ
  pub disk_size_bytes : ℕ
  pub subcode : ℕ
  pub timeout : ℕ

-- `RkBlockDevice::new`
abbrev pub new_block_device : ℕ → ℕ → ℕ → RkBlockDevice
new_block_device disk_size_bytes subcode timeout = record {
  pos = 0;
  disk_size_bytes = disk_size_bytes;
  subcode = subcode;
  timeout = timeout;
}

-- `map_err(io::Error::other)`
abbrev pub from_device {ℓ} :
    {S : Type ℓ} {A : Type 0} → Result RkUsbError A × S → Result IoError A × S
from_device (ok a, s) = (ok a, s)
from_device (err e, s) = (err (device e), s)

abbrev pub lift_io {ℓ} : {S : Type ℓ} {A : Type 0} → Result IoError A → Action S IoError A
lift_io r s = (r, s)

-- `checked_add` on u64.
abbrev pub checked_u64 : ℕ → Result IoError ℕ
checked_u64 x = if ltb x (2 ^ 64) then ok x else err invalid_input

-- The sector of a byte position, as a u32.
abbrev pub sector_of : ℕ → Result IoError ℕ
sector_of pos =
    if ltb (pos / sector_size) (2 ^ 32) then ok (pos / sector_size) else err invalid_input

module _ (B : Bus) (dev : RkDevice) (d : RkBlockDevice) where
  abbrev pub read_sectors : ℕ → List ℕ → Action B.State IoError (List ℕ)
  read_sectors lba buf s = from_device (read_lba B dev lba buf d.subcode d.timeout s)

  abbrev pub write_sectors : ℕ → List ℕ → Action B.State IoError (Unit {0})
  write_sectors lba bytes s = from_device (write_lba B dev lba bytes d.subcode d.timeout s)

  -- 1) the bytes up to the end of the first sector, if the position is inside of one
  pub read_first : ℕ → List ℕ → Action B.State IoError (List ℕ × ℕ × List ℕ)
  read_first pos remaining =
      let offset_in_sector = pos % sector_size in
      let readable = min (sector_size - offset_in_sector) (length remaining) in
      if offset_in_sector == 0 then pure ([], pos, remaining) else (do
        lba ← lift_io (sector_of pos)
        tmp ← read_sectors lba (replicate sector_size 0)
        pos' ← lift_io (checked_u64 (pos + readable))
        pure (take readable (drop offset_in_sector tmp), pos', drop readable remaining))

  -- 2) the whole sectors
  pub read_middle : ℕ → List ℕ → Action B.State IoError (List ℕ × ℕ × List ℕ)
  read_middle pos remaining =
      let aligned_len = length remaining / sector_size * sector_size in
      if aligned_len == 0 then pure ([], pos, remaining) else (do
        lba ← lift_io (sector_of pos)
        aligned ← read_sectors lba (take aligned_len remaining)
        pos' ← lift_io (checked_u64 (pos + aligned_len))
        pure (aligned, pos', drop aligned_len remaining))

  -- 3) the rest, out of one more sector
  pub read_last : ℕ → List ℕ → Action B.State IoError (List ℕ)
  read_last pos remaining = if length remaining == 0 then pure [] else (do
    lba ← lift_io (sector_of pos)
    tmp ← read_sectors lba (replicate sector_size 0)
    pure (take (length remaining) tmp))

  -- The count of bytes read, the buffer and the device with its new position.
  pub read : List ℕ → Action B.State IoError (ℕ × List ℕ × RkBlockDevice)
  read buf = if length buf == 0 then pure (0, buf, d) else (do
    end_pos ← lift_io (checked_u64 (d.pos + length buf))
    (first, pos1, rest1) ← read_first d.pos buf
    (middle, pos2, rest2) ← read_middle pos1 rest1
    last ← read_last pos2 rest2
    pure (length buf, first ++ (middle ++ last), record d { pos = end_pos }))

  pub write_first : ℕ → List ℕ → Action B.State IoError (ℕ × List ℕ)
  write_first pos remaining =
      let offset = pos % sector_size in
      let writable = min (sector_size - offset) (length remaining) in
      if offset == 0 then pure (pos, remaining) else (do
        lba ← lift_io (sector_of pos)
        tmp ← read_sectors lba (replicate sector_size 0)
        write_sectors lba
            (take offset tmp ++ (take writable remaining ++ drop (offset + writable) tmp))
        pos' ← lift_io (checked_u64 (pos + writable))
        pure (pos', drop writable remaining))

  pub write_middle : ℕ → List ℕ → Action B.State IoError (ℕ × List ℕ)
  write_middle pos remaining =
      let aligned_len = length remaining / sector_size * sector_size in
      if aligned_len == 0 then pure (pos, remaining) else (do
        lba ← lift_io (sector_of pos)
        write_sectors lba (take aligned_len remaining)
        pos' ← lift_io (checked_u64 (pos + aligned_len))
        pure (pos', drop aligned_len remaining))

  pub write_last : ℕ → List ℕ → Action B.State IoError (Unit {0})
  write_last pos remaining = if length remaining == 0 then pure tt else (do
    lba ← lift_io (sector_of pos)
    tmp ← read_sectors lba (replicate sector_size 0)
    write_sectors lba (remaining ++ drop (length remaining) tmp))

  -- The count of bytes written, and the device with its new position.
  pub write : List ℕ → Action B.State IoError (ℕ × RkBlockDevice)
  write buf = if length buf == 0 then pure (0, d) else (do
    end_pos ← lift_io (checked_u64 (d.pos + length buf))
    (pos1, rest1) ← write_first d.pos buf
    (pos2, rest2) ← write_middle pos1 rest1
    write_last pos2 rest2
    pure (length buf, record d { pos = end_pos }))
