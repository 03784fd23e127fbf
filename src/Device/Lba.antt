-- ===== src/Device/Lba.antt =====
-- Transfers of any length: `write_lba`, `read_lba` and `erase_lba` (src/lib.rs).
pub mod Writes
pub mod Reads
pub mod Erases
pub mod Bounds
use rkusb.Prelude.{
  ℕ, zero, suc, ◌+◌, ◌-◌, ◌*◌, ◌%◌, ◌^◌, List, [], ◌∷◌, ◌++◌, Action, pure, ◌==◌, if◌then◌else◌,
  min, ◌>>=◌, ◌>>◌, length, take, drop, replicate, chunks,
}
use rkusb.Bus.{Bus}
use rkusb.Device.{
  RkUsbError, RkDevice, storage_sector_size, max_lba_transfer_bytes, lift, now, remaining_timeout,
  checked_u32, advance_lba_by_bytes,
}
use rkusb.Device.Raw.{write_lba_raw, read_lba_raw, erase_lba_raw}

abbrev pub u16_max : ℕ
u16_max = 65535

-- The length without the bytes of a last partial sector.
abbrev pub aligned_len : ℕ → ℕ
aligned_len n = n - n % storage_sector_size

module _ (B : Bus) (dev : RkDevice) where
  -- One transfer for each chunk; the value is the position behind the last.
  pub write_chunks : List (List ℕ) → ℕ → ℕ → ℕ → Action B.State RkUsbError ℕ
  write_chunks [] next_pos subcode deadline = pure next_pos
  write_chunks (chunk ∷ rest) next_pos subcode deadline = do
    t ← remaining_timeout B deadline
    write_lba_raw B dev next_pos chunk subcode t
    next ← lift (advance_lba_by_bytes next_pos (length chunk))
    write_chunks rest next subcode deadline

  -- A last partial sector is read, changed and written back.
  pub write_tail : List ℕ → ℕ → ℕ → ℕ → Action B.State RkUsbError (Unit {0})
  write_tail tail next_pos subcode deadline = if length tail == 0 then pure tt else do
    t ← remaining_timeout B deadline
    sector ← read_lba_raw B dev next_pos (replicate storage_sector_size 0) subcode t
    let sector' = tail ++ drop (length tail) sector
    t' ← remaining_timeout B deadline
    write_lba_raw B dev next_pos sector' subcode t'

  pub write_lba : ℕ → List ℕ → ℕ → ℕ → Action B.State RkUsbError (Unit {0})
  write_lba pos bytes subcode timeout = if length bytes == 0 then pure tt else do
    start ← now B
    let deadline = start + timeout
    let aligned = take (aligned_len (length bytes)) bytes
    let tail = drop (aligned_len (length bytes)) bytes
    next ← write_chunks (chunks max_lba_transfer_bytes aligned) pos subcode deadline
    write_tail tail next subcode deadline

  -- Each chunk of the buffer is filled; the value is the filled chunks with the next position.
  pub read_chunks : List (List ℕ) → ℕ → ℕ → ℕ → Action B.State RkUsbError (List ℕ × ℕ)
  read_chunks [] next_pos subcode deadline = pure ([], next_pos)
  read_chunks (chunk ∷ rest) next_pos subcode deadline = do
    t ← remaining_timeout B deadline
    chunk' ← read_lba_raw B dev next_pos chunk subcode t
    next ← lift (advance_lba_by_bytes next_pos (length chunk))
    (rest', last) ← read_chunks rest next subcode deadline
    pure (chunk' ++ rest', last)

  -- The bytes behind the last whole sector come from one more sector.
  pub read_tail : List ℕ → ℕ → ℕ → ℕ → Action B.State RkUsbError (List ℕ)
  read_tail tail next_pos subcode deadline = if length tail == 0 then pure tail else do
    t ← remaining_timeout B deadline
    sector ← read_lba_raw B dev next_pos (replicate storage_sector_size 0) subcode t
    pure (take (length tail) sector)

  -- The value is the buffer as it is after the call.
  pub read_lba : ℕ → List ℕ → ℕ → ℕ → Action B.State RkUsbError (List ℕ)
  read_lba pos buf subcode timeout = if length buf == 0 then pure buf else do
    start ← now B
    let deadline = start + timeout
    let aligned = take (aligned_len (length buf)) buf
    let tail = drop (aligned_len (length buf)) buf
    (filled, next) ← read_chunks (chunks max_lba_transfer_bytes aligned) pos subcode deadline
    tail' ← read_tail tail next subcode deadline
    pure (filled ++ tail')

  -- `while remaining != 0`. A round takes one sector at least, so `count` rounds are enough.
  pub erase_loop : ℕ → ℕ → ℕ → ℕ → Action B.State RkUsbError (Unit {0})
  erase_loop zero next_pos remaining deadline = pure tt
  erase_loop (suc fuel) next_pos remaining deadline =
      let chunk_sectors = min remaining u16_max in
      let round = (do
        t ← remaining_timeout B deadline
        erase_lba_raw B dev next_pos (chunk_sectors % 2 ^ 16) t
        next ← lift (checked_u32 (next_pos + chunk_sectors))
        erase_loop fuel next (remaining - chunk_sectors) deadline) in
      if remaining == 0 then pure tt else round

  pub erase_lba : ℕ → ℕ → ℕ → Action B.State RkUsbError (Unit {0})
  erase_lba pos count timeout =
      if count == 0 then pure tt else do start ← now B; erase_loop count pos count (start + timeout)
