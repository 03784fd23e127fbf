-- ===== src/Device/Raw.antt =====
-- One transfer of sectors: `write_lba_raw`, `read_lba_raw` and `erase_lba_raw`.
pub mod Transfers
use rkusb.Prelude.{
  ℕ, ◌/◌, ◌%◌, ◌^◌, some, none, List, [], Action, pure, fail, ltb, ◌==◌, if◌then◌else◌, ◌>>=◌,
  length,
}
use rkusb.Prelude.Bytes.{to_be16, to_be32}
use rkusb.Bus.{Bus, invalid_param}
use rkusb.Usb.{Cbw, with_opcode}
use rkusb.Device.{RkUsbError, RkDevice, usb, storage_sector_size}
use rkusb.Device.Transaction.{cbw_transaction}

-- The command block of a transfer: the address and the count are big-endian.
unfoldable pub lba_cbw : ℕ → ℕ → ℕ → ℕ → ℕ → ℕ → Cbw
unfolding with_opcode to_be16 to_be32
lba_cbw opcode tag bytes pos count subcode =
    let cbw = with_opcode tag opcode in
    let cb = cbw.cb in
    record cbw {
      data_transfer_length = bytes;
      cb = record cb { address = to_be32 pos; length = to_be16 count; reserved = subcode };
    }

module _ (B : Bus) where
  -- `random::<u32>()`, for the tag of a new command block.
  abbrev pub random_tag : Action B.State RkUsbError ℕ
  random_tag s = let (tag, s') = B.random_u32 s in pure tag s'

module _ (B : Bus) (dev : RkDevice) where
  pub write_lba_raw : ℕ → List ℕ → ℕ → ℕ → Action B.State RkUsbError (Unit {0})
  write_lba_raw pos bytes subcode timeout =
      let count = length bytes / storage_sector_size in
      if length bytes == 0
      then pure tt
      else if length bytes % storage_sector_size == 0
      then if ltb count (2 ^ 16)
        then (do
          tag ← random_tag B
          let cbw = lba_cbw 0x15 tag (length bytes % 2 ^ 32) pos count subcode
          _ ← cbw_transaction B dev cbw (some bytes) none timeout
          pure tt)
        else fail (usb invalid_param)
      else fail (usb invalid_param)

  -- The value is the buffer after the transfer.
  pub read_lba_raw : ℕ → List ℕ → ℕ → ℕ → Action B.State RkUsbError (List ℕ)
  read_lba_raw pos buf subcode timeout =
      let count = length buf / storage_sector_size in
      if length buf == 0
      then pure buf
      else if length buf % storage_sector_size == 0
      then if ltb count (2 ^ 16)
        then (do
          tag ← random_tag B
          let cbw = lba_cbw 0x14 tag (length buf % 2 ^ 32) pos count subcode
          (_, buf') ← cbw_transaction B dev cbw none (some buf) timeout
          pure buf')
        else fail (usb invalid_param)
      else fail (usb invalid_param)

  -- `count` is a u16. The command keeps the default subcode and announces no data.
  pub erase_lba_raw : ℕ → ℕ → ℕ → Action B.State RkUsbError (Unit {0})
  erase_lba_raw pos count timeout = if count == 0 then pure tt else do
    tag ← random_tag B
    let cbw = lba_cbw 0x25 tag 0 pos count 0
    _ ← cbw_transaction B dev cbw none none timeout
    pure tt
