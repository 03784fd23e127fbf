-- ===== src/Device.antt =====
-- `RkDevice` (src/lib.rs): its errors, limits and deadlines. The operations are in the children.
pub mod Transaction
pub mod Raw
pub mod Lba
pub mod Commands
use rkusb.Prelude.{
  ℕ, ◌+◌, ◌-◌, ◌*◌, ◌/◌, ◌^◌, Result, ok, err, Action, pure, fail, ltb, if◌then◌else◌, ◌>>=◌,
}
use rkusb.Bus.{Bus, UsbError, timeout}

pub data RkUsbError : Type 0 where
  usb : UsbError → RkUsbError
  lba_overflow : RkUsbError
  duplicate_bulk_endpoint : RkUsbError
  tag_mismatch : RkUsbError
  command_failed : ℕ → RkUsbError
  invalid_csw : RkUsbError
  invalid_flash_info_length : ℕ → RkUsbError

-- The bulk endpoints of an opened device. The handle itself is the state of the bus.
pub record RkDevice : Type 0 where
  pub bulk_in : ℕ
  pub bulk_out : ℕ

abbrev pub storage_sector_size : ℕ
storage_sector_size = 512

abbrev pub max_lba_transfer_sectors : ℕ
max_lba_transfer_sectors = 128

abbrev pub max_lba_transfer_bytes : ℕ
max_lba_transfer_bytes = max_lba_transfer_sectors * storage_sector_size

-- `checked_add` and `try_from` on u32.
abbrev pub checked_u32 : ℕ → Result RkUsbError ℕ
checked_u32 x = if ltb x (2 ^ 32) then ok x else err lba_overflow

-- `?` on a value that is no operation.
abbrev pub lift {ℓ} : {S : Type ℓ} {A : Type 0} → Result RkUsbError A → Action S RkUsbError A
lift r s = (r, s)

-- `#[from] rusb::Error`
abbrev pub from_usb {ℓ} :
    {S : Type ℓ} {A : Type 0} → Result UsbError A × S → Result RkUsbError A × S
from_usb (ok a, s) = (ok a, s)
from_usb (err e, s) = (err (usb e), s)

unfoldable pub advance_lba_by_bytes : ℕ → ℕ → Result RkUsbError ℕ
advance_lba_by_bytes pos bytes =
    let sectors = bytes / storage_sector_size in
    if ltb sectors (2 ^ 32) then checked_u32 (pos + sectors) else err lba_overflow

module _ (B : Bus) where
  -- `Instant::now()`
  abbrev pub now : Action B.State RkUsbError ℕ
  now s = let (t, s') = B.now s in (ok t, s')

  -- The time left; no time left is an error, and so is a deadline that has passed.
  unfoldable pub remaining_timeout : ℕ → Action B.State RkUsbError ℕ
  remaining_timeout deadline = do
    t ← now
    if ltb t deadline then pure (deadline - t) else fail (usb timeout)
