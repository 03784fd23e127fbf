-- ===== src/Device/Commands.antt =====
-- The other commands of `RkDevice` (src/lib.rs): vendor requests, reset, capability, flash
-- information and the choice of the storage; and how a device is opened.
pub mod Downloads
pub mod Opening
pub mod Queries
use rkusb.Prelude.{
  ℕ, zero, suc, ◌+◌, ◌-◌, ◌*◌, ◌/◌, ◌%◌, List, [], ◌∷◌, ◌++◌, Option, none, some, Result, ok, err,
  Action, pure, fail, ltb, leb, ◌==◌, if◌then◌else◌, ◌>>=◌, ◌>>◌, length, take, drop, get_or,
  replicate, chunks,
}
use rkusb.Prelude.Bytes.{from_le}
use rkusb.Bus.{Bus, io, not_found}
use rkusb.Usb.{Cbw, with_opcode}
use rkusb.Device.{
  RkUsbError, usb, duplicate_bulk_endpoint, invalid_flash_info_length, RkDevice, from_usb,
}
use rkusb.Device.Transaction.{cbw_transaction}
use rkusb.Device.Raw.{random_tag}
use rkusb.Image.{RkBootImage, Item, entry_471, entry_472, iter_entries}

-- Five seconds, in milliseconds.
abbrev pub usb_timeout : ℕ
usb_timeout = 5000

-- The packed layout of 11 bytes.
pub record RkFlashInfo : Type 0 where
  pub flash_size : ℕ
  pub block_size : ℕ
  pub page_size : ℕ
  pub ecc_bits : ℕ
  pub access_time : ℕ
  pub manufacture : ℕ
  pub flash_mask : ℕ

abbrev pub size_of_flash_info : ℕ
size_of_flash_info = 11

unfoldable pub lba_size : RkFlashInfo → ℕ
lba_size info = if leb info.manufacture 200 then 1 else info.manufacture - 200

-- `RkFlashInfo::try_read_from_bytes`: another length is refused.
unfoldable pub read_flash_info : List ℕ → Option RkFlashInfo
read_flash_info bytes =
    if length bytes == size_of_flash_info
    then some (record {
      flash_size = from_le (take 4 bytes);
      block_size = from_le (take 2 (drop 4 bytes));
      page_size = get_or bytes 6 0;
      ecc_bits = get_or bytes 7 0;
      access_time = get_or bytes 8 0;
      manufacture = get_or bytes 9 0;
      flash_mask = get_or bytes 10 0;
    })
    else none

-- An endpoint of the interface: whether it is a bulk endpoint, whether it is an input, its address.
pub data Endpoint : Type 0 where
  bulk_input bulk_output : ℕ → Endpoint
  other_endpoint : Endpoint

-- `OnceCell::set`: a cell that is set refuses a second value.
abbrev pub set_once : Option ℕ → ℕ → Result RkUsbError (Option ℕ)
set_once none address = ok (some address)
set_once (some _) address = err duplicate_bulk_endpoint

-- The loop of `open` over the endpoints, with the two cells.
pub find_endpoints : List Endpoint → Option ℕ → Option ℕ → Result RkUsbError RkDevice
find_endpoints [] (some i) (some o) = ok (record { bulk_in = i; bulk_out = o })
find_endpoints [] (some i) none = err (usb not_found)
find_endpoints [] none o = err (usb not_found)
find_endpoints (bulk_input a ∷ es) i o = elim (set_once i a) [
  | ok i' ↦ find_endpoints es i' o
  | err e ↦ err e
]
find_endpoints (bulk_output a ∷ es) i o = elim (set_once o a) [
  | ok o' ↦ find_endpoints es i o'
  | err e ↦ err e
]
find_endpoints (other_endpoint ∷ es) i o = find_endpoints es i o

-- `u32::trailing_zeros`, of a number that is not 0. `fuel` is the width.
pub trailing_zeros : ℕ → ℕ → ℕ
trailing_zeros zero x = 0
trailing_zeros (suc fuel) x =
    let rest = suc (trailing_zeros fuel (x / 2)) in if x % 2 == 0 then rest else 0

pub selected_storage : ℕ → Option ℕ
selected_storage bits = if bits == 0 then none else some (trailing_zeros 32 bits)

-- The storages that the library has names for, and their codes.
pub data RkStorageType : Type 0 where
  emmc sd_0 sd_1 nand spi_nand spi_nor sata pcie ufs : RkStorageType

pub storage_code : RkStorageType → ℕ
storage_code emmc = 1
storage_code sd_0 = 2
storage_code sd_1 = 3
storage_code nand = 7
storage_code spi_nand = 8
storage_code spi_nor = 9
storage_code sata = 10
storage_code pcie = 11
storage_code ufs = 12

-- How `download_boot` stops early: with an error, or in a panic of the iterator.
pub data Stop : Type 0 where
  failed : RkUsbError → Stop
  panicked : Stop

abbrev pub or_stop {ℓ} :
    {S : Type ℓ} → Result RkUsbError (Unit {0}) × S → Result Stop (Unit {0}) × S
or_stop (ok a, s) = (ok a, s)
or_stop (err e, s) = (err (failed e), s)

module _ (B : Bus) where
  abbrev pub write_control : ℕ → List ℕ → Action B.State RkUsbError ℕ
  write_control request chunk s = from_usb (B.write_control 0x40 0xC 0 request chunk usb_timeout s)

  pub send_chunks : ℕ → List (List ℕ) → Action B.State RkUsbError (Unit {0})
  send_chunks request [] = pure tt
  send_chunks request (chunk ∷ rest) = do
    n ← write_control request chunk
    if n == length chunk then send_chunks request rest else fail (usb io)

  -- `crc16` is of crate crc. The checksum follows the data, high byte first.
  pub vendor_request : (List ℕ → ℕ) → ℕ → List ℕ → Action B.State RkUsbError (Unit {0})
  vendor_request crc16 request bytes =
      send_chunks request
        (chunks 4096 (bytes ++ (crc16 bytes / 256 % 256 ∷ crc16 bytes % 256 ∷ [])))

  abbrev pub sleep : ℕ → Action B.State Stop (Unit {0})
  sleep delay s = (ok tt, B.sleep delay s)

  abbrev pub vendor_item : (List ℕ → ℕ) → ℕ → Item → Action B.State Stop (Unit {0})
  vendor_item crc16 request item s = or_stop (vendor_request crc16 request item.content s)

  -- One of the two loops of `download_boot`.
  pub download_items : (List ℕ → ℕ) → ℕ → List (Option Item) → Action B.State Stop (Unit {0})
  download_items crc16 request [] = pure tt
  download_items crc16 request (none ∷ rest) = fail panicked
  download_items crc16 request (some item ∷ rest) = do
    vendor_item crc16 request item
    sleep item.delay
    download_items crc16 request rest

  pub download_boot :
      (List ℕ → ℕ) → (List ℕ → List ℕ) → RkBootImage → Action B.State Stop (Unit {0})
  download_boot crc16 from_utf16_lossy image = do
    download_items crc16 0x0471 (iter_entries from_utf16_lossy image entry_471)
    download_items crc16 0x0472 (iter_entries from_utf16_lossy image entry_472)

module _ (B : Bus) (dev : RkDevice) where
  -- A command without data, with a subcode in its block.
  pub subcode_command : ℕ → ℕ → Action B.State RkUsbError (Unit {0})
  subcode_command opcode subcode = do
    tag ← random_tag B
    let cbw = with_opcode tag opcode
    let cb = cbw.cb
    let cbw' = record cbw { cb = record cb { reserved = subcode } }
    _ ← cbw_transaction B dev cbw' none none usb_timeout
    pure tt

  pub reset_device : ℕ → Action B.State RkUsbError (Unit {0})
  reset_device subcode = subcode_command 0xff subcode

  pub switch_storage : ℕ → Action B.State RkUsbError (Unit {0})
  switch_storage storage = subcode_command 0x2A storage

  pub switch_storage_type : RkStorageType → Action B.State RkUsbError (Unit {0})
  switch_storage_type storage = switch_storage (storage_code storage)

  -- A command that announces `n` bytes and reads into a buffer of `size` bytes.
  pub input_command : ℕ → ℕ → ℕ → ℕ → Action B.State RkUsbError (ℕ × List ℕ)
  input_command opcode n size timeout = do
    tag ← random_tag B
    let cbw = with_opcode tag opcode
    let cbw' = record cbw { data_transfer_length = n }
    cbw_transaction B dev cbw' none (some (replicate size 0)) timeout

  pub read_capability : ℕ → Action B.State RkUsbError (List ℕ)
  read_capability timeout = do (_, capability) ← input_command 0xAA 8 8 timeout; pure capability

  pub read_storage_info : Action B.State RkUsbError RkFlashInfo
  read_storage_info = do
    (info_len, info_buf) ← input_command 0x1A size_of_flash_info 512 usb_timeout
    if leb info_len (length info_buf)
        then (elim (read_flash_info (take info_len info_buf)) [
          | none ↦ fail (invalid_flash_info_length info_len)
          | some info ↦ pure info
        ])
        else fail (invalid_flash_info_length info_len)

  pub read_storage : Action B.State RkUsbError (Option ℕ)
  read_storage = do
    (_, bits) ← input_command 0x2B 4 4 usb_timeout
    pure (selected_storage (from_le bits))
