-- ===== src/UpgradeLoader.antt =====
-- The subcommand that writes a new first boot stage (src/bin/rktools/subcommands/upgrade_loader.rs),
-- from an opened device and a parsed boot image on. Files and the choice of the device are not here.
pub mod Installs
pub mod Heads
use rkusb.Prelude.{
  same_name, ℕ, ◌+◌, ◌-◌, ◌%◌, List, [], ◌∷◌, Bool, true, false, not, ◌&&◌, Option, none, some,
  Result, ok, err, Action, pure, fail, ltb, ◌==◌, if◌then◌else◌, ◌>>=◌, ◌>>◌, get_or, length,
}
use rkusb.Bus.{Bus, timeout}
use rkusb.Device.{RkDevice, RkUsbError, usb}
use rkusb.Device.Lba.{write_lba}
use rkusb.Device.Commands.{read_capability}
use rkusb.DeviceChoice.{DeviceSelectionError}
use rkusb.Image.{
  ImageError, RkBootImage, Item, entry_loader, iter_entries, rc4_flag, size_of_header,
}
use rkusb.Idblock.{IdBlockError}
use rkusb.Idblock.Build.{build_idblock}

abbrev pub entry_flash_boot : List ℕ
entry_flash_boot = b'F' ∷ b'l' ∷ b'a' ∷ b's' ∷ b'h' ∷ b'B' ∷ b'o' ∷ b'o' ∷ b't' ∷ []

abbrev pub entry_flash_data : List ℕ
entry_flash_data = b'F' ∷ b'l' ∷ b'a' ∷ b's' ∷ b'h' ∷ b'D' ∷ b'a' ∷ b't' ∷ b'a' ∷ []

abbrev pub entry_flash_head : List ℕ
entry_flash_head = b'F' ∷ b'l' ∷ b'a' ∷ b's' ∷ b'h' ∷ b'H' ∷ b'e' ∷ b'a' ∷ b'd' ∷ []

-- The errors that the steps modelled here make; `panicked` is a panic, and `endless` a search that
-- goes on.
pub data UpgradeLoaderError : Type 0 where
  device_selection : DeviceSelectionError → UpgradeLoaderError
  rk_usb : RkUsbError → UpgradeLoaderError
  id_block : IdBlockError → UpgradeLoaderError
  missing_entry : List ℕ → UpgradeLoaderError
  flash_head_not_supported : UpgradeLoaderError
  image : ImageError → UpgradeLoaderError
  panicked : UpgradeLoaderError
  endless : UpgradeLoaderError

pub record Args : Type 0 where
  pub lba : ℕ
  pub subcode : ℕ
  pub timeout : ℕ

-- `find_map` over the entries: the first with the name.
unfoldable pub find_item : List (Option Item) → List ℕ → Result UpgradeLoaderError (List ℕ)
find_item [] name = err (missing_entry name)
find_item (none ∷ items) name = err panicked
find_item (some item ∷ items) name =
    let rest = find_item items name in if same_name item.name name then ok item.content else rest

-- `.ok()`, which keeps no error but does not stop a panic.
abbrev pub ok_or_none :
    Result UpgradeLoaderError (List ℕ) → Result UpgradeLoaderError (Option (List ℕ))
ok_or_none (ok content) = ok (some content)
ok_or_none (err panicked) = err panicked
ok_or_none (err (rk_usb e)) = ok none
ok_or_none (err (id_block e)) = ok none
ok_or_none (err (missing_entry name)) = ok none
ok_or_none (err flash_head_not_supported) = ok none
ok_or_none (err (device_selection e)) = ok none
ok_or_none (err (image e)) = ok none
ok_or_none (err endless) = err endless

abbrev pub from_rk_usb {ℓ} :
    {S : Type ℓ} {A : Type 0} → Result RkUsbError A × S → Result UpgradeLoaderError A × S
from_rk_usb (ok a, s) = (ok a, s)
from_rk_usb (err e, s) = (err (rk_usb e), s)

abbrev pub from_id_block : {A : Type 0} → Result IdBlockError A → Result UpgradeLoaderError A
from_id_block (ok a) = ok a
from_id_block (err e) = err (id_block e)

abbrev pub lift {ℓ} :
    {S : Type ℓ} {A : Type 0} → Result UpgradeLoaderError A → Action S UpgradeLoaderError A
lift r s = (r, s)

-- The assertion of `boot_header_ptr`: the image is longer than its header.
abbrev pub header_asserted {ℓ} :
    {S : Type ℓ} → ℕ → RkBootImage → Action S UpgradeLoaderError (Unit {0})
header_asserted size_of_time boot_img =
    if ltb (size_of_header size_of_time) (length boot_img.bytes) then pure tt else fail panicked

module _ (B : Bus) (dev : RkDevice) where
  abbrev pub now : Action B.State UpgradeLoaderError ℕ
  now s = let (t, s') = B.now s in (ok t, s')

  -- The closure that `timeout_to` (src/bin/rktools/util.rs) returns.
  pub timeout_to : ℕ → Action B.State UpgradeLoaderError ℕ
  timeout_to deadline = do
    t ← now
    if ltb t deadline then pure (deadline - t) else fail (rk_usb (usb timeout))

  abbrev pub capability : ℕ → Action B.State UpgradeLoaderError (List ℕ)
  capability t s = from_rk_usb (read_capability B dev t s)

  -- An image with a `FlashHead` needs a device with the lowest bit of its second capability byte.
  pub check_flash_head : Option (List ℕ) → ℕ → Action B.State UpgradeLoaderError (Unit {0})
  check_flash_head none deadline = pure tt
  check_flash_head (some _) deadline = do
    t ← timeout_to deadline
    bytes ← capability t
    if get_or bytes 1 0 % 2 == 0 then fail flash_head_not_supported else pure tt

  abbrev pub write_idblock : ℕ → List ℕ → ℕ → ℕ → Action B.State UpgradeLoaderError (Unit {0})
  write_idblock lba bytes subcode t s = from_rk_usb (write_lba B dev lba bytes subcode t s)

  -- The crates' functions, the time's size in a header, and then the image and the arguments.
  pub exec :
      (List ℕ → List ℕ → List ℕ)
      → (List ℕ → ℕ)
      → (List ℕ → ℕ)
      → (List ℕ → List ℕ)
      → ℕ
      → RkBootImage
      → Args
      → Action B.State UpgradeLoaderError (Unit {0})
  exec rc4 crc16 rk_crc from_utf16_lossy size_of_time boot_img args =
      let items = iter_entries from_utf16_lossy boot_img entry_loader in
      (do
        loader_code ← lift (find_item items entry_flash_boot)
        loader_data ← lift (find_item items entry_flash_data)
        loader_head ← lift (ok_or_none (find_item items entry_flash_head))
        header_asserted size_of_time boot_img
        let rc4_enabled = not (rc4_flag size_of_time boot_img == 0)
        start ← now
        let deadline = start + args.timeout
        check_flash_head loader_head deadline
        idblock_data ← lift (
            from_id_block
              (build_idblock rc4 crc16 rk_crc loader_head loader_data loader_code rc4_enabled))
        t ← timeout_to deadline
        write_idblock args.lba idblock_data args.subcode t)
