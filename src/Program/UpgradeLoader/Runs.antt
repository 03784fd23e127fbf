-- ===== src/Program/UpgradeLoader/Runs.antt =====
-- The upgrade of a loader, from the arguments to the disk of the device.
use rkusb.Prelude.{
  ℕ, ◌+◌, ◌*◌, ◌/◌, ◌%◌, ◌^◌, ◌<◌, ◌≡◌, ◌∙◌, ap, List, ◌++◌, not, ◌==◌, Bool, Result, ok, err,
  Ensures, Ensures-bind, Ensures-mono, length, get_or,
}
use rkusb.Disk.{Disk, overlay}
use rkusb.Device.{RkDevice}
use rkusb.DeviceChoice.{UsbDevice}
use rkusb.Drive.{ready, Link}
use rkusb.Drive.Queries.{Informant}
use rkusb.Idblock.{next_multiple_of, area, encrypt}
use rkusb.Idblock.Areas.{IsCipher}
use rkusb.Idblock.Old.Layout.{IsIdblock, padded}
use rkusb.Image.{RkBootImage, entry_loader, iter_entries, rc4_flag, size_of_header, new_boot_image}
use rkusb.Program.UpgradeLoader.{Sums, Args, loader_errors, exec_upgrade_loader}
use rkusb.Session.{Host, State}
use rkusb.Session.Connects.{IsPlugged, connect-only, on_bus-Ensures}
use rkusb.UpgradeLoader.{
  UpgradeLoaderError, missing_entry, find_item, exec, entry_flash_boot, entry_flash_data,
  entry_flash_head,
}
use rkusb.UpgradeLoader.Installs.{exec-installs}
use rkusb.UpgradeLoader.Heads.{exec-installs_head}

module _ (X : Host) {dev : RkDevice} (L : Link X.bus dev) (sums : Sums) (cipher : IsCipher sums.rc4)
    (fuel : ℕ) (args : Args) (device : UsbDevice) (image : RkBootImage) (code content : List ℕ)
    (disk : Disk) (P : State X → Type 0)
    (plugged : IsPlugged X args.bus args.addr device dev P
      (λ w. (L.phase w.1 ≡ ready) × (L.disk w.1 ≡ disk)))
    (parsed : new_boot_image sums.size_of_time args.mmap ≡ ok image) where
  abbrev entry_of : List ℕ → Result UpgradeLoaderError (List ℕ)
  entry_of name = find_item (iter_entries sums.from_utf16_lossy image entry_loader) name

  abbrev is_encrypted : Bool
  is_encrypted = not (rc4_flag sums.size_of_time image == 0)

  exec_upgrade_loader-runs :
      {Q : State X → Type 0} (w : State X)
      → ((h : X.hub.State) (s : X.bus.State)
          → L.phase s ≡ ready
          → L.disk s ≡ disk
          → Ensures
              (λ _ s'. Q (h, s'))
              (exec X.bus dev sums.rc4 sums.crc16 sums.rk_crc sums.from_utf16_lossy
                sums.size_of_time image args.installs s))
      → P w
      → Ensures (λ _ w'. Q w') (exec_upgrade_loader X sums fuel args w)
  unfolding exec_upgrade_loader
  exec_upgrade_loader-runs w runs p =
      Ensures-bind (connect-only X loader_errors args.bus args.addr args.wait fuel plugged w p)
        λ got w1 (_, same, (phase, kept)).
          rw (same, parsed)
            (on_bus-Ensures X
              (exec X.bus dev sums.rc4 sums.crc16 sums.rk_crc sums.from_utf16_lossy
                sums.size_of_time image args.installs)
              w1 (runs w1.0 w1.1 phase kept))

  -- An upgrade of the loader with an image that has a boot and a data entry and no `FlashHead`
  -- succeeds, and leaves on the storage, from sector `lba` on, an old IDBlock with these two parts:
  -- tag, flag, boot offsets, sizes, the constants of sector 1, marks and checksums stand at their
  -- places, every other byte of the header sectors is 0, and both parts follow, padded; encrypted if
  -- the image's flag says so. No other byte of the disk changes.
  -- Premises: one device has the bus and the address, can be opened and is ready then; the file is a
  -- boot image that is longer than its header; the parts have less than 65536 sectors together when padded, the block ends well
  -- below sector 2^32, and the time limit is above 5000 calls of the bus; the device follows the
  -- protocol; the cipher undoes itself and keeps the length, and the checksums fit 16 and 32 bits.
  pub exec_upgrade_loader-IsIdblock :
      (w : State X)
      → ((xs : List ℕ) → sums.crc16 xs < 2 ^ 16)
      → ((xs : List ℕ) → sums.rk_crc xs < 2 ^ 32)
      → size_of_header sums.size_of_time < length image.bytes
      → entry_of entry_flash_boot ≡ ok code
      → entry_of entry_flash_data ≡ ok content
      → entry_of entry_flash_head ≡ err (missing_entry entry_flash_head)
      → padded content / 512 + padded code / 512 < 2 ^ 16
      → args.installs.lba + 2 ^ 17 < 2 ^ 32
      → 5000 * L.step < args.installs.timeout
      → P w
      → Ensures
          (λ _ w'.
            (block : List ℕ) × IsIdblock
              (encrypt sums.rc4 is_encrypted)
              sums.crc16
              sums.rk_crc
              is_encrypted
              content
              code
              block
            × (L.disk w'.1 ≡ overlay disk (args.installs.lba * 512) block)
            × (L.phase w'.1 ≡ ready))
          (exec_upgrade_loader X sums fuel args w)
  exec_upgrade_loader-IsIdblock w h16 h32 long hcode hdata hhead fits hlba patient p =
      exec_upgrade_loader-runs w
        (λ h s phase kept.
          Ensures-mono
            (exec-installs sums.rc4 cipher sums.crc16 sums.rk_crc h16 h32 sums.from_utf16_lossy
              sums.size_of_time L image args.installs code content s long hcode hdata hhead fits
              hlba patient phase)
            λ _ s' (block, accepted, written, phase'). (
              block,
              accepted,
              written ∙ ap (λ d. overlay d (args.installs.lba * 512) block) kept,
              phase',
            ))
        p

  -- An upgrade of the loader with an image that has a `FlashHead`, a boot and a data entry succeeds
  -- on a device with the capability for it, and leaves on the storage, from sector `lba` on, a block
  -- that decrypts to the head, the data and the boot code, each padded with zeros to a multiple of
  -- 2048 bytes; no other byte changes. Premises: one device has the bus and the address, can be opened
  -- and is ready then; the file is a boot image that is longer than its header; the padded parts have less than 2^25 bytes together,
  -- the block ends below sector 2^32, the device follows the protocol and answers, the time limit is
  -- above 5000 calls of the bus, and the cipher undoes itself and keeps the length.
  pub exec_upgrade_loader-head :
      (I : Informant L) (head : List ℕ) (w : State X)
      → size_of_header sums.size_of_time < length image.bytes
      → entry_of entry_flash_boot ≡ ok code
      → entry_of entry_flash_data ≡ ok content
      → entry_of entry_flash_head ≡ ok head
      → length (I.answer 0xAA) ≡ 8
      → get_or (I.answer 0xAA) 1 0 % 2 ≡ 1
      → next_multiple_of (length head) 2048
          + next_multiple_of (length content) 2048
          + next_multiple_of (length code) 2048
        < 2 ^ 25
      → args.installs.lba + 2 ^ 17 < 2 ^ 32
      → 5000 * L.step < args.installs.timeout
      → P w
      → Ensures
          (λ _ w'.
            (block : List ℕ) × (encrypt sums.rc4 is_encrypted block
              ≡ area (next_multiple_of (length head) 2048) head
                ++ (area (next_multiple_of (length content) 2048) content
                    ++ area (next_multiple_of (length code) 2048) code))
            × (L.disk w'.1 ≡ overlay disk (args.installs.lba * 512) block)
            × (L.phase w'.1 ≡ ready))
          (exec_upgrade_loader X sums fuel args w)
  exec_upgrade_loader-head I head w long hcode hdata hhead hl hbit fits hlba patient p =
      exec_upgrade_loader-runs w
        (λ h s phase kept.
          Ensures-mono
            (exec-installs_head L I sums.rc4 cipher sums.crc16 sums.rk_crc sums.from_utf16_lossy
              sums.size_of_time image args.installs code content head s long hcode hdata hhead hl
              hbit fits hlba patient phase)
            λ _ s' (block, layout, written, phase'). (
              block,
              layout,
              written ∙ ap (λ d. overlay d (args.installs.lba * 512) block) kept,
              phase',
            ))
        p
