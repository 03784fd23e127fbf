-- ===== src/UpgradeLoader/Installs.antt =====
-- What an upgrade of the loader leaves on the storage.
use rkusb.Prelude.{
  length, ℕ, ◌+◌, ◌*◌, ◌/◌, ◌^◌, ◌≤◌, ◌<◌, ◌≡◌, ◌∙◌, ap, List, not, Result, ok, err, ◌==◌, Ensures,
  ensures, Ensures-bind, Ensures-mono, lt→ltb, arith,
}
use rkusb.Bus.{Bus}
use rkusb.Disk.{overlay}
use rkusb.Drive.{ready, Link, allowance-le}
use rkusb.Device.{RkDevice, RkUsbError}
use rkusb.Device.Lba.Writes.{write_lba-overlay}
use rkusb.Image.{RkBootImage, entry_loader, iter_entries, rc4_flag, size_of_header}
use rkusb.Idblock.{encrypt}
use rkusb.Idblock.Areas.{IsCipher}
use rkusb.Idblock.Build.Formats.{build_idblock-old}
use rkusb.Idblock.Old.Layout.{IsIdblock, padded, build_idblock-IsIdblock}
use rkusb.UpgradeLoader.{
  Args, missing_entry, from_rk_usb, find_item, timeout_to, check_flash_head, exec, entry_flash_boot,
  entry_flash_data, entry_flash_head,
}

pub Ensures-from_rk_usb :
    {S A : Type 0} {Q : A → S → Type 0} {r : Result RkUsbError A × S}
    → Ensures Q r
    → Ensures Q (from_rk_usb r)
Ensures-from_rk_usb (ensures q) = ensures q

-- What is left of a deadline that lies a call of the bus and `k` behind the time.
pub timeout_to-left :
    {B : Bus} {dev : RkDevice} (L : Link B dev) (k deadline : ℕ) (s : B.State)
    → L.clock s + L.step + k < deadline
    → Ensures
        (λ t s'.
          (k < t)
          × (L.phase s' ≡ L.phase s)
          × (L.disk s' ≡ L.disk s)
          × (L.clock s' ≤ L.clock s + L.step))
        (timeout_to B dev deadline s)
unfolding timeout_to
timeout_to-left {B} L k deadline s h =
    rw (lt→ltb (B.now s).0 deadline (omega (arith, L.drive.now-late s))) (
      ensures (
        omega (arith, L.drive.now-late s),
        L.drive.now-phase s,
        L.drive.now-disk s,
        L.drive.now-clock s,
      ))

module _ (rc4 : List ℕ → List ℕ → List ℕ) (cipher : IsCipher rc4) (crc16 rk_crc : List ℕ → ℕ)
    (crc16_lt : (xs : List ℕ) → crc16 xs < 2 ^ 16) (rk_crc_lt : (xs : List ℕ) → rk_crc xs < 2 ^ 32)
    (from_utf16_lossy : List ℕ → List ℕ) (size_of_time : ℕ) where
  -- An upgrade with an image that has a boot and a data entry and no `FlashHead` succeeds, and
  -- leaves on the storage, from sector `lba` on, an old IDBlock with these two parts: tag, flag, boot
  -- offsets, sizes, the constants of sector 1, marks and checksums stand at their places, every other
  -- byte of the header sectors is 0, and both parts follow, padded; encrypted if the image's
  -- flag says so. No other byte of the disk changes. Premises: the image is longer than its header, the
  -- parts have less than 65536 sectors together when padded, the block ends well below sector
  -- 2^32, the device is ready, and the time limit is above 5000 calls of the bus.
  -- The device follows the bus protocol, and a call of the bus takes `step` at most (`Link`).
  -- The cipher undoes itself and keeps the length, and the checksums fit 16 and 32 bits.
  pub exec-installs :
      {B : Bus} {dev : RkDevice} (L : Link B dev) (image : RkBootImage) (args : Args)
      (code content : List ℕ) (s : B.State)
      → size_of_header size_of_time < length image.bytes
      → find_item (iter_entries from_utf16_lossy image entry_loader) entry_flash_boot ≡ ok code
      → find_item (iter_entries from_utf16_lossy image entry_loader) entry_flash_data ≡ ok content
      → find_item (iter_entries from_utf16_lossy image entry_loader) entry_flash_head
        ≡ err (missing_entry entry_flash_head)
      → padded content / 512 + padded code / 512 < 2 ^ 16
      → args.lba + 2 ^ 17 < 2 ^ 32
      → 5000 * L.step < args.timeout
      → L.phase s ≡ ready
      → Ensures
          (λ _ s'.
            (block : List ℕ) × IsIdblock
              (encrypt rc4 (not (rc4_flag size_of_time image == 0)))
              crc16
              rk_crc
              (not (rc4_flag size_of_time image == 0))
              content
              code
              block
            × (L.disk s' ≡ overlay (L.disk s) (args.lba * 512) block)
            × (L.phase s' ≡ ready))
          (exec B dev rc4 crc16 rk_crc from_utf16_lossy size_of_time image args s)
  unfolding exec check_flash_head
  exec-installs {B} L image args code content s long hcode hdata hhead fits hlba patient idle =
      let items = iter_entries from_utf16_lossy image entry_loader in
      let enabled = not (rc4_flag size_of_time image == 0) in
      let (block, built, accepted) =
        build_idblock-IsIdblock rc4 cipher crc16 rk_crc crc16_lt rk_crc_lt content code enabled
          fits in
      rw
        (
          hcode,
          hdata,
          hhead,
          lt→ltb _ _ long,
          build_idblock-old rc4 crc16 rk_crc content code enabled,
          built,
        )
        (Ensures-bind
          (timeout_to-left L (4700 * L.step) _ (B.now s).1
            (omega (arith, L.drive.now-early s, L.drive.now-clock s)))
          λ t s1 (ample, phase1, disk1, _).
            let bound : length block ≤ 33556000 = omega (arith, accepted.size) in
            Ensures-mono
              (Ensures-from_rk_usb (
                write_lba-overlay L args.lba block args.subcode t s1 (omega (arith, accepted.size))
                  (omega (arith, allowance-le L.step (length block) 33556000 bound))
                  (phase1 ∙ L.drive.now-phase s ∙ idle)))
              λ _ s2 (phase2, disk2, _). (
                block,
                accepted,
                disk2 ∙ ap (λ d. overlay d (args.lba * 512) block) (disk1 ∙ L.drive.now-disk s),
                phase2,
              ))
