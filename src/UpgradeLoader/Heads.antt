-- ===== src/UpgradeLoader/Heads.antt =====
-- What an upgrade with a `FlashHead` leaves on the storage.
use rkusb.Prelude.{
  length, ℕ, ◌+◌, ◌*◌, ◌%◌, ◌^◌, ◌≤◌, ◌<◌, ◌≡◌, ◌∙◌, ap, List, ◌++◌, some, not, ok, ◌==◌, get_or,
  Ensures, ensures, Ensures-bind, Ensures-mono, lt→ltb, ne→not_==, arith,
}
use rkusb.Bus.{Bus}
use rkusb.Disk.{overlay}
use rkusb.Drive.{ready, Link, allowance-le}
use rkusb.Drive.Queries.{Informant}
use rkusb.Device.{RkDevice}
use rkusb.Device.Lba.Writes.{write_lba-overlay}
use rkusb.Device.Commands.Queries.{read_capability-answers}
use rkusb.Image.{RkBootImage, entry_loader, iter_entries, rc4_flag, size_of_header}
use rkusb.Idblock.{next_multiple_of, area, encrypt}
use rkusb.Idblock.Areas.{IsCipher}
use rkusb.Idblock.Build.Formats.{build_idblock-new}
use rkusb.Idblock.New.Layout.{build_idblock-layout}
use rkusb.UpgradeLoader.{
  Args, find_item, check_flash_head, exec, entry_flash_boot, entry_flash_data, entry_flash_head,
}
use rkusb.UpgradeLoader.Installs.{Ensures-from_rk_usb, timeout_to-left}

module _ {B : Bus} {dev : RkDevice} (L : Link B dev) (I : Informant L) where
  -- A device with the lowest bit of its second capability byte may have a head.
  check_flash_head-passes :
      (head : List ℕ) (deadline : ℕ) (s : B.State)
      → length (I.answer 0xAA) ≡ 8
      → get_or (I.answer 0xAA) 1 0 % 2 ≡ 1
      → L.clock s + 8 * L.step < deadline
      → L.phase s ≡ ready
      → Ensures
          (λ _ s'.
            (L.phase s' ≡ ready) × (L.disk s' ≡ L.disk s) × (L.clock s' ≤ L.clock s + 9 * L.step))
          (check_flash_head B dev (some head) deadline s)
  unfolding check_flash_head
  check_flash_head-passes head deadline s hl hbit ht idle =
      Ensures-bind (timeout_to-left L (7 * L.step) deadline s (omega arith))
        λ t s1 (ample, phase1, disk1, time1).
          Ensures-bind
            (Ensures-from_rk_usb (read_capability-answers L I t s1 hl ample (phase1 ∙ idle)))
            λ bytes s2 (same, (phase2, disk2, time2)).
              rw (same, ne→not_== (get_or (I.answer 0xAA) 1 0 % 2) 0 (omega arith))
                (ensures (phase2, disk2 ∙ disk1, omega arith))

  module _ (rc4 : List ℕ → List ℕ → List ℕ) (cipher : IsCipher rc4) (crc16 rk_crc : List ℕ → ℕ)
      (from_utf16_lossy : List ℕ → List ℕ) (size_of_time : ℕ) where
    -- An upgrade with an image that has a `FlashHead`, a boot and a data entry succeeds on a device
    -- with the capability for it, and leaves on the storage, from sector `lba` on, a block that
    -- decrypts to the head, the data and the boot code, each padded with zeros to a multiple of 2048
    -- bytes; no other byte changes. Premises: the image is longer than its header, the padded parts have less than 2^25 bytes together, the
    -- block ends below sector 2^32, the device follows the protocol, answers and is ready, the
    -- time limit is above 5000 calls of the bus, and the cipher undoes itself and keeps the length.
    pub exec-installs_head :
        (image : RkBootImage) (args : Args) (code content head : List ℕ) (s : B.State)
        → size_of_header size_of_time < length image.bytes
        → find_item (iter_entries from_utf16_lossy image entry_loader) entry_flash_boot ≡ ok code
        → find_item (iter_entries from_utf16_lossy image entry_loader) entry_flash_data ≡ ok content
        → find_item (iter_entries from_utf16_lossy image entry_loader) entry_flash_head ≡ ok head
        → length (I.answer 0xAA) ≡ 8
        → get_or (I.answer 0xAA) 1 0 % 2 ≡ 1
        → next_multiple_of (length head) 2048
            + next_multiple_of (length content) 2048
            + next_multiple_of (length code) 2048
          < 2 ^ 25
        → args.lba + 2 ^ 17 < 2 ^ 32
        → 5000 * L.step < args.timeout
        → L.phase s ≡ ready
        → Ensures
            (λ _ s'.
              (block : List ℕ) × (encrypt rc4 (not (rc4_flag size_of_time image == 0)) block
                ≡ area (next_multiple_of (length head) 2048) head
                  ++ (area (next_multiple_of (length content) 2048) content
                      ++ area (next_multiple_of (length code) 2048) code))
              × (L.disk s' ≡ overlay (L.disk s) (args.lba * 512) block)
              × (L.phase s' ≡ ready))
            (exec B dev rc4 crc16 rk_crc from_utf16_lossy size_of_time image args s)
    unfolding exec
    exec-installs_head image args code content head s long hcode hdata hhead hl hbit fits hlba
          patient idle =
        let enabled = not (rc4_flag size_of_time image == 0) in
        let (block, built, size, layout) =
          build_idblock-layout rc4 cipher head content code enabled (omega arith) in
        let deadline = (B.now s).0 + args.timeout in
        let early = L.drive.now-early s in
        let begun = L.drive.now-clock s in
        rw
          (
            hcode,
            hdata,
            hhead,
            lt→ltb _ _ long,
            build_idblock-new rc4 crc16 rk_crc head content code enabled,
            built,
          )
          (Ensures-bind
            (check_flash_head-passes head deadline (B.now s).1 hl hbit (omega arith)
              (L.drive.now-phase s ∙ idle))
            λ _ s1 (phase1, disk1, time1).
              Ensures-bind (timeout_to-left L (4700 * L.step) deadline s1 (omega arith))
                λ t s2 (ample, phase2, disk2, _).
                  let bound = allowance-le L.step (length block) 33554432 (omega arith) in
                  Ensures-mono
                    (Ensures-from_rk_usb (
                      write_lba-overlay L args.lba block args.subcode t s2 (omega arith)
                        (omega arith) (phase2 ∙ phase1)))
                    λ _ s3 (phase3, disk3, _). (
                      block,
                      layout,
                      disk3
                          ∙ ap (λ d. overlay d (args.lba * 512) block)
                              (disk2 ∙ disk1 ∙ L.drive.now-disk s),
                      phase3,
                    ))
