-- ===== src/Upgrade/Firmware/Executes.antt =====
-- The whole upgrade of a device that runs its loader.
use rkusb.Prelude.{
  ℕ, ◌+◌, ◌*◌, ◌^◌, ◌≤◌, ◌<◌, ◌≡◌, ◌∙◌, refl, ap, List, some, true, false, Result, ok, Ensures,
  ensures, Ensures-bind, Bool, length, le→not_ltb, lt→not_leb, arith,
}
use rkusb.Bus.{Bus}
use rkusb.Disk.{Disk}
use rkusb.Device.{RkDevice, RkUsbError}
use rkusb.Device.Commands.{RkFlashInfo, read_flash_info, lba_size}
use rkusb.Device.Commands.Queries.{read_storage_info-answers}
use rkusb.Drive.{ready, Link, allowance}
use rkusb.Drive.Queries.{Informant}
use rkusb.Storage.{IoError, RkBlockDevice}
use rkusb.Storage.Opening.Sizes.{try_from-answers}
use rkusb.Upgrade.Firmware.{
  Archive, Parameter, PartEntry, FwFile, Parts, from_io, from_rk_usb, check_parameter,
  logical_block_size, write_firmware, install,
}
use rkusb.Upgrade.Firmware.Images.{Installed, IsOutside}
use rkusb.Upgrade.Firmware.Installs.{write_files-Installed}

from_io-Ensures :
    {S A : Type 0} {Q : A → S → Type 0} {r : Result IoError A × S}
    → Ensures Q r
    → Ensures Q (from_io r)
from_io-Ensures (ensures q) = ensures q

from_rk_usb-Ensures :
    {S A : Type 0} {Q : A → S → Type 0} {r : Result RkUsbError A × S}
    → Ensures Q r
    → Ensures Q (from_rk_usb r)
from_rk_usb-Ensures (ensures q) = ensures q

module _ {B : Bus} {dev : RkDevice} (L : Link B dev) (I : Informant L) where
  -- What crate gpt is asked for: the same table twice, and no write to the disk.
  unfoldable pub IsTable : Parts B → ℕ → List PartEntry → Type 0
  IsTable X lb_size partitions =
      (writable : Bool) (d : RkBlockDevice) (s : B.State)
      → L.phase s ≡ ready
      → Ensures
          (λ got s'.
            (got.0 ≡ partitions)
            × (got.1.disk_size_bytes ≡ d.disk_size_bytes)
            × (got.1.timeout ≡ d.timeout)
            × (L.phase s' ≡ ready)
            × (L.disk s' ≡ L.disk s))
          (X.open_from_device dev writable lb_size d s)

  check_parameter-accepts :
      (param : Parameter) (content : List ℕ)
      → 2 < param.size
      → param.size ≤ 65536
      → param.content ≡ ok content
      → 2 ≤ length content
      → check_parameter (some param) ≡ ok tt
  check_parameter-accepts param content h1 h2 h3 h4 =
      rw
        (
          le→not_ltb 65536 param.size h2,
          lt→not_leb param.size 2 h1,
          h3,
          le→not_ltb (length content) 2 h4,
        )
        refl

  write_firmware-Installed :
      (X : Parts B) (fw : Archive) (info : RkFlashInfo) (lb_size : ℕ) (partitions : List PartEntry)
      (files : List (Result IoError FwFile)) (s : B.State) (disk disk' : Disk)
      → fw.files ≡ ok files
      → length (I.answer 0x1A) ≡ 11
      → read_flash_info (I.answer 0x1A) ≡ some info
      → IsTable X lb_size partitions
      → Installed partitions (info.flash_size * 512) files disk disk'
      → L.disk s ≡ disk
      → info.flash_size * 512 + 512 < 2 ^ 41
      → 7 * L.step < 5000
      → allowance L.step 8704 < 30000
      → L.phase s ≡ ready
      → Ensures
          (λ _ s'.
            (L.disk s' ≡ disk')
            × ((i : ℕ) → IsOutside partitions i → L.disk s' i ≡ disk i)
            × (L.phase s' ≡ ready))
          (write_firmware B X dev fw (some lb_size) s)
  unfolding IsTable
  write_firmware-Installed X fw info lb partitions files s disk disk' hf hl hi table installed hd hz
        h7 ht idle =
      Ensures-bind (from_io-Ensures (try_from-answers L I info s hl hi (omega arith) h7 idle))
        λ d s1 (made, phase1, disk1).
          Ensures-bind (table true d s1 phase1) λ got s2 (_, size2, limit2, phase2, disk2).
            Ensures-bind (table false got.1 s2 phase2)
              λ got' s3 (same, size3, limit3, phase3, disk3).
                let size : got'.1.disk_size_bytes ≡ info.flash_size * 512 =
                  size3 ∙ size2 ∙ ap (λ (e : RkBlockDevice). e.disk_size_bytes) made in
                let limit : got'.1.timeout ≡ 30000 =
                  limit3 ∙ limit2 ∙ ap (λ (e : RkBlockDevice). e.timeout) made in
                let left : L.disk s3 ≡ disk = disk3 ∙ disk2 ∙ disk1 ∙ hd in
                rw (hf, same)
                  (Ensures-bind
                    (write_files-Installed L partitions files got'.1 s3 disk'
                      (rw (size, left) installed) (omega arith) (omega arith) phase3)
                    λ _ s4 (written, outside, phase4).
                      ensures (written, λ i h. outside i h ∙ ap (λ (e : Disk). e i) left, phase4))

  -- The archive's files are installed.
  pub install-Installed :
      (X : Parts B) (fw_data : List ℕ) (param : Parameter) (content : List ℕ) (info : RkFlashInfo)
      (lb_size : ℕ) (partitions : List PartEntry) (files : List (Result IoError FwFile))
      (s : B.State) (disk disk' : Disk)
      → (X.archive fw_data).parameter ≡ ok (some param)
      → 2 < param.size
      → param.size ≤ 65536
      → param.content ≡ ok content
      → 2 ≤ length content
      → (X.archive fw_data).files ≡ ok files
      → length (I.answer 0x1A) ≡ 11
      → read_flash_info (I.answer 0x1A) ≡ some info
      → logical_block_size (lba_size info) ≡ some lb_size
      → IsTable X lb_size partitions
      → Installed partitions (info.flash_size * 512) files disk disk'
      → L.disk s ≡ disk
      → info.flash_size * 512 + 512 < 2 ^ 41
      → 7 * L.step < 5000
      → allowance L.step 8704 < 30000
      → L.phase s ≡ ready
      → Ensures
          (λ _ s'.
            (L.disk s' ≡ disk')
            × ((i : ℕ) → IsOutside partitions i → L.disk s' i ≡ disk i)
            × (L.phase s' ≡ ready))
          (install B X dev fw_data s)
  unfolding install
  install-Installed X fw_data param content info lb partitions files s disk disk' hparam h1 h2 h3 h4
        hf hl hi hlb table installed hd hz h7 ht idle =
      rw (hparam, check_parameter-accepts param content h1 h2 h3 h4)
        (Ensures-bind (from_rk_usb-Ensures (read_storage_info-answers L I info s hl hi h7 idle))
          λ got s1 (same, (phase, kept, time)).
            rw (same, hlb)
              (write_firmware-Installed X (X.archive fw_data) info lb partitions files s1 disk disk'
                hf hl hi table installed (kept ∙ hd) hz h7 ht phase))
