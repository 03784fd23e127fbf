-- ===== src/Upgrade/Command/Runs.antt =====
-- The whole upgrade, from the arguments to the disk of the device.
use rkusb.Prelude.{
  ℕ, ◌+◌, ◌*◌, ◌^◌, ◌≤◌, ◌<◌, ◌≡◌, ◌≢◌, refl, List, map, Option, some, Result, ok, Ensures, ensures,
  Ensures-bind, Ensures-mono, length,
}
use rkusb.Disk.{Disk}
use rkusb.Bus.{UsbError}
use rkusb.Device.{RkDevice}
use rkusb.Device.Commands.{Stop, RkFlashInfo, read_flash_info, lba_size, download_boot}
use rkusb.Device.Commands.Downloads.{ControlLog, download_boot-logs}
use rkusb.DeviceType.{RkUsbType, DeviceDescriptor, unknown, maskrom, loader, msc, detect}
use rkusb.DeviceChoice.{UsbDevice}
use rkusb.Drive.{ready, Link, allowance}
use rkusb.Drive.Queries.{Informant}
use rkusb.Image.{RkBootImage, Item, entry_471, entry_472, iter_entries}
use rkusb.Image.Firmware.{RkFwImage, new_fw_image, boot_data}
use rkusb.Session.{Host, State}
use rkusb.Session.Connects.{IsPlugged, connect-only, on_bus-Ensures}
use rkusb.Storage.{IoError}
use rkusb.Upgrade.Firmware.{
  PartEntry, FwFile, Parameter, Parts, logical_block_size, from_stop, install, lift,
}
use rkusb.Upgrade.Firmware.Images.{Installed, IsOutside}
use rkusb.Upgrade.Firmware.Executes.{IsTable, install-Installed}
use rkusb.Upgrade.Command.{Args, upgrade_errors, described, boot_device, exec}

-- How the opened device comes to run its loader: it does so already; or it takes the download, and
-- is listed afterwards at its old place and can be opened.
pub data Boots (X : Host) (parts : Parts X.bus) (boot : RkBootImage) (selected : UsbDevice)
    (opened rkdev : RkDevice) (P Q : State X → Type 0) : RkUsbType → Type 1 where
  running :
      {mode : RkUsbType}
      → mode ≢ maskrom
      → opened ≡ rkdev
      → ((w : State X) → P w → Q w)
      → Boots X parts boot selected opened rkdev P Q mode
  downloaded :
      (C : ControlLog X.bus) (items_471 items_472 : List Item) (again : UsbDevice)
      (R : State X → Type 0)
      → iter_entries parts.from_utf16_lossy boot entry_471 ≡ map some items_471
      → iter_entries parts.from_utf16_lossy boot entry_472 ≡ map some items_472
      → ((w : State X) → P w → C.holds w.1)
      → ((w : State X) (s : X.bus.State) → P w → C.holds s → R (w.0, s))
      → IsPlugged X (some selected.bus_number) (some selected.address) again rkdev R Q
      → Boots X parts boot selected opened rkdev P Q maskrom

from_stop-Ensures :
    {S A : Type 0} {Q : A → S → Type 0} {r : Result Stop A × S}
    → Ensures Q r
    → Ensures Q (from_stop r)
from_stop-Ensures (ensures q) = ensures q

described-Ensures :
    {S : Type 0} (r : Result UsbError DeviceDescriptor) (desc : DeviceDescriptor) (s : S)
    → r ≡ ok desc
    → Ensures (λ got s'. (got ≡ desc) × (s' ≡ s)) (lift (described r) s)
described-Ensures r desc s h = rw h (ensures (refl, refl))

module _ (X : Host) (parts : Parts X.bus) where
  boot_device-boots :
      {boot : RkBootImage} {selected : UsbDevice} {opened rkdev : RkDevice} {P Q : State X → Type 0}
      (fuel : ℕ) (wait : Option ℕ) (mode : RkUsbType)
      → Boots X parts boot selected opened rkdev P Q mode
      → (w : State X) → P w
      → Ensures
          (λ got w'. (got ≡ rkdev) × Q w')
          (boot_device X parts fuel wait mode boot selected opened w)
  unfolding boot_device
  boot_device-boots fuel wait maskrom (running other same keeps) w p = absurd (other refl)
  boot_device-boots fuel wait unknown (running other same keeps) w p = ensures (same, keeps w p)
  boot_device-boots fuel wait loader (running other same keeps) w p = ensures (same, keeps w p)
  boot_device-boots fuel wait msc (running other same keeps) w p = ensures (same, keeps w p)
  boot_device-boots {boot} {selected} fuel wait maskrom
        (downloaded C items_471 items_472 again R h1 h2 takes next plugged) w p =
      Ensures-bind
        (on_bus-Ensures X
          (λ s. from_stop (download_boot X.bus parts.crc16 parts.from_utf16_lossy boot s)) w
          (from_stop-Ensures (
            Ensures-mono
              (download_boot-logs C parts.crc16 parts.from_utf16_lossy boot items_471 items_472 w.1
                h1 h2 (takes w p))
              λ _ s (_, held). next w s p held)))
        λ _ w1 r.
          Ensures-bind
            (connect-only X upgrade_errors (some selected.bus_number) (some selected.address) wait
              fuel plugged w1 r)
            λ got w2 (_, same, q). ensures (same, q)

  -- If the one device with the bus and the address is opened and comes to run its loader, which a
  -- maskrom device does after its download and a second search, and if the update image, its
  -- parameter and its archive are valid and every file of it can be installed, then `exec` succeeds,
  -- and the disk is the one with the files installed in their order: nothing outside of the
  -- partitions changes. It succeeds however long that takes: the argument `timeout` is any, and the
  -- code does not use it.
  pub exec-Installed :
      {dev : RkDevice} (L : Link X.bus dev) (I : Informant L) (args : Args) (fuel : ℕ)
      (mmap : List ℕ) (selected : UsbDevice) (opened : RkDevice) (desc : DeviceDescriptor)
      (mode : RkUsbType) (rkfw : RkFwImage) (boot : RkBootImage) (param : Parameter)
      (content : List ℕ) (info : RkFlashInfo) (lb_size : ℕ) (partitions : List PartEntry)
      (files : List (Result IoError FwFile)) (disk disk' : Disk) (P Q : State X → Type 0)
      (w : State X)
      → IsPlugged X args.bus args.addr selected opened P Q
      → selected.descriptor ≡ ok desc
      → detect desc ≡ some mode
      → new_fw_image parts.header mmap ≡ ok rkfw
      → boot_data parts.header parts.size_of_time rkfw ≡ some (ok boot)
      → Boots X parts boot selected opened dev Q
          (λ w'. (L.phase w'.1 ≡ ready) × (L.disk w'.1 ≡ disk))
          mode
      → (parts.archive rkfw.fw).parameter ≡ ok (some param)
      → 2 < param.size
      → param.size ≤ 65536
      → param.content ≡ ok content
      → 2 ≤ length content
      → (parts.archive rkfw.fw).files ≡ ok files
      → length (I.answer 0x1A) ≡ 11
      → read_flash_info (I.answer 0x1A) ≡ some info
      → logical_block_size (lba_size info) ≡ some lb_size
      → IsTable L I parts lb_size partitions
      → Installed partitions (info.flash_size * 512) files disk disk'
      → info.flash_size * 512 + 512 < 2 ^ 41
      → 7 * L.step < 5000
      → allowance L.step 8704 < 30000
      → P w
      → Ensures
          (λ _ w'.
            (L.disk w'.1 ≡ disk')
            × ((i : ℕ) → IsOutside partitions i → L.disk w'.1 i ≡ disk i)
            × (L.phase w'.1 ≡ ready))
          (exec X parts fuel args mmap w)
  unfolding exec
  exec-Installed {dev} L I args fuel mmap selected opened desc mode rkfw boot param content info
        lb_size partitions files disk disk' P Q w plugged hdesc hmode hfw hboot boots hparam h1 h2
        h3 h4 hf hl hi hlb table installed hz h7 ht p =
      Ensures-bind (connect-only X upgrade_errors args.bus args.addr args.wait fuel plugged w p)
        λ got w1 (first, same, q).
          rw (first, same)
            (Ensures-bind (described-Ensures selected.descriptor desc w1 hdesc)
              λ got_desc w1' (told, kept).
                rw (told, kept, hmode, hfw, hboot)
                  (Ensures-bind (boot_device-boots fuel args.wait mode boots w1 q)
                    λ rkdev w2 (again, (phase, left)). rw again (
                      on_bus-Ensures X (install X.bus parts dev rkfw.fw) w2 (
                        install-Installed L I parts rkfw.fw param content info lb_size partitions
                          files w2.1 disk disk' hparam h1 h2 h3 h4 hf hl hi hlb table installed left
                          hz h7 ht phase))))
