-- ===== src/Program/Listing/Lines.antt =====
-- Which devices are printed.
use mathlib.Core.List.{Memᴰ}
use mathlib.Core.List.Memᴰ
use rkusb.Prelude.{◌≡◌, List, true, false, some, ok}
use rkusb.DeviceType.{RkUsbType, DeviceDescriptor, maskrom, loader, msc, detect}
use rkusb.DeviceChoice.{UsbDevice}
use rkusb.Program.Listing.{Args, Line}

-- The modes that are asked for: those of the flags that are set, and all of them if none is.
pub data IsWanted (args : Args) : RkUsbType → Type 0 where
  no_flag :
      {mode : RkUsbType}
      → args.maskrom ≡ false
      → args.loader ≡ false
      → args.msc ≡ false
      → IsWanted args mode
  by_maskrom : args.maskrom ≡ true → IsWanted args maskrom
  by_loader : args.loader ≡ true → IsWanted args loader
  by_msc : args.msc ≡ true → IsWanted args msc

-- The line of a device that has a descriptor and a mode that is asked for.
abbrev pub IsListed : Args → UsbDevice → Line → Type 0
IsListed args device line =
    (desc : DeviceDescriptor) × (device.descriptor ≡ ok desc)
    × (detect desc ≡ some line.mode)
    × IsWanted args line.mode
    × (line.bus_number ≡ device.bus_number)
    × (line.address ≡ device.address)
