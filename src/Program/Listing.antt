-- ===== src/Program/Listing.antt =====
-- The subcommand that lists the connected devices (src/bin/rktools/subcommands/list.rs).
pub mod Lines
use rkusb.Prelude.{
  ℕ, List, [], ◌∷◌, ◌++◌, Bool, true, false, not, ◌||◌, ◌&&◌, Option, none, some, Result, ok, err,
  Action, if◌then◌else◌,
}
use rkusb.Bus.{UsbError}
use rkusb.DeviceType.{RkUsbType, DeviceDescriptor, unknown, maskrom, loader, msc, detect}
use rkusb.DeviceChoice.{Hub, UsbDevice}
use rkusb.Program.Errors.{CommandError, rusb}

pub record Args : Type 0 where
  pub maskrom : Bool
  pub loader : Bool
  pub msc : Bool

-- A line that is printed.
pub record Line : Type 0 where
  pub bus_number : ℕ
  pub address : ℕ
  pub mode : RkUsbType

abbrev any_flag : Args → Bool
any_flag args = args.maskrom || (args.loader || args.msc)

-- The inner `match`: whether the device is printed.
pub is_wanted : Args → RkUsbType → Bool
is_wanted args maskrom = args.maskrom || not (any_flag args)
is_wanted args loader = args.loader || not (any_flag args)
is_wanted args msc = args.msc || not (any_flag args)
is_wanted args unknown = not (any_flag args)

-- A round of the loop: a device without a descriptor or a mode is passed over.
abbrev pub line_of_type : Args → UsbDevice → Option RkUsbType → List Line
line_of_type args device none = []
line_of_type args device (some mode) =
    if is_wanted args mode
    then record { bus_number = device.bus_number; address = device.address; mode = mode } ∷ []
    else []

abbrev pub lines_of : Args → UsbDevice → Result UsbError DeviceDescriptor → List Line
lines_of args device (err e) = []
lines_of args device (ok desc) = line_of_type args device (detect desc)

pub print_devices : Args → List UsbDevice → List Line
print_devices args [] = []
print_devices args (device ∷ devices) =
    lines_of args device device.descriptor ++ print_devices args devices

abbrev listed : Args → Result UsbError (List UsbDevice) → Result CommandError (List Line)
listed args (ok devices) = ok (print_devices args devices)
listed args (err e) = err (rusb e)

pub exec : (H : Hub) → Args → Action H.State CommandError (List Line)
exec H args h = let (devices, h') = H.devices h in (listed args devices, h')
