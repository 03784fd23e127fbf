-- ===== src/Upgrade/Command.antt =====
-- The subcommand that upgrades a device with an update image (`exec` of
-- src/bin/rktools/subcommands/upgrade.rs). `mmap` is the content of the image's file.
pub mod Runs
use rkusb.Prelude.{ℕ, List, Option, none, some, Result, ok, err, Action, pure, ◌>>=◌}
use rkusb.Bus.{UsbError}
use rkusb.Device.{RkDevice, usb}
use rkusb.Device.Commands.{download_boot}
use rkusb.DeviceType.{RkUsbType, DeviceDescriptor, unknown, maskrom, loader, msc, detect}
use rkusb.DeviceChoice.{UsbDevice, Failure, selection, panicked, out_of_fuel}
use rkusb.Image.{RkBootImage}
use rkusb.Image.Firmware.{RkFwImage, new_fw_image, boot_data}
use rkusb.Session.{Host, State, Errors, connect, on_bus}
use rkusb.Upgrade.Firmware.{
  UpgradeError, device_selection, rk_usb, unknown_rk_usb_type, broken, endless, Parts, lift,
  image_result, image_or_panic, from_stop, install,
}

abbrev pub from_failure : Failure → UpgradeError
from_failure (selection e) = device_selection e
from_failure panicked = broken
from_failure out_of_fuel = endless

instance abbrev pub upgrade_errors : Errors UpgradeError
upgrade_errors = record { from_failure = from_failure; from_rk_usb = rk_usb }

-- The `timeout` is an argument that the code does not use.
pub record Args : Type 0 where
  pub bus : Option ℕ
  pub addr : Option ℕ
  pub wait : Option ℕ
  pub timeout : ℕ

-- `device_descriptor()`, and the mode that it tells.
abbrev pub described : Result UsbError DeviceDescriptor → Result UpgradeError DeviceDescriptor
described (ok desc) = ok desc
described (err e) = err (rk_usb (usb e))

abbrev pub known : Option RkUsbType → Result UpgradeError RkUsbType
known (some mode) = ok mode
known none = err unknown_rk_usb_type

module _ (X : Host) (parts : Parts X.bus) where
  -- In the maskrom mode the boot stage is downloaded, and the device is searched for and opened anew.
  pub boot_device :
      ℕ
      → Option ℕ
      → RkUsbType
      → RkBootImage
      → UsbDevice
      → RkDevice
      → Action (State X) UpgradeError RkDevice
  boot_device fuel wait maskrom boot selected_device rkdev = do
    _ ← on_bus X λ s. from_stop (download_boot X.bus parts.crc16 parts.from_utf16_lossy boot s)
    (_, rkdev') ←
        connect X fuel (some selected_device.bus_number) (some selected_device.address) wait
    pure rkdev'
  boot_device fuel wait loader boot selected_device rkdev = pure rkdev
  boot_device fuel wait msc boot selected_device rkdev = pure rkdev
  boot_device fuel wait unknown boot selected_device rkdev = pure rkdev

  pub exec : ℕ → Args → List ℕ → Action (State X) UpgradeError (Unit {0})
  exec fuel args mmap = do
    (selected_device, rkdev) ← connect X fuel args.bus args.addr args.wait
    desc ← lift (described selected_device.descriptor)
    device_type ← lift (known (detect desc))
    rkfw ← lift (image_result (new_fw_image parts.header mmap))
    boot ← lift (image_or_panic (boot_data parts.header parts.size_of_time rkfw))
    rkdev' ← boot_device fuel args.wait device_type boot selected_device rkdev
    on_bus X (install X.bus parts rkdev' rkfw.fw)
