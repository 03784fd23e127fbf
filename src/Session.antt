-- ===== src/Session.antt =====
-- From the arguments of a command to an opened device: `find_device` of
-- src/bin/rktools/common.rs and `RkDevice::open` of src/lib.rs, on a host with connected devices.
pub mod Connects
use rkusb.Prelude.{
  ℕ, List, [], ◌∷◌, Option, none, some, Result, ok, err, Action, pure, fail, ◌>>=◌, ◌>>◌,
}
use rkusb.Bus.{Bus, UsbError, not_found}
use rkusb.Device.{RkUsbError, RkDevice, usb, from_usb}
use rkusb.Device.Commands.{Endpoint, find_endpoints}
use rkusb.DeviceChoice.{Hub, UsbDevice, Failure, find_device}

-- What the code reads of the descriptors of crate rusb: an interface is the list of its settings.
pub record InterfaceDescriptor : Type 0 where
  pub interface_number : ℕ
  pub endpoints : List Endpoint

pub record ConfigDescriptor : Type 0 where
  pub number : ℕ
  pub interfaces : List (List InterfaceDescriptor)

-- A host: the devices that come and go (`hub`), and the handle of an opened one (`bus`).
-- `new_context` is `Context::new`, which a command that looks at devices begins with. After
-- `open_handle` the operations of `bus` are those of that device.
pub record Host : Type 1 where
  pub hub : Hub
  pub bus : Bus
  pub new_context : Action (hub.State × bus.State) UsbError (Unit {0})
  pub open_handle : UsbDevice → Action (hub.State × bus.State) UsbError (Unit {0})
  pub active_config_descriptor :
      UsbDevice → Action (hub.State × bus.State) UsbError ConfigDescriptor
  pub set_active_configuration : ℕ → Action (hub.State × bus.State) UsbError (Unit {0})
  pub claim_interface : ℕ → Action (hub.State × bus.State) UsbError (Unit {0})

abbrev pub State : Host → Type 0
State X = X.hub.State × X.bus.State

-- The errors of a command: the `From` implementations that `?` calls, and a search's panic or
-- endless wait.
pub record Errors (E : Type 0) : Type 0 where
  pub from_failure : Failure → E
  pub from_rk_usb : RkUsbError → E

-- `next()` of an iterator, and `ok_or(NotFound)`.
abbrev pub first {ℓ} : {S : Type ℓ} {A : Type 0} → List A → Action S RkUsbError A
first [] = fail (usb not_found)
first (x ∷ xs) = pure x

abbrev pub lift {ℓ} : {S : Type ℓ} {E A : Type 0} → Result E A → Action S E A
lift r s = (r, s)

module _ {E : Type 0} ⦃errors : Errors E⦄ where
  -- `?` on a result of the search, and of an operation of the device.
  abbrev pub or_failure {ℓ} : {S : Type ℓ} {A : Type 0} → Result Failure A × S → Result E A × S
  or_failure (ok a, s) = (ok a, s)
  or_failure (err e, s) = (err (errors.from_failure e), s)

  abbrev pub or_rk_usb {ℓ} : {S : Type ℓ} {A : Type 0} → Result RkUsbError A × S → Result E A × S
  or_rk_usb (ok a, s) = (ok a, s)
  or_rk_usb (err e, s) = (err (errors.from_rk_usb e), s)

module _ (X : Host) where
  -- An operation on one of the two parts.
  abbrev pub on_hub : {E A : Type 0} → Action X.hub.State E A → Action (State X) E A
  on_hub m w = ((m w.0).0, ((m w.0).1, w.1))

  abbrev pub on_bus : {E A : Type 0} → Action X.bus.State E A → Action (State X) E A
  on_bus m w = ((m w.1).0, (w.0, (m w.1).1))

  abbrev rusb : {A : Type 0} → Action (State X) UsbError A → Action (State X) RkUsbError A
  rusb m w = from_usb (m w)

  -- `RkDevice::open`
  pub open_device : UsbDevice → Action (State X) RkUsbError RkDevice
  open_device device = do
    rusb (X.open_handle device)
    config ← rusb (X.active_config_descriptor device)
    interface ← first config.interfaces
    desc ← first interface
    rusb (X.set_active_configuration config.number)
    rusb (X.claim_interface desc.interface_number)
    lift (find_endpoints desc.endpoints none none)

  module _ {E : Type 0} ⦃errors : Errors E⦄ where
    abbrev pub select : ℕ → Option ℕ → Option ℕ → Option ℕ → Action (State X) E UsbDevice
    select fuel bus addr wait w = or_failure (on_hub (find_device X.hub fuel bus addr wait) w)

    abbrev pub opened : UsbDevice → Action (State X) E RkDevice
    opened device w = or_rk_usb (open_device device w)

    -- The first two lines of every command that needs a device.
    pub connect : ℕ → Option ℕ → Option ℕ → Option ℕ → Action (State X) E (UsbDevice × RkDevice)
    connect fuel bus addr wait = do
      device ← select fuel bus addr wait
      rkdev ← opened device
      pure (device, rkdev)
