-- ===== src/DeviceChoice.antt =====
-- The choice of a device among those connected (src/bin/rktools/common.rs), and the
-- wait for one to be connected.
pub mod Unique
pub mod Waiting
use rkusb.Prelude.{
  ℕ, zero, suc, ◌-◌, List, [], ◌∷◌, Bool, true, false, ◌&&◌, not, Option, none, some, Result, ok,
  err, Action, pure, fail, ◌>>=◌, ◌>>◌, leb, ◌==◌, if◌then◌else◌,
}
use rkusb.Bus.{UsbError, timeout}
use rkusb.DeviceType.{RkUsbType, DeviceDescriptor, unknown, maskrom, loader, msc, detect}

-- What the code reads of a device of crate rusb; the descriptor may be unreadable.
pub record UsbDevice : Type 0 where
  pub descriptor : Result UsbError DeviceDescriptor
  pub bus_number : ℕ
  pub address : ℕ

-- `==` on modes.
pub same_mode : RkUsbType → RkUsbType → Bool
same_mode unknown unknown = true
same_mode maskrom maskrom = true
same_mode loader loader = true
same_mode msc msc = true
same_mode _ _ = false

-- `is_none_or`
abbrev pub is_none_or {ℓ} : {A : Type ℓ} → Option A → (A → Bool) → Bool
is_none_or none test = true
is_none_or (some a) test = test a

abbrev pub mode_of : UsbDevice → Option RkUsbType
mode_of dev = elim dev.descriptor [ err e ↦ none | ok desc ↦ detect desc ]

unfoldable pub is_device_matching : UsbDevice → Option ℕ → Option ℕ → Option RkUsbType → Bool
is_device_matching dev bus addr mode = elim (mode_of dev) [
  | none ↦ false
  | some found ↦
      is_none_or mode (λ wanted. same_mode wanted found)
      && is_none_or bus (λ b. dev.bus_number == b)
      && is_none_or addr (λ a. dev.address == a)
]

unfoldable pub candidates : List UsbDevice → Option ℕ → Option ℕ → List UsbDevice
candidates [] bus addr = []
candidates (dev ∷ devices) bus addr =
    let rest = candidates devices bus addr in
    if is_device_matching dev bus addr none then dev ∷ rest else rest

-- The match on the count of candidates.
pub data Choice : Type 0 where
  found : UsbDevice → Choice
  nothing_found : Choice
  several_found : Choice

pub choose : List UsbDevice → Choice
choose [] = nothing_found
choose (dev ∷ []) = found dev
choose (_ ∷ _ ∷ _) = several_found

pub data DeviceSelectionError : Type 0 where
  no_device_found : DeviceSelectionError
  multiple_devices_found : DeviceSelectionError
  usb : UsbError → DeviceSelectionError

-- How a search ends without a device: with an error, with a panic, or out of fuel, which stands
-- for a loop that goes on.
pub data Failure : Type 0 where
  selection : DeviceSelectionError → Failure
  panicked : Failure
  out_of_fuel : Failure

-- `Duration::from_millis(100)`
abbrev pub poll_interval : ℕ
poll_interval = 100_000_000

-- What the search uses of crate rusb and of its host. `handle_events` returns the devices whose
-- arrival it reports, in their order. Times are nanoseconds.
pub record Hub : Type 1 where
  pub State : Type 0
  pub has_hotplug : Bool
  pub devices : Action State UsbError (List UsbDevice)
  pub register : Action State UsbError (Unit {0})
  pub handle_events : ℕ → State → List UsbDevice × State
  pub now : State → ℕ × State
  pub sleep : ℕ → State → State

-- `?` on an error of crate rusb.
abbrev pub from_usb {ℓ} : {S : Type ℓ} {A : Type 0} → Result UsbError A × S → Result Failure A × S
from_usb (ok a, s) = (ok a, s)
from_usb (err e, s) = (err (selection (usb e)), s)

-- `DeviceFinder`, without the cell that it shares with the loop.
pub record DeviceFinder : Type 0 where
  pub bus : Option ℕ
  pub addr : Option ℕ
  pub usb_type : Option RkUsbType

-- `self.usb_type.is_some() && RkUsbType::detect(&desc) != self.usb_type`
pub of_other_type : Option RkUsbType → Option RkUsbType → Bool
of_other_type none mode = false
of_other_type (some wanted) none = true
of_other_type (some wanted) (some mode) = not (same_mode mode wanted)

-- What `device_arrived` does with a descriptor, if it can be read.
abbrev pub arrival :
    DeviceFinder
    → UsbDevice
    → Option UsbDevice
    → Result UsbError DeviceDescriptor
    → Result Failure (Option UsbDevice)
arrival finder device cell (err e) = ok cell
arrival finder device cell (ok desc) =
    if of_other_type finder.usb_type (detect desc)
    then ok cell
    else if is_none_or finder.bus (λ b. device.bus_number == b)
        && is_none_or finder.addr (λ a. device.address == a)
    then ok (some device)
    else err panicked

-- `DeviceFinder::device_arrived`: the cell as it is afterwards, or the panic of a failed `assert!`.
pub device_arrived : DeviceFinder → UsbDevice → Option UsbDevice → Result Failure (Option UsbDevice)
device_arrived finder device cell = arrival finder device cell device.descriptor

abbrev pub unless_panicked :
    Result Failure (Option UsbDevice)
    → (Option UsbDevice → Result Failure (Option UsbDevice))
    → Result Failure (Option UsbDevice)
unless_panicked (ok cell) f = f cell
unless_panicked (err e) f = err e

-- The callbacks that one `handle_events` makes.
pub devices_arrived :
    DeviceFinder → List UsbDevice → Option UsbDevice → Result Failure (Option UsbDevice)
devices_arrived finder [] cell = ok cell
devices_arrived finder (device ∷ devices) cell =
    unless_panicked (device_arrived finder device cell) (devices_arrived finder devices)

abbrev lift : {S : Type 0} {A : Type 0} → Result Failure A → Action S Failure A
lift r s = (r, s)

-- An operation that cannot fail.
abbrev pub run {ℓ} : {S : Type ℓ} {A : Type 0} → (S → A × S) → Action S Failure A
run f s = (ok (f s).0, (f s).1)

-- `break Ok(device)` when the cell holds a device, and the next round when it does not.
abbrev pub taken_or :
    {S : Type 0} → Option UsbDevice → Action S Failure UsbDevice → Action S Failure UsbDevice
taken_or (some device) next = pure device
taken_or none next = next

module _ (H : Hub) where
  abbrev pub sleep_for : ℕ → Action H.State Failure (Unit {0})
  sleep_for t s = (ok tt, H.sleep t s)

  pub hotplug_loop : ℕ → DeviceFinder → ℕ → ℕ → Action H.State Failure UsbDevice
  hotplug_loop zero finder start limit = fail out_of_fuel
  hotplug_loop (suc fuel) finder start limit = do
    t ← run H.now
    let again = hotplug_loop fuel finder start limit
    if leb limit (t - start) then fail (selection (usb timeout)) else (do
      arrivals ← run (H.handle_events (limit - (t - start)))
      cell ← lift (devices_arrived finder arrivals none)
      taken_or cell again)

  pub find_device_hotplug :
      ℕ → Option ℕ → Option ℕ → Option RkUsbType → ℕ → Action H.State Failure UsbDevice
  find_device_hotplug fuel bus addr usb_type limit = do
    _ ← λ s. from_usb (H.register s)
    start ← run H.now
    hotplug_loop fuel (record { bus = bus; addr = addr; usb_type = usb_type }) start limit

  -- The match of a round of `find_device_polling`; `again` is the next round.
  abbrev pub polled :
      Choice → ℕ → ℕ → Action H.State Failure UsbDevice → Action H.State Failure UsbDevice
  polled (found dev) start limit again = pure dev
  polled several_found start limit again = fail (selection multiple_devices_found)
  polled nothing_found start limit again = do
    t ← run H.now
    if leb limit (t - start)
        then fail (selection (usb timeout))
        else (do sleep_for poll_interval; again)

  pub polling_loop : ℕ → Option ℕ → Option ℕ → ℕ → ℕ → Action H.State Failure UsbDevice
  polling_loop zero bus addr start limit = fail out_of_fuel
  polling_loop (suc fuel) bus addr start limit = do
    devices ← λ s. from_usb (H.devices s)
    polled (choose (candidates devices bus addr)) start limit
        (polling_loop fuel bus addr start limit)

  pub find_device_polling : ℕ → Option ℕ → Option ℕ → ℕ → Action H.State Failure UsbDevice
  find_device_polling fuel bus addr limit = do
    start ← run H.now
    polling_loop fuel bus addr start limit

  abbrev pub wait_for_device : ℕ → Option ℕ → Option ℕ → Option ℕ → Action H.State Failure UsbDevice
  wait_for_device fuel bus addr none = fail (selection no_device_found)
  wait_for_device fuel bus addr (some limit) =
      if H.has_hotplug
      then find_device_hotplug fuel bus addr none limit
      else find_device_polling fuel bus addr limit

  abbrev pub selected : Choice → Action H.State Failure UsbDevice → Action H.State Failure UsbDevice
  selected (found dev) next = pure dev
  selected several_found next = fail (selection multiple_devices_found)
  selected nothing_found next = next

  pub find_device : ℕ → Option ℕ → Option ℕ → Option ℕ → Action H.State Failure UsbDevice
  find_device fuel bus addr limit = do
    devices ← λ s. from_usb (H.devices s)
    selected (choose (candidates devices bus addr)) (wait_for_device fuel bus addr limit)
