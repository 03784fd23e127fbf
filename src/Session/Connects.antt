-- ===== src/Session/Connects.antt =====
-- Connecting to the one device that matches.
use rkusb.Prelude.{
  Action, ℕ, ◌≡◌, refl, ap, List, [], ◌∷◌, ◌++◌, true, Option, none, Result, ok, Ensures, ensures,
  Ensures-bind,
}
use rkusb.Device.{RkDevice, RkUsbError}
use rkusb.Device.Commands.Opening.{inputs, outputs, find_endpoints-choose}
use rkusb.Device.Transaction.Stages.{Ensures-from_usb}
use rkusb.DeviceChoice.{UsbDevice, is_device_matching}
use rkusb.DeviceChoice.Unique.{Unmatched, find_device-only}
use rkusb.Session.{
  on_bus, Host, State, Errors, InterfaceDescriptor, ConfigDescriptor, open_device, connect,
  or_rk_usb,
}

-- A device that can be opened, with one bulk endpoint of each direction in its first interface; a
-- state that `P` holds of becomes one that `Q` holds of, and the calls after the first keep it so.
pub record IsOpenable (X : Host) (device : UsbDevice) (rkdev : RkDevice) (P Q : State X → Type 0)
    : Type 0 where
  pub config : ConfigDescriptor
  pub desc : InterfaceDescriptor
  pub settings : List InterfaceDescriptor
  pub others : List (List InterfaceDescriptor)
  pub interfaces : config.interfaces ≡ (desc ∷ settings) ∷ others
  pub input : inputs desc.endpoints ≡ rkdev.bulk_in ∷ []
  pub output : outputs desc.endpoints ≡ rkdev.bulk_out ∷ []
  pub opens : (w : State X) → P w → Ensures (λ _ w'. Q w') (X.open_handle device w)
  pub describes :
      (w : State X)
      → Q w
      → Ensures (λ got w'. (got ≡ config) × Q w') (X.active_config_descriptor device w)
  pub configures :
      (w : State X) → Q w → Ensures (λ _ w'. Q w') (X.set_active_configuration config.number w)
  pub claims :
      (w : State X) → Q w → Ensures (λ _ w'. Q w') (X.claim_interface desc.interface_number w)

-- In a state that `P` holds of, the host lists one device with the bus and the address, and this
-- device can be opened afterwards.
pub record IsPlugged (X : Host) (bus addr : Option ℕ) (device : UsbDevice) (rkdev : RkDevice)
    (P Q : State X → Type 0) : Type 1 where
  pub before : List UsbDevice
  pub after : List UsbDevice
  pub seen : State X → Type 0
  pub lists : (w : State X) → P w → (X.hub.devices w.0).0 ≡ ok (before ++ (device ∷ after))
  pub sees : (w : State X) → P w → seen ((X.hub.devices w.0).1, w.1)
  pub matches : is_device_matching device bus addr none ≡ true
  pub unmatched_before : Unmatched bus addr before
  pub unmatched_after : Unmatched bus addr after
  pub openable : IsOpenable X device rkdev seen Q

pub or_rk_usb-Ensures :
    {E A : Type 0} {S : Type 0} {P : A → S → Type 0} (errors : Errors E)
    {r : Result RkUsbError A × S}
    → Ensures P r
    → Ensures P (or_rk_usb ⦃errors = errors⦄ r)
or_rk_usb-Ensures errors (ensures p) = ensures p

pub on_bus-Ensures :
    (X : Host) {E A : Type 0} {Q : A → State X → Type 0} (m : Action X.bus.State E A) (w : State X)
    → Ensures (λ a s. Q a (w.0, s)) (m w.1)
    → Ensures Q (on_bus X m w)
on_bus-Ensures X {E} {A} {Q} m w h = moved (m w.1) h
  where
    moved :
        (r : Result E A × X.bus.State)
        → Ensures (λ a s. Q a (w.0, s)) r
        → Ensures Q (r.0, (w.0, r.1))
    moved r (ensures q) = ensures q

module _ (X : Host) {device : UsbDevice} {rkdev : RkDevice} where
  pub open_device-opens :
      {P Q : State X → Type 0}
      → IsOpenable X device rkdev P Q
      → (w : State X) → P w
      → Ensures (λ got w'. (got ≡ rkdev) × Q w') (open_device X device w)
  unfolding open_device
  open_device-opens O w p = Ensures-bind (Ensures-from_usb (O.opens w p)) λ _ w1 q1.
      Ensures-bind (Ensures-from_usb (O.describes w1 q1)) λ config w2 (same, q2).
        rw (same, O.interfaces)
          (Ensures-bind (Ensures-from_usb (O.configures w2 q2)) λ _ w3 q3.
            Ensures-bind (Ensures-from_usb (O.claims w3 q3)) λ _ w4 q4.
              rw (find_endpoints-choose O.desc.endpoints, O.input, O.output) (ensures (refl, q4)))

  -- If the host has one device with the bus and the address, it is found at once and opened, with the
  -- addresses of its bulk endpoints; and the calls that open it are all that happens to its handle.
  pub connect-only :
      {E : Type 0} {P Q : State X → Type 0} (errors : Errors E) (bus addr wait : Option ℕ)
      (fuel : ℕ)
      → IsPlugged X bus addr device rkdev P Q
      → (w : State X) → P w
      → Ensures
          (λ got w'. (got.0 ≡ device) × (got.1 ≡ rkdev) × Q w')
          (connect X ⦃errors = errors⦄ fuel bus addr wait w)
  unfolding connect
  connect-only errors bus addr wait fuel plugged w p =
      let listed : X.hub.devices w.0
          ≡ (ok (plugged.before ++ (device ∷ plugged.after)), (X.hub.devices w.0).1) =
        ap (λ r. (r, (X.hub.devices w.0).1)) (plugged.lists w p) in
      rw
        (find_device-only bus addr X.hub fuel plugged.before device plugged.after wait w.0
          (X.hub.devices w.0).1 listed plugged.matches plugged.unmatched_before
          plugged.unmatched_after)
        (Ensures-bind
          (or_rk_usb-Ensures errors
            (open_device-opens plugged.openable ((X.hub.devices w.0).1, w.1) (plugged.sees w p)))
          λ got w' (same, q'). ensures (refl, same, q'))
