-- ===== src/DeviceChoice/Waiting/Arrivals.antt =====
-- What the first arrival does to a search that waits for events.
use rkusb.Prelude.{
  ℕ, suc, ◌-◌, ◌<◌, ◌≡◌, List, [], ◌∷◌, true, false, Option, some, Result, ok, err, ◌==◌,
  lt→not_leb,
}
use rkusb.DeviceType.{DeviceDescriptor}
use rkusb.DeviceChoice.{
  Hub, UsbDevice, Failure, panicked, is_none_or, of_other_type, device_arrived, devices_arrived,
  choose, candidates, hotplug_loop, find_device_hotplug, find_device,
}

-- What becomes of a search for a bus and an address when a device arrives: it is taken if both
-- agree, of whatever make it is, and the program panics if one differs.
pub data Arrival (bus addr : Option ℕ) (dev : UsbDevice) : Result Failure UsbDevice → Type 0 where
  taken :
      is_none_or bus (λ b. dev.bus_number == b) ≡ true
      → is_none_or addr (λ a. dev.address == a) ≡ true
      → Arrival bus addr dev (ok dev)
  on_other_bus :
      is_none_or bus (λ b. dev.bus_number == b) ≡ false → Arrival bus addr dev (err panicked)
  at_other_address :
      is_none_or bus (λ b. dev.bus_number == b) ≡ true
      → is_none_or addr (λ a. dev.address == a) ≡ false
      → Arrival bus addr dev (err panicked)

-- On a host with hotplug, a search that has to wait ends with the first device that arrives: if the
-- descriptor of this device can be read, and the device is on the bus and at the address that were
-- asked for, it is the result, whatever its vendor; if it is elsewhere, the program panics. Premises:
-- no device matches at first, and the device is the only one that the first wait reports, which
-- begins within the time limit.
pub find_device-Arrival :
    (H : Hub) (fuel : ℕ) (bus addr : Option ℕ) (limit start t : ℕ) (devices : List UsbDevice)
    (dev : UsbDevice) (desc : DeviceDescriptor) (r : Result Failure UsbDevice)
    (s s1 s2 s3 s4 s5 : H.State)
    → H.has_hotplug ≡ true
    → H.devices s ≡ (ok devices, s1)
    → candidates devices bus addr ≡ []
    → H.register s1 ≡ (ok tt, s2)
    → H.now s2 ≡ (start, s3)
    → H.now s3 ≡ (t, s4)
    → t - start < limit
    → H.handle_events (limit - (t - start)) s4 ≡ (dev ∷ [], s5)
    → dev.descriptor ≡ ok desc
    → Arrival bus addr dev r
    → find_device H (suc fuel) bus addr (some limit) s ≡ (r, s5)
unfolding find_device find_device_hotplug hotplug_loop devices_arrived device_arrived choose
    of_other_type
find_device-Arrival H fuel bus addr limit start t devices dev desc r s s1 s2 s3 s4 s5 hh hd hc hr h1
      h2 ht he hdesc (taken hb ha) =
    simp (hh, hd, hc, hr, h1, h2, lt→not_leb limit (t - start) ht, he, hdesc, hb, ha)
find_device-Arrival H fuel bus addr limit start t devices dev desc r s s1 s2 s3 s4 s5 hh hd hc hr h1
      h2 ht he hdesc (on_other_bus hb) =
    simp (hh, hd, hc, hr, h1, h2, lt→not_leb limit (t - start) ht, he, hdesc, hb)
find_device-Arrival H fuel bus addr limit start t devices dev desc r s s1 s2 s3 s4 s5 hh hd hc hr h1
      h2 ht he hdesc (at_other_address hb ha) =
    simp (hh, hd, hc, hr, h1, h2, lt→not_leb limit (t - start) ht, he, hdesc, hb, ha)
