-- ===== src/DeviceChoice/Waiting/Ends.antt =====
-- Every search for a device ends.
use rkusb.Prelude.{
  ℕ, zero, suc, ◌+◌, ◌-◌, ◌*◌, ◌≤◌, ◌<◌, inl, inr, List, [], ◌∷◌, Option, none, some, Bool, true,
  false, Bool-cases, Result, ok, err, Action, and_then, ◌==◌, ◌&&◌, leb, not_leb→lt, if◌then◌else◌,
  arith,
}
use rkusb.DeviceType.{RkUsbType, DeviceDescriptor, detect}
use rkusb.DeviceChoice.{
  Hub, UsbDevice, Choice, found, nothing_found, several_found, DeviceFinder, Failure, panicked,
  poll_interval, of_other_type, is_none_or, arrival, unless_panicked, choose, candidates,
  device_arrived, devices_arrived, taken_or, polled, hotplug_loop, polling_loop,
  find_device_hotplug, find_device_polling, find_device, from_usb, wait_for_device, selected,
}
use rkusb.Bus.{UsbError}
use rkusb.DeviceChoice.Waiting.{IsTimely, Ended, ended_ok, ended_err, ended_panicked}

-- What the callbacks leave: a cell, or a panic.
data IsArrival : Result Failure (Option UsbDevice) → Type 0 where
  arrived : {cell : Option UsbDevice} → IsArrival (ok cell)
  broken : IsArrival (err panicked)

if-IsArrival :
    (b : Bool) {x y : Result Failure (Option UsbDevice)}
    → IsArrival x
    → IsArrival y
    → IsArrival (if b then x else y)
if-IsArrival true x y = x
if-IsArrival false x y = y

unless_panicked-IsArrival :
    {r : Result Failure (Option UsbDevice)}
    (f : Option UsbDevice → Result Failure (Option UsbDevice))
    → IsArrival r
    → ((cell : Option UsbDevice) → IsArrival (f cell))
    → IsArrival (unless_panicked r f)
unless_panicked-IsArrival f arrived next = next _
unless_panicked-IsArrival f broken next = broken

arrival-IsArrival :
    (finder : DeviceFinder) (device : UsbDevice) (cell : Option UsbDevice)
    (descriptor : Result UsbError DeviceDescriptor)
    → IsArrival (arrival finder device cell descriptor)
arrival-IsArrival finder device cell (err e) = arrived
arrival-IsArrival finder device cell (ok desc) =
    if-IsArrival (of_other_type finder.usb_type (detect desc)) (arrived {cell = cell}) (
      if-IsArrival
        (is_none_or finder.bus (λ b. device.bus_number == b)
          && is_none_or finder.addr (λ a. device.address == a))
        (arrived {cell = some device}) broken)

device_arrived-IsArrival :
    (finder : DeviceFinder) (device : UsbDevice) (cell : Option UsbDevice)
    → IsArrival (device_arrived finder device cell)
unfolding device_arrived
device_arrived-IsArrival finder device cell = arrival-IsArrival finder device cell device.descriptor

devices_arrived-IsArrival :
    (finder : DeviceFinder) (devices : List UsbDevice) (cell : Option UsbDevice)
    → IsArrival (devices_arrived finder devices cell)
unfolding devices_arrived
devices_arrived-IsArrival finder [] cell = arrived
devices_arrived-IsArrival finder (device ∷ devices) cell =
    unless_panicked-IsArrival (devices_arrived finder devices)
      (device_arrived-IsArrival finder device cell) (devices_arrived-IsArrival finder devices)

module _ {H : Hub} {clock : H.State → ℕ} {step : ℕ} (timely : IsTimely H clock step) where
  -- The clock by which a search has ended.
  abbrev Within : ℕ → H.State → Type 0
  Within t s = clock s ≤ t

  from_usb-Ended :
      {t : ℕ} {A : Type 0} (r : Result UsbError A × H.State)
      (f : A → Action H.State Failure UsbDevice)
      → clock r.1 ≤ t
      → ((a : A) → Ended (Within t) (f a r.1))
      → Ended (Within t) (and_then (from_usb r) f)
  from_usb-Ended (ok a, s) f h next = next a
  from_usb-Ended (err e, s) f h next = ended_err h

  module _ (start limit : ℕ) where
    abbrev polling_end : ℕ
    polling_end = start + limit + poll_interval + 4 * step

    polled-Ended :
        (c : Choice) (s : H.State) (again : Action H.State Failure UsbDevice)
        → clock s ≤ start + limit + poll_interval + 3 * step
        → ((s' : H.State)
            → clock s + poll_interval ≤ clock s'
            → clock s < start + limit
            → clock s' ≤ start + limit + poll_interval + 2 * step
            → Ended (Within polling_end) (again s'))
        → Ended (Within polling_end) (polled H c start limit again s)
    polled-Ended (found dev) s again h next = ended_ok (omega arith)
    polled-Ended several_found s again h next = ended_err (omega arith)
    polled-Ended nothing_found s again h next =
        let early = timely.now-early s in
        let late = timely.now-late s in
        let tick = timely.now-clock s in
        elim (Bool-cases (leb limit ((H.now s).0 - start))) [
          | inl over ↦ rw over (ended_err (omega arith))
          | inr more ↦
              let left = not_leb→lt limit ((H.now s).0 - start) more in
              rw more (
                next (H.sleep poll_interval (H.now s).1)
                  (omega (arith, timely.sleep-early (H.now s).1 poll_interval)) (omega arith)
                  (omega (arith, timely.sleep-late (H.now s).1 poll_interval)))
        ]

    polling_loop-Ended :
        (fuel : ℕ) (bus addr : Option ℕ) (s : H.State)
        → start + limit ≤ clock s + fuel * poll_interval
        → clock s ≤ start + limit + poll_interval + 2 * step
        → Ended (Within polling_end) (polling_loop H (suc fuel) bus addr start limit s)
    unfolding polling_loop
    polling_loop-Ended zero bus addr s hf hc =
        from_usb-Ended (H.devices s) _ (omega (arith, timely.devices-late s)) λ devices.
          polled-Ended (choose (candidates devices bus addr)) (H.devices s).1 _
            (omega (arith, timely.devices-late s))
            λ s' late early most. absurd (omega (arith, timely.devices-early s))
    polling_loop-Ended (suc fuel) bus addr s hf hc =
        from_usb-Ended (H.devices s) _ (omega (arith, timely.devices-late s)) λ devices.
          polled-Ended (choose (candidates devices bus addr)) (H.devices s).1 _
            (omega (arith, timely.devices-late s))
            λ s' late early most.
              polling_loop-Ended fuel bus addr s' (omega (arith, timely.devices-early s)) most

    abbrev hotplug_end : ℕ
    hotplug_end = start + limit + 3 * step

    taken_or-Ended :
        (r : Result Failure (Option UsbDevice)) (s : H.State)
        (again : Action H.State Failure UsbDevice)
        → IsArrival r
        → clock s ≤ hotplug_end
        → Ended (Within hotplug_end) (again s)
        → Ended (Within hotplug_end) (and_then (r, s) λ cell. taken_or cell again)
    taken_or-Ended r s again (arrived {cell = some device}) h next = ended_ok h
    taken_or-Ended r s again (arrived {cell = none}) h next = next
    taken_or-Ended r s again broken h next = ended_panicked h

    -- A round, given the end of the rounds behind it.
    hotplug_round :
        (fuel : ℕ) (finder : DeviceFinder) (s : H.State)
        → clock s ≤ start + limit + 2 * step
        → ((s' : H.State)
            → clock s < clock s'
            → clock s < start + limit
            → clock s' ≤ start + limit + 2 * step
            → Ended (Within hotplug_end) (hotplug_loop H fuel finder start limit s'))
        → Ended (Within hotplug_end) (hotplug_loop H (suc fuel) finder start limit s)
    unfolding hotplug_loop
    hotplug_round fuel finder s hc next =
        let t = (H.now s).0 in
        let s1 = (H.now s).1 in
        let wait = limit - (t - start) in
        let s2 = (H.handle_events wait s1).1 in
        let early = timely.now-early s in
        let late = timely.now-late s in
        let tick = timely.now-clock s in
        elim (Bool-cases (leb limit (t - start))) [
          | inl over ↦ rw over (ended_err (omega arith))
          | inr more ↦
              let left = not_leb→lt limit (t - start) more in
              let some_time = timely.events-early s1 wait in
              let most = timely.events-late s1 wait in
              rw more (
                taken_or-Ended (devices_arrived finder (H.handle_events wait s1).0 none) s2 _
                  (devices_arrived-IsArrival finder (H.handle_events wait s1).0 none) (omega arith)
                  (next s2 (omega arith) (omega arith) (omega arith)))
        ]

    hotplug_loop-Ended :
        (fuel : ℕ) (finder : DeviceFinder) (s : H.State)
        → start + limit ≤ clock s + fuel
        → clock s ≤ start + limit + 2 * step
        → Ended (Within hotplug_end) (hotplug_loop H (suc fuel) finder start limit s)
    hotplug_loop-Ended zero finder s hf hc =
        hotplug_round zero finder s hc λ s' late early most. absurd (omega arith)
    hotplug_loop-Ended (suc fuel) finder s hf hc =
        hotplug_round (suc fuel) finder s hc
          λ s' late early most. hotplug_loop-Ended fuel finder s' (omega arith) most

  Ended-mono :
      {a b : ℕ} {r : Result Failure UsbDevice × H.State}
      → a ≤ b
      → Ended (Within a) r
      → Ended (Within b) r
  Ended-mono le (ended_ok h) = ended_ok (omega arith)
  Ended-mono le (ended_err h) = ended_err (omega arith)
  Ended-mono le (ended_panicked h) = ended_panicked (omega arith)

  -- The longest wait that is asked for.
  abbrev pub longest : Option ℕ → ℕ
  longest none = 0
  longest (some limit) = limit

  find_device_hotplug-Ended :
      (fuel : ℕ) (bus addr : Option ℕ) (mode : Option RkUsbType) (limit : ℕ) (s : H.State)
      → limit < fuel
      → Ended
          (Within (clock s + limit + 5 * step))
          (find_device_hotplug H fuel bus addr mode limit s)
  unfolding find_device_hotplug
  find_device_hotplug-Ended zero bus addr mode limit s hf = absurd (omega arith)
  find_device_hotplug-Ended (suc fuel) bus addr mode limit s hf =
      let s1 = (H.register s).1 in
      let start = (H.now s1).0 in
      let registered = timely.register-late s in
      let early = timely.now-early s1 in
      let late = timely.now-late s1 in
      let tick = timely.now-clock s1 in
      from_usb-Ended (H.register s) _ (omega arith) λ u.
        Ended-mono {a = hotplug_end start limit} (omega arith)
          (hotplug_loop-Ended start limit fuel _ (H.now s1).1 (omega arith) (omega arith))

  find_device_polling-Ended :
      (fuel : ℕ) (bus addr : Option ℕ) (limit : ℕ) (s : H.State)
      → limit < fuel
      → Ended
          (Within (clock s + limit + poll_interval + 5 * step))
          (find_device_polling H fuel bus addr limit s)
  unfolding find_device_polling
  find_device_polling-Ended zero bus addr limit s hf = absurd (omega arith)
  find_device_polling-Ended (suc fuel) bus addr limit s hf =
      let start = (H.now s).0 in
      let early = timely.now-early s in
      let late = timely.now-late s in
      let tick = timely.now-clock s in
      Ended-mono {a = polling_end start limit} (omega arith)
        (polling_loop-Ended start limit fuel bus addr (H.now s).1 (omega arith) (omega arith))

  if-Ended :
      {t : ℕ} (b : Bool) (x y : Action H.State Failure UsbDevice) (s : H.State)
      → Ended (Within t) (x s)
      → Ended (Within t) (y s)
      → Ended (Within t) ((if b then x else y) s)
  if-Ended true x y s hx hy = hx
  if-Ended false x y s hx hy = hy

  wait_for_device-Ended :
      (fuel : ℕ) (bus addr limit : Option ℕ) (s : H.State)
      → longest limit < fuel
      → Ended
          (Within (clock s + longest limit + poll_interval + 5 * step))
          (wait_for_device H fuel bus addr limit s)
  wait_for_device-Ended fuel bus addr none s hf = ended_err (omega arith)
  wait_for_device-Ended fuel bus addr (some limit) s hf =
      if-Ended H.has_hotplug (find_device_hotplug H fuel bus addr none limit)
        (find_device_polling H fuel bus addr limit) s
        (Ended-mono (omega arith) (find_device_hotplug-Ended fuel bus addr none limit s hf))
        (find_device_polling-Ended fuel bus addr limit s hf)

  selected-Ended :
      {t : ℕ} (c : Choice) (s : H.State) (next : Action H.State Failure UsbDevice)
      → clock s ≤ t
      → Ended (Within t) (next s)
      → Ended (Within t) (selected H c next s)
  selected-Ended (found dev) s next h hn = ended_ok h
  selected-Ended several_found s next h hn = ended_err h
  selected-Ended nothing_found s next h hn = hn

  -- `find_device` ends, whatever devices come and go: it finds a device, fails or panics before the
  -- clock has gone on by more than the time limit, a poll interval and six steps. It does so with
  -- more fuel than the time limit has nanoseconds. The premise is a host whose clock runs.
  pub find_device-Ended :
      (fuel : ℕ) (bus addr limit : Option ℕ) (s : H.State)
      → longest limit < fuel
      → Ended
          (λ s'. clock s' ≤ clock s + longest limit + poll_interval + 6 * step)
          (find_device H fuel bus addr limit s)
  unfolding find_device
  find_device-Ended fuel bus addr limit s hf =
      let late = timely.devices-late s in
      from_usb-Ended (H.devices s) _ (omega arith) λ devices.
        selected-Ended (choose (candidates devices bus addr)) (H.devices s).1 _ (omega arith)
          (Ended-mono (omega arith) (wait_for_device-Ended fuel bus addr limit (H.devices s).1 hf))
