-- ===== src/DeviceChoice/Waiting/Finds.antt =====
-- What a search that waits finds.
use rkusb.Prelude.{
  ℕ, zero, suc, ◌+◌, ◌-◌, ◌*◌, ◌≤◌, ◌<◌, ◌≡◌, refl, List, [], ◌∷◌, Option, none, some, Bool, true,
  false, Bool-cases, Result, ok, err, Action, Ensures, ensures, and_then, leb, lt→not_leb, leb→le,
  not_leb→lt, inl, inr, if◌then◌else◌, arith,
}
use rkusb.DeviceChoice.{
  Hub, UsbDevice, Failure, poll_interval, choose, candidates, polling_loop, find_device_hotplug,
  find_device_polling, find_device, from_usb, wait_for_device,
}
use rkusb.Bus.{UsbError}
use rkusb.DeviceChoice.Waiting.{IsTimely}

ok-inj : {A : Type 0} (a b : A) (r : Result UsbError A) → r ≡ ok a → r ≡ ok b → a ≡ b
ok-inj a b r p q = cc (p, q)

from_usb-Ensures :
    {S A : Type 0} {Q : UsbDevice → S → Type 0} (r : Result UsbError A × S) (a : A)
    (f : A → Action S Failure UsbDevice)
    → r.0 ≡ ok a
    → Ensures Q (f a r.1)
    → Ensures Q (and_then (from_usb r) f)
from_usb-Ensures (ok b, s) a f h hn = rw (ok-inj b a (ok b) refl h) hn
from_usb-Ensures (err e, s) a f h hn = absurd (cc h)

if-Ensures :
    {S : Type 0} {Q : UsbDevice → S → Type 0} (b : Bool)
    → b ≡ false
    → (x y : Action S Failure UsbDevice) (s : S) → Ensures Q (y s)
    → Ensures Q ((if b then x else y) s)
if-Ensures true h x y s hy = absurd (cc h)
if-Ensures false h x y s hy = hy

module _ {H : Hub} {clock : H.State → ℕ} {step : ℕ} (timely : IsTimely H clock step)
    (bus addr : Option ℕ) (dev : UsbDevice) (arrival : ℕ) (seen : H.State → List UsbDevice)
    (lists : (s : H.State) → (H.devices s).0 ≡ ok (seen s))
    (before : (s : H.State) → clock s < arrival → candidates (seen s) bus addr ≡ [])
    (after : (s : H.State) → arrival ≤ clock s → candidates (seen s) bus addr ≡ dev ∷ []) where
  -- The device is found soon after it arrived.
  abbrev Found : UsbDevice → H.State → Type 0
  Found got s' = (got ≡ dev) × (clock s' ≤ arrival + poll_interval + 4 * step)

  polling_loop-there :
      (fuel start limit : ℕ) (s : H.State)
      → arrival ≤ clock s
      → clock s ≤ arrival + poll_interval + 3 * step
      → Ensures Found (polling_loop H (suc fuel) bus addr start limit s)
  unfolding polling_loop choose
  polling_loop-there fuel start limit s there hc =
      from_usb-Ensures (H.devices s) (seen s) _ (lists s)
        (rw (after s there) (ensures (refl, omega (arith, timely.devices-late s))))

  polling_loop-missing :
      (fuel start limit : ℕ) (s : H.State)
      → clock s < arrival
      → 0 < limit
      → arrival + 2 * step < start + limit
      → ((s' : H.State)
          → clock s + poll_interval ≤ clock s'
          → clock s' ≤ arrival + poll_interval + 3 * step
          → Ensures Found (polling_loop H fuel bus addr start limit s'))
      → Ensures Found (polling_loop H (suc fuel) bus addr start limit s)
  unfolding polling_loop choose
  polling_loop-missing fuel start limit s missing positive ht next =
      let s1 = (H.devices s).1 in
      let t = (H.now s1).0 in
      let s2 = (H.now s1).1 in
      let s3 = H.sleep poll_interval s2 in
      let listed = timely.devices-late s in
      let listed_early = timely.devices-early s in
      let early = timely.now-early s1 in
      let late = timely.now-late s1 in
      let tick = timely.now-clock s1 in
      let slept = timely.sleep-early s2 poll_interval in
      let woken = timely.sleep-late s2 poll_interval in
      from_usb-Ensures (H.devices s) (seen s) _ (lists s) (
        rw (before s missing, lt→not_leb limit (t - start) (omega arith))
          (next s3 (omega arith) (omega arith)))

  polling_loop-finds :
      (fuel start limit : ℕ) (s : H.State)
      → 0 < limit
      → arrival + 2 * step < start + limit
      → arrival ≤ clock s + fuel * poll_interval
      → clock s ≤ arrival + poll_interval + 3 * step
      → Ensures Found (polling_loop H (suc fuel) bus addr start limit s)
  polling_loop-finds zero start limit s positive ht hf hc =
      polling_loop-there zero start limit s (omega arith) hc
  polling_loop-finds (suc fuel) start limit s positive ht hf hc =
      elim (Bool-cases (leb arrival (clock s))) [
        | inl there ↦ polling_loop-there (suc fuel) start limit s (leb→le _ _ there) hc
        | inr missing ↦
            polling_loop-missing (suc fuel) start limit s (not_leb→lt _ _ missing) positive ht
              λ s' late most. polling_loop-finds fuel start limit s' positive ht (omega arith) most
      ]

  wait_for_device-finds :
      (fuel limit : ℕ) (s : H.State)
      → H.has_hotplug ≡ false
      → clock s ≤ arrival + step
      → arrival + 2 * step < clock s + limit
      → limit < fuel
      → Ensures Found (wait_for_device H fuel bus addr (some limit) s)
  unfolding find_device_polling
  wait_for_device-finds zero limit s no_events hc ht hf = absurd (omega arith)
  wait_for_device-finds (suc fuel) limit s no_events hc ht hf =
      let start = (H.now s).0 in
      let early = timely.now-early s in
      let late = timely.now-late s in
      let tick = timely.now-clock s in
      if-Ensures H.has_hotplug no_events (find_device_hotplug H (suc fuel) bus addr none limit)
        (find_device_polling H (suc fuel) bus addr limit) s
        (polling_loop-finds fuel start limit (H.now s).1 (omega arith) (omega arith) (omega arith)
          (omega arith))

  -- A device that is connected while the search waits is found: on a host without hotplug, if the
  -- one device that matches is listed from `arrival` on and none matches before, the search that
  -- begins before ends with this device, at most a poll interval and four steps after its arrival.
  -- Premises: the host's clock runs and its lists can be read, the arrival is two steps within the
  -- time limit, and there is more fuel than the limit has nanoseconds.
  pub find_device-finds :
      (fuel limit : ℕ) (s : H.State)
      → H.has_hotplug ≡ false
      → clock s < arrival
      → arrival + 2 * step < clock s + limit
      → limit < fuel
      → Ensures Found (find_device H fuel bus addr (some limit) s)
  unfolding find_device choose
  find_device-finds fuel limit s no_events hc ht hf =
      let listed = timely.devices-late s in
      let listed_early = timely.devices-early s in
      from_usb-Ensures (H.devices s) (seen s) _ (lists s) (
        rw (before s hc) (
          wait_for_device-finds fuel limit (H.devices s).1 no_events (omega arith) (omega arith)
            hf))
