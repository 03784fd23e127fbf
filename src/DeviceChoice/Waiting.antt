-- ===== src/DeviceChoice/Waiting.antt =====
-- How long a search for a device takes, on a host whose clock runs.
pub mod Ends
pub mod Finds
pub mod Arrivals
use rkusb.Prelude.{ℕ, suc, ◌+◌, ◌≤◌, ◌<◌, ok, err}
use rkusb.DeviceChoice.{Hub, UsbDevice, DeviceSelectionError, selection, panicked, Failure}
use rkusb.Prelude.{Result}

-- The clock against the calls: `now` reads it, no call turns it back, each takes `step` at most
-- on top of the time that it was asked to wait, and the wait for an event takes some time.
pub record IsTimely (H : Hub) (clock : H.State → ℕ) (step : ℕ) : Type 0 where
  pub now-early : (s : H.State) → clock s ≤ (H.now s).0
  pub now-late : (s : H.State) → (H.now s).0 ≤ clock (H.now s).1
  pub now-clock : (s : H.State) → clock (H.now s).1 ≤ clock s + step
  pub devices-early : (s : H.State) → clock s ≤ clock (H.devices s).1
  pub devices-late : (s : H.State) → clock (H.devices s).1 ≤ clock s + step
  pub register-early : (s : H.State) → clock s ≤ clock (H.register s).1
  pub register-late : (s : H.State) → clock (H.register s).1 ≤ clock s + step
  pub sleep-early : (s : H.State) (t : ℕ) → clock s + t ≤ clock (H.sleep t s)
  pub sleep-late : (s : H.State) (t : ℕ) → clock (H.sleep t s) ≤ clock s + t + step
  pub events-early : (s : H.State) (t : ℕ) → clock s < clock (H.handle_events t s).1
  pub events-late : (s : H.State) (t : ℕ) → clock (H.handle_events t s).1 ≤ clock s + t + step

-- A search that came to an end, in a state that meets `P`: its fuel was enough.
pub data Ended {S : Type 0} (P : S → Type 0) : Result Failure UsbDevice × S → Type 0 where
  ended_ok : {dev : UsbDevice} {s : S} → P s → Ended P (ok dev, s)
  ended_err : {e : DeviceSelectionError} {s : S} → P s → Ended P (err (selection e), s)
  ended_panicked : {s : S} → P s → Ended P (err panicked, s)
