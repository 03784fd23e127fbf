-- ===== src/Tests/DeviceChoice.antt =====
-- A choice among three devices.
use rkusb.Prelude.{
  ℕ, ◌≡◌, ◌+◌, refl, List, [], ◌∷◌, Bool, true, false, none, some, ok, Ensures, ◌≤◌, ◌<◌, leb,
  le→leb, lt→not_leb, if◌then◌else◌, arith,
}
use rkusb.DeviceType.{from_pid_vid, is_msc_device, detect}
use rkusb.DeviceChoice.{candidates, UsbDevice, Hub, is_device_matching, find_device}
use rkusb.DeviceChoice.Waiting.{IsTimely, Ended}
use rkusb.DeviceChoice.Waiting.Ends.{find_device-Ended}
use rkusb.DeviceChoice.Waiting.Finds.{find_device-finds}
use rkusb.DeviceChoice.Waiting.Arrivals.{taken, find_device-Arrival}

abbrev pub device_at : ℕ → ℕ → UsbDevice
device_at vendor address = record {
  descriptor = ok (record { product_id = 0x350B; vendor_id = vendor; sub_minor = 0 });
  bus_number = 1;
  address = address;
}

abbrev pub keyboard : UsbDevice
keyboard = device_at 0x1234 2

abbrev pub board : UsbDevice
board = device_at 0x2207 3

abbrev other_board : UsbDevice
other_board = device_at 0x2207 4

pub keyboard-unmatched : is_device_matching keyboard (some 1) none none ≡ false
unfolding is_device_matching detect from_pid_vid is_msc_device
keyboard-unmatched = refl

pub board-matched : is_device_matching board (some 1) none none ≡ true
unfolding is_device_matching detect from_pid_vid is_msc_device
board-matched = refl

other_board-matched : is_device_matching other_board (some 1) none none ≡ true
unfolding is_device_matching detect from_pid_vid is_msc_device
other_board-matched = refl

-- Devices that come one after the other, at their times; every call takes a nanosecond.
pub record SimHub : Type 0 where
  pub clock : ℕ
  pub present : ℕ → List UsbDevice
  pub arriving : List UsbDevice

abbrev pub tick : SimHub → ℕ → SimHub
tick s t = record s { clock = s.clock + t }

abbrev pub sim_hub : Bool → Hub
sim_hub has_hotplug = record {
  State = SimHub;
  has_hotplug = has_hotplug;
  devices = λ s. (ok (s.present s.clock), tick s 1);
  register = λ s. (ok tt, tick s 1);
  handle_events = λ t s. (s.arriving, tick s 1);
  now = λ s. (s.clock, tick s 1);
  sleep = λ t s. tick s t;
}

abbrev pub connected : List UsbDevice → SimHub
connected devices = record { clock = 7; present = λ t. devices; arriving = [] }

sim_hub-IsTimely : (has_hotplug : Bool) → IsTimely (sim_hub has_hotplug) (λ s. s.clock) 1
sim_hub-IsTimely has_hotplug = record {
  now-early = λ s. omega arith;
  now-late = λ s. omega arith;
  now-clock = λ s. omega arith;
  devices-early = λ s. omega arith;
  devices-late = λ s. omega arith;
  register-early = λ s. omega arith;
  register-late = λ s. omega arith;
  sleep-early = λ s t. omega arith;
  sleep-late = λ s t. omega arith;
  events-early = λ s t. omega arith;
  events-late = λ s t. omega arith;
}

find_device-Ended_example :
    Ended
      (λ s'. s'.clock ≤ 7 + 900 + 100_000_000 + 6)
      (find_device (sim_hub true) 1000 (some 1) none (some 900) (connected (keyboard ∷ [])))
find_device-Ended_example =
    find_device-Ended (sim_hub-IsTimely true) 1000 (some 1) none (some 900)
      (connected (keyboard ∷ [])) (omega arith)

-- A hub at which the board is listed from time 300 on.
abbrev late_devices : ℕ → List UsbDevice
late_devices t = if leb 300 t then board ∷ [] else []

abbrev late_hub : Hub
late_hub = record {
  State = ℕ;
  has_hotplug = false;
  devices = λ s. (ok (late_devices s), s + 1);
  register = λ s. (ok tt, s + 1);
  handle_events = λ t s. ([], s + t + 1);
  now = λ s. (s, s + 1);
  sleep = λ t s. s + t;
}

late_hub-IsTimely : IsTimely late_hub (λ s. s) 1
late_hub-IsTimely = record {
  now-early = λ s. omega arith;
  now-late = λ s. omega arith;
  now-clock = λ s. omega arith;
  devices-early = λ s. omega arith;
  devices-late = λ s. omega arith;
  register-early = λ s. omega arith;
  register-late = λ s. omega arith;
  sleep-early = λ s t. omega arith;
  sleep-late = λ s t. omega arith;
  events-early = λ s t. omega arith;
  events-late = λ s t. omega arith;
}

late_devices-before : (s : ℕ) → s < 300 → candidates (late_devices s) (some 1) none ≡ []
unfolding candidates
late_devices-before s h = rw (lt→not_leb 300 s h) refl

late_devices-after : (s : ℕ) → 300 ≤ s → candidates (late_devices s) (some 1) none ≡ board ∷ []
unfolding candidates
late_devices-after s h = rw (le→leb 300 s h, board-matched) refl

find_device-finds_example :
    Ensures
      (λ got s'. (got ≡ board) × (s' ≤ 300 + 100_000_000 + 4))
      (find_device late_hub 1000 (some 1) none (some 900) 7)
find_device-finds_example =
    find_device-finds late_hub-IsTimely (some 1) none board 300 late_devices (λ s. refl)
      late_devices-before late_devices-after 1000 900 7 refl (omega arith) (omega arith)
      (omega arith)

find_device-Arrival_example :
    find_device
      (sim_hub true)
      4
      (some 1)
      none
      (some 900)
      (record { clock = 7; present = λ t. []; arriving = keyboard ∷ [] })
    ≡ (ok keyboard, record { clock = 12; present = λ t. []; arriving = keyboard ∷ [] })
unfolding candidates
find_device-Arrival_example =
    find_device-Arrival (sim_hub true) 3 (some 1) none 900 9 10 [] keyboard
      (record { product_id = 0x350B; vendor_id = 0x1234; sub_minor = 0 }) (ok keyboard)
      (record { clock = 7; present = λ t. []; arriving = keyboard ∷ [] })
      (record { clock = 8; present = λ t. []; arriving = keyboard ∷ [] })
      (record { clock = 9; present = λ t. []; arriving = keyboard ∷ [] })
      (record { clock = 10; present = λ t. []; arriving = keyboard ∷ [] })
      (record { clock = 11; present = λ t. []; arriving = keyboard ∷ [] })
      (record { clock = 12; present = λ t. []; arriving = keyboard ∷ [] }) refl refl refl refl refl
      refl (omega arith) refl refl (taken refl refl)
