-- ===== src/Tests/Session.antt =====
-- Connecting to a board on a host with a keyboard.
use rkusb.Prelude.{◌≡◌, refl, [], ◌∷◌, some, none, false, ok, Ensures, ensures}
use rkusb.Device.Commands.{bulk_input, bulk_output, other_endpoint}
use rkusb.DeviceChoice.{UsbDevice}
use rkusb.Drive.Simulated.{SimState, sim_bus, sim_device}
use rkusb.Session.{InterfaceDescriptor, ConfigDescriptor, Host, State, connect}
use rkusb.Session.Connects.{IsOpenable, IsPlugged, connect-only}
use rkusb.Upgrade.Command.{upgrade_errors}
use rkusb.Tests.DeviceChoice.{
  SimHub, sim_hub, connected, keyboard, board, keyboard-unmatched, board-matched,
}
use rkusb.Tests.Lba.{start_state}

abbrev sim_interface : InterfaceDescriptor
sim_interface = record {
  interface_number = 0;
  endpoints = bulk_input 0x81 ∷ other_endpoint ∷ bulk_output 0x02 ∷ [];
}

abbrev sim_config : ConfigDescriptor
sim_config = record { number = 1; interfaces = (sim_interface ∷ []) ∷ [] }

abbrev pub sim_host : Host
sim_host = record {
  hub = sim_hub false;
  bus = sim_bus;
  new_context = λ w. (ok tt, w);
  open_handle = λ device w. (ok tt, w);
  active_config_descriptor = λ device w. (ok sim_config, w);
  set_active_configuration = λ n w. (ok tt, w);
  claim_interface = λ n w. (ok tt, w);
}

pub sim_host-IsOpenable :
    (device : UsbDevice) (P : State sim_host → Type 0) → IsOpenable sim_host device sim_device P P
sim_host-IsOpenable device P = record {
  config = sim_config;
  desc = sim_interface;
  settings = [];
  others = [];
  interfaces = refl;
  input = refl;
  output = refl;
  opens = λ w p. ensures p;
  describes = λ w q. ensures (refl, q);
  configures = λ w q. ensures q;
  claims = λ w q. ensures q;
}

-- The keyboard and the board stay connected.
abbrev pub AreConnected : SimHub → Type 0
AreConnected hub = hub.present ≡ (λ t. keyboard ∷ board ∷ [])

abbrev pub start : State sim_host
start = (connected (keyboard ∷ board ∷ []), start_state)

pub board-IsPlugged :
    (Q : SimState → Type 0)
    → IsPlugged sim_host
        (some 1)
        none
        board
        sim_device
        (λ w. AreConnected w.0 × Q w.1)
        (λ w. AreConnected w.0 × Q w.1)
board-IsPlugged Q = record {
  before = keyboard ∷ [];
  after = [];
  seen = λ w. AreConnected w.0 × Q w.1;
  lists = λ w (same, kept). rw same refl;
  sees = λ w p. p;
  matches = board-matched;
  unmatched_before = (keyboard-unmatched, tt);
  unmatched_after = tt;
  openable = sim_host-IsOpenable board (λ w. AreConnected w.0 × Q w.1);
}

connect-only_example :
    Ensures
      (λ got w'.
        (got.0 ≡ board) × (got.1 ≡ sim_device) × (AreConnected w'.0 × (w'.1 ≡ start_state)))
      (connect sim_host ⦃errors = upgrade_errors⦄ 0 (some 1) none none start)
connect-only_example =
    connect-only sim_host upgrade_errors (some 1) none none 0
      (board-IsPlugged (λ s. s ≡ start_state)) start (refl, refl)
