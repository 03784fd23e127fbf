-- ===== src/Tests/Transaction.antt =====
-- Transactions.
use rkusb.Prelude.{◌*◌, refl, Ensures, arith, ℕ, ◌≡◌, ◌↔◌, List, ok, length, take, drop, get_or}
use rkusb.Prelude.Bytes.{from_le}
use rkusb.Usb.{Cbw, csw_sign}
use rkusb.Drive.{ready, status_bytes}
use rkusb.Drive.Simulated.{sim_bus, sim_device, sim_link, sim_informant}
use rkusb.Device.Raw.{lba_cbw}
use rkusb.Device.Transaction.{parse_status}
use rkusb.Device.Transaction.Checks.{parse_status-accepts}
use rkusb.Storage.Opening.{try_from}
use rkusb.Storage.Opening.Sizes.{try_from-sectors}
use rkusb.Tests.Lba.{start_state}

abbrev command : Cbw
command = lba_cbw 0x14 77 512 3 1 0

abbrev received : ℕ
received = 13

abbrev answer : List ℕ
answer = status_bytes 77

parse_status-accepts_example : (parse_status command received answer ≡ ok tt) ↔ (
    (received ≡ 13)
    × (length answer ≡ 13)
    × (from_le (take 4 answer) ≡ csw_sign)
    × (from_le (take 4 (drop 4 answer)) ≡ command.tag)
    × (get_or answer 12 0 ≡ 0))
parse_status-accepts_example = parse_status-accepts command received answer

try_from-sectors_example :
    Ensures
      (λ d s'.
        (d.disk_size_bytes ≡ 2048 * 512)
        × (d.pos ≡ 0)
        × (d.timeout ≡ 30000)
        × (s'.phase ≡ ready)
        × (s'.disk ≡ start_state.disk))
      (try_from sim_bus sim_device start_state)
unfolding from_le
try_from-sectors_example =
    try_from-sectors sim_link sim_informant start_state refl (omega arith) (omega arith) refl
