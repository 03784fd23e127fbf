-- ===== src/Tests/Lba.antt =====
-- Transfers with the simulated device.
use rkusb.Prelude.{
  OnOk, ◌<◌, ◌/◌, ◌^◌, length, [], ◌+◌, ◌≤◌, ℕ, ◌*◌, ◌≡◌, refl, some, List, Ensures, replicate,
  arith,
}
use rkusb.Disk.{slice, overlay}
use rkusb.Usb.{as_bytes}
use rkusb.Device.Raw.{lba_cbw}
use rkusb.Device.Lba.{write_lba, read_lba, erase_lba}
use rkusb.Device.Lba.Bounds.{lba-bounds}
use rkusb.Device.Lba.Writes.{write_lba-overlay}
use rkusb.Device.Lba.Reads.{read_lba-slice}
use rkusb.Device.Lba.Erases.{erase_lba-overlay}
use rkusb.Drive.{ready, decode, read, write, erase}
use rkusb.Drive.Decode.{decode-lba_cbw}
use rkusb.Drive.Simulated.{SimState, sim_bus, sim_device, sim_link, sim_blank}

abbrev pub start_state : SimState
start_state = record { clock = 5; disk = λ i. i * 7; phase = ready; control = [] }

abbrev payload : List ℕ
payload = replicate 600 9

write_lba-overlay_example :
    Ensures
      (λ _ s'.
        (s'.phase ≡ ready)
        × (s'.disk ≡ overlay start_state.disk (64 * 512) payload)
        × (s'.clock ≤ 33))
      (write_lba sim_bus sim_device 64 payload 0 2000 start_state)
write_lba-overlay_example =
    write_lba-overlay sim_link 64 payload 0 2000 start_state (omega arith) (omega arith) refl

read_lba-slice_example :
    Ensures
      (λ got s'.
        (got ≡ slice start_state.disk (64 * 512) 600)
        × (s'.phase ≡ ready)
        × (s'.disk ≡ start_state.disk)
        × (s'.clock ≤ 33))
      (read_lba sim_bus sim_device 64 payload 0 2000 start_state)
read_lba-slice_example =
    read_lba-slice sim_link 64 payload 0 2000 start_state (omega arith) (omega arith) refl

erase_lba-overlay_example :
    Ensures
      (λ _ s'.
        (s'.phase ≡ ready)
        × (s'.disk ≡ overlay start_state.disk (64 * 512) (replicate (3 * 512) sim_blank))
        × (s'.clock ≤ 15))
      (erase_lba sim_bus sim_device 64 3 2000 start_state)
erase_lba-overlay_example =
    erase_lba-overlay sim_link 64 3 2000 start_state (omega arith) (omega arith) refl

decode-lba_cbw_example :
    (decode (as_bytes (lba_cbw 0x14 0xDEAD_BEEF (8 * 512) 64 8 0)) ≡ some (read 0xDEAD_BEEF 64 8))
    × (decode (as_bytes (lba_cbw 0x15 0xDEAD_BEEF (8 * 512) 64 8 0))
        ≡ some (write 0xDEAD_BEEF 64 8))
    × (decode (as_bytes (lba_cbw 0x25 0xDEAD_BEEF 0 64 8 0)) ≡ some (erase 0xDEAD_BEEF 64 8))
decode-lba_cbw_example = decode-lba_cbw 0xDEAD_BEEF 64 8 0 (omega arith) (omega arith) (omega arith)

lba-bounds_example :
    OnOk
      (λ _ _. 64 + length payload / 512 < 2 ^ 32)
      (write_lba sim_bus sim_device 64 payload 0 2000 start_state)
    × OnOk
        (λ _ _. 64 + length payload / 512 < 2 ^ 32)
        (read_lba sim_bus sim_device 64 payload 0 2000 start_state)
    × OnOk (λ _ _. 64 + 3 < 2 ^ 32) (erase_lba sim_bus sim_device 64 3 2000 start_state)
lba-bounds_example =
    lba-bounds sim_bus sim_device 64 2000 start_state (omega arith) payload payload 3 0
