-- ===== src/Tests/Storage.antt =====
-- The block device on the simulated device.
use rkusb.Prelude.{ℕ, ◌≡◌, refl, List, Ensures, ok, err, replicate, arith}
use rkusb.Prelude.Int.{pos, negsuc}
use rkusb.Disk.{slice, overlay}
use rkusb.Drive.{ready}
use rkusb.Drive.Simulated.{sim_bus, sim_device, sim_link}
use rkusb.Storage.{RkBlockDevice, read, write, invalid_input}
use rkusb.Storage.Reads.{read-slice}
use rkusb.Storage.Writes.{write-overlay}
use rkusb.Storage.Seek.{end, current, seek, seek-inside, seek-outside}
use rkusb.Tests.Lba.{start_state}

abbrev storage : RkBlockDevice
storage = record { pos = 700; disk_size_bytes = 1048576; subcode = 0; timeout = 2000 }

abbrev buffer : List ℕ
buffer = replicate 900 3

read-slice_example :
    Ensures
      (λ got s'.
        (got.0 ≡ 900)
        × (got.1 ≡ slice start_state.disk 700 900)
        × (got.2 ≡ record storage { pos = 1600 })
        × (s'.phase ≡ ready)
        × (s'.disk ≡ start_state.disk))
      (read sim_bus sim_device storage buffer start_state)
read-slice_example = read-slice sim_link storage buffer start_state (omega arith) (omega arith) refl

write-overlay_example :
    Ensures
      (λ got s'.
        (got.0 ≡ 900)
        × (got.1 ≡ record storage { pos = 1600 })
        × (s'.disk ≡ overlay start_state.disk 700 buffer)
        × (s'.phase ≡ ready))
      (write sim_bus sim_device storage buffer start_state)
write-overlay_example =
    write-overlay sim_link storage buffer start_state (omega arith) (omega arith) refl

seek-inside_example : seek storage (current (negsuc 9)) ≡ (ok 690, record storage { pos = 690 })
seek-inside_example = seek-inside storage (current (negsuc 9)) 690 (omega arith) (omega arith) refl

seek-outside_example : seek storage (end (pos 0)) ≡ (err invalid_input, storage)
seek-outside_example = seek-outside storage (end (pos 0)) (λ target h. omega arith)
