-- ===== src/Tests/Partition.antt =====
-- Partitions on the simulated device.
use rkusb.Prelude.{
  ℕ, ◌+◌, ◌*◌, ◌<◌, ◌≤◌, ◌≡◌, ◌⊎◌, refl, List, [], ◌∷◌, Option, some, Ensures, replicate, arith,
}
use rkusb.Disk.{overlay}
use rkusb.Drive.{ready}
use rkusb.Drive.Simulated.{sim_bus, sim_device, sim_link}
use rkusb.Partition.{Partition, exec_partition_write}
use rkusb.Partition.Transfers.{exec_partition_write-overlay}
use rkusb.Tests.Lba.{start_state}

abbrev part : Partition
part = record { name = 97 ∷ []; guid = []; first_lba = 64 }

abbrev part_len : Partition → Option ℕ
part_len p = some 2048

abbrev file : List ℕ
file = replicate 700 8

exec_partition_write-overlay_example :
    Ensures
      (λ _ s'.
        (s'.disk ≡ overlay start_state.disk (64 * 512) file)
        × ((i : ℕ) → (i < 64 * 512) ⊎ (64 * 512 + 2048 ≤ i) → s'.disk i ≡ start_state.disk i)
        × (s'.phase ≡ ready))
      (exec_partition_write sim_bus sim_device part_len part file start_state)
exec_partition_write-overlay_example =
    exec_partition_write-overlay sim_link part_len part 2048 start_state refl (omega arith)
      (omega arith) refl file (omega arith)
