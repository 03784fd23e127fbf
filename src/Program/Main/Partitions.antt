-- ===== src/Program/Main/Partitions.antt =====
-- What one run of the program leaves in a partition for the next.
use rkusb.Prelude.{ℕ, ◌≡◌, List, Option, Ensures, Action}
use rkusb.Disk.{Disk}
use rkusb.Device.{RkDevice}
use rkusb.Drive.{ready, Link}
use rkusb.Drive.Queries.{Informant}
use rkusb.Partition.{Partition}
use rkusb.Program.Errors.{CommandError}
use rkusb.Program.Main.{Crates, Output, storage, handle_command}
use rkusb.Program.Storage.{PartitionCommand, partition}
use rkusb.Session.{Host, State}
use rkusb.Storage.{RkBlockDevice}

-- The program, run with a command on a partition.
abbrev pub run_partition :
    (X : Host)
    → Crates X
    → ℕ
    → Option ℕ
    → Option ℕ
    → Option ℕ
    → PartitionCommand
    → Action (State X) CommandError Output
run_partition X crates fuel bus addr wait command =
    handle_command X crates fuel
      (storage (record { bus = bus; addr = addr; wait = wait; command = partition command }))

module _ (X : Host) {dev : RkDevice} (L : Link X.bus dev) (I : Informant L)
    (H : X.hub.State → Type 0) (crates : Crates X) where
  -- Crate gpt finds these partitions, and writes nothing.
  unfoldable pub HasPartitions : ℕ → List (ℕ × Partition) → Type 0
  HasPartitions lb_size entries =
      (d : RkBlockDevice) (s : X.bus.State)
      → L.phase s ≡ ready
      → Ensures (λ got s'. (got.0 ≡ entries) × (L.phase s' ≡ ready) × (L.disk s' ≡ L.disk s))
          (crates.gpt.open_from_device dev lb_size d s)
