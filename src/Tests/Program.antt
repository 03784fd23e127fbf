-- ===== src/Tests/Program.antt =====
-- Runs of the program on the simulated host.
use rkusb.Prelude.{
  false, ◌∷◌, ensures, ℕ, ◌+◌, ◌++◌, ◌*◌, ◌≡◌, ◌>>=◌, refl, List, some, none, Ensures, replicate,
  arith, [], ok, true,
}
use rkusb.Disk.{slice, overlay}
use rkusb.Drive.{ready}
use rkusb.DeviceType.{loader}
use rkusb.Drive.Simulated.{sim_bus, sim_link, sim_blank}
use rkusb.LbaCommand.{ReadArgs, WriteArgs, EraseArgs, read, write, erase}
use rkusb.Program.Info.{Formats}
use rkusb.Partition.{Partition}
use rkusb.Program.Listing.{Args, Line}
use rkusb.Program.Main.{Crates, file}
use rkusb.Program.Main.Sectors.{
  IsIdle, run_lba, handle_command-write-read, handle_command-erase-read,
}
use rkusb.Program.Storage.{Gpt, Selector}
use rkusb.Program.UpgradeLoader.{Sums}
use rkusb.Tests.DeviceChoice.{board}
use rkusb.Tests.Firmware.{parts, update_header}
use rkusb.Tests.Lba.{start_state}
use rkusb.Tests.Session.{sim_host, AreConnected, start, board-IsPlugged}

abbrev payload : List ℕ
payload = replicate 600 9

abbrev part : Partition
part = record { name = 97 ∷ []; guid = []; first_lba = 64 }

abbrev entries : List (ℕ × Partition)
entries = (1, record part { name = 98 ∷ [] }) ∷ (2, part) ∷ []

abbrev by_name : Selector
by_name = record { name = some (97 ∷ []); guid = none; index = none }

abbrev gpt : Gpt sim_bus
gpt = record {
  open_from_device = λ dev lb_size d s. (ok (entries, d), s);
  bytes_len = λ part. some 1000;
}

abbrev sums : Sums
sums = record {
  rc4 = λ key bytes. bytes;
  crc16 = λ bytes. 0;
  rk_crc = λ bytes. 0;
  from_utf16_lossy = λ units. units;
  size_of_time = 7;
}

abbrev formats : Formats
formats = record {
  rkfw_tag = 0x5746_4B52;
  header = update_header;
  size_of_time = 7;
  rc4 = λ key bytes. bytes;
  from_utf16_lossy = λ units. units;
}

abbrev crates : Crates sim_host
crates = record { parts = parts; gpt = gpt; sums = sums; formats = formats }

abbrev only_loader : Args
only_loader = record { maskrom = false; loader = true; msc = false }

abbrev loader_line : Line
loader_line = record { bus_number = 1; address = 3; mode = loader }

abbrev write_args : WriteArgs
write_args = record { begin_sector = 64; input = payload; subcode = 0 }

abbrev read_args : ReadArgs
read_args = record { begin_sector = 64; sector_count = 2; subcode = 0 }

abbrev erase_args : EraseArgs
erase_args = record { begin_sector = 64; sector_count = 2 }

handle_command-write-read_example :
    Ensures
      (λ output w'.
        (output ≡ file (some (payload ++ slice start_state.disk (64 * 512 + 600) 424)))
        × IsIdle sim_host sim_link AreConnected (overlay start_state.disk (64 * 512) payload) w')
      ((run_lba sim_host crates 0 (some 1) none none 2000 (write write_args) >>= λ _.
          run_lba sim_host crates 0 (some 1) none none 2000 (read read_args))
        start)
handle_command-write-read_example =
    handle_command-write-read sim_host sim_link AreConnected crates 0 (some 1) none none 2000 board
      (λ d. board-IsPlugged (λ s. (s.phase ≡ ready) × (s.disk ≡ d))) (λ d w idle. ensures idle)
      write_args read_args 424 start_state.disk start refl refl (omega arith) (omega arith)
      (refl, (refl, refl))

handle_command-erase-read_example :
    Ensures
      (λ output w'.
        (output ≡ file (some (replicate (2 * 512) sim_blank)))
        × IsIdle sim_host sim_link AreConnected
            (overlay start_state.disk (64 * 512) (replicate (2 * 512) sim_blank))
            w')
      ((run_lba sim_host crates 0 (some 1) none none 2000 (erase erase_args) >>= λ _.
          run_lba sim_host crates 0 (some 1) none none 2000 (read read_args))
        start)
handle_command-erase-read_example =
    handle_command-erase-read sim_host sim_link AreConnected crates 0 (some 1) none none 2000 board
      (λ d. board-IsPlugged (λ s. (s.phase ≡ ready) × (s.disk ≡ d))) (λ d w idle. ensures idle)
      erase_args read_args start_state.disk start refl refl (omega arith) (omega arith)
      (omega arith) (refl, (refl, refl))
