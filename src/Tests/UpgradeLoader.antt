-- ===== src/Tests/UpgradeLoader.antt =====
-- An upgrade of the loader on the simulated host.
use rkusb.Prelude.{
  same_name, ℕ, zero, suc, ◌*◌, ◌≡◌, refl, List, [], ◌∷◌, ◌++◌, not, ◌==◌, ok, err, some, none, inr,
  Ensures, replicate, arith,
}
use rkusb.Prelude.Bytes.{from_le}
use rkusb.Disk.{overlay}
use rkusb.Drive.{ready}
use rkusb.Drive.Simulated.{SimState, sim_device, sim_link, sim_informant}
use rkusb.Image.{
  RkBootImage, entry_loader, iter_entries, entry_item, decode_entry, get_range, trim_end, rc4_flag,
  new_boot_image,
}
use rkusb.Image.Boot.{table_of, new_boot_image-tables}
use rkusb.Image.Entries.{table_entries}
use rkusb.Idblock.{area, encrypt}
use rkusb.Idblock.Old.Layout.{IsIdblock}
use rkusb.Program.UpgradeLoader.{Sums, Args, exec_upgrade_loader}
use rkusb.Program.UpgradeLoader.Runs.{exec_upgrade_loader-IsIdblock, exec_upgrade_loader-head}
use rkusb.Session.Connects.{IsPlugged}
use rkusb.UpgradeLoader.{
  missing_entry, find_item, entry_flash_boot, entry_flash_data, entry_flash_head,
}
use rkusb.Tests.DeviceChoice.{board, keyboard, board-matched, keyboard-unmatched}
use rkusb.Tests.Idblock.{swap, swap-IsCipher, checksum16, checksum32}
use rkusb.Tests.Lba.{start_state}
use rkusb.Tests.Session.{sim_host, AreConnected, start, sim_host-IsOpenable}

abbrev IsFresh : SimState → Type 0
IsFresh s = (s.phase ≡ ready) × (s.disk ≡ start_state.disk)

board-IsReady :
    IsPlugged sim_host
      (some 1)
      none
      board
      sim_device
      (λ w. AreConnected w.0 × IsFresh w.1)
      (λ w. IsFresh w.1)
board-IsReady = record {
  before = keyboard ∷ [];
  after = [];
  seen = λ w. IsFresh w.1;
  lists = λ w (same, kept). rw same refl;
  sees = λ w (same, kept). kept;
  matches = board-matched;
  unmatched_before = (keyboard-unmatched, tt);
  unmatched_after = tt;
  openable = sim_host-IsOpenable board (λ w. IsFresh w.1);
}

-- A name as units of two bytes.
abbrev wide : ℕ → List ℕ → List ℕ
wide zero cs = []
wide (suc n) [] = 0 ∷ 0 ∷ wide n []
wide (suc n) (c ∷ cs) = c ∷ 0 ∷ wide n cs

abbrev entry_bytes : List ℕ → ℕ → ℕ → List ℕ
entry_bytes name offset size =
    57
    ∷ 4
    ∷ 0
    ∷ 0
    ∷ 0
    ∷ (wide 20 name ++ (offset ∷ 0 ∷ 0 ∷ 0 ∷ size ∷ 0 ∷ 0 ∷ 0 ∷ 0 ∷ 0 ∷ 0 ∷ 0 ∷ []))

-- A header with the tag, the number of loader entries behind it, and the flag of the cipher.
abbrev header_bytes : ℕ → List ℕ
header_bytes n =
    76
    ∷ 68
    ∷ 82
    ∷ 32
    ∷ (replicate 21 0
        ++ (0
            ∷ 0
            ∷ 0
            ∷ 0
            ∷ 0
            ∷ 57
            ∷ 0
            ∷ 0
            ∷ 0
            ∷ 0
            ∷ 0
            ∷ 57
            ∷ n
            ∷ 102
            ∷ 0
            ∷ 0
            ∷ 0
            ∷ 57
            ∷ 0
            ∷ 1
            ∷ replicate 57 0))

abbrev plain_bytes : List ℕ
plain_bytes =
    header_bytes 2 ++ (entry_bytes entry_flash_data 0 4 ++ entry_bytes entry_flash_boot 2 6)

abbrev head_bytes : List ℕ
head_bytes =
    header_bytes 3
    ++ (entry_bytes entry_flash_data 0 4
        ++ (entry_bytes entry_flash_boot 2 6 ++ entry_bytes entry_flash_head 1 3))

abbrev image_of : List ℕ → RkBootImage
image_of bytes = record {
  bytes = bytes;
  entries_471 = table_of 7 bytes 0;
  entries_472 = table_of 7 bytes 1;
  entries_loader = table_of 7 bytes 2;
}

plain_bytes-parsed : new_boot_image 7 plain_bytes ≡ ok (image_of plain_bytes)
unfolding from_le
plain_bytes-parsed =
    new_boot_image-tables 7 plain_bytes (omega arith) (omega arith) (inr refl) (refl, omega arith)
      (refl, omega arith) (refl, omega arith)

head_bytes-parsed : new_boot_image 7 head_bytes ≡ ok (image_of head_bytes)
unfolding from_le
head_bytes-parsed =
    new_boot_image-tables 7 head_bytes (omega arith) (omega arith) (inr refl) (refl, omega arith)
      (refl, omega arith) (refl, omega arith)

abbrev sums : Sums
sums = record {
  rc4 = swap;
  crc16 = checksum16;
  rk_crc = checksum32;
  from_utf16_lossy = λ name. name;
  size_of_time = 7;
}

abbrev args : List ℕ → Args
args mmap = record {
  mmap = mmap;
  bus = some 1;
  addr = none;
  wait = none;
  installs = record { lba = 64; subcode = 0; timeout = 300000 };
}

plain_bytes-boot :
    find_item (iter_entries (λ name. name) (image_of plain_bytes) entry_loader) entry_flash_boot
    ≡ ok (82 ∷ 32 ∷ replicate 4 0)
unfolding find_item same_name iter_entries entry_item get_range trim_end table_entries decode_entry
    from_le
plain_bytes-boot = refl

plain_bytes-data :
    find_item (iter_entries (λ name. name) (image_of plain_bytes) entry_loader) entry_flash_data
    ≡ ok (76 ∷ 68 ∷ 82 ∷ 32 ∷ [])
unfolding find_item same_name iter_entries entry_item get_range trim_end table_entries decode_entry
    from_le
plain_bytes-data = refl

plain_bytes-no_head :
    find_item (iter_entries (λ name. name) (image_of plain_bytes) entry_loader) entry_flash_head
    ≡ err (missing_entry entry_flash_head)
unfolding find_item same_name iter_entries entry_item get_range trim_end table_entries decode_entry
    from_le
plain_bytes-no_head = refl

exec_upgrade_loader-IsIdblock_example :
    Ensures
      (λ _ w'.
        (block : List ℕ) × IsIdblock
          (encrypt swap (not (rc4_flag 7 (image_of plain_bytes) == 0)))
          checksum16
          checksum32
          (not (rc4_flag 7 (image_of plain_bytes) == 0))
          (76 ∷ 68 ∷ 82 ∷ 32 ∷ [])
          (82 ∷ 32 ∷ replicate 4 0)
          block
        × (w'.1.disk ≡ overlay start_state.disk (64 * 512) block)
        × (w'.1.phase ≡ ready))
      (exec_upgrade_loader sim_host sums 0 (args plain_bytes) start)
exec_upgrade_loader-IsIdblock_example =
    exec_upgrade_loader-IsIdblock sim_host sim_link sums swap-IsCipher 0 (args plain_bytes) board
      (image_of plain_bytes) (82 ∷ 32 ∷ replicate 4 0) (76 ∷ 68 ∷ 82 ∷ 32 ∷ []) start_state.disk
      (λ w. AreConnected w.0 × IsFresh w.1) board-IsReady plain_bytes-parsed start
      (λ xs. omega arith) (λ xs. omega arith) (omega arith) plain_bytes-boot plain_bytes-data
      plain_bytes-no_head (omega arith) (omega arith) (omega arith) (refl, (refl, refl))

head_bytes-boot :
    find_item (iter_entries (λ name. name) (image_of head_bytes) entry_loader) entry_flash_boot
    ≡ ok (82 ∷ 32 ∷ replicate 4 0)
unfolding find_item same_name iter_entries entry_item get_range trim_end table_entries decode_entry
    from_le
head_bytes-boot = refl

head_bytes-data :
    find_item (iter_entries (λ name. name) (image_of head_bytes) entry_loader) entry_flash_data
    ≡ ok (76 ∷ 68 ∷ 82 ∷ 32 ∷ [])
unfolding find_item same_name iter_entries entry_item get_range trim_end table_entries decode_entry
    from_le
head_bytes-data = refl

head_bytes-head :
    find_item (iter_entries (λ name. name) (image_of head_bytes) entry_loader) entry_flash_head
    ≡ ok (68 ∷ 82 ∷ 32 ∷ [])
unfolding find_item same_name iter_entries entry_item get_range trim_end table_entries decode_entry
    from_le
head_bytes-head = refl

exec_upgrade_loader-head_example :
    Ensures
      (λ _ w'.
        (block : List ℕ) × (encrypt swap (not (rc4_flag 7 (image_of head_bytes) == 0)) block
          ≡ area 2048 (68 ∷ 82 ∷ 32 ∷ [])
            ++ (area 2048 (76 ∷ 68 ∷ 82 ∷ 32 ∷ []) ++ area 2048 (82 ∷ 32 ∷ replicate 4 0)))
        × (w'.1.disk ≡ overlay start_state.disk (64 * 512) block)
        × (w'.1.phase ≡ ready))
      (exec_upgrade_loader sim_host sums 0 (args head_bytes) start)
exec_upgrade_loader-head_example =
    exec_upgrade_loader-head sim_host sim_link sums swap-IsCipher 0 (args head_bytes) board
      (image_of head_bytes) (82 ∷ 32 ∷ replicate 4 0) (76 ∷ 68 ∷ 82 ∷ 32 ∷ []) start_state.disk
      (λ w. AreConnected w.0 × IsFresh w.1) board-IsReady head_bytes-parsed sim_informant
      (68 ∷ 82 ∷ 32 ∷ []) start (omega arith) head_bytes-boot head_bytes-data head_bytes-head refl
      refl (omega arith) (omega arith) (omega arith) (refl, (refl, refl))
