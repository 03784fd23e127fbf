-- ===== src/Tests/Firmware.antt =====
-- The whole upgrade on the simulated device.
use rkusb.Prelude.{
  ℕ, ◌+◌, ◌≡◌, refl, ap, List, [], ◌∷◌, ◌++◌, some, none, true, ok, Ensures, ensures, inr, leb,
  if◌then◌else◌, length, replicate, arith,
}
use rkusb.Prelude.Bytes.{from_le}
use rkusb.Drive.{ready}
use rkusb.Drive.Simulated.{sim_bus, sim_device, sim_link, sim_informant, sim_control}
use rkusb.Device.Commands.{RkFlashInfo, read_flash_info, lba_size}
use rkusb.DeviceType.{maskrom, detect, from_pid_vid, is_msc_device}
use rkusb.DeviceChoice.{UsbDevice, is_device_matching}
use rkusb.Image.{
  RkBootImage, Item, entry_471, entry_472, iter_entries, entry_item, decode_entry, trim_end,
  get_range,
}
use rkusb.Image.Entries.{table_entries}
use rkusb.Image.Boot.{table_of, new_boot_image-tables}
use rkusb.Image.Firmware.{FwHeader, RkFwImage, new_fw_image, boot_data}
use rkusb.Upgrade.Firmware.{Parameter, Parts, logical_block_size}
use rkusb.Upgrade.Firmware.Images.{IsOutside}
use rkusb.Upgrade.Firmware.Executes.{IsTable}
use rkusb.Device.Commands.Downloads.{sent}
use rkusb.Program.DownloadBoot
use rkusb.Program.DownloadBoot.Runs.{exec-logs}
use rkusb.Session.{State}
use rkusb.Session.Connects.{IsPlugged}
use rkusb.Upgrade.Command.{exec}
use rkusb.Upgrade.Command.Runs.{Boots, downloaded, exec-Installed}
use rkusb.Tests.DeviceChoice.{SimHub, device_at, tick}
use rkusb.Tests.Session.{sim_host, sim_host-IsOpenable}
use rkusb.Tests.Lba.{start_state}
use rkusb.Tests.Image.{loader_bytes, loader_bytes-tag, first-IsTable, second-IsTable, third-IsTable}
use rkusb.Tests.Upgrade.{table, firmware, after_firmware, firmware-Installed}

-- A header of four bytes, the boot image, a firmware of ten bytes, and its MD5.
abbrev update_image : List ℕ
update_image = replicate 4 82 ++ (loader_bytes ++ (replicate 10 5 ++ replicate 32 6))

abbrev pub update_header : FwHeader
update_header = record {
  size_of = 4;
  is_tagged = λ bytes. true;
  fw_offset = λ bytes. 4 + length loader_bytes;
  fw_size = λ bytes. 10;
  boot_offset = λ bytes. 4;
  boot_size = λ bytes. length loader_bytes;
}

abbrev update_firmware : RkFwImage
update_firmware = record {
  bytes = update_image;
  fw = replicate 10 5;
  md5 = replicate 32 6;
  sign = none;
}

abbrev boot_image : RkBootImage
boot_image = record {
  bytes = loader_bytes;
  entries_471 = table_of 7 loader_bytes 0;
  entries_472 = table_of 7 loader_bytes 1;
  entries_loader = table_of 7 loader_bytes 2;
}

abbrev parameter : Parameter
parameter = record { size = 3; content = ok (1 ∷ 2 ∷ 3 ∷ []) }

abbrev pub parts : Parts sim_bus
parts = record {
  crc16 = λ bytes. 0;
  from_utf16_lossy = λ units. units;
  size_of_time = 7;
  header = update_header;
  archive = λ bytes. record { parameter = ok (some parameter); files = ok firmware };
  open_from_device = λ dev writable lb_size d s. (ok (table, d), s);
}

abbrev pub flash_info : RkFlashInfo
flash_info = record {
  flash_size = 2048;
  block_size = 0;
  page_size = 0;
  ecc_bits = 0;
  access_time = 0;
  manufacture = 0;
  flash_mask = 0;
}

update_image-read : new_fw_image update_header update_image ≡ ok update_firmware
unfolding new_fw_image get_range
update_image-read = refl

boot_image-read : boot_data update_header 7 update_firmware ≡ some (ok boot_image)
unfolding boot_data get_range
boot_image-read = ap some (
    new_boot_image-tables 7 loader_bytes (omega arith) (omega arith) (inr loader_bytes-tag)
      first-IsTable second-IsTable third-IsTable)

parts-IsTable : IsTable sim_link sim_informant parts 512 table
unfolding IsTable
parts-IsTable writable d s idle = ensures (refl, refl, refl, idle, refl)

pub flash_info-read : read_flash_info (sim_informant.answer 0x1A) ≡ some flash_info
unfolding read_flash_info from_le
flash_info-read = refl

pub flash_info-blocks : logical_block_size (lba_size flash_info) ≡ some 512
unfolding lba_size
flash_info-blocks = refl

-- A board that is listed in the maskrom mode once, and in the loader mode from then on.
abbrev fresh_board : UsbDevice
fresh_board = device_at 0x2207 3

abbrev pub loader_board : UsbDevice
loader_board = record fresh_board {
  descriptor = ok (record { product_id = 0x350B; vendor_id = 0x2207; sub_minor = 1 });
}

abbrev booting_hub : SimHub
booting_hub = record {
  clock = 7;
  present = λ t. if leb 8 t then loader_board ∷ [] else fresh_board ∷ [];
  arriving = [];
}

abbrev BeforeBoot : State sim_host → Type 0
BeforeBoot w = (w.0 ≡ booting_hub) × (w.1 ≡ start_state)

abbrev OpenedOnce : State sim_host → Type 0
OpenedOnce w = (w.0 ≡ tick booting_hub 1) × (w.1 ≡ start_state)

abbrev Idle : State sim_host → Type 0
Idle w = (w.1.phase ≡ ready) × (w.1.disk ≡ start_state.disk)

abbrev Booted : State sim_host → Type 0
Booted w = (w.0 ≡ tick booting_hub 1) × Idle w

fresh_board-matched : is_device_matching fresh_board (some 1) none none ≡ true
unfolding is_device_matching detect from_pid_vid is_msc_device
fresh_board-matched = refl

loader_board-matched : is_device_matching loader_board (some 1) (some 3) none ≡ true
unfolding is_device_matching detect from_pid_vid is_msc_device
loader_board-matched = refl

fresh_board-IsPlugged :
    IsPlugged sim_host (some 1) none fresh_board sim_device BeforeBoot OpenedOnce
fresh_board-IsPlugged = record {
  before = [];
  after = [];
  seen = OpenedOnce;
  lists = λ w (same, kept). rw same refl;
  sees = λ w (same, kept). (rw same refl, kept);
  matches = fresh_board-matched;
  unmatched_before = tt;
  unmatched_after = tt;
  openable = sim_host-IsOpenable fresh_board OpenedOnce;
}

loader_board-IsPlugged : IsPlugged sim_host (some 1) (some 3) loader_board sim_device Booted Idle
loader_board-IsPlugged = record {
  before = [];
  after = [];
  seen = Idle;
  lists = λ w (same, kept). rw same refl;
  sees = λ w (same, kept). kept;
  matches = loader_board-matched;
  unmatched_before = tt;
  unmatched_after = tt;
  openable = sim_host-IsOpenable loader_board Idle;
}

fresh_board-maskrom :
    detect (record { product_id = 0x350B; vendor_id = 0x2207; sub_minor = 0 }) ≡ some maskrom
unfolding detect from_pid_vid is_msc_device
fresh_board-maskrom = refl

-- The first entry names the first four bytes of the image.
abbrev tag_item : Item
tag_item = record { name = []; content = 76 ∷ 68 ∷ 82 ∷ 32 ∷ []; delay = 0 }

items_471 : iter_entries parts.from_utf16_lossy boot_image entry_471 ≡ some tag_item ∷ []
unfolding iter_entries entry_item get_range trim_end from_le table_entries decode_entry
items_471 = refl

items_472 : iter_entries parts.from_utf16_lossy boot_image entry_472 ≡ []
unfolding iter_entries entry_item get_range trim_end table_entries
items_472 = refl

fresh_board-Boots :
    Boots sim_host parts boot_image fresh_board sim_device sim_device OpenedOnce Idle maskrom
fresh_board-Boots =
    downloaded (sim_control start_state.disk) (tag_item ∷ []) [] loader_board Booted items_471
      items_472 (λ w (same, kept). rw kept (refl, refl)) (λ w s (same, kept) held. (same, held))
      loader_board-IsPlugged

exec-Installed_example :
    Ensures
      (λ _ w'.
        (w'.1.disk ≡ after_firmware)
        × ((i : ℕ) → IsOutside table i → w'.1.disk i ≡ start_state.disk i)
        × (w'.1.phase ≡ ready))
      (exec sim_host parts 0
        (record { bus = some 1; addr = none; wait = none; timeout = 0 })
        update_image
        (booting_hub, start_state))
exec-Installed_example =
    exec-Installed sim_host parts sim_link sim_informant
      (record { bus = some 1; addr = none; wait = none; timeout = 0 }) 0 update_image fresh_board
      sim_device (record { product_id = 0x350B; vendor_id = 0x2207; sub_minor = 0 }) maskrom
      update_firmware boot_image parameter (1 ∷ 2 ∷ 3 ∷ []) flash_info 512 table firmware
      start_state.disk after_firmware BeforeBoot OpenedOnce (booting_hub, start_state)
      fresh_board-IsPlugged refl fresh_board-maskrom update_image-read boot_image-read
      fresh_board-Boots refl (omega arith) (omega arith) refl (omega arith) refl refl
      flash_info-read flash_info-blocks parts-IsTable firmware-Installed (omega arith) (omega arith)
      (omega arith) (refl, refl)

fresh_board-IsListening :
    IsPlugged sim_host
      (some 1)
      none
      fresh_board
      sim_device
      BeforeBoot
      (λ w. (w.1.control ≡ []) × Idle w)
fresh_board-IsListening = record {
  before = [];
  after = [];
  seen = λ w. (w.1.control ≡ []) × Idle w;
  lists = λ w (same, kept). rw same refl;
  sees = λ w (same, kept). rw kept (refl, (refl, refl));
  matches = fresh_board-matched;
  unmatched_before = tt;
  unmatched_after = tt;
  openable = sim_host-IsOpenable fresh_board (λ w. (w.1.control ≡ []) × Idle w);
}

exec-logs_example :
    Ensures
      (λ _ w'.
        (w'.1.control
          ≡ [] ++ (sent parts.crc16 0x0471 (tag_item ∷ []) ++ sent parts.crc16 0x0472 []))
        × Idle w')
      (DownloadBoot.exec sim_host parts.crc16 parts.from_utf16_lossy 7 0
        (record { mmap = loader_bytes; bus = some 1; addr = none; wait = none })
        (booting_hub, start_state))
exec-logs_example =
    exec-logs sim_host (sim_control start_state.disk) parts.crc16 parts.from_utf16_lossy 7 0
      (record { mmap = loader_bytes; bus = some 1; addr = none; wait = none }) fresh_board
      sim_device boot_image (tag_item ∷ []) [] [] BeforeBoot (booting_hub, start_state)
      fresh_board-IsListening
      (new_boot_image-tables 7 loader_bytes (omega arith) (omega arith) (inr loader_bytes-tag)
        first-IsTable second-IsTable third-IsTable)
      items_471 items_472 (refl, refl)
