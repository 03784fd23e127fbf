-- ===== src/Program/DownloadBoot/Runs.antt =====
-- The download, from the arguments to what is sent.
use rkusb.Prelude.{ℕ, ◌≡◌, ◌∙◌, ap, List, ◌++◌, map, some, ok, Ensures, Ensures-bind, Ensures-mono}
use rkusb.Device.{RkDevice}
use rkusb.Device.Commands.{download_boot}
use rkusb.Device.Commands.Downloads.{ControlLog, sent, download_boot-logs}
use rkusb.DeviceChoice.{UsbDevice}
use rkusb.Image.{RkBootImage, Item, entry_471, entry_472, iter_entries, new_boot_image}
use rkusb.Program.DownloadBoot.{Args, from_stop, exec}
use rkusb.Program.Errors.{download_errors, converted-Ensures, or_error}
use rkusb.Session.{Host, State}
use rkusb.Session.Connects.{IsPlugged, connect-only, on_bus-Ensures}

-- The subcommand succeeds and sends every 0x471 entry of the image and then every 0x472 entry, in the
-- order of the image, each with its checksum. Premises: one device has the bus and
-- the address and can be opened, the file is a boot image, all entries of both kinds lie in it, and
-- the host takes control transfers from then on.
pub exec-logs :
    (X : Host) (C : ControlLog X.bus) (crc16 : List ℕ → ℕ) (from_utf16_lossy : List ℕ → List ℕ)
    (size_of_time fuel : ℕ) (args : Args) (device : UsbDevice) (dev : RkDevice)
    (image : RkBootImage) (items_471 items_472 : List Item) (log : List (ℕ × ℕ))
    (P : State X → Type 0) (w : State X)
    → IsPlugged X args.bus args.addr device dev P (λ w'. (C.log w'.1 ≡ log) × C.holds w'.1)
    → new_boot_image size_of_time args.mmap ≡ ok image
    → iter_entries from_utf16_lossy image entry_471 ≡ map some items_471
    → iter_entries from_utf16_lossy image entry_472 ≡ map some items_472
    → P w
    → Ensures
        (λ _ w'.
          (C.log w'.1 ≡ log ++ (sent crc16 0x0471 items_471 ++ sent crc16 0x0472 items_472))
          × C.holds w'.1)
        (exec X crc16 from_utf16_lossy size_of_time fuel args w)
unfolding exec
exec-logs X C crc16 from_utf16_lossy size_of_time fuel args device dev image items_471 items_472 log
      P w plugged parsed h1 h2 p =
    Ensures-bind (connect-only X download_errors args.bus args.addr args.wait fuel plugged w p)
      λ got w1 (_, same, (kept, holds)). rw parsed (
        on_bus-Ensures X (or_error from_stop (download_boot X.bus crc16 from_utf16_lossy image)) w1
          (converted-Ensures from_stop (
            Ensures-mono
              (download_boot-logs C crc16 from_utf16_lossy image items_471 items_472 w1.1 h1 h2
                holds)
              λ _ s (logged, held). (
                logged
                    ∙ ap (λ l. l ++ (sent crc16 0x0471 items_471 ++ sent crc16 0x0472 items_472))
                        kept,
                held,
              ))))
