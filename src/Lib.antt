-- ===== src/Lib.antt =====
-- Verification of rkusb, a library and a command line tool (rktools) for Rockchip devices in their
-- USB download modes.
--
-- The program's parts, from the bottom up, and the files that model them:
--   Prelude         lists, results, the monad `Action` of operations with errors on a state, and
--                   bytes of machine integers
--   Bus             what the library uses of its host: bulk and control transfers (crate rusb),
--                   the clock, random numbers and pauses, as a record of operations on a state
--   Usb             src/usb.rs: command and status blocks and their bytes
--   Device          src/lib.rs: `RkDevice`, its errors and deadlines
--     Transaction   `cbw_transaction`: command, data and status, one function per stage
--     Raw           `write_lba_raw`, `read_lba_raw` and `erase_lba_raw`: one transfer each
--     Lba           `write_lba`, `read_lba` and `erase_lba`: ranges of any length in chunks of
--                   128 sectors (65535 for erases), a last partial sector read and written back
--     Commands      src/lib.rs: the other commands of `RkDevice`, and which endpoints `open` takes
--   Storage         src/bin/rktools/storage/mod.rs: `RkBlockDevice`, a stream of bytes on top of
--                   `read_lba` and `write_lba`
--   DeviceType      src/lib.rs: the tables of product and vendor ids, and `RkUsbType::detect`
--   Copy            `std::io::copy` into a `RkBlockDevice`: what the reader gives, in pieces of
--                   8192 bytes, each written by `write_all`
--   DeviceChoice    src/bin/rktools/common.rs: the choice among the connected devices, and the
--                   wait for one by events or by polling, on a host that is the record `Hub`
--   Image           src/image.rs: boot images and firmware images
--   Idblock         src/idblock: the first boot stage as it is written to storage, in the old
--                   format (Old) and the new one (New), and the choice between them (Build); and
--                   what is read of an RKNS header (Rkns)
--   Disk, Drive     not the program's code: a disk as a function from byte addresses to bytes,
--                   and what a device is assumed to do with the bytes that it receives
--   UpgradeLoader   src/bin/rktools/subcommands/upgrade_loader.rs: a first boot stage,
--                   from an image to storage, on top of Image, Idblock and Device
--   Upgrade         src/bin/rktools/subcommands/upgrade.rs: images of partitions, regular ones and
--                   sparse ones (Sparse), on top of Copy and Storage, and the upgrade with a whole
--                   firmware (Firmware), on top of Image, Device and DeviceType; Command is the
--                   subcommand from its arguments on
--   Session         src/bin/rktools/common.rs and `RkDevice::open`: from the bus and the address
--                   to an opened device, on a host with a hub and a bus
--   Partition       src/bin/rktools/subcommands/storage.rs: partitions and their transfers
--   LbaCommand      src/bin/rktools/subcommands/lba.rs: reads, writes and erases of sectors
--   Program         src/bin/rktools/main.rs and the subcommands from their arguments on: Listing
--                   (list.rs), Wait, Reset, DownloadBoot, Lba, Storage, Info, UpgradeLoader, the
--                   errors that they have in common (Errors), and their dispatch (Main)
--   Tests           the theorems at concrete inputs, on a simulated device
--
-- State and errors. An operation of the source on `&mut self` is a function from the state of the
-- bus to a result and a state, `Action`; `?` is the `>>=` of that monad. The state after an error
-- is kept. A `&mut [u8]` argument is a list that the operation takes and gives back; what it holds
-- after an error is not kept. Numbers are natural numbers with the bounds of their width written
-- out where the source can reach them; `usize` has 64 bits and the host is little-endian.
--
-- The device. `Drive.IsDrive` says what a device does that follows the bulk-only protocol: it
-- decodes the 31 bytes of a command block, takes or gives as many bytes as the command says, and
-- then gives a status block with the command's tag. `Drive.Queries.IsInformant` says the same of the
-- commands that ask it for its flash information, its capability and its storage. A call of the
-- bus takes a time of `step` at most, and does not time out if it is given so much. `Drive.Link`
-- is such a device at given endpoints. A `Session.Host` makes a context of rusb, and has the
-- devices that come and go and the handle of an opened one; what its calls give is not said, so that a theorem says what it
-- needs of them: `Session.Connects.IsPlugged` is a host that lists one device that matches, and
-- opens it. The theorems on transfers assume a `Link` and a time limit
-- above an allowance of so many calls for the bytes, and show that the transfer ends within it;
-- Drive.Simulated is a device for which all of this holds.
--
-- Loops. Chunks are a list that the loops recurse on. `erase_loop` runs on fuel: a round takes a
-- sector at least, so the count of sectors is enough. `map_sectors_fuel`
-- and `chunks_exact_fuel` take the length of their list, and `trailing_zeros` the width of its number.
-- The loops that wait for a device run on fuel as well: the clock goes on in every round, so more
-- fuel than the time limit has nanoseconds is enough.
--
-- Not modelled: the driver backend (src/rockusb.rs), which is a list of calls of Windows, and the
-- algorithm of src/checksum.rs, a constant for crate crc; parsing of arguments, logging, and the text
-- that is printed: a subcommand gives what it tells as a value. Files are lists of bytes: opening,
-- mapping and flushing them is left out. RC4, the checksums, rusb, and the partition tables and
-- archives of crates gpt and rkafp are parameters, with the facts used of them as hypotheses.
pub mod Prelude
pub mod Bus
pub mod Usb
pub mod Disk
pub mod Device
pub mod Drive
pub mod Storage
pub mod DeviceType
pub mod Image
pub mod DeviceChoice
pub mod Idblock
pub mod Copy
pub mod Upgrade
pub mod UpgradeLoader
pub mod Session
pub mod Program
pub mod Partition
pub mod LbaCommand
mod Tests
