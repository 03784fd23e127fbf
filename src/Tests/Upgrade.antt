-- ===== src/Tests/Upgrade.antt =====
-- Images of partitions, written to the simulated device.
use rkusb.Prelude.{
  ℕ, ◌+◌, ◌≤◌, ◌<◌, ◌≡◌, ◌⊎◌, refl, List, [], ◌∷◌, ok, err, Ensures, take, replicate, arith, some,
  Result, same_name,
}
use rkusb.Prelude.Bytes.{from_le}
use rkusb.Disk.{Disk, overlay}
use rkusb.Drive.{ready}
use rkusb.Drive.Simulated.{sim_bus, sim_device, sim_link}
use rkusb.Storage.{RkBlockDevice}
use rkusb.Upgrade.{Extent, write_regular_image}
use rkusb.Upgrade.Regular.{write_regular_image-overlay}
use rkusb.Upgrade.Sparse.{
  SparseHeader, Piece, content, gap, image_too_large, repeat, read_sparse_header, read_chunk_header,
  chunk_piece, read_chunk, write_sparse_image,
}
use rkusb.Upgrade.Sparse.Pieces.{image_pieces, place, total_size}
use rkusb.Upgrade.Sparse.Places.{write_sparse_image-place, too_large, write_sparse_image-refuses}
use rkusb.Storage.{IoError}
use rkusb.Upgrade.Firmware.{PartEntry, FwFile, super_name, parameter_name, find_part, write_files}
use rkusb.Upgrade.Firmware.Images.{regular, sparse, Installed, done, skipped, written, IsOutside}
use rkusb.Upgrade.Firmware.Installs.{write_files-Installed}
use rkusb.Tests.Lba.{start_state}

abbrev pub storage : RkBlockDevice
storage = record { pos = 700; disk_size_bytes = 1048576; subcode = 0; timeout = 2000 }

abbrev pub file : List ℕ
file = replicate 9000 3

abbrev pub partition : Extent
partition = record { bytes_len = ok 5000; bytes_start = ok 4096 }

write_regular_image-overlay_example :
    Ensures
      (λ d' s'.
        (d' ≡ record storage { pos = 9096 })
        × (s'.disk ≡ overlay start_state.disk 4096 (take 5000 file))
        × ((i : ℕ) → (i < 4096) ⊎ (9096 ≤ i) → s'.disk i ≡ start_state.disk i)
        × (s'.phase ≡ ready))
      (write_regular_image sim_bus sim_device partition file storage start_state)
write_regular_image-overlay_example =
    write_regular_image-overlay sim_link partition 5000 4096 file storage start_state refl refl
      (omega arith) (omega arith) (omega arith) (omega arith) refl

abbrev pub sparse_header : SparseHeader
sparse_header = record {
  magic = 0xED26FF3A;
  major_version = 1;
  minor_version = 0;
  file_hdr_sz = 28;
  chunk_hdr_sz = 12;
  blk_sz = 4;
  total_blks = 4;
  total_chunks = 3;
  image_checksum = 0;
}

-- Blocks of 4 bytes: one of content, a gap of two, and one that is filled.
abbrev pub sparse_image : List ℕ
sparse_image =
    0x3A ∷ 0xFF ∷ 0x26 ∷ 0xED ∷ 1 ∷ 0 ∷ 0 ∷ 0 ∷ 28 ∷ 0 ∷ 12 ∷ 0 ∷ 4 ∷ 0 ∷ 0 ∷ 0 ∷ 4 ∷ 0 ∷ 0 ∷ 0 ∷ 3
    ∷ 0 ∷ 0 ∷ 0 ∷ 0 ∷ 0 ∷ 0 ∷ 0 ∷ 0xC1 ∷ 0xCA ∷ 0 ∷ 0 ∷ 1 ∷ 0 ∷ 0 ∷ 0 ∷ 16 ∷ 0 ∷ 0 ∷ 0 ∷ 1 ∷ 2 ∷ 3
    ∷ 4 ∷ 0xC3 ∷ 0xCA ∷ 0 ∷ 0 ∷ 2 ∷ 0 ∷ 0 ∷ 0 ∷ 12 ∷ 0 ∷ 0 ∷ 0 ∷ 0xC2 ∷ 0xCA ∷ 0 ∷ 0 ∷ 1 ∷ 0 ∷ 0 ∷ 0
    ∷ 16 ∷ 0 ∷ 0 ∷ 0 ∷ 9 ∷ 9 ∷ 8 ∷ 8 ∷ []

abbrev pub sparse_pieces : List Piece
sparse_pieces = content (1 ∷ 2 ∷ 3 ∷ 4 ∷ []) ∷ gap 8 ∷ content (9 ∷ 9 ∷ 8 ∷ 8 ∷ []) ∷ []

header-read : read_sparse_header sparse_image ≡ ok sparse_header
unfolding read_sparse_header from_le
header-read = refl

pieces-read : image_pieces sparse_image 4 12 3 28 ≡ ok sparse_pieces
unfolding image_pieces read_chunk read_chunk_header chunk_piece repeat from_le
pieces-read = refl

write_sparse_image-place_example :
    Ensures
      (λ d' s'.
        (d' ≡ record storage { pos = 4112 })
        × (s'.disk ≡ place start_state.disk 4096 sparse_pieces)
        × ((i : ℕ)
            → (i < 4096) ⊎ (4096 + total_size sparse_pieces ≤ i)
            → s'.disk i ≡ start_state.disk i)
        × (s'.phase ≡ ready))
      (write_sparse_image sim_bus sim_device partition sparse_image storage start_state)
unfolding total_size
write_sparse_image-place_example =
    write_sparse_image-place sim_link partition 5000 4096 sparse_image sparse_header sparse_pieces
      storage start_state header-read refl (omega arith) refl refl refl (omega arith) pieces-read
      (omega arith) (omega arith) (omega arith) refl

abbrev short_partition : Extent
short_partition = record { bytes_len = ok 15; bytes_start = ok 4096 }

write_sparse_image-refuses_example :
    write_sparse_image sim_bus sim_device short_partition sparse_image storage start_state
    ≡ (err (image_too_large 15 16), start_state)
write_sparse_image-refuses_example =
    write_sparse_image-refuses sim_bus sim_device short_partition 15 4096 sparse_image sparse_header
      (image_too_large 15 16) storage start_state header-read refl refl
      (too_large refl (omega arith) refl (omega arith))

abbrev pub boot_name : List ℕ
boot_name = b'b' ∷ b'o' ∷ b'o' ∷ b't' ∷ []

abbrev pub boot_part : Extent
boot_part = record { bytes_len = ok 512; bytes_start = ok 16384 }

abbrev pub table : List PartEntry
table =
    record { name = boot_name; extent = boot_part }
    ∷ record { name = super_name; extent = partition }
    ∷ []

abbrev pub parameter_file : FwFile
parameter_file = record { name = some parameter_name; content = ok (1 ∷ 2 ∷ 3 ∷ []) }

abbrev pub boot_file : FwFile
boot_file = record { name = some boot_name; content = ok file }

abbrev pub super_file : FwFile
super_file = record { name = some super_name; content = ok sparse_image }

abbrev pub firmware : List (Result IoError FwFile)
firmware = ok parameter_file ∷ ok super_file ∷ ok boot_file ∷ []

abbrev pub after_firmware : Disk
after_firmware = overlay (place start_state.disk 4096 sparse_pieces) 16384 (take 512 file)

pub firmware-Installed : Installed table 1048576 firmware start_state.disk after_firmware
unfolding find_part same_name total_size
firmware-Installed = skipped parameter_file parameter_name refl refl (
    written super_file super_name sparse_image partition refl refl refl refl
      (sparse 5000 4096 sparse_header sparse_pieces refl refl refl (omega arith) header-read refl
        (omega arith) refl (omega arith) pieces-read (omega arith))
      (written boot_file boot_name file boot_part refl refl refl refl
        (regular 512 16384 refl refl refl (omega arith)) done))

write_files-Installed_example :
    Ensures
      (λ _ s'.
        (s'.disk ≡ after_firmware)
        × ((i : ℕ) → IsOutside table i → s'.disk i ≡ start_state.disk i)
        × (s'.phase ≡ ready))
      (write_files sim_bus sim_device table firmware storage start_state)
write_files-Installed_example =
    write_files-Installed sim_link table firmware storage start_state after_firmware
      firmware-Installed (omega arith) (omega arith) refl
