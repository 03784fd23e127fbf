-- ===== src/Idblock/Old.antt =====
-- The IDBlock of an image without a `FlashHead` (src/idblock/old.rs).
pub mod Sectors
pub mod Layout
use rkusb.Prelude.{
  ℕ, ◌+◌, ◌*◌, ◌/◌, ◌^◌, List, [], ◌∷◌, ◌++◌, Bool, Result, ok, err, ltb, if◌then◌else◌, length,
  take, drop, replicate,
}
use rkusb.Prelude.Bytes.{le_bytes16, le_bytes32}
use rkusb.Idblock.{
  IdBlockError, ddr_too_large, loader_too_large, size_overflow, sector_size, idblock_alignment,
  next_multiple_of, area, encrypt,
}

abbrev pub idblock_header_sectors : ℕ
idblock_header_sectors = 4

abbrev pub idblock_tag : ℕ
idblock_tag = 0x0FF0AA55

abbrev pub idblock_chip_tag : ℕ
idblock_chip_tag = 0x38324B52

abbrev pub idblock_sys_reserved_block : ℕ
idblock_sys_reserved_block = 0x000C

abbrev pub idblock_disk0_size : ℕ
idblock_disk0_size = 0xFFFF

-- `sector[k..k + n].copy_from_slice(bytes)` for `n` bytes.
abbrev pub write_at : ℕ → List ℕ → List ℕ → List ℕ
write_at k bytes sector = take k sector ++ (bytes ++ drop (k + length bytes) sector)

-- `u32::from` on a flag.
abbrev pub flag : Bool → ℕ
flag b = if b then 1 else 0

pub build_sector_0 : Bool → ℕ → ℕ → List ℕ
build_sector_0 rc4_enabled boot_data_sectors boot_code_sectors =
    let s0 = replicate sector_size 0 in
    let s1 = write_at 0 (le_bytes32 idblock_tag) s0 in
    let s2 = write_at 8 (le_bytes32 (flag rc4_enabled)) s1 in
    let s3 = write_at 12 (le_bytes16 0x0004) s2 in
    let s4 = write_at 14 (le_bytes16 0x0004) s3 in
    let s5 = write_at 500 (le_bytes16 boot_data_sectors) s4 in
    write_at 502 (le_bytes16 boot_code_sectors) s5

pub build_sector_1 : List ℕ
build_sector_1 =
    let s0 = replicate sector_size 0 in
    let s1 = write_at 0 (le_bytes16 idblock_sys_reserved_block) s0 in
    let s2 = write_at 2 (le_bytes16 idblock_disk0_size) s1 in
    write_at 8 (le_bytes32 idblock_chip_tag) s2

pub build_sector_2 : ℕ → ℕ → ℕ → ℕ → List ℕ
build_sector_2 sec0_crc sec1_crc boot_code_crc sec3_crc =
    let s0 = replicate sector_size 0 in
    let s1 = write_at 491 (b'V' ∷ b'C' ∷ 0 ∷ []) s0 in
    let s2 = write_at 494 (le_bytes16 sec0_crc) s1 in
    let s3 = write_at 496 (le_bytes16 sec1_crc) s2 in
    let s4 = write_at 498 (le_bytes32 boot_code_crc) s3 in
    let s5 = write_at 504 (b'C' ∷ b'R' ∷ b'C' ∷ 0 ∷ []) s4 in write_at 508 (le_bytes16 sec3_crc) s5

pub build_sector_3 : List ℕ
build_sector_3 = replicate sector_size 0

-- The cipher and the two checksums come from the crates rc4, crc and rkafp.
module _ (rc4 : List ℕ → List ℕ → List ℕ) (crc16 rk_crc : List ℕ → ℕ) where
  -- The four header sectors and the payload. The checksums are taken of the plain header sectors
  -- and of the payload as it is stored; then sectors 0, 2 and 3 are encrypted.
  pub assemble : Bool → ℕ → ℕ → List ℕ → List ℕ
  unfolding build_sector_0 build_sector_1 build_sector_2 build_sector_3
  assemble rc4_enabled boot_data_sectors boot_code_sectors payload =
      let sector_0 = build_sector_0 rc4_enabled boot_data_sectors boot_code_sectors in
      let sector_1 = build_sector_1 in
      let sector_3 = build_sector_3 in
      let sector_2 =
        build_sector_2 (crc16 sector_0) (crc16 sector_1) (rk_crc payload) (crc16 sector_3) in
      encrypt rc4 rc4_enabled sector_0
      ++ (sector_1
          ++ (encrypt rc4 rc4_enabled sector_2 ++ (encrypt rc4 rc4_enabled sector_3 ++ payload)))

  pub build_idblock : List ℕ → List ℕ → Bool → Result IdBlockError (List ℕ)
  build_idblock ddr loader rc4_enabled =
      let ddr_len = next_multiple_of (length ddr) idblock_alignment in
      let loader_len = next_multiple_of (length loader) idblock_alignment in
      let ddr_sectors = ddr_len / sector_size in
      let loader_sectors = loader_len / sector_size in
      let total_sectors = idblock_header_sectors + ddr_sectors + loader_sectors in
      let payload =
        encrypt rc4 rc4_enabled (area ddr_len ddr)
        ++ encrypt rc4 rc4_enabled (area loader_len loader) in
      if ltb ddr_sectors (2 ^ 16)
      then if ltb loader_sectors (2 ^ 16)
        then if ltb (total_sectors * sector_size) (2 ^ 64)
          then if ltb (ddr_sectors + loader_sectors) (2 ^ 16)
            then ok (assemble rc4_enabled ddr_sectors (ddr_sectors + loader_sectors) payload)
            else err size_overflow
          else err size_overflow
        else err loader_too_large
      else err ddr_too_large
