-- ===== src/Program/Info.antt =====
-- The subcommand that tells what a file is (src/bin/rktools/subcommands/info.rs). A file is the list
-- of its bytes, and the value is what is printed.
use rkusb.Prelude.{
  ℕ, List, [], ◌∷◌, Option, none, some, Result, ok, err, not, ◌||◌, ltb, ◌==◌, if◌then◌else◌,
  length, same_name,
}
use rkusb.Idblock.{rc4_key}
use rkusb.Idblock.Rkns.{RkNsHashType, RkNsParseError, rkns_tag, new_rkns_image, hash_type}
use rkusb.Image.{
  ImageError, RkBootImage, Item, entry_loader, word, rkldr_tag, rkboot_tag, size_of_header,
  new_boot_image, rc4_flag, iter_entries,
}
use rkusb.Image.Firmware.{FwHeader, RkFwImage, new_fw_image, boot_data}
use rkusb.Program.Errors.{CommandError, io, image, rk_ns, broken, or_result}
use rkusb.Storage.{unexpected_eof}
use rkusb.UpgradeLoader.{entry_flash_head}

-- What crate rkafp tells of its headers, the cipher, the texts of names, and a time's size.
pub record Formats : Type 0 where
  pub rkfw_tag : ℕ
  pub header : FwHeader
  pub size_of_time : ℕ
  pub rc4 : List ℕ → List ℕ → List ℕ
  pub from_utf16_lossy : List ℕ → List ℕ

abbrev pub FlashHead : Type 0
FlashHead = Option (Result RkNsParseError (List ℕ))

pub data Contents : Type 0 where
  boot_image : RkBootImage → FlashHead → Contents
  firmware : RkFwImage → Result ImageError RkBootImage → Contents
  rkns : List ℕ → Option RkNsHashType → Contents
  unknown_tag : ℕ → Contents

-- `?` on a result.
abbrev pub and_try {ℓ} :
    {A : Type 0} {B : Type ℓ}
    → Result CommandError A
    → (A → Result CommandError B)
    → Result CommandError B
and_try (ok a) f = f a
and_try (err e) f = err e

module _ (formats : Formats) where
  -- `{boot_img:#?}`: printing an image reads its header, with the assertion of `boot_header_ptr`.
  pub shown : RkBootImage → Result CommandError RkBootImage
  shown boot =
      if ltb (size_of_header formats.size_of_time) (length boot.bytes) then ok boot else err broken

  -- `find` over the entries; the iterator panics at an entry outside of the image.
  unfoldable pub find_head : List (Option Item) → Result CommandError (Option (List ℕ))
  find_head [] = ok none
  find_head (none ∷ items) = err broken
  find_head (some item ∷ items) =
      let rest = find_head items in
      if same_name item.name entry_flash_head then ok (some item.content) else rest

  abbrev decrypted : RkBootImage → List ℕ → List ℕ
  decrypted boot head =
      if not (rc4_flag formats.size_of_time boot == 0) then formats.rc4 rc4_key head else head

  abbrev parsed : RkBootImage → Option (List ℕ) → FlashHead
  parsed boot none = none
  parsed boot (some head) = some (new_rkns_image (decrypted boot head))

  pub dump_flash_head_idblock : RkBootImage → Result CommandError FlashHead
  dump_flash_head_idblock boot =
      and_try (find_head (iter_entries formats.from_utf16_lossy boot entry_loader))
        λ head. ok (parsed boot head)

  pub info_boot : List ℕ → Result CommandError Contents
  info_boot mmap = and_try (or_result image (new_boot_image formats.size_of_time mmap)) λ boot.
      and_try (shown boot)
        λ _. and_try (dump_flash_head_idblock boot) λ head. ok (boot_image boot head)

  -- `{fw_img:#?}` prints the boot image of a firmware image, or its error.
  abbrev shown_firmware :
      RkFwImage → Option (Result ImageError RkBootImage) → Result CommandError Contents
  shown_firmware fw none = err broken
  shown_firmware fw (some (err e)) = ok (firmware fw (err e))
  shown_firmware fw (some (ok boot)) = and_try (shown boot) λ _. ok (firmware fw (ok boot))

  pub info_firmware : List ℕ → Result CommandError Contents
  info_firmware mmap =
      and_try (or_result image (new_fw_image formats.header mmap))
        λ fw. shown_firmware fw (boot_data formats.header formats.size_of_time fw)

  pub info_rkns : List ℕ → Result CommandError Contents
  info_rkns mmap =
      and_try (or_result rk_ns (new_rkns_image mmap)) λ head. ok (rkns head (hash_type head))

  -- A file of less than four bytes has no tag.
  pub exec : List ℕ → Result CommandError Contents
  exec mmap =
      let tag = word 0 4 mmap in
      let as_boot = info_boot mmap in
      let as_firmware = info_firmware mmap in
      let as_rkns = info_rkns mmap in
      if ltb (length mmap) 4
      then err (io unexpected_eof)
      else if tag == rkldr_tag || tag == rkboot_tag
      then as_boot
      else if tag == formats.rkfw_tag
      then as_firmware
      else if tag == rkns_tag
      then as_rkns
      else ok (unknown_tag tag)
