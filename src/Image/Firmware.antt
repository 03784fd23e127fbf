-- ===== src/Image/Firmware.antt =====
-- Firmware images, `RkFwImage` (src/image.rs): a header, the firmware, its MD5 and a signature.
pub mod Parts
use rkusb.Prelude.{
  ℕ, ◌+◌, ◌^◌, List, Bool, Option, none, some, Result, ok, err, ltb, leb, if◌then◌else◌, length,
  drop,
}
use rkusb.Image.{
  ImageError, RkBootImage, unknown_tag, too_short, fw_out_of_range, md5_out_of_range,
  boot_entry_out_of_range, get_range, new_boot_image,
}

-- What crate rkafp reads of the first bytes of an image: its header.
pub record FwHeader : Type 0 where
  pub size_of : ℕ
  pub is_tagged : List ℕ → Bool
  pub fw_offset : List ℕ → ℕ
  pub fw_size : List ℕ → ℕ
  pub boot_offset : List ℕ → ℕ
  pub boot_size : List ℕ → ℕ

pub record RkFwImage : Type 0 where
  pub bytes : List ℕ
  pub fw : List ℕ
  pub md5 : List ℕ
  pub sign : Option (List ℕ)

-- A signature has 128 bytes at least.
abbrev pub signature_of : List ℕ → Option (List ℕ)
signature_of rest = if leb 128 (length rest) then some rest else none

module _ (H : FwHeader) where
  unfoldable pub new_fw_image : List ℕ → Result ImageError RkFwImage
  new_fw_image bytes =
      let fw_end = H.fw_size bytes + H.fw_offset bytes in
      let md5_end = 32 + fw_end in
      if leb H.size_of (length bytes)
      then if H.is_tagged bytes
        then if ltb fw_end (2 ^ 64)
          then elim (get_range bytes (H.fw_offset bytes) fw_end) [
            | none ↦ err fw_out_of_range
            | some fw ↦
                if ltb md5_end (2 ^ 64)
                then elim (get_range bytes fw_end md5_end) [
                  | none ↦ err md5_out_of_range
                  | some md5 ↦ ok (record {
                    bytes = bytes;
                    fw = fw;
                    md5 = md5;
                    sign = signature_of (drop md5_end bytes);
                  })
                ]
                else err md5_out_of_range
          ]
          else err fw_out_of_range
        else err unknown_tag
      else err too_short

  -- `none` is the failed assertion of `header_ptr`.
  unfoldable pub boot_data : ℕ → RkFwImage → Option (Result ImageError RkBootImage)
  boot_data size_of_time image =
      let offset = H.boot_offset image.bytes in
      let boot_end = H.boot_size image.bytes + offset in
      if ltb H.size_of (length image.bytes)
      then some (elim (get_range image.bytes offset boot_end) [
        | none ↦ err boot_entry_out_of_range
        | some boot ↦ new_boot_image size_of_time boot
      ])
      else none
