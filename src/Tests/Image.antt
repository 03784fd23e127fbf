-- ===== src/Tests/Image.antt =====
-- Images.
use rkusb.Prelude.{
  ◌+◌, ◌≤◌, ◌<◌, ◌⊎◌, some, ℕ, ◌≡◌, refl, List, [], ◌∷◌, ◌++◌, ◌==◌, inr, none, ok, err, length,
  take, drop, get_or, replicate, arith,
}
use rkusb.Prelude.Bytes.{from_le}
use rkusb.Image.Boot.{IsTable, table_of, IsTrimmed, new_boot_image-tables, entry_item-cases}
use rkusb.Image.{
  word, rkldr_tag, Item, RkBootImage, RkBootEntry, new_boot_image, entry_item, parse_entries,
  fw_out_of_range,
}
use rkusb.Image.Entries.{table_entries, parse_entries-cases}
use rkusb.Image.Firmware.{FwHeader, RkFwImage, new_fw_image, signature_of}
use rkusb.Image.Firmware.Parts.{new_fw_image-parts, new_fw_image-errors}

abbrev table_bytes : List ℕ
table_bytes = replicate 120 1

parse_entries-cases_example :
    parse_entries table_bytes 3 2 57 ≡ ok (table_entries 2 (take 114 (drop 3 table_bytes)))
parse_entries-cases_example =
    parse_entries-cases table_bytes 3 2 57 (omega arith) (omega arith) (omega arith)

-- A header of four bytes: a tag, the place and the size of the firmware, and an unused byte.
abbrev small_header : FwHeader
small_header = record {
  size_of = 4;
  is_tagged = λ bytes. get_or bytes 0 0 == 82;
  fw_offset = λ bytes. get_or bytes 1 0;
  fw_size = λ bytes. get_or bytes 2 0;
  boot_offset = λ bytes. 4;
  boot_size = λ bytes. 0;
}

abbrev firmware_bytes : List ℕ
firmware_bytes = 82 ∷ 6 ∷ 10 ∷ 0 ∷ replicate 60 5

new_fw_image-parts_example :
    (image : RkFwImage) × (front rest : List ℕ) × (new_fw_image small_header firmware_bytes
      ≡ ok image)
    × (front ++ (image.fw ++ (image.md5 ++ rest)) ≡ firmware_bytes)
    × (length front ≡ 6)
    × (length image.fw ≡ 10)
    × (length image.md5 ≡ 32)
    × (image.sign ≡ signature_of rest)
new_fw_image-parts_example =
    new_fw_image-parts small_header firmware_bytes (omega arith) refl (omega arith) (omega arith)

abbrev cut_bytes : List ℕ
cut_bytes = 82 ∷ 6 ∷ 10 ∷ 0 ∷ 1 ∷ 2 ∷ 3 ∷ []

new_fw_image-errors_example : new_fw_image small_header cut_bytes ≡ err fw_out_of_range
new_fw_image-errors_example = new_fw_image-errors small_header cut_bytes (omega arith) (omega arith)

-- A loader image with one 0x471 entry and two loader entries in one table. The first entry names
-- the four bytes at the image's start.
abbrev pub loader_bytes : List ℕ
loader_bytes =
    76
    ∷ 68
    ∷ 82
    ∷ 32
    ∷ (replicate 21 0
        ++ (1
            ∷ 102
            ∷ 0
            ∷ 0
            ∷ 0
            ∷ 57
            ∷ 0
            ∷ 0
            ∷ 0
            ∷ 0
            ∷ 0
            ∷ 57
            ∷ 2
            ∷ 102
            ∷ 0
            ∷ 0
            ∷ 0
            ∷ 57
            ∷ (replicate 59 0 ++ (replicate 49 0 ++ (4 ∷ replicate 64 0)))))

pub loader_bytes-tag : word 0 4 loader_bytes ≡ rkldr_tag
unfolding from_le
loader_bytes-tag = refl

pub first-IsTable : IsTable 7 loader_bytes 0
unfolding from_le
first-IsTable = (refl, omega arith)

pub second-IsTable : IsTable 7 loader_bytes 1
unfolding from_le
second-IsTable = (refl, omega arith)

pub third-IsTable : IsTable 7 loader_bytes 2
unfolding from_le
third-IsTable = (refl, omega arith)

new_boot_image-tables_example :
    new_boot_image 7 loader_bytes
    ≡ ok (record {
      bytes = loader_bytes;
      entries_471 = table_of 7 loader_bytes 0;
      entries_472 = table_of 7 loader_bytes 1;
      entries_loader = table_of 7 loader_bytes 2;
    })
new_boot_image-tables_example =
    new_boot_image-tables 7 loader_bytes (omega arith) (omega arith) (inr loader_bytes-tag)
      first-IsTable second-IsTable third-IsTable

abbrev short_image : RkBootImage
short_image = record {
  bytes = 1 ∷ 2 ∷ 3 ∷ [];
  entries_471 = [];
  entries_472 = [];
  entries_loader = [];
}

abbrev inside_entry : RkBootEntry
inside_entry = record {
  size = 57;
  type = 1;
  name = 65 ∷ 0 ∷ 66 ∷ 0 ∷ 0 ∷ [];
  data_offset = 1;
  data_size = 2;
  data_delay = 5;
}

entry_item-cases_example :
    ((2 + 1 ≤ length short_image.bytes)
      × (item : Item) × (entry_item (λ name. name) short_image inside_entry ≡ some item)
      × IsTrimmed item.name (65 ∷ 0 ∷ 66 ∷ 0 ∷ 0 ∷ [])
      × (item.content ≡ 2 ∷ 3 ∷ [])
      × (item.delay ≡ 5))
    ⊎ ((length short_image.bytes < 2 + 1)
        × (entry_item (λ name. name) short_image inside_entry ≡ none))
entry_item-cases_example = entry_item-cases (λ name. name) short_image inside_entry
