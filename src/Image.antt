-- ===== src/Image.antt =====
-- Boot images and firmware images (src/image.rs). What the slices of an image hold is a list of
-- bytes here; `none` is a panic where the source indexes without a check.
pub mod Entries
pub mod Boot
pub mod Firmware
use rkusb.Prelude.{
  ℕ, zero, suc, ◌+◌, ◌-◌, ◌*◌, ◌^◌, List, [], ◌∷◌, ◌||◌, Option, none, some, Result, ok, err, ltb,
  leb, ◌==◌, if◌then◌else◌, length, take, drop, get_or, map,
}
use rkusb.Prelude.Bytes.{from_le}

-- 'B', 'O', 'O', 'T' and 'L', 'D', 'R', ' ' as little-endian words.
abbrev pub rkboot_tag : ℕ
rkboot_tag = 0x544F4F42

abbrev pub rkldr_tag : ℕ
rkldr_tag = 0x2052444C

pub data RkBootEntryType : Type 0 where
  entry_471 entry_472 entry_loader : RkBootEntryType

pub data ImageError : Type 0 where
  unknown_tag too_short boot_entry_out_of_range boot_entry_too_short fw_out_of_range
        md5_out_of_range :
      ImageError

pub record RkBootEntry : Type 0 where
  pub size : ℕ
  pub type : ℕ
  pub name : List ℕ
  pub data_offset : ℕ
  pub data_size : ℕ
  pub data_delay : ℕ

abbrev pub size_of_entry : ℕ
size_of_entry = 57

-- `n` bytes from `k` on, as a little-endian number.
abbrev pub word : ℕ → ℕ → List ℕ → ℕ
word k n bytes = from_le (take n (drop k bytes))

abbrev pub utf16_units : ℕ → List ℕ → List ℕ
utf16_units zero bytes = []
utf16_units (suc n) bytes = from_le (take 2 bytes) ∷ utf16_units n (drop 2 bytes)

-- The packed layout of an entry: 57 bytes.
unfoldable pub decode_entry : List ℕ → RkBootEntry
decode_entry bytes = record {
  size = get_or bytes 0 0;
  type = word 1 4 bytes;
  name = utf16_units 20 (drop 5 bytes);
  data_offset = word 45 4 bytes;
  data_size = word 49 4 bytes;
  data_delay = word 53 4 bytes;
}

-- `slice::get(from..to)`
unfoldable pub get_range : List ℕ → ℕ → ℕ → Option (List ℕ)
get_range bytes from to =
    if leb from to
    then if leb to (length bytes) then some (take (to - from) (drop from bytes)) else none
    else none

-- `chunks_exact(size)`: whole pieces only. For a positive size, as many rounds as bytes are enough.
pub chunks_exact_fuel : ℕ → ℕ → List ℕ → List (List ℕ)
chunks_exact_fuel zero size bytes = []
chunks_exact_fuel (suc fuel) size bytes =
    let rest = chunks_exact_fuel fuel size (drop size bytes) in
    if ltb (length bytes) size then [] else take size bytes ∷ rest

-- `ref_from_bytes` on each piece, which refuses another size, collected into one result.
pub collect_entries : List (List ℕ) → Result ImageError (List RkBootEntry)
collect_entries [] = ok []
collect_entries (chunk ∷ chunks) =
    let rest = collect_entries chunks in
    if length chunk == size_of_entry
    then elim rest [ ok entries ↦ ok (decode_entry chunk ∷ entries) | err e ↦ err e ]
    else err too_short

pub parse_entries : List ℕ → ℕ → ℕ → ℕ → Result ImageError (List RkBootEntry)
parse_entries bytes offset count size =
    if ltb size size_of_entry
    then err boot_entry_too_short
    else if ltb (size * count + offset) (2 ^ 64)
    then elim (get_range bytes offset (size * count + offset)) [
      | none ↦ err boot_entry_out_of_range
      | some table ↦ collect_entries (chunks_exact_fuel (length table) size table)
    ]
    else err boot_entry_out_of_range

pub record RkBootImage : Type 0 where
  pub bytes : List ℕ
  pub entries_471 : List RkBootEntry
  pub entries_472 : List RkBootEntry
  pub entries_loader : List RkBootEntry

-- `?` on a result.
abbrev pub try {ℓ} :
    {A : Type 0} {B : Type ℓ}
    → Result ImageError A
    → (A → Result ImageError B)
    → Result ImageError B
try (ok a) f = f a
try (err e) f = err e

-- The boot header has a time of crate rkafp in it, of `size_of_time` bytes, behind 14 bytes.
module _ (size_of_time : ℕ) where
  abbrev pub size_of_header : ℕ
  size_of_header = 95 + size_of_time

  -- One of the three tables of entries; the fields of a table are 6 bytes.
  pub parse_table : ℕ → List ℕ → Result ImageError (List RkBootEntry)
  parse_table k bytes =
      let at = 18 + size_of_time + 6 * k in
      parse_entries bytes (word (at + 1) 4 bytes) (get_or bytes at 0) (get_or bytes (at + 5) 0)

  pub new_boot_image : List ℕ → Result ImageError RkBootImage
  new_boot_image bytes =
      if leb size_of_header (length bytes)
      then if word 0 4 bytes == rkboot_tag || word 0 4 bytes == rkldr_tag
        then (try (parse_table 0 bytes) λ entries_471. try (parse_table 1 bytes) λ entries_472.
            try (parse_table 2 bytes) λ entries_loader. ok (record {
              bytes = bytes;
              entries_471 = entries_471;
              entries_472 = entries_472;
              entries_loader = entries_loader;
            }))
        else err unknown_tag
      else err too_short

  -- `(*boot_header_ptr()).rc4_flag`
  pub rc4_flag : RkBootImage → ℕ
  rc4_flag image = get_or image.bytes (18 + size_of_time + 19) 0

-- `get_entry_data`: the second argument is taken for the end.
pub get_entry_data : RkBootImage → ℕ → ℕ → Option (List ℕ)
get_entry_data image offset size = get_range image.bytes offset size

-- The checksum at the end of the image, and the one of the bytes before it, by `crc` of crate rkafp.
pub get_crc32 : RkBootImage → Option ℕ
get_crc32 image =
    let n = length image.bytes in
    if ltb n 4 then none else some (from_le (drop (n - 4) image.bytes))

pub calculate_crc32 : (List ℕ → ℕ) → RkBootImage → Option ℕ
calculate_crc32 crc image =
    let n = length image.bytes in if ltb n 4 then none else some (crc (take (n - 4) image.bytes))

-- `trim_end_matches('\0')`
unfoldable pub trim_end : List ℕ → List ℕ
trim_end [] = []
trim_end (c ∷ cs) = elim (trim_end cs) [ [] ↦ if c == 0 then [] else c ∷ [] | x ∷ xs ↦ c ∷ x ∷ xs ]

abbrev pub entries : RkBootImage → RkBootEntryType → List RkBootEntry
entries image entry_471 = image.entries_471
entries image entry_472 = image.entries_472
entries image entry_loader = image.entries_loader

-- What the iterator gives for an entry: its name, its bytes and its delay in milliseconds.
pub record Item : Type 0 where
  pub name : List ℕ
  pub content : List ℕ
  pub delay : ℕ

-- `from_utf16_lossy` is of the standard library. An entry that lies outside of the image panics
-- when the iterator gets to it.
module _ (from_utf16_lossy : List ℕ → List ℕ) where
  abbrev pub item_of : RkBootEntry → Option (List ℕ) → Option Item
  item_of entry none = none
  item_of entry (some content) = some (record {
    name = trim_end (from_utf16_lossy entry.name);
    content = content;
    delay = entry.data_delay;
  })

  unfoldable pub entry_item : RkBootImage → RkBootEntry → Option Item
  entry_item image entry =
      item_of entry (get_range image.bytes entry.data_offset (entry.data_size + entry.data_offset))

  unfoldable pub iter_entries : RkBootImage → RkBootEntryType → List (Option Item)
  iter_entries image kind = map (entry_item image) (entries image kind)
