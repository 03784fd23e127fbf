-- ===== src/Image/Boot.antt =====
-- Which boot images are accepted, `RkBootImage::new` (src/image.rs), and what their entries hold.
use rkusb.Prelude.{
  suc, [], ◌∷◌, ◌++◌, ◌≢◌, refl, replicate, leb→le, not_leb→lt, ℕ, ◌+◌, ◌*◌, ◌^◌, ◌≤◌, ◌<◌, ◌≡◌,
  ◌⊎◌, ◌||◌, ◌==◌, ap, ◌∙◌, List, none, some, ok, length, take, drop, get_or, inl, inr, true,
  if◌then◌else◌, lt→ltb, le→leb, Bool-cases, leb, arith,
}
use rkusb.Image.{
  Item, RkBootImage, RkBootEntry, word, size_of_header, rkboot_tag, rkldr_tag, parse_entries,
  parse_table, new_boot_image, trim_end, entry_item,
}
use rkusb.Image.Entries.{table_entries, get_range-inside, get_range-outside, collect-chunks_of}

-- A table of `count` entries of 57 bytes at `offset` is in the image.
parse_entries-57 :
    (bytes : List ℕ) (offset count : ℕ)
    → 57 * count + offset ≤ length bytes
    → length bytes < 2 ^ 64
    → parse_entries bytes offset count 57
      ≡ ok (table_entries count (take (57 * count) (drop offset bytes)))
unfolding parse_entries
parse_entries-57 bytes offset count hl hw =
    rw
      (
        lt→ltb (57 * count + offset) (2 ^ 64) (omega arith),
        get_range-inside bytes offset (57 * count) hl,
      )
      (collect-chunks_of count offset bytes hl)

parse_entries-ok :
    (bytes : List ℕ) (offset count size : ℕ)
    → size ≡ 57
    → 57 * count + offset ≤ length bytes
    → length bytes < 2 ^ 64
    → parse_entries bytes offset count size
      ≡ ok (table_entries count (take (57 * count) (drop offset bytes)))
parse_entries-ok bytes offset count size hs hl hw =
    ap (λ n. parse_entries bytes offset count n) hs ∙ parse_entries-57 bytes offset count hl hw

module _ (size_of_time : ℕ) (bytes : List ℕ) where
  -- The fields of table `k` in the header.
  abbrev pub table_at : ℕ → ℕ
  table_at k = 18 + size_of_time + 6 * k

  abbrev pub table_count : ℕ → ℕ
  table_count k = get_or bytes (table_at k) 0

  abbrev pub table_offset : ℕ → ℕ
  table_offset k = word (table_at k + 1) 4 bytes

  -- Table `k` has entries of 57 bytes and lies in the image.
  abbrev pub IsTable : ℕ → Type 0
  IsTable k =
      (get_or bytes (table_at k + 5) 0 ≡ 57) × (57 * table_count k + table_offset k ≤ length bytes)

  abbrev pub table_of : ℕ → List RkBootEntry
  table_of k =
      table_entries (table_count k) (take (57 * table_count k) (drop (table_offset k) bytes))

  -- An image with one of the two tags that is as long as a header and holds its three tables of
  -- 57-byte entries is accepted, with the entries of each table, in their order. The image is
  -- smaller than 2^64 bytes.
  pub new_boot_image-tables :
      size_of_header size_of_time ≤ length bytes
      → length bytes < 2 ^ 64
      → (word 0 4 bytes ≡ rkboot_tag) ⊎ (word 0 4 bytes ≡ rkldr_tag)
      → IsTable 0
      → IsTable 1
      → IsTable 2
      → new_boot_image size_of_time bytes
        ≡ ok (record {
          bytes = bytes;
          entries_471 = table_of 0;
          entries_472 = table_of 1;
          entries_loader = table_of 2;
        })
  unfolding new_boot_image parse_table
  new_boot_image-tables hl hw ht (s0, l0) (s1, l1) (s2, l2) =
      let known : (word 0 4 bytes == rkboot_tag || word 0 4 bytes == rkldr_tag) ≡ true =
        ground arith in
      rw (
        known,
        le→leb (size_of_header size_of_time) (length bytes) hl,
        parse_entries-ok bytes (table_offset 0) (table_count 0) _ s0 l0 hw,
        parse_entries-ok bytes (table_offset 1) (table_count 1) _ s1 l1 hw,
        parse_entries-ok bytes (table_offset 2) (table_count 2) _ s2 l2 hw,
      )

-- `name` is the text without the zeros at its end: zeros follow it in the text, and it ends in none.
abbrev pub IsTrimmed : List ℕ → List ℕ → Type 0
IsTrimmed name text =
    ((k : ℕ) × (text ≡ name ++ replicate k 0)) × ((cs : List ℕ) → name ≢ cs ++ (0 ∷ []))

nil-ne-append : (cs : List ℕ) (c : ℕ) → [] ≢ cs ++ (c ∷ [])
nil-ne-append [] c h = cc h
nil-ne-append (x ∷ cs) c h = cc h

single-ne-append : (c : ℕ) → c ≢ 0 → (cs : List ℕ) → c ∷ [] ≢ cs ++ (0 ∷ [])
single-ne-append c differs [] h = differs (cc h)
single-ne-append c differs (x ∷ cs) h = nil-ne-append cs 0 (cc h)

-- One more character in front.
IsTrimmed-cons :
    (c : ℕ) (cs name : List ℕ)
    → IsTrimmed name cs
    → IsTrimmed (elim name [ [] ↦ if c == 0 then [] else c ∷ [] | x ∷ xs ↦ c ∷ x ∷ xs ]) (c ∷ cs)
IsTrimmed-cons c cs [] ((k, zeros), last) = elim (Bool-cases (c == 0)) [
  | inl zero_c ↦
      let same : c ≡ 0 = ground arith in
      rw zero_c ((suc k, cc (same, zeros)), λ xs h. nil-ne-append xs 0 h)
  | inr other ↦
      let differs : c ≢ 0 = λ h. ground arith in
      rw other ((k, ap (λ l. c ∷ l) zeros), single-ne-append c differs)
]
IsTrimmed-cons c cs (x ∷ xs) ((k, zeros), last) = ((k, ap (λ l. c ∷ l) zeros), ends)
  where
    ends : (ys : List ℕ) → c ∷ x ∷ xs ≢ ys ++ (0 ∷ [])
    ends [] h = cc h
    ends (y ∷ ys) h = last ys (cc h)

trim_end-IsTrimmed : (cs : List ℕ) → IsTrimmed (trim_end cs) cs
unfolding trim_end
trim_end-IsTrimmed [] = ((0, refl), λ xs h. nil-ne-append xs 0 h)
trim_end-IsTrimmed (c ∷ cs) = IsTrimmed-cons c cs (trim_end cs) (trim_end-IsTrimmed cs)

-- The iterator gives exactly the entries that lie in the image: with their bytes, their delay and
-- their name without the zeros at its end. It panics on the others.
pub entry_item-cases :
    (from_utf16_lossy : List ℕ → List ℕ) (image : RkBootImage) (entry : RkBootEntry)
    → ((entry.data_size + entry.data_offset ≤ length image.bytes)
        × (item : Item) × (entry_item from_utf16_lossy image entry ≡ some item)
        × IsTrimmed item.name (from_utf16_lossy entry.name)
        × (item.content ≡ take entry.data_size (drop entry.data_offset image.bytes))
        × (item.delay ≡ entry.data_delay))
      ⊎ ((length image.bytes < entry.data_size + entry.data_offset)
          × (entry_item from_utf16_lossy image entry ≡ none))
unfolding entry_item
entry_item-cases from_utf16_lossy image entry =
    let span = entry.data_size + entry.data_offset in
    elim (Bool-cases (leb span (length image.bytes))) [
      | inl inside ↦ inl (
        leb→le span (length image.bytes) inside,
        record {
          name = trim_end (from_utf16_lossy entry.name);
          content = take entry.data_size (drop entry.data_offset image.bytes);
          delay = entry.data_delay;
        },
        rw (get_range-inside image.bytes entry.data_offset entry.data_size (ground arith)) refl,
        trim_end-IsTrimmed (from_utf16_lossy entry.name),
        refl,
        refl,
      )
      | inr outside ↦ inr (
        not_leb→lt span (length image.bytes) outside,
        rw (get_range-outside image.bytes entry.data_offset span (ground arith)) refl,
      )
    ]
