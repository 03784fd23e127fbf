-- ===== src/Image/Entries.antt =====
-- The tables of entries.
use rkusb.Prelude.{
  ℕ, zero, suc, ◌+◌, ◌-◌, ◌*◌, ◌^◌, ◌≤◌, ◌<◌, ◌≡◌, ◌∙◌, refl, ap, List, [], ◌∷◌, ◌||◌, none, some,
  ok, err, ltb, ◌==◌, if◌then◌else◌, length, take, drop, length-take, length-drop, lt→ltb,
  le→not_ltb, times-le, Bool-cases, inl, inr, eq→==, ne→not_==, arith,
}
use rkusb.Image.{
  RkBootEntry, decode_entry, get_range, chunks_exact_fuel, collect_entries, parse_entries,
  too_short, boot_entry_out_of_range, boot_entry_too_short,
}

-- The first `count` entries of a table of 57-byte entries.
unfoldable pub table_entries : ℕ → List ℕ → List RkBootEntry
table_entries zero table = []
table_entries (suc count) table = decode_entry (take 57 table) ∷ table_entries count (drop 57 table)

collect-step :
    (chunk : List ℕ) (chunks : List (List ℕ)) (es : List RkBootEntry)
    → length chunk ≡ 57
    → collect_entries chunks ≡ ok es
    → collect_entries (chunk ∷ chunks) ≡ ok (decode_entry chunk ∷ es)
unfolding collect_entries
collect-step chunk chunks es hl h = rw (h, eq→== (length chunk) 57 hl)

collect-wrong :
    (chunk : List ℕ) (chunks : List (List ℕ))
    → 57 < length chunk
    → collect_entries (chunk ∷ chunks) ≡ err too_short
unfolding collect_entries
collect-wrong chunk chunks hl = rw (ne→not_== (length chunk) 57 (omega arith))

chunks_exact_fuel-short :
    (fuel size : ℕ) (table : List ℕ) → length table < size → chunks_exact_fuel fuel size table ≡ []
unfolding chunks_exact_fuel
chunks_exact_fuel-short zero size table h = refl
chunks_exact_fuel-short (suc fuel) size table h = rw (lt→ltb (length table) size h)

collect-none :
    (fuel size : ℕ) (table : List ℕ)
    → length table < size
    → collect_entries (chunks_exact_fuel fuel size table) ≡ ok []
unfolding collect_entries
collect-none fuel size table h = rw (chunks_exact_fuel-short fuel size table h)

collect-chunks :
    (count fuel : ℕ) (table : List ℕ)
    → length table ≡ 57 * count
    → count ≤ fuel
    → collect_entries (chunks_exact_fuel fuel 57 table) ≡ ok (table_entries count table)
unfolding chunks_exact_fuel table_entries
collect-chunks zero fuel table hl hf = collect-none fuel 57 table (omega arith)
collect-chunks (suc count) zero table hl hf = absurd (omega arith)
collect-chunks (suc count) (suc fuel) table hl hf =
    rw (le→not_ltb (length table) 57 (omega arith)) (
      collect-step (take 57 table) _ _ (length-take 57 table ∙ omega arith) (
        collect-chunks count fuel (drop 57 table) (omega (arith, length-drop 57 table))
          (omega arith)))

collect-large :
    (fuel size : ℕ) (table : List ℕ)
    → 57 < size
    → size ≤ length table
    → collect_entries (chunks_exact_fuel (suc fuel) size table) ≡ err too_short
unfolding chunks_exact_fuel
collect-large fuel size table hs hl =
    rw (le→not_ltb (length table) size hl)
      (collect-wrong (take size table) _ (omega (arith, length-take size table)))

-- The pieces of a table, whatever the size of an entry is.
collect-any :
    (size count : ℕ) (table : List ℕ)
    → 57 ≤ size
    → length table ≡ size * count
    → collect_entries (chunks_exact_fuel (length table) size table)
      ≡ (if size == 57 || count == 0 then ok (table_entries count table) else err too_short)
unfolding table_entries
collect-any size zero table hs hl = elim (Bool-cases (size == 57)) [
  | inl h ↦ rw h (collect-none (length table) size table (omega arith))
  | inr h ↦ rw h (collect-none (length table) size table (omega arith))
]
collect-any size (suc count) [] hs hl = absurd (omega (arith))
collect-any size (suc count) (x ∷ xs) hs hl = elim (Bool-cases (size == 57)) [
  | inl h ↦
      let same : size ≡ 57 = ground arith in
      rw (h, same)
        (collect-chunks (suc count) (length (x ∷ xs)) (x ∷ xs) (hl ∙ ap (λ n. n * suc count) same)
          (omega (arith, ap (λ n. n * suc count) same)))
  | inr h ↦
      rw (h, ne→not_== (suc count) 0 (omega arith))
        (collect-large (length xs) size (x ∷ xs) (ground arith) (omega (arith)))
]

pub get_range-outside :
    (bytes : List ℕ) (from to : ℕ) → length bytes < to → get_range bytes from to ≡ none
unfolding get_range
get_range-outside bytes from to h = ground arith

pub get_range-inside :
    (bytes : List ℕ) (from n : ℕ)
    → n + from ≤ length bytes
    → get_range bytes from (n + from) ≡ some (take n (drop from bytes))
unfolding get_range
get_range-inside bytes from n h =
    let span : n + from - from ≡ n = omega arith in rw span (ground arith)

-- A whole table in an image.
pub collect-chunks_of :
    (count offset : ℕ) (bytes : List ℕ)
    → 57 * count + offset ≤ length bytes
    → collect_entries (
        chunks_exact_fuel
          (length (take (57 * count) (drop offset bytes)))
          57
          (take (57 * count) (drop offset bytes)))
      ≡ ok (table_entries count (take (57 * count) (drop offset bytes)))
collect-chunks_of count offset bytes h =
    let table = take (57 * count) (drop offset bytes) in
    let size : length table ≡ 57 * count =
      length-take (57 * count) (drop offset bytes) ∙ omega (arith, length-drop offset bytes) in
    collect-chunks count (length table) table size (omega arith)

-- `parse_entries`, for a 32-bit offset and a count and a size of 8 bits: a size below 57 is too
-- short, a table that reaches behind the end of the image is out of range, entries of more than 57
-- bytes are refused as too short, and else the table is read in full, entry by entry.
pub parse_entries-cases :
    (bytes : List ℕ) (offset count size : ℕ)
    → offset < 2 ^ 32
    → count < 2 ^ 8
    → size < 2 ^ 8
    → parse_entries bytes offset count size ≡ (
        if ltb size 57
        then err boot_entry_too_short
        else if ltb (length bytes) (offset + size * count)
        then err boot_entry_out_of_range
        else if size == 57 || count == 0
        then ok (table_entries count (take (size * count) (drop offset bytes)))
        else err too_short)
unfolding parse_entries
parse_entries-cases bytes offset count size ho hc hs =
    let table = take (size * count) (drop offset bytes) in
    let small : size * count ≤ 255 * count = times-le size count 255 (omega arith) in
    let whole : offset + size * count ≤ length bytes → length table ≡ size * count = λ h.
      length-take (size * count) (drop offset bytes) ∙ omega (arith, length-drop offset bytes) in
    rw (lt→ltb (size * count + offset) (2 ^ 64) (omega arith)) (elim (Bool-cases (ltb size 57)) [
      | inl short ↦ rw short
      | inr long ↦ elim (Bool-cases (ltb (length bytes) (offset + size * count))) [
        | inl far ↦
            rw (long, far, get_range-outside bytes offset (size * count + offset) (ground arith))
        | inr near ↦
            let fits : offset + size * count ≤ length bytes = ground arith in
            rw (long, near, get_range-inside bytes offset (size * count) (omega arith))
              (collect-any size count table (ground arith) (whole fits))
      ]
    ])
