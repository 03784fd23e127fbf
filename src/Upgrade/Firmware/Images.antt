-- ===== src/Upgrade/Firmware/Images.antt =====
-- Files of a firmware that can be installed, and the disk that they leave.
use rkusb.Prelude.{
  ℕ, ◌+◌, ◌*◌, ◌≤◌, ◌<◌, ◌≡◌, ◌⊎◌, ◌∙◌, refl, ap, List, [], ◌∷◌, Bool, true, false, ◌||◌, some,
  Result, ok, err, Bool-cases, inl, inr, length, take, length-take, same_name, arith,
}
use rkusb.Disk.{Disk, overlay}
use rkusb.Disk.Laws.{overlay-outside}
use rkusb.Storage.{IoError}
use rkusb.Upgrade.{Extent}
use rkusb.Upgrade.Sparse.{SparseHeader, sparse_header_magic, Piece, read_sparse_header}
use rkusb.Upgrade.Sparse.Pieces.{image_pieces, total_size, place, place-outside}
use rkusb.Upgrade.Firmware.{
  UpgradeError, PartEntry, FwFile, package_file, parameter_name, super_name, find_part,
}

-- The files that are no image of a partition.
abbrev pub is_skipped : List ℕ → Bool
is_skipped name = same_name name package_file || same_name name parameter_name

-- An image and a partition that fits it: on a disk of `size` bytes, it is written to the disk
-- `before`, and the disk `after` is what it leaves.
pub data Image (size : ℕ) (part : Extent) (bytes : List ℕ) (name : List ℕ) (before : Disk)
    : Disk → Type 0 where
  regular :
      (part_size part_start : ℕ)
      → same_name name super_name ≡ false
      → part.bytes_len ≡ ok part_size
      → part.bytes_start ≡ ok part_start
      → part_start + part_size < size
      → Image size part bytes name before (overlay before part_start (take part_size bytes))
  sparse :
      (part_size part_start : ℕ) (header : SparseHeader) (ps : List Piece)
      → same_name name super_name ≡ true
      → part.bytes_len ≡ ok part_size
      → part.bytes_start ≡ ok part_start
      → part_start + part_size < size
      → read_sparse_header bytes ≡ ok header
      → header.magic ≡ sparse_header_magic
      → header.major_version ≤ 1
      → header.minor_version ≡ 0
      → header.blk_sz * header.total_blks ≤ part_size
      → image_pieces bytes header.blk_sz header.chunk_hdr_sz header.total_chunks header.file_hdr_sz
        ≡ ok ps
      → total_size ps ≤ part_size
      → Image size part bytes name before (place before part_start ps)

-- Files that can be installed, one after the other, from a disk on, and the disk that they leave.
pub data Installed (partitions : List PartEntry) (size : ℕ)
    : List (Result IoError FwFile) → Disk → Disk → Type 0 where
  done : {disk : Disk} → Installed partitions size [] disk disk
  skipped :
      {disk disk' : Disk} (file : FwFile) (name : List ℕ) {files : List (Result IoError FwFile)}
      → file.name ≡ some name
      → is_skipped name ≡ true
      → Installed partitions size files disk disk'
      → Installed partitions size (ok file ∷ files) disk disk'
  written :
      {disk disk1 disk' : Disk} (file : FwFile) (name bytes : List ℕ) (part : Extent)
      {files : List (Result IoError FwFile)}
      → file.name ≡ some name
      → is_skipped name ≡ false
      → file.content ≡ ok bytes
      → find_part partitions name ≡ ok part
      → Image size part bytes name disk disk1
      → Installed partitions size files disk1 disk'
      → Installed partitions size (ok file ∷ files) disk disk'

-- A byte outside of all partitions.
abbrev pub IsOutside : List PartEntry → ℕ → Type 0
IsOutside [] i = Unit {0}
IsOutside (entry ∷ entries) i =
    ((part_size part_start : ℕ)
      → entry.extent.bytes_len ≡ ok part_size
      → entry.extent.bytes_start ≡ ok part_start
      → (i < part_start) ⊎ (part_start + part_size ≤ i))
    × IsOutside entries i

abbrev found_at : Extent → Result UpgradeError Extent
found_at a = ok a

ok-inj : (a b : Extent) → found_at a ≡ ok b → a ≡ b
ok-inj a b h = cc h

narrow : (i a n m : ℕ) → m ≤ n → (i < a) ⊎ (a + n ≤ i) → (i < a) ⊎ (a + m ≤ i)
narrow i a n m h (inl before) = inl before
narrow i a n m h (inr behind) = inr (omega arith)

-- A partition that is found has its outside outside of all.
find_part-IsOutside :
    (partitions : List PartEntry) (name : List ℕ) (part : Extent) (i part_size part_start : ℕ)
    → find_part partitions name ≡ ok part
    → IsOutside partitions i
    → part.bytes_len ≡ ok part_size
    → part.bytes_start ≡ ok part_start
    → (i < part_start) ⊎ (part_start + part_size ≤ i)
unfolding find_part
find_part-IsOutside [] name part i n a hp outside hl hs = absurd (cc hp)
find_part-IsOutside (entry ∷ entries) name part i n a hp (here, others) hl hs =
    elim (Bool-cases (same_name entry.name name)) [
      | inl hit ↦
          let same : entry.extent ≡ part = ok-inj entry.extent part (rw hit at hp) in
          here n a (ap (λ (e : Extent). e.bytes_len) same ∙ hl)
            (ap (λ (e : Extent). e.bytes_start) same ∙ hs)
      | inr miss ↦ find_part-IsOutside entries name part i n a (rw miss at hp) others hl hs
    ]

Image-outside :
    (size : ℕ) (part : Extent) (bytes name : List ℕ) (disk disk1 : Disk) (i : ℕ)
    → Image size part bytes name disk disk1
    → ((n a : ℕ) → part.bytes_len ≡ ok n → part.bytes_start ≡ ok a → (i < a) ⊎ (a + n ≤ i))
    → disk1 i ≡ disk i
Image-outside size part bytes name disk disk1 i (regular n a hn hl hs inside) outside =
    let short : length (take n bytes) ≤ n = omega (arith, length-take n bytes) in
    overlay-outside disk a n i (take n bytes) short (outside n a hl hs)
Image-outside size part bytes name disk disk1 i
      (sparse n a header ps hn hl hs inside hread hm h1 h0 hsize hps fits) outside =
    place-outside disk a i ps (narrow i a n (total_size ps) fits (outside n a hl hs))

pub Installed-outside :
    (partitions : List PartEntry) (size : ℕ) (files : List (Result IoError FwFile))
    (disk disk' : Disk) (i : ℕ)
    → Installed partitions size files disk disk'
    → IsOutside partitions i
    → disk' i ≡ disk i
Installed-outside partitions size [] disk disk' i done outside = refl
Installed-outside partitions size (err e ∷ files) disk disk' i x outside = elim x [ ]
Installed-outside partitions size (ok file ∷ files) disk disk' i (skipped _ name hn hk rest)
      outside =
    Installed-outside partitions size files disk disk' i rest outside
Installed-outside partitions size (ok file ∷ files) disk disk' i
      (written {disk1 = disk1} _ name bytes part hn hk hc hp image rest) outside =
    Installed-outside partitions size files disk1 disk' i rest outside
    ∙ Image-outside size part bytes name disk disk1 i image
        λ n a hl hs. find_part-IsOutside partitions name part i n a hp outside hl hs
