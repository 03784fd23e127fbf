-- ===== src/Upgrade/Sparse.antt =====
-- Sparse images (`write_sparse_image` of src/bin/rktools/subcommands/upgrade.rs).
pub mod Pieces
pub mod Places
use rkusb.Prelude.{
  ℕ, zero, suc, ◌+◌, ◌-◌, ◌*◌, ◌/◌, ◌^◌, List, [], ◌∷◌, ◌++◌, ◌||◌, Result, ok, err, Action, pure,
  fail, ◌>>=◌, ltb, ◌==◌, if◌then◌else◌, length, take, drop,
}
use rkusb.Prelude.Int.{ℤ, pos, negsuc}
use rkusb.Bus.{Bus}
use rkusb.Device.{RkDevice}
use rkusb.Image.{word}
use rkusb.Storage.{IoError, unexpected_eof, RkBlockDevice}
use rkusb.Storage.Seek.{start, current, seek}
use rkusb.Copy.{copy}
use rkusb.Upgrade.{Extent, moved_to}

abbrev pub sparse_header_magic : ℕ
sparse_header_magic = 0xED26FF3A

abbrev pub chunk_type_raw : ℕ
chunk_type_raw = 0xCAC1

abbrev pub chunk_type_fill : ℕ
chunk_type_fill = 0xCAC2

abbrev pub chunk_type_dont_care : ℕ
chunk_type_dont_care = 0xCAC3

abbrev pub chunk_type_crc32 : ℕ
chunk_type_crc32 = 0xCAC4

pub record SparseHeader : Type 0 where
  pub magic : ℕ
  pub major_version : ℕ
  pub minor_version : ℕ
  pub file_hdr_sz : ℕ
  pub chunk_hdr_sz : ℕ
  pub blk_sz : ℕ
  pub total_blks : ℕ
  pub total_chunks : ℕ
  pub image_checksum : ℕ

pub record ChunkHeader : Type 0 where
  pub chunk_type : ℕ
  pub chunk_sz : ℕ
  pub total_sz : ℕ

-- `io` is `#[from] std::io::Error`; a size that is too large comes with the partition's size.
pub data WriteSparseImageError : Type 0 where
  io : IoError → WriteSparseImageError
  invalid_magic unsupported_version unknown_sparse_chunk_type : WriteSparseImageError
  image_too_large : ℕ → ℕ → WriteSparseImageError

-- `SparseHeader::read_from_io` and `ChunkHeader::read_from_io`: 28 and 12 bytes of a reader, which
-- is the list of the bytes that it has left.
unfoldable pub read_sparse_header : List ℕ → Result WriteSparseImageError SparseHeader
read_sparse_header bytes =
    if ltb (length bytes) 28
    then err (io unexpected_eof)
    else ok (record {
      magic = word 0 4 bytes;
      major_version = word 4 2 bytes;
      minor_version = word 6 2 bytes;
      file_hdr_sz = word 8 2 bytes;
      chunk_hdr_sz = word 10 2 bytes;
      blk_sz = word 12 4 bytes;
      total_blks = word 16 4 bytes;
      total_chunks = word 20 4 bytes;
      image_checksum = word 24 4 bytes;
    })

unfoldable pub read_chunk_header : List ℕ → Result WriteSparseImageError ChunkHeader
read_chunk_header bytes =
    if ltb (length bytes) 12
    then err (io unexpected_eof)
    else ok (record {
      chunk_type = word 0 2 bytes;
      chunk_sz = word 4 4 bytes;
      total_sz = word 8 4 bytes;
    })

-- `filling_chunk`: the four bytes over and over, as often as they fit in the length. The buffer of
-- `std::io::copy` holds a multiple of four bytes, so every read but the last fills it.
unfoldable pub repeat : ℕ → List ℕ → List ℕ
repeat zero pattern = []
repeat (suc n) pattern = pattern ++ repeat n pattern

abbrev pub filling_chunk : List ℕ → ℕ → List ℕ
filling_chunk pattern len = repeat (len / 4) pattern

-- What a chunk asks for: bytes to write, a gap to skip, or nothing.
pub data Piece : Type 0 where
  content : List ℕ → Piece
  gap : ℕ → Piece
  nothing : Piece

-- The arms of the match on a chunk's type. `body` is what the reader has behind the header.
unfoldable pub chunk_piece : ℕ → ℕ → List ℕ → Result WriteSparseImageError Piece
chunk_piece chunk_type data_size body =
    if chunk_type == chunk_type_raw
    then ok (content (take data_size body))
    else if chunk_type == chunk_type_fill
    then if ltb (length body) 4
      then err (io unexpected_eof)
      else ok (content (filling_chunk (take 4 body) data_size))
    else if chunk_type == chunk_type_dont_care
    then ok (gap data_size)
    else if chunk_type == chunk_type_crc32
    then ok nothing
    else err unknown_sparse_chunk_type

-- `?` on a result.
abbrev pub try {ℓ} :
    {A : Type 0} {B : Type ℓ}
    → Result WriteSparseImageError A
    → (A → Result WriteSparseImageError B)
    → Result WriteSparseImageError B
try (ok a) f = f a
try (err e) f = err e

-- What is read of the chunk at `at`: its piece, and the place of the next chunk.
unfoldable pub read_chunk : List ℕ → ℕ → ℕ → ℕ → Result WriteSparseImageError (Piece × ℕ)
read_chunk img block_size chunk_header_size at = try (read_chunk_header (drop at img)) λ header.
    try
      (chunk_piece header.chunk_type (block_size * header.chunk_sz)
        (drop (at + chunk_header_size) img))
      λ piece. ok (piece, at + header.total_sz)

-- `as i64` on a u64.
abbrev pub as_i64 : ℕ → ℤ
as_i64 x = if ltb x (2 ^ 63) then pos x else negsuc (2 ^ 64 - x - 1)

abbrev pub lift {ℓ} :
    {S : Type ℓ} {A : Type 0} → Result WriteSparseImageError A → Action S WriteSparseImageError A
lift r s = (r, s)

abbrev pub from_io_result : {A : Type 0} → Result IoError A → Result WriteSparseImageError A
from_io_result (ok a) = ok a
from_io_result (err e) = err (io e)

abbrev pub from_io {ℓ} :
    {S : Type ℓ} {A : Type 0} → Result IoError A × S → Result WriteSparseImageError A × S
from_io (ok a, s) = (ok a, s)
from_io (err e, s) = (err (io e), s)

-- The checks on the header, in their order. The sizes are of the partition and of the image.
pub check_magic : SparseHeader → Result WriteSparseImageError (Unit {0})
check_magic header =
    if header.magic == sparse_header_magic
    then if ltb 1 header.major_version || ltb 0 header.minor_version
      then err unsupported_version
      else ok tt
    else err invalid_magic

pub check_size : ℕ → ℕ → Result WriteSparseImageError (Unit {0})
check_size part_size total_size =
    if ltb part_size total_size then err (image_too_large part_size total_size) else ok tt

module _ (B : Bus) (dev : RkDevice) where
  pub write_piece : Piece → RkBlockDevice → Action B.State WriteSparseImageError RkBlockDevice
  write_piece (content bytes) d s = from_io (copy B dev bytes d s)
  write_piece (gap n) d s = (from_io_result (moved_to (seek d (current (as_i64 n)))), s)
  write_piece nothing d s = (ok d, s)

  -- The loop over the chunks that are left, from `at` on in the image.
  pub write_chunks :
      List ℕ → ℕ → ℕ → ℕ → ℕ → RkBlockDevice → Action B.State WriteSparseImageError RkBlockDevice
  write_chunks img block_size chunk_header_size zero at d = pure d
  write_chunks img block_size chunk_header_size (suc chunks) at d = do
    (piece, next) ← lift (read_chunk img block_size chunk_header_size at)
    d' ← write_piece piece d
    write_chunks img block_size chunk_header_size chunks next d'

  pub write_sparse_image :
      Extent → List ℕ → RkBlockDevice → Action B.State WriteSparseImageError RkBlockDevice
  write_sparse_image part img d = do
    header ← lift (read_sparse_header img)
    _ ← lift (check_magic header)
    part_size ← lift (from_io_result part.bytes_len)
    part_start ← lift (from_io_result part.bytes_start)
    _ ← lift (check_size part_size (header.blk_sz * header.total_blks))
    d' ← lift (from_io_result (moved_to (seek d (start part_start))))
    write_chunks img header.blk_sz header.chunk_hdr_sz header.total_chunks header.file_hdr_sz d'
