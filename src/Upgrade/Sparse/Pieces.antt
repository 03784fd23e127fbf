-- ===== src/Upgrade/Sparse/Pieces.antt =====
-- What a sparse image describes, without a device: its pieces, and the disk with them laid out.
use rkusb.Prelude.{
  ℕ, zero, suc, ◌+◌, ◌≤◌, ◌<◌, ◌≡◌, ◌⊎◌, ◌∙◌, refl, List, [], ◌∷◌, Result, ok, length, arith,
}
use rkusb.Disk.{Disk, overlay}
use rkusb.Disk.Laws.{overlay-outside}
use rkusb.Upgrade.Sparse.{Piece, content, gap, nothing, WriteSparseImageError, read_chunk, try}

-- The pieces of `chunks` chunks, from `pos` on in the image.
unfoldable pub image_pieces : List ℕ → ℕ → ℕ → ℕ → ℕ → Result WriteSparseImageError (List Piece)
image_pieces img block_size chunk_header_size zero pos = ok []
image_pieces img block_size chunk_header_size (suc chunks) pos =
    try (read_chunk img block_size chunk_header_size pos) λ chunk.
      try (image_pieces img block_size chunk_header_size chunks chunk.1)
        λ pieces. ok (chunk.0 ∷ pieces)

abbrev pub piece_size : Piece → ℕ
piece_size (content bytes) = length bytes
piece_size (gap n) = n
piece_size nothing = 0

unfoldable pub total_size : List Piece → ℕ
total_size [] = 0
total_size (p ∷ ps) = piece_size p + total_size ps

-- The disk with a piece at an address; a gap leaves the disk's own bytes.
abbrev pub place_piece : Disk → ℕ → Piece → Disk
place_piece disk a (content bytes) = overlay disk a bytes
place_piece disk a (gap n) = disk
place_piece disk a nothing = disk

-- The disk with the pieces one behind the other from an address on.
unfoldable pub place : Disk → ℕ → List Piece → Disk
place disk a [] = disk
place disk a (p ∷ ps) = place (place_piece disk a p) (a + piece_size p) ps

place_piece-outside :
    (disk : Disk) (a i : ℕ) (p : Piece)
    → (i < a) ⊎ (a + piece_size p ≤ i)
    → place_piece disk a p i ≡ disk i
place_piece-outside disk a i (content bytes) h =
    overlay-outside disk a (length bytes) i bytes (omega arith) h
place_piece-outside disk a i (gap n) h = refl
place_piece-outside disk a i nothing h = refl

-- Pieces change nothing outside of the range that they fill.
pub place-outside :
    (disk : Disk) (a i : ℕ) (ps : List Piece)
    → (i < a) ⊎ (a + total_size ps ≤ i)
    → place disk a ps i ≡ disk i
unfolding place total_size
place-outside disk a i [] h = refl
place-outside disk a i (p ∷ ps) h =
    place-outside (place_piece disk a p) (a + piece_size p) i ps (ground arith)
    ∙ place_piece-outside disk a i p (ground arith)
