-- ===== src/Upgrade/Sparse/Places.antt =====
-- `write_sparse_image` against a device that follows the protocol.
use rkusb.Prelude.{
  ℕ, zero, suc, ◌+◌, ◌*◌, ◌^◌, ◌≤◌, ◌<◌, ◌≡◌, ◌⊎◌, ◌∙◌, refl, sym, ap, List, [], ok, err, Result,
  Ensures, ensures, Ensures-bind, Ensures-mono, ◌≢◌, lt→ltb, le→not_ltb, eq→==, ne→not_==, arith,
}
use rkusb.Prelude.Int.{pos}
use rkusb.Bus.{Bus}
use rkusb.Disk.{Disk}
use rkusb.Device.{RkDevice}
use rkusb.Drive.{ready, Link, allowance}
use rkusb.Storage.{IoError, RkBlockDevice}
use rkusb.Storage.Seek.{current, seek-inside}
use rkusb.Copy.Writes.{forward, forward-zero, forward-forward, copy-overlay}
use rkusb.Upgrade.{Extent}
use rkusb.Upgrade.Regular.{moved_to-inside}
use rkusb.Upgrade.Sparse.{
  invalid_magic, unsupported_version, image_too_large, SparseHeader, sparse_header_magic,
  WriteSparseImageError, Piece, content, gap, nothing, try, as_i64, read_chunk, read_sparse_header,
  check_magic, check_size, write_piece, write_chunks, write_sparse_image, from_io,
}
use rkusb.Upgrade.Sparse.Pieces.{
  image_pieces, piece_size, total_size, place_piece, place, place-outside,
}

-- A step with `?` that succeeded.
try-ok :
    {A B : Type 0} (r : Result WriteSparseImageError A) (f : A → Result WriteSparseImageError B)
    (b : B)
    → try r f ≡ ok b
    → (a : A) × ((r ≡ ok a) × (f a ≡ ok b))
try-ok (ok a) f b h = (a, (refl, h))
try-ok (err e) f b h = absurd (cc h)

abbrev ok-of : {A : Type 0} → A → Result WriteSparseImageError A
ok-of a = ok a

ok-inj : {A : Type 0} (a b : A) → ok-of a ≡ ok b → a ≡ b
ok-inj a b h = cc h

module _ {B : Bus} {dev : RkDevice} (L : Link B dev) where
  -- The device behind `n` bytes more, with the disk and the drive as they have to be.
  abbrev Written : Disk → RkBlockDevice → ℕ → RkBlockDevice → B.State → Type 0
  Written disk d n d' s' = (d' ≡ forward d n) × (L.disk s' ≡ disk) × (L.phase s' ≡ ready)

  from_io-Ensures :
      {A : Type 0} {Q : A → B.State → Type 0} {r : Result IoError A × B.State}
      → Ensures Q r
      → Ensures Q (from_io r)
  from_io-Ensures (ensures q) = ensures q

  write_piece-place :
      (p : Piece) (d : RkBlockDevice) (s : B.State)
      → d.pos + piece_size p < d.disk_size_bytes
      → d.disk_size_bytes + 512 < 2 ^ 41
      → allowance L.step 8704 < d.timeout
      → L.phase s ≡ ready
      → Ensures
          (Written (place_piece (L.disk s) d.pos p) d (piece_size p))
          (write_piece B dev p d s)
  unfolding write_piece
  write_piece-place (content bytes) d s inside hs ht hr =
      from_io-Ensures (copy-overlay L bytes d s ht (omega arith) hr)
  write_piece-place (gap n) d s inside hs ht hr =
      let small : as_i64 n ≡ pos n = rw (lt→ltb n (2 ^ 63) (omega arith)) refl in
      rw (small, seek-inside d (current (pos n)) (d.pos + n) (omega arith) inside refl)
        (ensures (refl, refl, hr))
  write_piece-place nothing d s inside hs ht hr =
      ensures (ap (λ p. record d { pos = p }) (omega arith), refl, hr)

  write_chunks-place :
      (img : List ℕ) (block_size chunk_header_size chunks at : ℕ) (ps : List Piece)
      (d : RkBlockDevice) (s : B.State)
      → image_pieces img block_size chunk_header_size chunks at ≡ ok ps
      → d.pos + total_size ps < d.disk_size_bytes
      → d.disk_size_bytes + 512 < 2 ^ 41
      → allowance L.step 8704 < d.timeout
      → L.phase s ≡ ready
      → Ensures
          (Written (place (L.disk s) d.pos ps) d (total_size ps))
          (write_chunks B dev img block_size chunk_header_size chunks at d s)
  unfolding write_chunks image_pieces total_size place
  write_chunks-place img bs hs zero at ps d s hps inside hd ht hr =
      let none_left = ok-inj [] ps hps in
      ensures (
        forward-zero d ∙ ap (λ l. forward d (total_size l)) none_left,
        ap (place (L.disk s) d.pos) none_left,
        hr,
      )
  write_chunks-place img bs hs (suc chunks) at ps d s hps inside hd ht hr =
      let (chunk, (found, more)) = try-ok (read_chunk img bs hs at) _ ps hps in
      let (rest, (found_rest, whole)) = try-ok (image_pieces img bs hs chunks chunk.1) _ ps more in
      let split : total_size ps ≡ piece_size chunk.0 + total_size rest =
        ap total_size (sym (ok-inj _ ps whole)) in
      rw found (
        Ensures-bind (write_piece-place chunk.0 d s (omega arith) hd ht hr)
          λ d1 s1 (moved, disk, phase).
            let at : d1.pos ≡ d.pos + piece_size chunk.0 =
              ap (λ (e : RkBlockDevice). e.pos) moved in
            let limit : d1.timeout ≡ d.timeout = ap (λ (e : RkBlockDevice). e.timeout) moved in
            let size : d1.disk_size_bytes ≡ d.disk_size_bytes =
              ap (λ (e : RkBlockDevice). e.disk_size_bytes) moved in
            Ensures-mono
              (write_chunks-place img bs hs chunks chunk.1 rest d1 s1 found_rest (omega arith)
                (omega arith) (rw limit ht) phase)
              λ d2 s2 (moved2, disk2, phase2). (
                moved2
                    ∙ ap (λ e. forward e (total_size rest)) moved
                    ∙ forward-forward d (piece_size chunk.0) (total_size rest) (total_size ps)
                        (omega arith),
                disk2
                    ∙ ap (λ e. place e d1.pos rest) disk
                    ∙ ap (λ a. place (place_piece (L.disk s) d.pos chunk.0) a rest) at
                    ∙ ap (place (L.disk s) d.pos) (ok-inj _ ps whole),
                phase2,
              ))

  -- A sparse image is laid out on its partition: its pieces stand one behind the other from the
  -- partition's start on, the gaps keep the disk's own bytes, and no byte outside of the range of
  -- the pieces changes. The device's position is behind the pieces. Premises: the header reads and passes the
  -- checks; every chunk reads; the pieces end before the disk does; the disk is smaller than 2^41
  -- bytes less a sector; the device follows the protocol and is ready, and its time limit is above
  -- the allowance for 8704 bytes.
  pub write_sparse_image-place :
      (part : Extent) (part_size part_start : ℕ) (img : List ℕ) (header : SparseHeader)
      (ps : List Piece) (d : RkBlockDevice) (s : B.State)
      → read_sparse_header img ≡ ok header
      → header.magic ≡ sparse_header_magic
      → header.major_version ≤ 1
      → header.minor_version ≡ 0
      → part.bytes_len ≡ ok part_size
      → part.bytes_start ≡ ok part_start
      → header.blk_sz * header.total_blks ≤ part_size
      → image_pieces img header.blk_sz header.chunk_hdr_sz header.total_chunks header.file_hdr_sz
        ≡ ok ps
      → part_start + total_size ps < d.disk_size_bytes
      → d.disk_size_bytes + 512 < 2 ^ 41
      → allowance L.step 8704 < d.timeout
      → L.phase s ≡ ready
      → Ensures
          (λ d' s'.
            (d' ≡ record d { pos = part_start + total_size ps })
            × (L.disk s' ≡ place (L.disk s) part_start ps)
            × ((i : ℕ)
                → (i < part_start) ⊎ (part_start + total_size ps ≤ i)
                → L.disk s' i ≡ L.disk s i)
            × (L.phase s' ≡ ready))
          (write_sparse_image B dev part img d s)
  unfolding write_sparse_image check_magic check_size
  write_sparse_image-place part part_size part_start img header ps d s hread hmagic hmajor hminor
        hlen hstart hsize hps inside hd ht hr =
      rw
        (
          hread,
          eq→== _ _ hmagic,
          le→not_ltb 1 header.major_version hmajor,
          le→not_ltb 0 header.minor_version (omega arith),
          hlen,
          hstart,
          le→not_ltb part_size (header.blk_sz * header.total_blks) hsize,
          moved_to-inside d part_start (omega arith) (omega arith),
        )
        (Ensures-mono
          (write_chunks-place img header.blk_sz header.chunk_hdr_sz header.total_chunks
            header.file_hdr_sz ps (record d { pos = part_start }) s hps inside hd ht hr)
          λ d' s' (moved, disk, phase). (
            moved,
            disk,
            λ i outside.
                ap (λ (e : Disk). e i) disk ∙ place-outside (L.disk s) part_start i ps outside,
            phase,
          ))

-- A header that the checks do not accept, with the error it gets: the first one that applies.
pub data Refused (header : SparseHeader) (part_size : ℕ) : WriteSparseImageError → Type 0 where
  bad_magic : header.magic ≢ sparse_header_magic → Refused header part_size invalid_magic
  bad_major :
      header.magic ≡ sparse_header_magic
      → 1 < header.major_version
      → Refused header part_size unsupported_version
  bad_minor :
      header.magic ≡ sparse_header_magic
      → header.major_version ≤ 1
      → 0 < header.minor_version
      → Refused header part_size unsupported_version
  too_large :
      header.magic ≡ sparse_header_magic
      → header.major_version ≤ 1
      → header.minor_version ≡ 0
      → part_size < header.blk_sz * header.total_blks
      → Refused header part_size (image_too_large part_size (header.blk_sz * header.total_blks))

-- An image whose header fails a check is refused with the error of the first check that fails, and
-- nothing is sent to the device, whatever the device is. The premises are that the header reads and
-- that the extent of the partition is known.
pub write_sparse_image-refuses :
    (B : Bus) (dev : RkDevice) (part : Extent) (part_size part_start : ℕ) (img : List ℕ)
    (header : SparseHeader) (e : WriteSparseImageError) (d : RkBlockDevice) (s : B.State)
    → read_sparse_header img ≡ ok header
    → part.bytes_len ≡ ok part_size
    → part.bytes_start ≡ ok part_start
    → Refused header part_size e
    → write_sparse_image B dev part img d s ≡ (err e, s)
unfolding write_sparse_image check_magic check_size
write_sparse_image-refuses B dev part part_size part_start img header e d s hr hl hs (bad_magic h) =
    rw (hr, ne→not_== _ _ h) refl
write_sparse_image-refuses B dev part part_size part_start img header e d s hr hl hs
      (bad_major hm h) =
    rw (hr, eq→== _ _ hm, lt→ltb 1 header.major_version h) refl
write_sparse_image-refuses B dev part part_size part_start img header e d s hr hl hs
      (bad_minor hm h1 h) =
    rw (hr, eq→== _ _ hm, le→not_ltb 1 header.major_version h1, lt→ltb 0 header.minor_version h)
      refl
write_sparse_image-refuses B dev part part_size part_start img header e d s hr hl hs
      (too_large hm h1 h2 h) =
    rw
      (
        hr,
        eq→== _ _ hm,
        le→not_ltb 1 header.major_version h1,
        le→not_ltb 0 header.minor_version (omega arith),
        hl,
        hs,
        lt→ltb part_size (header.blk_sz * header.total_blks) h,
      )
      refl
