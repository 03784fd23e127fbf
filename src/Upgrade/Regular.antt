-- ===== src/Upgrade/Regular.antt =====
-- Regular images against a device that follows the protocol.
use rkusb.Prelude.{
  ℕ, ◌+◌, ◌^◌, ◌≤◌, ◌<◌, ◌≡◌, ◌⊎◌, ◌∙◌, refl, ap, List, ok, Ensures, Ensures-mono, length, take,
  length-take, arith,
}
use rkusb.Bus.{Bus}
use rkusb.Disk.{Disk, overlay}
use rkusb.Disk.Laws.{overlay-outside}
use rkusb.Device.{RkDevice}
use rkusb.Drive.{ready, Link, allowance}
use rkusb.Storage.{RkBlockDevice}
use rkusb.Storage.Seek.{start, seek, seek-inside}
use rkusb.Copy.Writes.{copy-overlay}
use rkusb.Upgrade.{Extent, moved_to, write_regular_image}

-- A seek to a byte of the disk.
pub moved_to-inside :
    (d : RkBlockDevice) (x : ℕ)
    → d.disk_size_bytes < 2 ^ 64
    → x < d.disk_size_bytes
    → moved_to (seek d (start x)) ≡ ok (record d { pos = x })
moved_to-inside d x hs hx = ap moved_to (seek-inside d (start x) x hs hx refl)

-- A regular image is written from the start of its partition on, cut to the partition's length,
-- and no byte outside of the partition changes. The device's position is behind the bytes. Premises: the partition starts on the disk, which is
-- smaller than 2^41 bytes less a sector, as is the end of the partition; the device follows the
-- protocol and is ready, and its time limit is above the allowance for 8704 bytes.
pub write_regular_image-overlay :
    {B : Bus} {dev : RkDevice} (L : Link B dev) (part : Extent) (part_size part_start : ℕ)
    (img : List ℕ) (d : RkBlockDevice) (s : B.State)
    → part.bytes_len ≡ ok part_size
    → part.bytes_start ≡ ok part_start
    → part_start < d.disk_size_bytes
    → d.disk_size_bytes + 512 < 2 ^ 41
    → part_start + part_size + 512 < 2 ^ 41
    → allowance L.step 8704 < d.timeout
    → L.phase s ≡ ready
    → Ensures
        (λ d' s'.
          (d' ≡ record d { pos = part_start + length (take part_size img) })
          × (L.disk s' ≡ overlay (L.disk s) part_start (take part_size img))
          × ((i : ℕ) → (i < part_start) ⊎ (part_start + part_size ≤ i) → L.disk s' i ≡ L.disk s i)
          × (L.phase s' ≡ ready))
        (write_regular_image B dev part img d s)
unfolding write_regular_image
write_regular_image-overlay L part part_size part_start img d s hlen hstart inside hs hp ht hr =
    let file = take part_size img in
    let short : length file ≤ part_size = omega (arith, length-take part_size img) in
    rw (hlen, hstart, moved_to-inside d part_start (omega arith) inside)
      (Ensures-mono (copy-overlay L file (record d { pos = part_start }) s ht (omega arith) hr)
        λ d' s' (moved, disk, phase). (
          moved,
          disk,
          λ i outside.
              ap (λ (e : Disk). e i) disk
              ∙ overlay-outside (L.disk s) part_start part_size i file short outside,
          phase,
        ))
