-- ===== src/Upgrade/Firmware/Installs.antt =====
-- What the files of a firmware leave on the disk.
use rkusb.Prelude.{
  ℕ, ◌+◌, ◌^◌, ◌<◌, ◌≡◌, ◌∙◌, refl, ap, List, [], ◌∷◌, Result, ok, err, Ensures, ensures,
  Ensures-bind, Ensures-mono, take, arith,
}
use rkusb.Bus.{Bus}
use rkusb.Disk.{Disk, overlay}
use rkusb.Device.{RkDevice}
use rkusb.Drive.{ready, Link, allowance}
use rkusb.Storage.{IoError, RkBlockDevice}
use rkusb.Upgrade.{Extent}
use rkusb.Upgrade.Regular.{write_regular_image-overlay}
use rkusb.Upgrade.Sparse.{WriteSparseImageError}
use rkusb.Upgrade.Sparse.Pieces.{place}
use rkusb.Upgrade.Sparse.Places.{write_sparse_image-place}
use rkusb.Upgrade.Firmware.{
  PartEntry, FwFile, write_image, write_file, write_files, from_io, from_sparse,
}
use rkusb.Upgrade.Firmware.Images.{
  Image, regular, sparse, Installed, done, skipped, written, IsOutside, Installed-outside,
}

module _ {B : Bus} {dev : RkDevice} (L : Link B dev) where
  from_io-Ensures :
      {A : Type 0} {Q : A → B.State → Type 0} {r : Result IoError A × B.State}
      → Ensures Q r
      → Ensures Q (from_io r)
  from_io-Ensures (ensures q) = ensures q

  from_sparse-Ensures :
      {A : Type 0} {Q : A → B.State → Type 0} {r : Result WriteSparseImageError A × B.State}
      → Ensures Q r
      → Ensures Q (from_sparse r)
  from_sparse-Ensures (ensures q) = ensures q

  -- The device is the same but for its position, and the disk is as it has to be.
  abbrev Left : RkBlockDevice → Disk → RkBlockDevice → B.State → Type 0
  Left d disk d' s' =
      (d'.disk_size_bytes ≡ d.disk_size_bytes)
      × (d'.timeout ≡ d.timeout)
      × (L.disk s' ≡ disk)
      × (L.phase s' ≡ ready)

  write_image-Image :
      (part : Extent) (bytes name : List ℕ) (d : RkBlockDevice) (s : B.State) (disk disk1 : Disk)
      → Image d.disk_size_bytes part bytes name disk disk1
      → L.disk s ≡ disk
      → d.disk_size_bytes + 512 < 2 ^ 41
      → allowance L.step 8704 < d.timeout
      → L.phase s ≡ ready
      → Ensures (Left d disk1) (write_image B dev name part bytes d s)
  write_image-Image part bytes name d s disk disk1 (regular n a hn hl hs inside) hd hz ht hr =
      rw hn (
        from_io-Ensures (
          Ensures-mono
            (write_regular_image-overlay L part n a bytes d s hl hs (omega arith) hz (omega arith)
              ht hr)
            λ d' s' (moved, left, others, phase). (
              ap (λ (e : RkBlockDevice). e.disk_size_bytes) moved,
              ap (λ (e : RkBlockDevice). e.timeout) moved,
              left ∙ ap (λ e. overlay e a (take n bytes)) hd,
              phase,
            )))
  write_image-Image part bytes name d s disk disk1
        (sparse n a header ps hn hl hs inside hread hm h1 h0 hsize hps fits) hd hz ht hr =
      rw hn (
        from_sparse-Ensures (
          Ensures-mono
            (write_sparse_image-place L part n a bytes header ps d s hread hm h1 h0 hl hs hsize hps
              (omega arith) hz ht hr)
            λ d' s' (moved, left, others, phase). (
              ap (λ (e : RkBlockDevice). e.disk_size_bytes) moved,
              ap (λ (e : RkBlockDevice). e.timeout) moved,
              left ∙ ap (λ e. place e a ps) hd,
              phase,
            )))

  write_files-Left :
      (partitions : List PartEntry) (files : List (Result IoError FwFile)) (d : RkBlockDevice)
      (s : B.State) (disk disk' : Disk)
      → Installed partitions d.disk_size_bytes files disk disk'
      → L.disk s ≡ disk
      → d.disk_size_bytes + 512 < 2 ^ 41
      → allowance L.step 8704 < d.timeout
      → L.phase s ≡ ready
      → Ensures (Left d disk') (write_files B dev partitions files d s)
  unfolding write_files write_file
  write_files-Left partitions [] d s disk disk' done hd hz ht hr = ensures (refl, refl, hd, hr)
  write_files-Left partitions (err e ∷ files) d s disk disk' x hd hz ht hr = elim x [ ]
  write_files-Left partitions (ok file ∷ files) d s disk disk' (skipped _ name hn hk rest) hd hz ht
        hr =
      rw (hn, hk) (write_files-Left partitions files d s disk disk' rest hd hz ht hr)
  write_files-Left partitions (ok file ∷ files) d s disk disk'
        (written {disk1 = disk1} _ name bytes part hn hk hc hp image rest) hd hz ht hr =
      rw (hn, hk, hp, hc)
        (Ensures-bind (write_image-Image part bytes name d s disk disk1 image hd hz ht hr)
          λ d1 s1 (size, limit, disk_1, phase).
            Ensures-mono
              (write_files-Left partitions files d1 s1 disk1 disk' (rw size rest) disk_1
                (omega arith) (rw limit ht) phase)
              λ d2 s2 (size2, limit2, left, phase2). (size2 ∙ size, limit2 ∙ limit, left, phase2))

  -- The loop over the files of a firmware writes each image to the partition of its name: the disk
  -- is as the images leave it, one after the other, each written from the start of its partition
  -- on, and no byte outside of the partitions changes. Premises: the files can be installed (every
  -- one is skipped by its name, or it fits a partition that ends before the disk does, and
  -- a sparse one passes the checks); the disk is smaller than 2^41 bytes less a sector; the device
  -- follows the protocol and is ready, and its time limit is above the allowance for 8704 bytes.
  pub write_files-Installed :
      (partitions : List PartEntry) (files : List (Result IoError FwFile)) (d : RkBlockDevice)
      (s : B.State) (disk' : Disk)
      → Installed partitions d.disk_size_bytes files (L.disk s) disk'
      → d.disk_size_bytes + 512 < 2 ^ 41
      → allowance L.step 8704 < d.timeout
      → L.phase s ≡ ready
      → Ensures
          (λ _ s'.
            (L.disk s' ≡ disk')
            × ((i : ℕ) → IsOutside partitions i → L.disk s' i ≡ L.disk s i)
            × (L.phase s' ≡ ready))
          (write_files B dev partitions files d s)
  write_files-Installed partitions files d s disk' installed hz ht hr =
      Ensures-mono (write_files-Left partitions files d s (L.disk s) disk' installed refl hz ht hr)
        λ d' s' (size, limit, disk, phase). (
          disk,
          λ i outside.
              ap (λ (e : Disk). e i) disk
              ∙ Installed-outside partitions d.disk_size_bytes files (L.disk s) disk' i installed
                  outside,
          phase,
        )
