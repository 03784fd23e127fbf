-- ===== src/Storage/Opening/Sizes.antt =====
-- How large the block device of a device that answers is.
use rkusb.Prelude.{
  ◌*◌, ◌^◌, ◌<◌, ◌≡◌, refl, some, Result, Ensures, ensures, Ensures-bind, Ensures-mono, length,
  take, drop, get_or, lt→ltb, eq→==, ap, arith,
}
use rkusb.Prelude.Bytes.{from_le}
use rkusb.Bus.{Bus}
use rkusb.Device.{RkDevice, RkUsbError}
use rkusb.Device.Commands.{RkFlashInfo, read_flash_info}
use rkusb.Device.Commands.Queries.{read_storage_info-answers}
use rkusb.Drive.{ready, Link}
use rkusb.Drive.Queries.{Informant}
use rkusb.Storage.{RkBlockDevice, new_block_device, from_device}
use rkusb.Storage.Opening.{try_from}

from_device-Ensures :
    {S A : Type 0} {Q : A → S → Type 0} {r : Result RkUsbError A × S}
    → Ensures Q r
    → Ensures Q (from_device r)
from_device-Ensures (ensures q) = ensures q

module _ {B : Bus} {dev : RkDevice} (L : Link B dev) (I : Informant L) where
  -- The block device of a device that answers.
  pub try_from-answers :
      (info : RkFlashInfo) (s : B.State)
      → length (I.answer 0x1A) ≡ 11
      → read_flash_info (I.answer 0x1A) ≡ some info
      → info.flash_size * 512 < 2 ^ 64
      → 7 * L.step < 5000
      → L.phase s ≡ ready
      → Ensures
          (λ d s'.
            (d ≡ new_block_device (info.flash_size * 512) 0 30000)
            × (L.phase s' ≡ ready)
            × (L.disk s' ≡ L.disk s))
          (try_from B dev s)
  unfolding try_from
  try_from-answers info s hl hi small enough idle =
      Ensures-bind (from_device-Ensures (read_storage_info-answers L I info s hl hi enough idle))
        λ got s1 (same, (phase, disk, time)).
          rw (same, lt→ltb (info.flash_size * 512) (2 ^ 64) small) (ensures (refl, phase, disk))

  -- The block device of a device that answers with 11 bytes has 512 bytes for each sector that the
  -- first four bytes of the answer count, the lowest byte first. It stands at the start of the disk,
  -- with a time limit of thirty seconds, and the disk is as it was. Premises: the count is a
  -- number of 32 bits, the device follows the protocol and is ready, and seven calls of the bus take
  -- less than five seconds.
  pub try_from-sectors :
      (s : B.State)
      → length (I.answer 0x1A) ≡ 11
      → from_le (take 4 (I.answer 0x1A)) < 2 ^ 32
      → 7 * L.step < 5000
      → L.phase s ≡ ready
      → Ensures
          (λ d s'.
            (d.disk_size_bytes ≡ from_le (take 4 (I.answer 0x1A)) * 512)
            × (d.pos ≡ 0)
            × (d.timeout ≡ 30000)
            × (L.phase s' ≡ ready)
            × (L.disk s' ≡ L.disk s))
          (try_from B dev s)
  unfolding read_flash_info
  try_from-sectors s hl small enough idle =
      let answer = I.answer 0x1A in
      Ensures-mono
        (try_from-answers
          (record {
            flash_size = from_le (take 4 answer);
            block_size = from_le (take 2 (drop 4 answer));
            page_size = get_or answer 6 0;
            ecc_bits = get_or answer 7 0;
            access_time = get_or answer 8 0;
            manufacture = get_or answer 9 0;
            flash_mask = get_or answer 10 0;
          })
          s hl (rw (eq→== (length answer) 11 hl) refl) (omega arith) enough idle)
        λ d s' (made, phase, disk). (
          ap (λ (e : RkBlockDevice). e.disk_size_bytes) made,
          ap (λ (e : RkBlockDevice). e.pos) made,
          ap (λ (e : RkBlockDevice). e.timeout) made,
          phase,
          disk,
        )
