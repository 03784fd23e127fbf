-- ===== src/Device/Raw/Transfers.antt =====
-- One transfer of sectors against a device that follows the protocol.
use rkusb.Prelude.{
  ℕ, ◌+◌, ◌*◌, ◌/◌, ◌%◌, ◌^◌, ◌≤◌, ◌<◌, ◌≡◌, ◌∙◌, List, Ensures, ensures, Ensures-bind, ap, length,
  replicate, lt→ltb, eq→==, ne→not_==, arith,
}
use rkusb.Disk.{overlay, slice}
use rkusb.Bus.{Bus}
use rkusb.Usb.{as_bytes}
use rkusb.Device.{RkDevice}
use rkusb.Device.Raw.{lba_cbw, write_lba_raw, read_lba_raw, erase_lba_raw}
use rkusb.Device.Transaction.Completes.{transaction-write, transaction-read, transaction-erase}
use rkusb.Drive.{ready, Link}
use rkusb.Drive.Decode.{decode-lba_cbw}

length-lba_cbw :
    (op tag bytes pos count subcode : ℕ)
    → length (as_bytes (lba_cbw op tag bytes pos count subcode)) ≡ 31
unfolding lba_cbw as_bytes
length-lba_cbw op tag bytes pos count subcode = ground arith

module _ {B : Bus} {dev : RkDevice} (L : Link B dev) (pos count subcode timeout : ℕ) (s : B.State)
    (enough : 7 * L.step < timeout) (idle : L.phase s ≡ ready) (pos_lt : pos < 2 ^ 32)
    (some_sector : 0 < count) (count_lt : count < 2 ^ 16) where
  pub write_lba_raw-writes :
      (bytes : List ℕ)
      → length bytes ≡ count * 512
      → Ensures
          (λ _ s'.
            (L.phase s' ≡ ready)
            × (L.disk s' ≡ overlay (L.disk s) (pos * 512) bytes)
            × (L.clock s' ≤ L.clock s + 8 * L.step))
          (write_lba_raw B dev pos bytes subcode timeout s)
  unfolding write_lba_raw lba_cbw
  write_lba_raw-writes bytes hl =
      let quotient : length bytes / 512 ≡ count = omega arith in
      let width : length bytes % 2 ^ 32 ≡ count * 512 = omega arith in
      let (tag, s1) = B.random_u32 s in
      rw
        (
          ne→not_== (length bytes) 0 (omega arith),
          eq→== (length bytes % 512) 0 (omega arith),
          lt→ltb (length bytes / 512) (2 ^ 16) (omega arith),
          quotient,
          width,
        )
        (Ensures-bind
          (transaction-write L (lba_cbw 0x15 tag (count * 512) pos count subcode) pos count timeout
            s1 enough (L.drive.random-phase s ∙ idle) (L.drive.random-lt s)
            (length-lba_cbw 0x15 tag (count * 512) pos count subcode) bytes
            (decode-lba_cbw tag pos count subcode (L.drive.random-lt s) pos_lt count_lt).1 hl)
          λ _ s2 (phase, disk, time). ensures (
            phase,
            disk ∙ ap (λ d. overlay d (pos * 512) bytes) (L.drive.random-disk s),
            omega (arith, L.drive.random-clock s),
          ))

  pub read_lba_raw-reads :
      (buf : List ℕ)
      → length buf ≡ count * 512
      → Ensures
          (λ got s'.
            (got ≡ slice (L.disk s) (pos * 512) (count * 512))
            × (L.phase s' ≡ ready)
            × (L.disk s' ≡ L.disk s)
            × (L.clock s' ≤ L.clock s + 8 * L.step))
          (read_lba_raw B dev pos buf subcode timeout s)
  unfolding read_lba_raw lba_cbw
  read_lba_raw-reads buf hl =
      let quotient : length buf / 512 ≡ count = omega arith in
      let width : length buf % 2 ^ 32 ≡ count * 512 = omega arith in
      let (tag, s1) = B.random_u32 s in
      rw
        (
          ne→not_== (length buf) 0 (omega arith),
          eq→== (length buf % 512) 0 (omega arith),
          lt→ltb (length buf / 512) (2 ^ 16) (omega arith),
          quotient,
          width,
        )
        (Ensures-bind
          (transaction-read L (lba_cbw 0x14 tag (count * 512) pos count subcode) pos count timeout
            s1 enough (L.drive.random-phase s ∙ idle) (L.drive.random-lt s)
            (length-lba_cbw 0x14 tag (count * 512) pos count subcode) buf
            (decode-lba_cbw tag pos count subcode (L.drive.random-lt s) pos_lt count_lt).0 hl
            (omega arith))
          λ got s2 (bytes, phase, disk, time).
            let same : L.disk s1 ≡ L.disk s = L.drive.random-disk s in
            ensures (
              bytes ∙ ap (λ d. slice d (pos * 512) (count * 512)) same,
              phase,
              disk ∙ same,
              omega (arith, L.drive.random-clock s),
            ))

  pub erase_lba_raw-erases :
      Ensures
        (λ _ s'.
          (L.phase s' ≡ ready)
          × (L.disk s' ≡ overlay (L.disk s) (pos * 512) (replicate (count * 512) L.blank))
          × (L.clock s' ≤ L.clock s + 8 * L.step))
        (erase_lba_raw B dev pos count timeout s)
  unfolding erase_lba_raw lba_cbw
  erase_lba_raw-erases =
      let (tag, s1) = B.random_u32 s in
      rw (ne→not_== count 0 (omega arith)) (
        Ensures-bind
          (transaction-erase L (lba_cbw 0x25 tag 0 pos count 0) pos count timeout s1 enough
            (L.drive.random-phase s ∙ idle) (L.drive.random-lt s)
            (length-lba_cbw 0x25 tag 0 pos count 0)
            (decode-lba_cbw tag pos count 0 (L.drive.random-lt s) pos_lt count_lt).2)
          λ _ s2 (phase, disk, time). ensures (
            phase,
            disk
                ∙ ap (λ d. overlay d (pos * 512) (replicate (count * 512) L.blank))
                    (L.drive.random-disk s),
            omega (arith, L.drive.random-clock s),
          ))
