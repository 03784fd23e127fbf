-- ===== src/Storage/Writes.antt =====
-- `Write for RkBlockDevice` against a device that follows the protocol.
use rkusb.Prelude.{
  ℕ, ◌+◌, ◌-◌, ◌*◌, ◌/◌, ◌%◌, ◌^◌, ◌≤◌, ◌<◌, ◌≡◌, ◌⊎◌, ◌∙◌, refl, sym, List, [], ◌∷◌, ◌++◌, Ensures,
  ensures, Ensures-bind, Ensures-mono, ap, length, take, drop, length-take, length-drop,
  length-append, replicate, min, lt→ltb, ne→not_==, Bool-cases, ◌==◌, inl, inr, arith,
}
use rkusb.Disk.{Disk, overlay}
use rkusb.Disk.Laws.{
  overlay-nil, overlay-patched, length-patched, overlay-patch_first, overlay-split, length-slice,
}
use rkusb.Bus.{Bus}
use rkusb.Device.{RkDevice}
use rkusb.Device.Lba.Reads.{read_lba-slice}
use rkusb.Device.Lba.Writes.{write_lba-overlay}
use rkusb.Storage.{RkBlockDevice, write_first, write_middle, write_last, write}
use rkusb.Storage.Reads.{Ensures-from_device}
use rkusb.Drive.{ready, Link, allowance, allowance-le}

-- A part of a write of `buf` from `pos` on: its bytes up to the new position are on the disk, and
-- what is left starts at a sector unless it is empty.
abbrev Stored : Disk → Disk → ℕ → List ℕ → ℕ × List ℕ → Type 0
Stored before after pos buf got =
    (k : ℕ) × (k ≤ length buf)
    × (got.0 ≡ pos + k)
    × (got.1 ≡ drop k buf)
    × (after ≡ overlay before pos (take k buf))
    × ((length got.1 ≡ 0) ⊎ (got.0 % 512 ≡ 0))

module _ {B : Bus} {dev : RkDevice} (L : Link B dev) (d : RkBlockDevice) (limit : ℕ)
    (patient : (m : ℕ) → m ≤ limit → allowance L.step m < d.timeout) where
  write_first-stores :
      (pos : ℕ) (buf : List ℕ) (s : B.State)
      → pos + length buf + 512 < 2 ^ 41
      → length buf + 512 ≤ limit
      → L.phase s ≡ ready
      → Ensures
          (λ got s'. Stored (L.disk s) (L.disk s') pos buf got × (L.phase s' ≡ ready))
          (write_first B dev d pos buf s)
  unfolding write_first
  write_first-stores pos buf s hp hb hr =
      let off = pos % 512 in
      let n = min (512 - off) (length buf) in
      let lba = pos / 512 in
      let base : lba * 512 + off ≡ pos = omega arith in
      let piece = take n buf in
      let size : length piece ≡ n = length-take n buf ∙ omega arith in
      elim (Bool-cases (pos % 512 == 0)) [
        | inl at_start ↦ rw at_start (
            ensures (
              (
                0,
                omega arith,
                omega arith,
                refl,
                sym (overlay-nil (L.disk s) pos),
                inr (ground arith),
              ),
              hr,
            ))
        | inr inside ↦
            rw (inside, lt→ltb (pos / 512) (2 ^ 32) (omega arith))
              (Ensures-bind
                (Ensures-from_device (
                  read_lba-slice L lba (replicate 512 0) d.subcode d.timeout s (omega arith)
                    (patient 512 (omega arith)) hr))
                λ tmp s1 (bytes, phase1, disk1, _).
                  let full : length tmp ≡ 512 = ap length bytes ∙ length-slice (L.disk s) _ 512 in
                  let tmp' = take off tmp ++ (piece ++ drop (off + n) tmp) in
                  Ensures-bind
                    (Ensures-from_device (
                      write_lba-overlay L lba tmp' d.subcode d.timeout s1
                        (omega (arith, length-patched off n 512 piece tmp full size (omega arith)))
                        (patient (length tmp') (
                          omega
                            (arith, length-patched off n 512 piece tmp full size (omega arith))))
                        phase1))
                    λ _ s2 (phase2, disk2, _). rw (lt→ltb (pos + n) (2 ^ 64) (omega arith)) (
                      ensures (
                        (
                          n,
                          omega arith,
                          refl,
                          refl,
                          disk2
                              ∙ ap (λ e. overlay e (lba * 512) tmp') disk1
                              ∙ overlay-patched (L.disk s) (lba * 512) off 512 n pos piece tmp bytes
                                  size (omega arith) base,
                          ground (arith, length-drop n buf),
                        ),
                        phase2,
                      )))
      ]

  write_middle-stores :
      (pos : ℕ) (buf : List ℕ) (s : B.State)
      → pos + length buf + 512 < 2 ^ 41
      → length buf + 512 ≤ limit
      → (length buf ≡ 0) ⊎ (pos % 512 ≡ 0)
      → L.phase s ≡ ready
      → Ensures
          (λ got s'.
            Stored (L.disk s) (L.disk s') pos buf got × (length got.1 < 512) × (L.phase s' ≡ ready))
          (write_middle B dev d pos buf s)
  unfolding write_middle
  write_middle-stores pos buf s hp hb ha hr =
      let n = length buf / 512 * 512 in
      let size : length (take n buf) ≡ n = length-take n buf ∙ omega arith in
      elim (Bool-cases (n == 0)) [
        | inl short ↦ rw short (
            ensures (
              (0, omega arith, omega arith, refl, sym (overlay-nil (L.disk s) pos), ha),
              ground arith,
              hr,
            ))
        | inr long ↦
            let base : pos / 512 * 512 ≡ pos = ground arith in
            rw (long, lt→ltb (pos / 512) (2 ^ 32) (omega arith))
              (Ensures-bind
                (Ensures-from_device (
                  write_lba-overlay L (pos / 512) (take n buf) d.subcode d.timeout s (omega arith)
                    (patient (length (take n buf)) (omega arith)) hr))
                λ _ s1 (phase, disk, _). rw (lt→ltb (pos + n) (2 ^ 64) (omega arith)) (
                  ensures (
                    (
                      n,
                      omega arith,
                      refl,
                      refl,
                      disk ∙ ap (λ a. overlay (L.disk s) a (take n buf)) base,
                      inr (omega arith),
                    ),
                    omega (arith, length-drop n buf),
                    phase,
                  )))
      ]

  write_last-stores :
      (pos : ℕ) (buf : List ℕ) (s : B.State)
      → pos + length buf + 512 < 2 ^ 41
      → length buf + 512 ≤ limit
      → length buf < 512
      → (length buf ≡ 0) ⊎ (pos % 512 ≡ 0)
      → L.phase s ≡ ready
      → Ensures
          (λ _ s'. (L.disk s' ≡ overlay (L.disk s) pos buf) × (L.phase s' ≡ ready))
          (write_last B dev d pos buf s)
  unfolding write_last
  write_last-stores pos [] s hp hb hl ha hr = ensures (sym (overlay-nil (L.disk s) pos), hr)
  write_last-stores pos (x ∷ xs) s hp hb hl ha hr =
      let buf = x ∷ xs in
      let lba = pos / 512 in
      let base : lba * 512 ≡ pos = omega arith in
      rw (ne→not_== (length buf) 0 (omega arith), lt→ltb (pos / 512) (2 ^ 32) (omega arith))
        (Ensures-bind
          (Ensures-from_device (
            read_lba-slice L lba (replicate 512 0) d.subcode d.timeout s (omega arith)
              (patient 512 (omega arith)) hr))
          λ tmp s1 (bytes, phase1, disk1, _).
            let tmp' = buf ++ drop (length buf) tmp in
            let full : length tmp ≡ 512 = ap length bytes ∙ length-slice (L.disk s) _ 512 in
            let whole : length tmp' ≡ 512 =
              length-append buf (drop (length buf) tmp)
              ∙ omega (arith, length-drop (length buf) tmp) in
            Ensures-mono
              (Ensures-from_device (
                write_lba-overlay L lba tmp' d.subcode d.timeout s1 (omega arith)
                  (patient (length tmp') (omega arith)) phase1))
              λ _ s2 (phase2, disk2, _). (
                disk2
                    ∙ ap (λ e. overlay e (lba * 512) tmp') disk1
                    ∙ ap (λ t. overlay (L.disk s) (lba * 512) (buf ++ drop (length buf) t)) bytes
                    ∙ overlay-patch_first (L.disk s) (lba * 512) 512 buf (omega arith)
                    ∙ ap (λ a. overlay (L.disk s) a buf) base,
                phase2,
              ))

-- `write` succeeds on the whole buffer: it returns the buffer's length, leaves exactly the bytes
-- of the buffer on the disk from the position on, wherever the position lies in a sector, moves
-- the position behind them, and no other byte of the disk changes. Premises: the range ends a
-- sector below byte 2^41, the device is ready, and the device's time limit is above
-- the allowance for the buffer and a sector more.
-- The device follows the bus protocol, and a call of the bus takes `step` at most (`Link`).
pub write-overlay :
    {B : Bus} {dev : RkDevice} (L : Link B dev) (d : RkBlockDevice) (buf : List ℕ) (s : B.State)
    → allowance L.step (length buf + 512) < d.timeout
    → d.pos + length buf + 512 < 2 ^ 41
    → L.phase s ≡ ready
    → Ensures
        (λ got s'.
          (got.0 ≡ length buf)
          × (got.1 ≡ record d { pos = d.pos + length buf })
          × (L.disk s' ≡ overlay (L.disk s) d.pos buf)
          × (L.phase s' ≡ ready))
        (write B dev d buf s)
unfolding write
write-overlay L d [] s ht hp hr =
    let still : d.pos ≡ d.pos + 0 = omega arith in
    ensures (refl, ap (λ p. record d { pos = p }) still, sym (overlay-nil (L.disk s) d.pos), hr)
write-overlay {B} {dev} L d (x ∷ xs) s ht hp hr =
    let buf = x ∷ xs in
    let limit = length buf + 512 in
    let patient : (m : ℕ) → m ≤ limit → allowance L.step m < d.timeout =
      λ m h. omega (arith, allowance-le L.step m limit h) in
    rw (ne→not_== (length buf) 0 (omega arith), lt→ltb (d.pos + length buf) (2 ^ 64) (omega arith))
      (Ensures-bind (write_first-stores L d limit patient d.pos buf s hp (omega arith) hr)
        λ got1 s1 ((k, k_le, pos1, rest1, disk1, aligned1), phase1).
          let left1 : length got1.1 ≡ length buf - k = ap length rest1 ∙ length-drop k buf in
          Ensures-bind
            (write_middle-stores L d limit patient got1.0 got1.1 s1 (omega arith) (omega arith)
              aligned1 phase1)
            λ got2 s2 ((m, m_le, pos2, rest2, disk2, aligned2), short, phase2).
              let left2 : length got2.1 ≡ length got1.1 - m =
                ap length rest2 ∙ length-drop m got1.1 in
              Ensures-bind
                (write_last-stores L d limit patient got2.0 got2.1 s2 (omega arith) (omega arith)
                  short aligned2 phase2)
                λ _ s3 (disk3, phase3). ensures (
                  refl,
                  refl,
                  disk3
                      ∙ ap (λ e. overlay e got2.0 got2.1) disk2
                      ∙ overlay-split (L.disk s1) got1.0 got2.0 m got1.1 got2.1 m_le pos2 rest2
                      ∙ ap (λ e. overlay e got1.0 got1.1) disk1
                      ∙ overlay-split (L.disk s) d.pos got1.0 k buf got1.1 k_le pos1 rest1,
                  phase3,
                ))
