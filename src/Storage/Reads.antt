-- ===== src/Storage/Reads.antt =====
-- `Read for RkBlockDevice` against a device that follows the protocol.
use rkusb.Prelude.{
  ℕ, ◌+◌, ◌-◌, ◌*◌, ◌/◌, ◌%◌, ◌^◌, ◌≤◌, ◌<◌, ◌≡◌, ◌⊎◌, ◌∙◌, refl, sym, List, [], ◌∷◌, Result,
  Ensures, ensures, Ensures-bind, ap, length, take, drop, length-take, length-drop, replicate, min,
  lt→ltb, ne→not_==, Bool-cases, ◌==◌, inl, inr, arith,
}
use rkusb.Disk.{Disk, slice}
use rkusb.Disk.Laws.{slice_three, take-slice, take-drop-slice, length-slice}
use rkusb.Bus.{Bus}
use rkusb.Device.{RkDevice, RkUsbError}
use rkusb.Device.Lba.Reads.{read_lba-slice}
use rkusb.Storage.{RkBlockDevice, from_device, read_first, read_middle, read_last, read}
use rkusb.Drive.{ready, Link, allowance, allowance-le}

pub Ensures-from_device :
    {S A : Type 0} {Q : A → S → Type 0} {r : Result RkUsbError A × S}
    → Ensures Q r
    → Ensures Q (from_device r)
Ensures-from_device (ensures q) = ensures q

-- A part of a read of `n` bytes from `pos` on: the bytes got are those of the disk, and what is
-- left of the buffer starts behind them, at a sector unless it is empty.
abbrev Filled : Disk → ℕ → ℕ → List ℕ × ℕ × List ℕ → Type 0
Filled disk pos n got =
    (got.0 ≡ slice disk pos (length got.0))
    × (got.1 ≡ pos + length got.0)
    × (length got.0 + length got.2 ≡ n)
    × ((length got.2 ≡ 0) ⊎ (got.1 % 512 ≡ 0))

Filled-intro :
    (disk : Disk) (pos n k : ℕ) (xs rest : List ℕ) (p : ℕ)
    → xs ≡ slice disk pos k
    → p ≡ pos + k
    → k + length rest ≡ n
    → (length rest ≡ 0) ⊎ (p % 512 ≡ 0)
    → Filled disk pos n (xs, p, rest)
Filled-intro disk pos n k xs rest p piece hp hn aligned =
    let size : length xs ≡ k = ap length piece ∙ length-slice disk pos k in
    (piece ∙ ap (slice disk pos) (sym size), omega arith, omega arith, aligned)

module _ {B : Bus} {dev : RkDevice} (L : Link B dev) (d : RkBlockDevice) (limit : ℕ)
    (patient : (m : ℕ) → m ≤ limit → allowance L.step m < d.timeout) where
  read_first-reads :
      (pos : ℕ) (buf : List ℕ) (s : B.State)
      → pos + length buf + 512 < 2 ^ 41
      → length buf + 512 ≤ limit
      → L.phase s ≡ ready
      → Ensures
          (λ got s'.
            Filled (L.disk s) pos (length buf) got × (L.phase s' ≡ ready) × (L.disk s' ≡ L.disk s))
          (read_first B dev d pos buf s)
  unfolding read_first slice
  read_first-reads pos buf s hp hb hr =
      let off = pos % 512 in
      let n = min (512 - off) (length buf) in
      let base : pos / 512 * 512 + off ≡ pos = omega arith in
      elim (Bool-cases (pos % 512 == 0)) [
        | inl at_start ↦
            rw at_start (ensures ((refl, omega arith, omega arith, inr (ground arith)), hr, refl))
        | inr inside ↦
            rw (inside, lt→ltb (pos / 512) (2 ^ 32) (omega arith))
              (Ensures-bind
                (Ensures-from_device (
                  read_lba-slice L (pos / 512) (replicate 512 0) d.subcode d.timeout s (omega arith)
                    (patient 512 (omega arith)) hr))
                λ tmp s1 (bytes, phase, disk, _). rw (lt→ltb (pos + n) (2 ^ 64) (omega arith)) (
                  ensures (
                    Filled-intro (L.disk s) pos (length buf) n _ _ _
                        (ap (λ l. take n (drop off l)) bytes
                          ∙ take-drop-slice (L.disk s) (pos / 512 * 512) off n 512 (omega arith)
                          ∙ ap (λ a. slice (L.disk s) a n) base)
                        refl (omega (arith, length-drop n buf)) (ground (arith, length-drop n buf)),
                    phase,
                    disk,
                  )))
      ]

  read_middle-reads :
      (pos : ℕ) (buf : List ℕ) (s : B.State)
      → pos + length buf + 512 < 2 ^ 41
      → length buf + 512 ≤ limit
      → (length buf ≡ 0) ⊎ (pos % 512 ≡ 0)
      → L.phase s ≡ ready
      → Ensures
          (λ got s'.
            Filled (L.disk s) pos (length buf) got
            × (length got.2 < 512)
            × (L.phase s' ≡ ready)
            × (L.disk s' ≡ L.disk s))
          (read_middle B dev d pos buf s)
  unfolding read_middle slice
  read_middle-reads pos buf s hp hb ha hr =
      let n = length buf / 512 * 512 in
      let size : length (take n buf) ≡ n = length-take n buf ∙ omega arith in
      elim (Bool-cases (n == 0)) [
        | inl short ↦
            rw short (ensures ((refl, omega arith, omega arith, ha), ground arith, hr, refl))
        | inr long ↦
            let base : pos / 512 * 512 ≡ pos = ground arith in
            rw (long, lt→ltb (pos / 512) (2 ^ 32) (omega arith))
              (Ensures-bind
                (Ensures-from_device (
                  read_lba-slice L (pos / 512) (take n buf) d.subcode d.timeout s (omega arith)
                    (patient (length (take n buf)) (omega arith)) hr))
                λ got s1 (bytes, phase, disk, _). rw (lt→ltb (pos + n) (2 ^ 64) (omega arith)) (
                  ensures (
                    Filled-intro (L.disk s) pos (length buf) n _ _ _
                        (bytes
                          ∙ ap (slice (L.disk s) (pos / 512 * 512)) size
                          ∙ ap (λ a. slice (L.disk s) a n) base)
                        refl (omega (arith, length-drop n buf)) (inr (omega arith)),
                    omega (arith, length-drop n buf),
                    phase,
                    disk,
                  )))
      ]

  read_last-reads :
      (pos : ℕ) (buf : List ℕ) (s : B.State)
      → pos + length buf + 512 < 2 ^ 41
      → length buf + 512 ≤ limit
      → length buf < 512
      → (length buf ≡ 0) ⊎ (pos % 512 ≡ 0)
      → L.phase s ≡ ready
      → Ensures
          (λ got s'.
            (got ≡ slice (L.disk s) pos (length buf))
            × (L.phase s' ≡ ready)
            × (L.disk s' ≡ L.disk s))
          (read_last B dev d pos buf s)
  unfolding read_last slice
  read_last-reads pos [] s hp hb hl ha hr = ensures (refl, hr, refl)
  read_last-reads pos (x ∷ xs) s hp hb hl ha hr =
      let n = length (x ∷ xs) in
      let base : pos / 512 * 512 ≡ pos = omega arith in
      rw (ne→not_== n 0 (omega arith), lt→ltb (pos / 512) (2 ^ 32) (omega arith))
        (Ensures-bind
          (Ensures-from_device (
            read_lba-slice L (pos / 512) (replicate 512 0) d.subcode d.timeout s (omega arith)
              (patient 512 (omega arith)) hr))
          λ tmp s1 (bytes, phase, disk, _). ensures (
            ap (take n) bytes
                ∙ take-slice (L.disk s) n 512 (pos / 512 * 512) (omega arith)
                ∙ ap (λ a. slice (L.disk s) a n) base,
            phase,
            disk,
          ))

-- `read` succeeds on the whole buffer: it returns the buffer's length and the bytes of the disk
-- from the position on, wherever the position lies in a sector, moves the position behind them
-- and changes nothing else. Premises: the range ends a sector below byte 2^41, the device is
-- ready, and the device's time limit is above the allowance for the buffer and a sector more.
-- The device follows the bus protocol, and a call of the bus takes `step` at most (`Link`).
pub read-slice :
    {B : Bus} {dev : RkDevice} (L : Link B dev) (d : RkBlockDevice) (buf : List ℕ) (s : B.State)
    → allowance L.step (length buf + 512) < d.timeout
    → d.pos + length buf + 512 < 2 ^ 41
    → L.phase s ≡ ready
    → Ensures
        (λ got s'.
          (got.0 ≡ length buf)
          × (got.1 ≡ slice (L.disk s) d.pos (length buf))
          × (got.2 ≡ record d { pos = d.pos + length buf })
          × (L.phase s' ≡ ready)
          × (L.disk s' ≡ L.disk s))
        (read B dev d buf s)
unfolding read slice
read-slice L d [] s ht hp hr =
    let still : d.pos ≡ d.pos + 0 = omega arith in
    ensures (refl, refl, ap (λ p. record d { pos = p }) still, hr, refl)
read-slice {B} {dev} L d (x ∷ xs) s ht hp hr =
    let buf = x ∷ xs in
    let limit = length buf + 512 in
    let patient : (m : ℕ) → m ≤ limit → allowance L.step m < d.timeout =
      λ m h. omega (arith, allowance-le L.step m limit h) in
    rw (ne→not_== (length buf) 0 (omega arith), lt→ltb (d.pos + length buf) (2 ^ 64) (omega arith))
      (Ensures-bind (read_first-reads L d limit patient d.pos buf s hp (omega arith) hr)
        λ got1 s1 ((first, pos1, left1, aligned1), phase1, disk1).
          Ensures-bind
            (read_middle-reads L d limit patient got1.1 got1.2 s1 (omega arith) (omega arith)
              aligned1 phase1)
            λ got2 s2 ((middle, pos2, left2, aligned2), short, phase2, disk2).
              Ensures-bind
                (read_last-reads L d limit patient got2.1 got2.2 s2 (omega arith) (omega arith)
                  short aligned2 phase2)
                λ last s3 (end, phase3, disk3).
                  let total : length got1.0 + (length got2.0 + length got2.2) ≡ length buf =
                    omega arith in
                  ensures (
                    refl,
                    slice_three (L.disk s) d.pos got1.1 got2.1 (length got1.0) (length got2.0)
                          (length got2.2) first
                          (middle ∙ ap (λ e. slice e got1.1 (length got2.0)) disk1)
                          (end ∙ ap (λ e. slice e got2.1 (length got2.2)) (disk2 ∙ disk1)) pos1 pos2
                        ∙ ap (slice (L.disk s) d.pos) total,
                    refl,
                    phase3,
                    disk3 ∙ disk2 ∙ disk1,
                  ))
