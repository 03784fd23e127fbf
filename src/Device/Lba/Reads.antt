-- ===== src/Device/Lba/Reads.antt =====
-- `read_lba` against a device that follows the protocol.
use rkusb.Prelude.{
  ℕ, zero, suc, ◌+◌, ◌-◌, ◌*◌, ◌/◌, ◌%◌, ◌^◌, ◌≤◌, ◌<◌, ◌≡◌, ◌∙◌, refl, List, [], ◌∷◌, ◌++◌,
  Ensures, ensures, Ensures-bind, ap, length, take, drop, length-take, length-drop, replicate,
  length-replicate, chunks, chunks_fuel, min, ne→not_==, arith,
}
use rkusb.Disk.{slice}
use rkusb.Disk.Laws.{slice-append, take-slice}
use rkusb.Bus.{Bus}
use rkusb.Device.{RkDevice}
use rkusb.Device.Lba.{aligned_len, read_chunks, read_tail, read_lba}
use rkusb.Device.Lba.Writes.{advance_lba_by_bytes-ok}
use rkusb.Device.Raw.Transfers.{read_lba_raw-reads}
use rkusb.Device.Transaction.Stages.{remaining_timeout-left}
use rkusb.Drive.{ready, Link, allowance}

module _ {B : Bus} {dev : RkDevice} (L : Link B dev) (subcode deadline : ℕ) where
  read_chunks-reads :
      (sectors : ℕ)
      → 0 < sectors
      → sectors < 2 ^ 16
      → (n fuel : ℕ) (xs : List ℕ) (pos : ℕ) (s : B.State) → length xs ≤ fuel
      → length xs ≤ 512 * (sectors * n)
      → L.clock s + 9 * (L.step * n) < deadline
      → length xs % 512 ≡ 0
      → pos + length xs / 512 < 2 ^ 32
      → L.phase s ≡ ready
      → Ensures
          (λ got s'.
            (got.0 ≡ slice (L.disk s) (pos * 512) (length xs))
            × (got.1 ≡ pos + length xs / 512)
            × (L.phase s' ≡ ready)
            × (L.disk s' ≡ L.disk s)
            × (L.clock s' ≤ L.clock s + 9 * (L.step * n)))
          (read_chunks B dev (chunks_fuel fuel (sectors * 512) xs) pos subcode deadline s)
  unfolding read_chunks chunks_fuel slice
  read_chunks-reads sectors h0 h1 n zero [] pos s hf hn ht hm hp hr =
      ensures (refl, omega arith, hr, refl, omega arith)
  read_chunks-reads sectors h0 h1 n zero (x ∷ xs) pos s hf hn ht hm hp hr = absurd (omega arith)
  read_chunks-reads sectors h0 h1 n (suc fuel) [] pos s hf hn ht hm hp hr =
      ensures (refl, omega arith, hr, refl, omega arith)
  read_chunks-reads sectors h0 h1 zero (suc fuel) (x ∷ xs) pos s hf hn ht hm hp hr =
      absurd (omega arith)
  read_chunks-reads sectors h0 h1 (suc n) (suc fuel) (x ∷ xs) pos s hf hn ht hm hp hr =
      let chunk = take (sectors * 512) (x ∷ xs) in
      let rest = drop (sectors * 512) (x ∷ xs) in
      let count = length chunk / 512 in
      let size : length chunk ≡ min (sectors * 512) (length (x ∷ xs)) =
        length-take (sectors * 512) (x ∷ xs) in
      let left : length rest ≡ length (x ∷ xs) - sectors * 512 =
        length-drop (sectors * 512) (x ∷ xs) in
      let whole : length chunk ≡ count * 512 = omega arith in
      let total : count * 512 + length rest ≡ length (x ∷ xs) = omega arith in
      Ensures-bind (remaining_timeout-left L (7 * L.step) deadline s (omega arith))
        λ t s1 (ample, phase1, disk1, time1).
          Ensures-bind
            (read_lba_raw-reads L pos count subcode t s1 ample (phase1 ∙ hr) (omega arith)
              (omega arith) (omega arith) chunk whole)
            λ got s2 (bytes, phase2, disk2, time2).
              rw (advance_lba_by_bytes-ok pos (length chunk) (omega arith)) (
                Ensures-bind
                  (read_chunks-reads sectors h0 h1 n fuel rest (pos + count) s2 (omega arith)
                    (omega arith) (omega arith) (omega arith) (omega arith) phase2)
                  λ more s3 (bytes', position, phase3, disk3, time3).
                    let same : L.disk s2 ≡ L.disk s = disk2 ∙ disk1 in
                    let front : got ≡ slice (L.disk s) (pos * 512) (count * 512) =
                      bytes ∙ ap (λ d. slice d (pos * 512) (count * 512)) disk1 in
                    let back : more.0 ≡ slice (L.disk s) ((pos + count) * 512) (length rest) =
                      bytes' ∙ ap (λ d. slice d ((pos + count) * 512) (length rest)) same in
                    ensures (
                      ap (λ l. l ++ more.0) front
                          ∙ ap (λ l. slice (L.disk s) (pos * 512) (count * 512) ++ l) back
                          ∙ slice-append (L.disk s) (count * 512) (length rest) (pos * 512)
                              ((pos + count) * 512) (omega arith)
                          ∙ ap (slice (L.disk s) (pos * 512)) total,
                      omega arith,
                      phase3,
                      disk3 ∙ same,
                      omega arith,
                    ))

  read_tail-reads :
      (tail : List ℕ) (pos : ℕ) (s : B.State)
      → length tail < 512
      → pos < 2 ^ 32
      → L.clock s + 9 * L.step < deadline
      → L.phase s ≡ ready
      → Ensures
          (λ got s'.
            (got ≡ slice (L.disk s) (pos * 512) (length tail))
            × (L.phase s' ≡ ready)
            × (L.disk s' ≡ L.disk s)
            × (L.clock s' ≤ L.clock s + 9 * L.step))
          (read_tail B dev tail pos subcode deadline s)
  unfolding read_tail slice
  read_tail-reads [] pos s ht hp hd hr = ensures (refl, hr, refl, omega arith)
  read_tail-reads (x ∷ xs) pos s ht hp hd hr =
      let tail = x ∷ xs in
      rw (ne→not_== (length tail) 0 (omega arith)) (
        Ensures-bind (remaining_timeout-left L (7 * L.step) deadline s (omega arith))
          λ t s1 (ample, phase1, disk1, time1).
            Ensures-bind
              (read_lba_raw-reads L pos 1 subcode t s1 ample (phase1 ∙ hr) hp (omega arith)
                (omega arith) (replicate 512 0) (length-replicate {A = ℕ} 512 0))
              λ sector s2 (got, phase2, disk2, time2).
                let got' : sector ≡ slice (L.disk s) (pos * 512) 512 =
                  got ∙ ap (λ d. slice d (pos * 512) 512) disk1 in
                ensures (
                  ap (take (length tail)) got'
                      ∙ take-slice (L.disk s) (length tail) 512 (pos * 512) (omega arith),
                  phase2,
                  disk2 ∙ disk1,
                  omega arith,
                ))

-- `read_lba` succeeds, fills the buffer with the bytes of the disk from the address of sector
-- `pos` on, as many as the buffer is long, and changes nothing on the disk. Premises: `pos` and
-- the count of whole sectors add up to less than 2^32, the device is ready, and the time
-- limit is above the allowance for so many bytes, in which the operation ends.
-- The device follows the bus protocol, and a call of the bus takes `step` at most (`Link`).
pub read_lba-slice :
    {B : Bus} {dev : RkDevice} (L : Link B dev) (pos : ℕ) (buf : List ℕ) (subcode timeout : ℕ)
    (s : B.State)
    → pos + length buf / 512 < 2 ^ 32
    → allowance L.step (length buf) < timeout
    → L.phase s ≡ ready
    → Ensures
        (λ got s'.
          (got ≡ slice (L.disk s) (pos * 512) (length buf))
          × (L.phase s' ≡ ready)
          × (L.disk s' ≡ L.disk s)
          × (L.clock s' ≤ L.clock s + allowance L.step (length buf)))
        (read_lba B dev pos buf subcode timeout s)
unfolding read_lba chunks slice
read_lba-slice L pos [] subcode timeout s hp ht hr = ensures (refl, hr, refl, omega arith)
read_lba-slice {B} {dev} L pos (x ∷ xs) subcode timeout s hp ht hr =
    let buf = x ∷ xs in
    let cut = aligned_len (length buf) in
    let aligned = take cut buf in
    let tail = drop cut buf in
    let size : length aligned ≡ cut = length-take cut buf ∙ omega arith in
    let left : length tail ≡ length buf % 512 = length-drop cut buf ∙ omega arith in
    let n = length buf / 65536 in
    let early = L.drive.now-early s in
    let begun = L.drive.now-clock s in
    let total : length aligned + length tail ≡ length buf = omega arith in
    rw (ne→not_== (length buf) 0 (omega arith)) (
      Ensures-bind
        (read_chunks-reads L subcode _ 128 (omega arith) (omega arith) (n + 1) (length aligned)
          aligned pos (B.now s).1 (omega arith) (omega arith) (omega arith) (omega arith)
          (omega arith) (L.drive.now-phase s ∙ hr))
        λ got s2 (bytes, position, phase2, disk2, time2).
          Ensures-bind
            (read_tail-reads L subcode _ tail got.1 s2 (omega arith) (omega arith) (omega arith)
              phase2)
            λ tail' s3 (bytes', phase3, disk3, time3).
              let same : L.disk s2 ≡ L.disk s = disk2 ∙ L.drive.now-disk s in
              let a = pos * 512 in
              ensures (
                ap (λ l. l ++ tail')
                      (bytes ∙ ap (λ d. slice d a (length aligned)) (L.drive.now-disk s))
                    ∙ ap (λ l. slice (L.disk s) a (length aligned) ++ l)
                        (bytes' ∙ ap (λ d. slice d (got.1 * 512) (length tail)) same)
                    ∙ slice-append (L.disk s) (length aligned) (length tail) a (got.1 * 512)
                        (omega arith)
                    ∙ ap (slice (L.disk s) a) total,
                phase3,
                disk3 ∙ same,
                omega arith,
              ))
