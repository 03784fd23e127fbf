-- ===== src/Device/Lba/Writes.antt =====
-- `write_lba` against a device that follows the protocol.
use rkusb.Prelude.{
  ℕ, zero, suc, ◌+◌, ◌-◌, ◌*◌, ◌/◌, ◌%◌, ◌^◌, ◌≤◌, ◌<◌, ◌≡◌, ◌∙◌, sym, List, [], ◌∷◌, ◌++◌, Ensures,
  ensures, Ensures-bind, Ensures-mono, ap, length, take, drop, length-take, length-drop,
  take-append-drop, replicate, chunks, length-append, length-replicate, min, ne→not_==, ok,
  chunks_fuel, arith,
}
use rkusb.Disk.{overlay, slice}
use rkusb.Disk.Laws.{overlay-append, overlay-nil, overlay-patch_first, length-slice}
use rkusb.Bus.{Bus}
use rkusb.Device.{RkDevice, advance_lba_by_bytes}
use rkusb.Device.Lba.{aligned_len, write_chunks, write_tail, write_lba}
use rkusb.Device.Raw.Transfers.{write_lba_raw-writes, read_lba_raw-reads}
use rkusb.Device.Transaction.Stages.{remaining_timeout-left}
use rkusb.Drive.{ready, Link, allowance}

pub advance_lba_by_bytes-ok :
    (pos bytes : ℕ)
    → pos + bytes / 512 < 2 ^ 32
    → advance_lba_by_bytes pos bytes ≡ ok (pos + bytes / 512)
unfolding advance_lba_by_bytes
advance_lba_by_bytes-ok pos bytes h = ground arith

module _ {B : Bus} {dev : RkDevice} (L : Link B dev) (subcode deadline : ℕ) (sectors : ℕ)
    (some_sector : 0 < sectors) (sectors_lt : sectors < 2 ^ 16) where
  write_chunks-writes :
      (n fuel : ℕ) (xs : List ℕ) (pos : ℕ) (s : B.State)
      → length xs ≤ fuel
      → length xs ≤ 512 * (sectors * n)
      → L.clock s + 9 * (L.step * n) < deadline
      → length xs % 512 ≡ 0
      → pos + length xs / 512 < 2 ^ 32
      → L.phase s ≡ ready
      → Ensures
          (λ next s'.
            (next ≡ pos + length xs / 512)
            × (L.phase s' ≡ ready)
            × (L.disk s' ≡ overlay (L.disk s) (pos * 512) xs)
            × (L.clock s' ≤ L.clock s + 9 * (L.step * n)))
          (write_chunks B dev (chunks_fuel fuel (sectors * 512) xs) pos subcode deadline s)
  unfolding write_chunks chunks_fuel
  write_chunks-writes n zero [] pos s hf hn ht hm hp hr =
      ensures (omega arith, hr, sym (overlay-nil (L.disk s) (pos * 512)), omega arith)
  write_chunks-writes n zero (x ∷ xs) pos s hf hn ht hm hp hr = absurd (omega arith)
  write_chunks-writes n (suc fuel) [] pos s hf hn ht hm hp hr =
      ensures (omega arith, hr, sym (overlay-nil (L.disk s) (pos * 512)), omega arith)
  write_chunks-writes zero (suc fuel) (x ∷ xs) pos s hf hn ht hm hp hr = absurd (omega arith)
  write_chunks-writes (suc n) (suc fuel) (x ∷ xs) pos s hf hn ht hm hp hr =
      let chunk = take (sectors * 512) (x ∷ xs) in
      let rest = drop (sectors * 512) (x ∷ xs) in
      let count = length chunk / 512 in
      let size : length chunk ≡ min (sectors * 512) (length (x ∷ xs)) =
        length-take (sectors * 512) (x ∷ xs) in
      let left : length rest ≡ length (x ∷ xs) - sectors * 512 =
        length-drop (sectors * 512) (x ∷ xs) in
      let whole : length chunk ≡ count * 512 = omega arith in
      let total : count + length rest / 512 ≡ length (x ∷ xs) / 512 = omega arith in
      Ensures-bind (remaining_timeout-left L (7 * L.step) deadline s (omega arith))
        λ t s1 (ample, phase1, disk1, time1).
          Ensures-bind
            (write_lba_raw-writes L pos count subcode t s1 ample (phase1 ∙ hr) (omega arith)
              (omega arith) (omega arith) chunk whole)
            λ _ s2 (phase2, disk2, time2).
              rw (advance_lba_by_bytes-ok pos (length chunk) (omega arith)) (
                Ensures-mono
                  (write_chunks-writes n fuel rest (pos + count) s2 (omega arith) (omega arith)
                    (omega arith) (omega arith) (omega arith) phase2)
                  λ next s3 (position, phase3, disk3, time3). (
                    omega arith,
                    phase3,
                    disk3
                        ∙ ap (λ d. overlay d ((pos + count) * 512) rest)
                            (disk2 ∙ ap (λ d. overlay d (pos * 512) chunk) disk1)
                        ∙ overlay-append (L.disk s) (pos * 512) ((pos + count) * 512) chunk rest
                            (omega arith)
                        ∙ ap (overlay (L.disk s) (pos * 512))
                            (take-append-drop (sectors * 512) (x ∷ xs)),
                    omega arith,
                  ))

module _ {B : Bus} {dev : RkDevice} (L : Link B dev) (subcode deadline : ℕ) where
  write_tail-writes :
      (tail : List ℕ) (pos : ℕ) (s : B.State)
      → length tail < 512
      → pos < 2 ^ 32
      → L.clock s + 18 * L.step < deadline
      → L.phase s ≡ ready
      → Ensures
          (λ _ s'.
            (L.phase s' ≡ ready)
            × (L.disk s' ≡ overlay (L.disk s) (pos * 512) tail)
            × (L.clock s' ≤ L.clock s + 18 * L.step))
          (write_tail B dev tail pos subcode deadline s)
  unfolding write_tail
  write_tail-writes [] pos s ht hp hd hr =
      ensures (hr, sym (overlay-nil (L.disk s) (pos * 512)), omega arith)
  write_tail-writes (x ∷ xs) pos s ht hp hd hr =
      let tail = x ∷ xs in
      rw (ne→not_== (length tail) 0 (omega arith)) (
        Ensures-bind (remaining_timeout-left L (7 * L.step) deadline s (omega arith))
          λ t s1 (ample, phase1, disk1, time1).
            Ensures-bind
              (read_lba_raw-reads L pos 1 subcode t s1 ample (phase1 ∙ hr) hp (omega arith)
                (omega arith) (replicate 512 0) (length-replicate {A = ℕ} 512 0))
              λ sector s2 (got, phase2, disk2, time2).
                Ensures-bind (remaining_timeout-left L (7 * L.step) deadline s2 (omega arith))
                  λ t' s3 (ample', phase3, disk3, time3).
                    let same : L.disk s3 ≡ L.disk s = disk3 ∙ disk2 ∙ disk1 in
                    let sector' = tail ++ drop (length tail) sector in
                    let got' : sector ≡ slice (L.disk s) (pos * 512) 512 =
                      got ∙ ap (λ d. slice d (pos * 512) 512) disk1 in
                    let full : length sector' ≡ 1 * 512 = omega (
                      arith,
                      ap length got' ∙ length-slice (L.disk s) (pos * 512) 512,
                      length-append tail (drop (length tail) sector),
                      length-drop (length tail) sector,
                    ) in
                    Ensures-mono
                      (write_lba_raw-writes L pos 1 subcode t' s3 ample' (phase3 ∙ phase2) hp
                        (omega arith) (omega arith) sector' full)
                      λ _ s4 (phase4, disk4, time4). (
                        phase4,
                        disk4
                            ∙ ap (λ d. overlay d (pos * 512) sector') same
                            ∙ ap
                                (λ l. overlay (L.disk s) (pos * 512) (tail ++ drop (length tail) l))
                                got'
                            ∙ overlay-patch_first (L.disk s) (pos * 512) 512 tail (omega arith),
                        omega arith,
                      ))

-- `write_lba` succeeds and leaves exactly `bytes` at the address of sector `pos`: all of them, a
-- partial last sector included, and no other byte changes. Premises: `pos` and the count of whole
-- sectors add up to less than 2^32, the device is ready, and the time limit is above the
-- allowance for so many bytes, in which the operation ends.
-- The device follows the bus protocol, and a call of the bus takes `step` at most (`Link`).
pub write_lba-overlay :
    {B : Bus} {dev : RkDevice} (L : Link B dev) (pos : ℕ) (bytes : List ℕ) (subcode timeout : ℕ)
    (s : B.State)
    → pos + length bytes / 512 < 2 ^ 32
    → allowance L.step (length bytes) < timeout
    → L.phase s ≡ ready
    → Ensures
        (λ _ s'.
          (L.phase s' ≡ ready)
          × (L.disk s' ≡ overlay (L.disk s) (pos * 512) bytes)
          × (L.clock s' ≤ L.clock s + allowance L.step (length bytes)))
        (write_lba B dev pos bytes subcode timeout s)
unfolding write_lba chunks
write_lba-overlay L pos [] subcode timeout s hp ht hr =
    ensures (hr, sym (overlay-nil (L.disk s) (pos * 512)), omega arith)
write_lba-overlay {B} {dev} L pos (x ∷ xs) subcode timeout s hp ht hr =
    let bytes = x ∷ xs in
    let cut = aligned_len (length bytes) in
    let aligned = take cut bytes in
    let tail = drop cut bytes in
    let size : length aligned ≡ cut = length-take cut bytes ∙ omega arith in
    let left : length tail ≡ length bytes % 512 = length-drop cut bytes ∙ omega arith in
    let n = length bytes / 65536 in
    let early = L.drive.now-early s in
    let begun = L.drive.now-clock s in
    let ends : pos + length aligned / 512 ≡ pos + length bytes / 512 = omega arith in
    rw (ne→not_== (length bytes) 0 (omega arith)) (
      Ensures-bind
        (write_chunks-writes L subcode _ 128 (omega arith) (omega arith) (n + 1) (length aligned)
          aligned pos (B.now s).1 (omega arith) (omega arith) (omega arith) (omega arith)
          (omega arith) (L.drive.now-phase s ∙ hr))
        λ next s2 (position, phase2, disk2, time2).
          Ensures-mono
            (write_tail-writes L subcode _ tail next s2 (omega arith) (omega arith) (omega arith)
              phase2)
            λ _ s3 (phase3, disk3, time3). (
              phase3,
              disk3
                  ∙ ap (λ d. overlay d (next * 512) tail)
                      (disk2 ∙ ap (λ d. overlay d (pos * 512) aligned) (L.drive.now-disk s))
                  ∙ overlay-append (L.disk s) (pos * 512) (next * 512) aligned tail (omega arith)
                  ∙ ap (overlay (L.disk s) (pos * 512)) (take-append-drop cut bytes),
              omega arith,
            ))
