-- ===== src/Device/Lba/Erases.antt =====
-- `erase_lba` against a device that follows the protocol.
use rkusb.Prelude.{
  ℕ, zero, suc, ◌+◌, ◌-◌, ◌*◌, ◌/◌, ◌%◌, ◌^◌, ◌≤◌, ◌<◌, ◌≡◌, ◌∙◌, sym, ◌∷◌, ◌++◌, Ensures, ensures,
  Ensures-bind, Ensures-mono, ap, length, replicate, length-replicate, min, ne→not_==, lt→ltb,
  arith,
}
use rkusb.Disk.{overlay}
use rkusb.Disk.Laws.{overlay-append, overlay-nil}
use rkusb.Bus.{Bus}
use rkusb.Device.{RkDevice}
use rkusb.Device.Lba.{u16_max, erase_loop, erase_lba}
use rkusb.Device.Raw.Transfers.{erase_lba_raw-erases}
use rkusb.Device.Transaction.Stages.{remaining_timeout-left}
use rkusb.Drive.{ready, Link}

replicate-append : (m n : ℕ) (b : ℕ) → replicate m b ++ replicate n b ≡ replicate (m + n) b
replicate-append zero n b = let e : 0 + n ≡ n = omega arith in rw e
replicate-append (suc m) n b =
    let e : suc m + n ≡ suc (m + n) = omega arith in rw e (ap (λ l. b ∷ l) (replicate-append m n b))

module _ {B : Bus} {dev : RkDevice} (L : Link B dev) (deadline : ℕ) where
  erase_loop-erases :
      (n fuel pos remaining : ℕ) (s : B.State)
      → remaining ≤ fuel
      → remaining ≤ u16_max * n
      → L.clock s + 9 * (L.step * n) < deadline
      → pos + remaining < 2 ^ 32
      → L.phase s ≡ ready
      → Ensures
          (λ _ s'.
            (L.phase s' ≡ ready)
            × (L.disk s' ≡ overlay (L.disk s) (pos * 512) (replicate (remaining * 512) L.blank))
            × (L.clock s' ≤ L.clock s + 9 * (L.step * n)))
          (erase_loop B dev fuel pos remaining deadline s)
  unfolding erase_loop
  erase_loop-erases n zero pos remaining s hf hn ht hp hr =
      let none_left : remaining ≡ 0 = omega arith in
      rw none_left (ensures (hr, sym (overlay-nil (L.disk s) (pos * 512)), omega arith))
  erase_loop-erases n (suc fuel) pos zero s hf hn ht hp hr =
      ensures (hr, sym (overlay-nil (L.disk s) (pos * 512)), omega arith)
  erase_loop-erases zero (suc fuel) pos (suc r) s hf hn ht hp hr = absurd (omega arith)
  erase_loop-erases (suc n) (suc fuel) pos (suc r) s hf hn ht hp hr =
      let remaining = suc r in
      let count = min remaining u16_max in
      let width : count % 2 ^ 16 ≡ count = omega arith in
      let total : count * 512 + (remaining - count) * 512 ≡ remaining * 512 = omega arith in
      rw (ne→not_== remaining 0 (omega arith), width)
        (Ensures-bind (remaining_timeout-left L (7 * L.step) deadline s (omega arith))
          λ t s1 (ample, phase1, disk1, time1).
            Ensures-bind
              (erase_lba_raw-erases L pos count 0 t s1 ample (phase1 ∙ hr) (omega arith)
                (omega arith) (omega arith))
              λ _ s2 (phase2, disk2, time2). rw (lt→ltb (pos + count) (2 ^ 32) (omega arith)) (
                Ensures-mono
                  (erase_loop-erases n fuel (pos + count) (remaining - count) s2 (omega arith)
                    (omega arith) (omega arith) (omega arith) phase2)
                  λ _ s3 (phase3, disk3, time3).
                    let front = replicate (count * 512) L.blank in
                    let back = replicate ((remaining - count) * 512) L.blank in
                    let size : length front ≡ count * 512 = length-replicate _ L.blank in
                    (
                      phase3,
                      disk3
                          ∙ ap (λ d. overlay d ((pos + count) * 512) back)
                              (disk2 ∙ ap (λ d. overlay d (pos * 512) front) disk1)
                          ∙ overlay-append (L.disk s) (pos * 512) ((pos + count) * 512) front back
                              (omega arith)
                          ∙ ap (overlay (L.disk s) (pos * 512)) (
                              replicate-append (count * 512) ((remaining - count) * 512) L.blank
                              ∙ ap (λ n. replicate n L.blank) total),
                      omega arith,
                    )))

-- `erase_lba` succeeds and leaves exactly the `count` sectors from sector `pos` on erased: no
-- other byte changes. Premises: `pos` and the count add up to less than 2^32, the device is
-- ready, and the time limit is above nine calls of the bus for each command of 65535 sectors and
-- ten more; the operation ends in this time.
-- The device follows the bus protocol, and a call of the bus takes `step` at most (`Link`).
pub erase_lba-overlay :
    {B : Bus} {dev : RkDevice} (L : Link B dev) (pos count timeout : ℕ) (s : B.State)
    → pos + count < 2 ^ 32
    → L.step * (9 * (count / u16_max) + 10) < timeout
    → L.phase s ≡ ready
    → Ensures
        (λ _ s'.
          (L.phase s' ≡ ready)
          × (L.disk s' ≡ overlay (L.disk s) (pos * 512) (replicate (count * 512) L.blank))
          × (L.clock s' ≤ L.clock s + L.step * (9 * (count / u16_max) + 10)))
        (erase_lba B dev pos count timeout s)
unfolding erase_lba
erase_lba-overlay L pos zero timeout s hp ht hr =
    ensures (hr, sym (overlay-nil (L.disk s) (pos * 512)), omega arith)
erase_lba-overlay {B} {dev} L pos (suc c) timeout s hp ht hr =
    let n = suc c / u16_max + 1 in
    let early = L.drive.now-early s in
    let begun = L.drive.now-clock s in
    rw (ne→not_== (suc c) 0 (omega arith)) (
      Ensures-mono
        (erase_loop-erases L _ n (suc c) pos (suc c) (B.now s).1 (omega arith) (omega arith)
          (omega arith) hp (L.drive.now-phase s ∙ hr))
        λ _ s2 (phase, disk, time). (
          phase,
          disk
              ∙ ap (λ d. overlay d (pos * 512) (replicate (suc c * 512) L.blank))
                  (L.drive.now-disk s),
          omega arith,
        ))
