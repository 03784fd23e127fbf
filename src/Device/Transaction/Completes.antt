-- ===== src/Device/Transaction/Completes.antt =====
-- A whole transaction against a device that follows the protocol, for each of the transfers.
use rkusb.Prelude.{
  ℕ, ◌+◌, ◌*◌, ◌^◌, ◌≤◌, ◌<◌, ◌≡◌, ◌∙◌, List, none, some, Ensures, ensures, Ensures-bind, ap,
  length, replicate, arith,
}
use rkusb.Disk.{overlay, slice}
use rkusb.Bus.{Bus}
use rkusb.Usb.{Cbw, as_bytes}
use rkusb.Device.{RkDevice}
use rkusb.Device.Transaction.{cbw_transaction, write_stage, read_stage}
use rkusb.Device.Transaction.Stages.{
  send_command-takes, write_stage-takes, read_stage-gives, read_status-ready,
}
use rkusb.Drive.{ready, read, write, erase, Link, decode}

module _ {B : Bus} {dev : RkDevice} (L : Link B dev) (cbw : Cbw) (address count timeout : ℕ)
    (s : B.State) (enough : 7 * L.step < timeout) (idle : L.phase s ≡ ready)
    (tag_lt : cbw.tag < 2 ^ 32) (whole : length (as_bytes cbw) ≡ 31) where
  -- The deadline is seven calls away, of which the first is behind.
  late : L.clock s + 7 * L.step < (B.now s).0 + timeout
  late = omega (arith, L.drive.now-early s)

  begun : L.clock (B.now s).1 ≤ L.clock s + L.step
  begun = L.drive.now-clock s

  idle' : L.phase (B.now s).1 ≡ ready
  idle' = L.drive.now-phase s ∙ idle

  pub transaction-write :
      (bytes : List ℕ)
      → decode (as_bytes cbw) ≡ some (write cbw.tag address count)
      → length bytes ≡ count * 512
      → Ensures
          (λ _ s'.
            (L.phase s' ≡ ready)
            × (L.disk s' ≡ overlay (L.disk s) (address * 512) bytes)
            × (L.clock s' ≤ L.clock s + 7 * L.step))
          (cbw_transaction B dev cbw (some bytes) none timeout s)
  unfolding cbw_transaction read_stage
  transaction-write bytes hd hl =
      Ensures-bind (send_command-takes L cbw _ _ _ (omega (arith, late, begun)) idle' hd whole)
        λ _ s1 (phase1, disk1, time1).
          Ensures-bind
            (write_stage-takes L bytes _ address count _ s1 (omega (arith, late, begun)) phase1 hl)
            λ _ s2 (phase2, disk2, time2).
              Ensures-bind (read_status-ready L cbw _ s2 (omega (arith, late, begun)) tag_lt phase2)
                λ _ s3 (phase3, disk3, time3). ensures (
                  phase3,
                  disk3
                      ∙ disk2
                      ∙ ap (λ d. overlay d (address * 512) bytes) (disk1 ∙ L.drive.now-disk s),
                  omega (arith, begun),
                )

  pub transaction-read :
      (buf : List ℕ)
      → decode (as_bytes cbw) ≡ some (read cbw.tag address count)
      → length buf ≡ count * 512
      → cbw.data_transfer_length ≤ length buf
      → Ensures
          (λ got s'.
            (got.1 ≡ slice (L.disk s) (address * 512) (count * 512))
            × (L.phase s' ≡ ready)
            × (L.disk s' ≡ L.disk s)
            × (L.clock s' ≤ L.clock s + 7 * L.step))
          (cbw_transaction B dev cbw none (some buf) timeout s)
  unfolding cbw_transaction write_stage
  transaction-read buf hd hl hn =
      Ensures-bind (send_command-takes L cbw _ _ _ (omega (arith, late, begun)) idle' hd whole)
        λ _ s1 (phase1, disk1, time1).
          Ensures-bind
            (read_stage-gives L cbw buf _ address count _ s1 (omega (arith, late, begun)) phase1 hl
              hn)
            λ got s2 (bytes, phase2, disk2, time2).
              Ensures-bind (read_status-ready L cbw _ s2 (omega (arith, late, begun)) tag_lt phase2)
                λ _ s3 (phase3, disk3, time3).
                  let same : L.disk s1 ≡ L.disk s = disk1 ∙ L.drive.now-disk s in
                  ensures (
                    bytes ∙ ap (λ d. slice d (address * 512) (count * 512)) same,
                    phase3,
                    disk3 ∙ disk2 ∙ same,
                    omega (arith, begun),
                  )

  pub transaction-erase :
      decode (as_bytes cbw) ≡ some (erase cbw.tag address count)
      → Ensures
          (λ _ s'.
            (L.phase s' ≡ ready)
            × (L.disk s' ≡ overlay (L.disk s) (address * 512) (replicate (count * 512) L.blank))
            × (L.clock s' ≤ L.clock s + 7 * L.step))
          (cbw_transaction B dev cbw none none timeout s)
  unfolding cbw_transaction write_stage read_stage
  transaction-erase hd =
      Ensures-bind (send_command-takes L cbw _ _ _ (omega (arith, late, begun)) idle' hd whole)
        λ _ s1 (phase1, disk1, time1).
          Ensures-bind (read_status-ready L cbw _ s1 (omega (arith, late, begun)) tag_lt phase1)
            λ _ s2 (phase2, disk2, time2). ensures (
              phase2,
              disk2
                  ∙ disk1
                  ∙ ap (λ d. overlay d (address * 512) (replicate (count * 512) L.blank))
                      (L.drive.now-disk s),
              omega (arith, begun),
            )
