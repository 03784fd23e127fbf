-- ===== src/Device/Transaction/Queries.antt =====
-- A transaction that asks a device for some bytes.
use rkusb.Prelude.{
  ℕ, ◌+◌, ◌*◌, ◌^◌, ◌≤◌, ◌<◌, ◌≡◌, ◌⊎◌, ◌∙◌, sym, List, some, none, ◌++◌, Ensures, ensures,
  Ensures-bind, le→not_ltb, eq→==, ap, length, drop, arith,
}
use rkusb.Bus.{Bus}
use rkusb.Usb.{Cbw, as_bytes}
use rkusb.Device.{RkDevice}
use rkusb.Device.Transaction.{send_command, read_stage, write_stage, cbw_transaction}
use rkusb.Device.Transaction.Stages.{Ensures-from_usb, remaining_timeout-left, read_status-ready}
use rkusb.Drive.{ready, finished, answering, Link}
use rkusb.Drive.Queries.{
  Query, decode_query, Informant, query_cbw, decode-query_cbw, length-query_cbw, tag-query_cbw,
}

module _ {B : Bus} {dev : RkDevice} (L : Link B dev) (I : Informant L) where
  send_command-asks :
      (cbw : Cbw) (q : Query) (deadline : ℕ) (s : B.State)
      → L.clock s + 2 * L.step < deadline
      → L.phase s ≡ ready
      → decode_query (as_bytes cbw) ≡ some q
      → length (as_bytes cbw) ≡ 31
      → q.count ≡ length (I.answer q.op)
      → 0 < q.count
      → Ensures
          (λ _ s'.
            (L.phase s' ≡ answering q.tag (I.answer q.op))
            × (L.disk s' ≡ L.disk s)
            × (L.clock s' ≤ L.clock s + 2 * L.step))
          (send_command B dev cbw deadline s)
  unfolding send_command
  send_command-asks cbw q deadline s ht hr hd hl hn positive =
      Ensures-bind (remaining_timeout-left L L.step deadline s (omega arith))
        λ t s1 (left, same, kept, time1).
          Ensures-bind
            (Ensures-from_usb (
              I.informant.take_query s1 (as_bytes cbw) t q (same ∙ hr) hd hn positive
                (omega arith)))
            λ n s2 (count, phase, disk, time2).
              rw (eq→== n 31 (count ∙ hl)) (ensures (phase, disk ∙ kept, omega arith))

  read_stage-answers :
      (cbw : Cbw) (buf : List ℕ) (tag : ℕ) (bytes : List ℕ) (deadline : ℕ) (s : B.State)
      → L.clock s + 2 * L.step < deadline
      → L.phase s ≡ answering tag bytes
      → length bytes ≤ length buf
      → cbw.data_transfer_length ≡ length bytes
      → Ensures
          (λ got s'.
            (got.0 ≡ length bytes)
            × (got.1 ≡ bytes ++ drop (length bytes) buf)
            × (L.phase s' ≡ finished tag)
            × (L.disk s' ≡ L.disk s)
            × (L.clock s' ≤ L.clock s + 2 * L.step))
          (read_stage B dev cbw (some buf) deadline s)
  unfolding read_stage
  read_stage-answers cbw buf tag bytes deadline s ht hr hl hd =
      Ensures-bind (remaining_timeout-left L L.step deadline s (omega arith))
        λ t s1 (left, same, kept, time1).
          Ensures-bind
            (Ensures-from_usb
              (I.informant.give_answer s1 buf t tag bytes (same ∙ hr) hl (omega arith)))
            λ got s2 (count, content, phase, disk, time2).
              rw
                (
                  le→not_ltb got.0 cbw.data_transfer_length (omega arith),
                  le→not_ltb (length buf) got.0 (omega arith),
                )
                (ensures (count, content, phase, disk ∙ kept, omega arith))

  -- The device is asked, and its answer is in the front of the buffer.
  pub transaction-query :
      (tag op n : ℕ) (buf : List ℕ) (timeout : ℕ) (s : B.State)
      → (op ≡ 0x1A) ⊎ ((op ≡ 0xAA) ⊎ (op ≡ 0x2B))
      → tag < 2 ^ 32
      → n < 2 ^ 32
      → 0 < n
      → n ≡ length (I.answer op)
      → n ≤ length buf
      → 7 * L.step < timeout
      → L.phase s ≡ ready
      → Ensures
          (λ got s'.
            (got.0 ≡ n)
            × (got.1 ≡ I.answer op ++ drop n buf)
            × (L.phase s' ≡ ready)
            × (L.disk s' ≡ L.disk s)
            × (L.clock s' ≤ L.clock s + 7 * L.step))
          (cbw_transaction B dev (query_cbw tag op n) none (some buf) timeout s)
  unfolding cbw_transaction write_stage
  transaction-query tag op n buf timeout s hop htag hn positive size fits enough idle =
      let cbw = query_cbw tag op n in
      let same_tag : cbw.tag ≡ tag = tag-query_cbw tag op n in
      let early = L.drive.now-early s in
      let begun = L.drive.now-clock s in
      Ensures-bind
        (send_command-asks cbw (record { tag = tag; op = op; count = n }) ((B.now s).0 + timeout)
          (B.now s).1 (omega arith) (L.drive.now-phase s ∙ idle)
          (decode-query_cbw tag op n htag hn hop) (length-query_cbw tag op n) size positive)
        λ _ s1 (phase1, disk1, time1).
          Ensures-bind
            (read_stage-answers cbw buf tag (I.answer op) ((B.now s).0 + timeout) s1 (omega arith)
              phase1 (omega arith) size)
            λ got s2 (count, content, phase2, disk2, time2).
              Ensures-bind
                (read_status-ready L cbw ((B.now s).0 + timeout) s2 (omega arith)
                  (omega (arith, same_tag)) (phase2 ∙ ap finished (sym same_tag)))
                λ _ s3 (phase3, disk3, time3). ensures (
                  count ∙ sym size,
                  content ∙ ap (λ k. I.answer op ++ drop k buf) (sym size),
                  phase3,
                  disk3 ∙ disk2 ∙ disk1 ∙ L.drive.now-disk s,
                  omega arith,
                )
