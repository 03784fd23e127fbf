-- ===== src/Device/Transaction/Stages.antt =====
-- The stages of `cbw_transaction` against a device that follows the protocol.
use rkusb.Prelude.{
  ℕ, ◌+◌, ◌*◌, ◌^◌, ◌≤◌, ◌<◌, ◌≡◌, ◌∙◌, refl, List, some, Result, ok, Ensures, ensures,
  Ensures-bind, lt→ltb, le→not_ltb, eq→==, ap, replicate, length, arith,
}
use rkusb.Disk.{overlay, slice}
use rkusb.Bus.{Bus, UsbError}
use rkusb.Usb.{Cbw, as_bytes, size_of_csw}
use rkusb.Device.{RkDevice, from_usb, remaining_timeout}
use rkusb.Device.Transaction.{send_command, write_stage, read_stage, parse_status, read_status}
use rkusb.Drive.{
  Command, ready, receiving, sending, finished, Link, decode, phase_after, disk_after, status_bytes,
}
use rkusb.Drive.Decode.{read_csw-status_bytes}

pub Ensures-from_usb :
    {S A : Type 0} {Q : A → S → Type 0} {r : Result UsbError A × S}
    → Ensures Q r
    → Ensures Q (from_usb r)
Ensures-from_usb (ensures q) = ensures q

parse_status-ok :
    (cbw : Cbw) (n : ℕ) (buf : List ℕ)
    → cbw.tag < 2 ^ 32
    → n ≡ size_of_csw
    → buf ≡ status_bytes cbw.tag
    → parse_status cbw n buf ≡ ok tt
unfolding parse_status
parse_status-ok cbw n buf ht hn hb =
    rw (hb, eq→== n size_of_csw hn) (rw (read_csw-status_bytes cbw.tag ht) (ground arith))

module _ {B : Bus} {dev : RkDevice} (L : Link B dev) where
  -- Before the deadline there is time left, and asking for it changes nothing.
  pub remaining_timeout-left :
      (k deadline : ℕ) (s : B.State)
      → L.clock s + L.step + k < deadline
      → Ensures
          (λ t s'.
            (k < t)
            × (L.phase s' ≡ L.phase s)
            × (L.disk s' ≡ L.disk s)
            × (L.clock s' ≤ L.clock s + L.step))
          (remaining_timeout B deadline s)
  unfolding remaining_timeout
  remaining_timeout-left k deadline s h =
      rw (lt→ltb (B.now s).0 deadline (omega (arith, L.drive.now-late s))) (
        ensures (
          omega (arith, L.drive.now-late s),
          L.drive.now-phase s,
          L.drive.now-disk s,
          L.drive.now-clock s,
        ))

  pub send_command-takes :
      (cbw : Cbw) (c : Command) (deadline : ℕ) (s : B.State)
      → L.clock s + 2 * L.step < deadline
      → L.phase s ≡ ready
      → decode (as_bytes cbw) ≡ some c
      → length (as_bytes cbw) ≡ 31
      → Ensures
          (λ _ s'.
            (L.phase s' ≡ phase_after c)
            × (L.disk s' ≡ disk_after L.blank c (L.disk s))
            × (L.clock s' ≤ L.clock s + 2 * L.step))
          (send_command B dev cbw deadline s)
  unfolding send_command
  send_command-takes cbw c deadline s ht hr hd hl =
      Ensures-bind (remaining_timeout-left L.step deadline s (omega arith))
        λ t s1 (pos, same, kept, time1).
          Ensures-bind
            (Ensures-from_usb
              (L.drive.take_command s1 (as_bytes cbw) t c (same ∙ hr) hd (omega arith)))
            λ n s2 (count, phase, disk, time2).
              rw (eq→== n 31 (count ∙ hl))
                (ensures (phase, disk ∙ ap (disk_after L.blank c) kept, omega arith))

  pub write_stage-takes :
      (buf : List ℕ) (tag address count deadline : ℕ) (s : B.State)
      → L.clock s + 2 * L.step < deadline
      → L.phase s ≡ receiving tag address count
      → length buf ≡ count * 512
      → Ensures
          (λ _ s'.
            (L.phase s' ≡ finished tag)
            × (L.disk s' ≡ overlay (L.disk s) (address * 512) buf)
            × (L.clock s' ≤ L.clock s + 2 * L.step))
          (write_stage B dev (some buf) deadline s)
  unfolding write_stage
  write_stage-takes buf tag address count deadline s ht hr hl =
      Ensures-bind (remaining_timeout-left L.step deadline s (omega arith))
        λ t s1 (pos, same, kept, time1).
          Ensures-bind
            (Ensures-from_usb
              (L.drive.take_data s1 buf t tag address count (same ∙ hr) hl (omega arith)))
            λ n s2 (taken, phase, disk, time2).
              rw (eq→== n (length buf) taken)
                (ensures (phase, disk ∙ ap (λ d. overlay d (address * 512) buf) kept, omega arith))

  pub read_stage-gives :
      (cbw : Cbw) (buf : List ℕ) (tag address count deadline : ℕ) (s : B.State)
      → L.clock s + 2 * L.step < deadline
      → L.phase s ≡ sending tag address count
      → length buf ≡ count * 512
      → cbw.data_transfer_length ≤ length buf
      → Ensures
          (λ got s'.
            (got.1 ≡ slice (L.disk s) (address * 512) (count * 512))
            × (L.phase s' ≡ finished tag)
            × (L.disk s' ≡ L.disk s)
            × (L.clock s' ≤ L.clock s + 2 * L.step))
          (read_stage B dev cbw (some buf) deadline s)
  unfolding read_stage
  read_stage-gives cbw buf tag address count deadline s ht hr hl hd =
      Ensures-bind (remaining_timeout-left L.step deadline s (omega arith))
        λ t s1 (pos, same, kept, time1).
          Ensures-bind
            (Ensures-from_usb
              (L.drive.give_data s1 buf t tag address count (same ∙ hr) hl (omega arith)))
            λ got s2 (full, bytes, phase, disk, time2).
              rw
                (
                  le→not_ltb got.0 cbw.data_transfer_length (omega arith),
                  le→not_ltb (length buf) got.0 (omega arith),
                )
                (ensures (
                  bytes ∙ ap (λ d. slice d (address * 512) (count * 512)) kept,
                  phase,
                  disk ∙ kept,
                  omega arith,
                ))

  pub read_status-ready :
      (cbw : Cbw) (deadline : ℕ) (s : B.State)
      → L.clock s + 2 * L.step < deadline
      → cbw.tag < 2 ^ 32
      → L.phase s ≡ finished cbw.tag
      → Ensures
          (λ _ s'.
            (L.phase s' ≡ ready) × (L.disk s' ≡ L.disk s) × (L.clock s' ≤ L.clock s + 2 * L.step))
          (read_status B dev cbw deadline s)
  unfolding read_status
  read_status-ready cbw deadline s ht htag hr =
      Ensures-bind (remaining_timeout-left L.step deadline s (omega arith))
        λ t s1 (pos, same, kept, time1).
          Ensures-bind
            (Ensures-from_usb (
              L.drive.give_status s1 (replicate size_of_csw 0) t cbw.tag (same ∙ hr) refl
                (omega arith)))
            λ got s2 (full, bytes, phase, disk, time2).
              rw (parse_status-ok cbw got.0 got.1 htag full bytes)
                (ensures (phase, disk ∙ kept, omega arith))
