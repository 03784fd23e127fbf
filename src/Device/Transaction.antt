-- ===== src/Device/Transaction.antt =====
-- `RkDevice::cbw_transaction`: a command block, an optional data stage, and a status block.
pub mod Stages
pub mod Completes
pub mod Queries
pub mod Checks
use rkusb.Prelude.{
  ℕ, ◌+◌, ◌||◌, not, Option, none, some, List, [], Result, ok, err, Action, pure, fail, ltb, ◌==◌,
  if◌then◌else◌, ◌>>=◌, ◌>>◌, length, replicate,
}
use rkusb.Bus.{Bus, io}
use rkusb.Usb.{Cbw, Csw, csw_sign, size_of_cbw, size_of_csw, as_bytes, read_csw}
use rkusb.Device.{
  RkUsbError, usb, invalid_csw, tag_mismatch, command_failed, RkDevice, from_usb, now,
  remaining_timeout,
}

-- The checks on a status block, in their order.
pub check_csw : Cbw → Csw → Result RkUsbError (Unit {0})
check_csw cbw csw =
    if csw.signature == csw_sign
    then if csw.tag == cbw.tag
      then if csw.status == 0 then ok tt else err (command_failed csw.status)
      else err tag_mismatch
    else err invalid_csw

pub parse_status : Cbw → ℕ → List ℕ → Result RkUsbError (Unit {0})
unfolding check_csw
parse_status cbw n buf =
    if n == size_of_csw
    then elim (read_csw buf) [ none ↦ err invalid_csw | some csw ↦ check_csw cbw csw ]
    else err invalid_csw

module _ (B : Bus) (dev : RkDevice) where
  abbrev pub write_bulk : List ℕ → ℕ → Action B.State RkUsbError ℕ
  write_bulk bytes t s = from_usb (B.write_bulk dev.bulk_out bytes t s)

  abbrev pub read_bulk : List ℕ → ℕ → Action B.State RkUsbError (ℕ × List ℕ)
  read_bulk buf t s = from_usb (B.read_bulk dev.bulk_in buf t s)

  -- The command block has to be taken whole.
  pub send_command : Cbw → ℕ → Action B.State RkUsbError (Unit {0})
  send_command cbw deadline = do
    t ← remaining_timeout B deadline
    n ← write_bulk (as_bytes cbw) t
    if n == size_of_cbw then pure tt else fail (usb io)

  pub write_stage : Option (List ℕ) → ℕ → Action B.State RkUsbError (Unit {0})
  write_stage none deadline = pure tt
  write_stage (some buf) deadline = do
    t ← remaining_timeout B deadline
    n ← write_bulk buf t
    if n == length buf then pure tt else fail (usb io)

  -- The count of bytes read, and the buffer: at least what the command announced.
  pub read_stage : Cbw → Option (List ℕ) → ℕ → Action B.State RkUsbError (ℕ × List ℕ)
  read_stage cbw none deadline = pure (0, [])
  read_stage cbw (some buf) deadline = do
    t ← remaining_timeout B deadline
    (n, buf') ← read_bulk buf t
    if ltb n cbw.data_transfer_length || ltb (length buf) n then fail (usb io) else pure (n, buf')

  pub read_status : Cbw → ℕ → Action B.State RkUsbError (Unit {0})
  unfolding parse_status
  read_status cbw deadline = do
    t ← remaining_timeout B deadline
    (n, buf) ← read_bulk (replicate size_of_csw 0) t
    λ s. (parse_status cbw n buf, s)

  -- The value is the length of the data read, with the caller's buffer as it is afterwards.
  pub cbw_transaction :
      Cbw → Option (List ℕ) → Option (List ℕ) → ℕ → Action B.State RkUsbError (ℕ × List ℕ)
  cbw_transaction cbw data_out data_in timeout = do
    start ← now B
    let deadline = start + timeout
    send_command cbw deadline
    write_stage data_out deadline
    got ← read_stage cbw data_in deadline
    read_status cbw deadline
    pure got
