-- ===== src/Device/Transaction/Checks.antt =====
-- What `cbw_transaction` has checked when it succeeds, on any host and device.
use rkusb.Prelude.{ℕ, ◌≡◌, ◌↔◌, List, ok, length, take, drop, get_or, arith}
use rkusb.Prelude.Bytes.{from_le}
use rkusb.Usb.{Cbw, csw_sign, read_csw}
use rkusb.Device.Transaction.{check_csw, parse_status}

-- A status is accepted exactly if 13 bytes were received into 13 bytes, and they have the
-- signature of a status block, the tag of the command and the status 0.
pub parse_status-accepts :
    (cbw : Cbw) (n : ℕ) (buf : List ℕ)
    → (parse_status cbw n buf ≡ ok tt) ↔ (
        (n ≡ 13)
        × (length buf ≡ 13)
        × (from_le (take 4 buf) ≡ csw_sign)
        × (from_le (take 4 (drop 4 buf)) ≡ cbw.tag)
        × (get_or buf 12 0 ≡ 0))
unfolding parse_status check_csw read_csw
parse_status-accepts cbw n buf = (λ h. ground arith, λ h. ground arith)
