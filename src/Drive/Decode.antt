-- ===== src/Drive/Decode.antt =====
-- A device decodes the command blocks of src/usb.rs and src/lib.rs to the transfers meant, and
-- the program accepts its status block.
use rkusb.Prelude.{ℕ, ◌*◌, ◌^◌, ◌<◌, ◌≡◌, some, arith}
use rkusb.Usb.{as_bytes, read_csw, csw_sign}
use rkusb.Device.Raw.{lba_cbw}
use rkusb.Drive.{decode, read, write, erase, status_bytes}

module _ (tag pos count subcode : ℕ) (ht : tag < 2 ^ 32) (hp : pos < 2 ^ 32)
    (hc : count < 2 ^ 16) where
  -- The three transfers of src/lib.rs, written by the host and decoded by the device: the tag, the
  -- first sector and the count come out as they went in, for every tag, sector and count in the
  -- range of u32, u32 and u16.
  pub decode-lba_cbw :
      (decode (as_bytes (lba_cbw 0x14 tag (count * 512) pos count subcode))
        ≡ some (read tag pos count))
      × (decode (as_bytes (lba_cbw 0x15 tag (count * 512) pos count subcode))
          ≡ some (write tag pos count))
      × (decode (as_bytes (lba_cbw 0x25 tag 0 pos count subcode)) ≡ some (erase tag pos count))
  unfolding decode as_bytes lba_cbw
  decode-lba_cbw = (ground arith, ground arith, ground arith)

pub read_csw-status_bytes :
    (tag : ℕ)
    → tag < 2 ^ 32
    → read_csw (status_bytes tag)
      ≡ some (record { signature = csw_sign; tag = tag; data_residue = 0; status = 0 })
unfolding read_csw
read_csw-status_bytes tag h = ground arith
