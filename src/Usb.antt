-- ===== src/Usb.antt =====
-- Command and status blocks of the bulk-only protocol (src/usb.rs).
use rkusb.Prelude.{
  ℕ, Bool, ◌||◌, ◌==◌, if◌then◌else◌, List, ◌∷◌, ◌++◌, replicate, Option, none, some, length, take,
  drop, get_or,
}
use rkusb.Prelude.Bytes.{le_bytes16, le_bytes32, from_le}

abbrev pub direction_out : ℕ
direction_out = 0x00

abbrev pub direction_in : ℕ
direction_in = 0x80

abbrev pub cbw_sign : ℕ
cbw_sign = 0x43425355

abbrev pub csw_sign : ℕ
csw_sign = 0x53425355

-- The command block. `reserved3` is its seven trailing bytes.
pub record Cbwcb : Type 0 where
  pub oper_code : ℕ
  pub reserved : ℕ
  pub address : ℕ
  pub reserved2 : ℕ
  pub length : ℕ
  pub reserved3 : List ℕ

-- `Cbw<Cbwcb>`, the only instance that the program uses.
pub record Cbw : Type 0 where
  pub signature : ℕ
  pub tag : ℕ
  pub data_transfer_length : ℕ
  pub flags : ℕ
  pub lun : ℕ
  pub cb_length : ℕ
  pub cb : Cbwcb

pub record Csw : Type 0 where
  pub signature : ℕ
  pub tag : ℕ
  pub data_residue : ℕ
  pub status : ℕ

abbrev pub default_cbwcb : Cbwcb
default_cbwcb = record {
  oper_code = 0;
  reserved = 0;
  address = 0;
  reserved2 = 0;
  length = 0;
  reserved3 = replicate 7 0;
}

abbrev pub size_of_cbwcb : ℕ
size_of_cbwcb = 16

abbrev pub size_of_cbw : ℕ
size_of_cbw = 31

abbrev pub size_of_csw : ℕ
size_of_csw = 13

-- `Cbw::new`; `tag` is the value that `random::<u32>()` gave.
unfoldable pub new : ℕ → Cbwcb → Cbw
new tag cb = record {
  signature = cbw_sign;
  tag = tag;
  data_transfer_length = 0;
  flags = direction_out;
  lun = 0;
  cb_length = size_of_cbwcb;
  cb = cb;
}

-- Input commands with a command block of 6 bytes.
is_in6 : ℕ → Bool
is_in6 op =
    op == 0x00 || op == 0x01 || op == 0x1A || op == 0x1B || op == 0x20 || op == 0xAA || op == 0x2B

-- Output commands with a command block of 6 bytes.
is_out6 : ℕ → Bool
is_out6 op = op == 0xFF || op == 0x16 || op == 0x1E || op == 0x2A

-- Input commands with a command block of 10 bytes.
is_in10 : ℕ → Bool
is_in10 op = op == 0x03 || op == 0x04 || op == 0x14 || op == 0x17 || op == 0x21 || op == 0x24

-- Output commands with a command block of 10 bytes.
is_out10 : ℕ → Bool
is_out10 op =
    op == 0x05
    || op == 0x15
    || op == 0x18
    || op == 0x19
    || op == 0x06
    || op == 0x0B
    || op == 0x1F
    || op == 0x22
    || op == 0x23
    || op == 0x25

unfoldable pub with_opcode : ℕ → ℕ → Cbw
unfolding new is_in6 is_out6 is_in10 is_out10
with_opcode tag opcode =
    let cbw = new tag (record default_cbwcb { oper_code = opcode }) in
    if is_in6 opcode
    then record cbw { flags = direction_in; cb_length = 0x06 }
    else if is_out6 opcode
    then record cbw { flags = direction_out; cb_length = 0x06 }
    else if is_in10 opcode
    then record cbw { flags = direction_in; cb_length = 0x0A }
    else if is_out10 opcode
    then record cbw { flags = direction_out; cb_length = 0x0A }
    else cbw

-- The packed layout of `Cbwcb` and of `Cbw<Cbwcb>` on a little-endian host.
unfoldable pub cbwcb_bytes : Cbwcb → List ℕ
cbwcb_bytes cb =
    cb.oper_code
    ∷ cb.reserved
    ∷ (le_bytes32 cb.address ++ (cb.reserved2 ∷ (le_bytes16 cb.length ++ cb.reserved3)))

unfoldable pub as_bytes : Cbw → List ℕ
unfolding cbwcb_bytes
as_bytes c =
    le_bytes32 c.signature
    ++ (le_bytes32 c.tag
        ++ (le_bytes32 c.data_transfer_length
            ++ (c.flags ∷ c.lun ∷ c.cb_length ∷ cbwcb_bytes c.cb)))

-- `Csw::try_read_from_bytes`: the packed layout again; a buffer of another size is refused.
unfoldable pub read_csw : List ℕ → Option Csw
unfolding from_le
read_csw bytes =
    if length bytes == size_of_csw
    then some (record {
      signature = from_le (take 4 bytes);
      tag = from_le (take 4 (drop 4 bytes));
      data_residue = from_le (take 4 (drop 8 bytes));
      status = get_or bytes 12 0;
    })
    else none
