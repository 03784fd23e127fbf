-- ===== src/Drive/Queries.antt =====
-- What a device is assumed to do with a command that asks it for some bytes, as the flash
-- information or the capability: it takes a block of 6 bytes with the command, and gives its answer.
use rkusb.Prelude.{
  ℕ, ◌+◌, ◌^◌, ◌≤◌, ◌<◌, ◌≡◌, ◌&&◌, ◌⊎◌, Option, none, some, List, ◌++◌, Ensures, ◌==◌,
  if◌then◌else◌, length, take, drop, get_or, arith,
}
use rkusb.Prelude.Bytes.{from_le}
use rkusb.Usb.{as_bytes, with_opcode, Cbw}
use rkusb.Bus.{Bus}
use rkusb.Device.{RkDevice}
use rkusb.Drive.{ready, finished, answering, View, Link}

-- A query: its tag, its operation and the count of bytes that it announces.
pub record Query : Type 0 where
  pub tag : ℕ
  pub op : ℕ
  pub count : ℕ

unfoldable pub decode_query : List ℕ → Option Query
unfolding from_le
decode_query bytes =
    if length bytes == 31
      && from_le (take 4 bytes) == 0x43425355
      && get_or bytes 14 0 == 6
      && get_or bytes 12 0 == 0x80
    then some (record {
      tag = from_le (take 4 (drop 4 bytes));
      op = get_or bytes 15 0;
      count = from_le (take 4 (drop 8 bytes));
    })
    else none

-- `answer` is what the device knows: the bytes for each operation.
pub record IsInformant (B : Bus) (dev : RkDevice) (V : View B) (step : ℕ) (answer : ℕ → List ℕ)
    : Type 0 where
  pub take_query :
      (s : B.State) (bytes : List ℕ) (t : ℕ) (q : Query)
      → V.phase s ≡ ready
      → decode_query bytes ≡ some q
      → q.count ≡ length (answer q.op)
      → 0 < q.count
      → step ≤ t
      → Ensures
          (λ n s'.
            (n ≡ length bytes)
            × (V.phase s' ≡ answering q.tag (answer q.op))
            × (V.disk s' ≡ V.disk s)
            × (V.clock s' ≤ V.clock s + step))
          (B.write_bulk dev.bulk_out bytes t s)
  pub give_answer :
      (s : B.State) (buf : List ℕ) (t tag : ℕ) (bytes : List ℕ)
      → V.phase s ≡ answering tag bytes
      → length bytes ≤ length buf
      → step ≤ t
      → Ensures
          (λ got s'.
            (got.0 ≡ length bytes)
            × (got.1 ≡ bytes ++ drop (length bytes) buf)
            × (V.phase s' ≡ finished tag)
            × (V.disk s' ≡ V.disk s)
            × (V.clock s' ≤ V.clock s + step))
          (B.read_bulk dev.bulk_in buf t s)

-- A device that follows the protocol and answers queries.
pub record Informant {B : Bus} {dev : RkDevice} (L : Link B dev) : Type 0 where
  pub answer : ℕ → List ℕ
  pub informant : IsInformant B dev L.view L.step answer

-- The command block of a query.
abbrev pub query_cbw : ℕ → ℕ → ℕ → Cbw
query_cbw tag op n = record (with_opcode tag op) { data_transfer_length = n }

-- A device reads the queries of src/lib.rs as they are meant.
pub decode-query_cbw :
    (tag op n : ℕ)
    → tag < 2 ^ 32
    → n < 2 ^ 32
    → (op ≡ 0x1A) ⊎ ((op ≡ 0xAA) ⊎ (op ≡ 0x2B))
    → decode_query (as_bytes (query_cbw tag op n)) ≡ some (record { tag = tag; op = op; count = n })
unfolding decode_query as_bytes with_opcode
decode-query_cbw tag op n ht hn h = ground arith

pub length-query_cbw : (tag op n : ℕ) → length (as_bytes (query_cbw tag op n)) ≡ 31
unfolding as_bytes with_opcode
length-query_cbw tag op n = ground arith

pub tag-query_cbw : (tag op n : ℕ) → (query_cbw tag op n).tag ≡ tag
unfolding with_opcode
tag-query_cbw tag op n = ground arith
