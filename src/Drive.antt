-- ===== src/Drive.antt =====
-- What a device at the other end of the bulk endpoints is assumed to do, as the bulk-only protocol
-- says: it decodes the command block that it receives, takes or gives the data of the command,
-- and then gives a status block. Devices and the crate rusb are not code of the repository, so
-- these are hypotheses of the theorems on transfers.
pub mod Decode
pub mod Queries
pub mod Simulated
use rkusb.Prelude.{
  arith, le-times, ◌/◌, ℕ, ◌+◌, ◌*◌, ◌^◌, ◌≤◌, ◌<◌, ◌≡◌, ◌&&◌, Option, none, some, List, [], ◌∷◌,
  ◌++◌, Ensures, ◌==◌, if◌then◌else◌, length, take, drop, get_or, replicate,
}
use rkusb.Prelude.Bytes.{le_bytes32, from_le}
use rkusb.Disk.{Disk, slice, overlay}
use rkusb.Usb.{csw_sign, size_of_csw}
use rkusb.Bus.{Bus}
use rkusb.Device.{RkDevice}

-- A transfer command: its tag, first sector and count of sectors.
pub data Command : Type 0 where
  read : ℕ → ℕ → ℕ → Command
  write : ℕ → ℕ → ℕ → Command
  erase : ℕ → ℕ → ℕ → Command

-- Where the device is in a transaction. `answering` is on the way to the answer of a query.
pub data Phase : Type 0 where
  ready : Phase
  receiving : ℕ → ℕ → ℕ → Phase
  sending : ℕ → ℕ → ℕ → Phase
  finished : ℕ → Phase
  answering : ℕ → List ℕ → Phase

-- The value of a byte sequence, most significant byte first, behind `acc`.
unfoldable pub from_be : ℕ → List ℕ → ℕ
from_be acc [] = acc
from_be acc (b ∷ bs) = from_be (acc * 256 + b) bs

decode_block : ℕ → ℕ → ℕ → ℕ → ℕ → ℕ → Option Command
decode_block op tag len flags address count =
    if op == 0x14 && flags == 0x80 && len == count * 512
    then some (read tag address count)
    else if op == 0x15 && flags == 0x00 && len == count * 512
    then some (write tag address count)
    else if op == 0x25 && flags == 0x00 && len == 0
    then some (erase tag address count)
    else none

-- What the device reads from the 31 bytes of a command block wrapper.
unfoldable pub decode : List ℕ → Option Command
unfolding decode_block from_le from_be
decode bytes =
    if length bytes == 31 && from_le (take 4 bytes) == 0x43425355 && get_or bytes 14 0 == 10
    then decode_block (get_or bytes 15 0) (from_le (take 4 (drop 4 bytes)))
        (from_le (take 4 (drop 8 bytes))) (get_or bytes 12 0) (from_be 0 (take 4 (drop 17 bytes)))
        (from_be 0 (take 2 (drop 22 bytes)))
    else none

abbrev pub phase_after : Command → Phase
phase_after (read tag address count) = sending tag address count
phase_after (write tag address count) = receiving tag address count
phase_after (erase tag address count) = finished tag

-- Erased sectors read as the byte `blank`.
abbrev pub disk_after : ℕ → Command → Disk → Disk
disk_after blank (read tag address count) d = d
disk_after blank (write tag address count) d = d
disk_after blank (erase tag address count) d =
    overlay d (address * 512) (replicate (count * 512) blank)

-- The status block of a command that succeeded.
abbrev pub status_bytes : ℕ → List ℕ
status_bytes tag = le_bytes32 csw_sign ++ (le_bytes32 tag ++ (le_bytes32 0 ++ (0 ∷ [])))

-- The parts of the bus's state that describe the device, and the time.
pub record View (B : Bus) : Type 0 where
  pub disk : B.State → Disk
  pub phase : B.State → Phase
  pub clock : B.State → ℕ

-- A call of the bus takes a time of `step` at most, and does not time out if it is given so much.
pub record IsDrive (B : Bus) (dev : RkDevice) (V : View B) (blank step : ℕ) : Type 0 where
  pub now-early : (s : B.State) → V.clock s ≤ (B.now s).0
  pub now-late : (s : B.State) → (B.now s).0 ≤ V.clock s + step
  pub now-clock : (s : B.State) → V.clock (B.now s).1 ≤ V.clock s + step
  pub now-disk : (s : B.State) → V.disk (B.now s).1 ≡ V.disk s
  pub now-phase : (s : B.State) → V.phase (B.now s).1 ≡ V.phase s
  pub random-disk : (s : B.State) → V.disk (B.random_u32 s).1 ≡ V.disk s
  pub random-phase : (s : B.State) → V.phase (B.random_u32 s).1 ≡ V.phase s
  pub random-clock : (s : B.State) → V.clock (B.random_u32 s).1 ≤ V.clock s + step
  pub random-lt : (s : B.State) → (B.random_u32 s).0 < 2 ^ 32
  pub take_command :
      (s : B.State) (bytes : List ℕ) (t : ℕ) (c : Command)
      → V.phase s ≡ ready
      → decode bytes ≡ some c
      → step ≤ t
      → Ensures
          (λ n s'.
            (n ≡ length bytes)
            × (V.phase s' ≡ phase_after c)
            × (V.disk s' ≡ disk_after blank c (V.disk s))
            × (V.clock s' ≤ V.clock s + step))
          (B.write_bulk dev.bulk_out bytes t s)
  pub take_data :
      (s : B.State) (bytes : List ℕ) (t tag address count : ℕ)
      → V.phase s ≡ receiving tag address count
      → length bytes ≡ count * 512
      → step ≤ t
      → Ensures
          (λ n s'.
            (n ≡ length bytes)
            × (V.phase s' ≡ finished tag)
            × (V.disk s' ≡ overlay (V.disk s) (address * 512) bytes)
            × (V.clock s' ≤ V.clock s + step))
          (B.write_bulk dev.bulk_out bytes t s)
  pub give_data :
      (s : B.State) (buf : List ℕ) (t tag address count : ℕ)
      → V.phase s ≡ sending tag address count
      → length buf ≡ count * 512
      → step ≤ t
      → Ensures
          (λ got s'.
            (got.0 ≡ length buf)
            × (got.1 ≡ slice (V.disk s) (address * 512) (count * 512))
            × (V.phase s' ≡ finished tag)
            × (V.disk s' ≡ V.disk s)
            × (V.clock s' ≤ V.clock s + step))
          (B.read_bulk dev.bulk_in buf t s)
  pub give_status :
      (s : B.State) (buf : List ℕ) (t tag : ℕ)
      → V.phase s ≡ finished tag
      → length buf ≡ size_of_csw
      → step ≤ t
      → Ensures
          (λ got s'.
            (got.0 ≡ size_of_csw)
            × (got.1 ≡ status_bytes tag)
            × (V.phase s' ≡ ready)
            × (V.disk s' ≡ V.disk s)
            × (V.clock s' ≤ V.clock s + step))
          (B.read_bulk dev.bulk_in buf t s)

-- The time that a transfer of `n` bytes may take: a chunk of 128 sectors takes nine calls of the
-- bus, and the rest of a transfer 28.
abbrev pub allowance : ℕ → ℕ → ℕ
allowance step n = step * (9 * (n / 65536) + 28)

pub allowance-le : (step m n : ℕ) → m ≤ n → allowance step m ≤ allowance step n
allowance-le step m n h = le-times step (9 * (m / 65536) + 28) (9 * (n / 65536) + 28) (omega arith)

-- A device that follows the protocol, at the endpoints `dev`.
pub record Link (B : Bus) (dev : RkDevice) : Type 0 where
  pub view : View B
  pub open view use *
  pub blank : ℕ
  pub step : ℕ
  pub drive : IsDrive B dev view blank step
