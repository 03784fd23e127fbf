-- ===== src/Storage/Seek.antt =====
-- `Seek for RkBlockDevice` (src/bin/rktools/storage/mod.rs).
use rkusb.Prelude.{
  ℕ, suc, ◌+◌, ◌-◌, ◌^◌, ◌≤◌, ◌<◌, ◌≡◌, Option, none, some, Result, ok, err, ltb, if◌then◌else◌,
  arith,
}
use rkusb.Prelude.Int.{ℤ, pos, negsuc}
use rkusb.Storage.{RkBlockDevice, IoError, invalid_input}

-- A u64 from the start, or an i64 from the end of the disk or from the position.
pub data SeekFrom : Type 0 where
  start : ℕ → SeekFrom
  end : ℤ → SeekFrom
  current : ℤ → SeekFrom

-- `u64::checked_add_signed`
checked_add_signed : ℕ → ℤ → Option ℕ
checked_add_signed x (pos n) = if ltb (x + n) (2 ^ 64) then some (x + n) else none
checked_add_signed x (negsuc n) = if ltb n x then some (x - suc n) else none

seek_target : RkBlockDevice → SeekFrom → Option ℕ
unfolding checked_add_signed
seek_target d (start x) = some x
seek_target d (end x) = checked_add_signed d.disk_size_bytes x
seek_target d (current x) = checked_add_signed d.pos x

-- The new position has to be a byte of the disk; otherwise the device keeps its own.
pub seek : RkBlockDevice → SeekFrom → Result IoError ℕ × RkBlockDevice
unfolding seek_target
seek d from = elim (seek_target d from) [
  | none ↦ (err invalid_input, d)
  | some x ↦
      if ltb x d.disk_size_bytes then (ok x, record d { pos = x }) else (err invalid_input, d)
]

-- The byte that a seek asks for, `target`, without machine arithmetic: no byte if it is negative.
abbrev pub Asks : RkBlockDevice → SeekFrom → ℕ → Type 0
Asks d (start x) target = target ≡ x
Asks d (end (pos n)) target = target ≡ d.disk_size_bytes + n
Asks d (end (negsuc n)) target = target + suc n ≡ d.disk_size_bytes
Asks d (current (pos n)) target = target ≡ d.pos + n
Asks d (current (negsuc n)) target = target + suc n ≡ d.pos

-- A seek to a byte of the disk succeeds: it returns the byte's position, and changes only the
-- position of the device. The premise is that the disk is smaller than 2^64 bytes.
pub seek-inside :
    (d : RkBlockDevice) (from : SeekFrom) (target : ℕ)
    → d.disk_size_bytes < 2 ^ 64
    → target < d.disk_size_bytes
    → Asks d from target
    → seek d from ≡ (ok target, record d { pos = target })
unfolding seek
seek-inside d (start x) target hs ht ha = ground arith
seek-inside d (end (pos n)) target hs ht ha = ground arith
seek-inside d (end (negsuc n)) target hs ht ha = ground arith
seek-inside d (current (pos n)) target hs ht ha = ground arith
seek-inside d (current (negsuc n)) target hs ht ha = ground arith

-- A seek that names no byte of the disk, because it lies at or behind the end or before the
-- start, fails with `invalid_input` and leaves the device as it was.
pub seek-outside :
    (d : RkBlockDevice) (from : SeekFrom)
    → ((target : ℕ) → Asks d from target → d.disk_size_bytes ≤ target)
    → seek d from ≡ (err invalid_input, d)
unfolding seek
seek-outside d (start x) h = ground (arith, h x)
seek-outside d (end (pos n)) h = ground (arith, h (d.disk_size_bytes + n))
seek-outside d (end (negsuc n)) h = ground (arith, h (d.disk_size_bytes - suc n))
seek-outside d (current (pos n)) h = ground (arith, h (d.pos + n))
seek-outside d (current (negsuc n)) h = ground (arith, h (d.pos - suc n))
