-- ===== src/Copy.antt =====
-- `std::io::copy` into a block device, as src/bin/rktools/subcommands/upgrade.rs uses it.
pub mod Writes
use rkusb.Prelude.{
  ℕ, zero, suc, List, [], ◌∷◌, Action, pure, fail, ◌==◌, if◌then◌else◌, ◌>>=◌, length, drop, chunks,
}
use rkusb.Bus.{Bus}
use rkusb.Device.{RkDevice}
use rkusb.Storage.{IoError, write_zero, RkBlockDevice, write}

-- The buffer of `std::io::copy`.
abbrev pub copy_size : ℕ
copy_size = 8192

module _ (B : Bus) (dev : RkDevice) where
  -- `Write::write_all`. A round writes a byte at least, so as many rounds as bytes are enough.
  pub write_all : ℕ → List ℕ → RkBlockDevice → Action B.State IoError RkBlockDevice
  write_all zero buf d = pure d
  write_all (suc fuel) [] d = pure d
  write_all (suc fuel) (b ∷ bs) d = do
    (n, d') ← write B dev d (b ∷ bs)
    let rest = write_all fuel (drop n (b ∷ bs)) d'
    if n == 0 then fail write_zero else rest

  pub copy_pieces : List (List ℕ) → RkBlockDevice → Action B.State IoError RkBlockDevice
  copy_pieces [] d = pure d
  copy_pieces (piece ∷ pieces) d = do d' ← write_all (length piece) piece d; copy_pieces pieces d'

  -- `bytes` is all that the reader gives. The value is the device, with its new position.
  pub copy : List ℕ → RkBlockDevice → Action B.State IoError RkBlockDevice
  copy bytes d = copy_pieces (chunks copy_size bytes) d
