-- ===== src/Disk.antt =====
-- The storage that a device exposes, as its users see it: a byte at every address. This is the
-- specification that the sector transfers of src/lib.rs are compared with.
pub mod Laws
use rkusb.Prelude.{
  ℕ, zero, suc, ◌+◌, ◌-◌, List, [], ◌∷◌, ◌&&◌, ltb, leb, if◌then◌else◌, length, get_or,
}

abbrev pub Disk : Type 0
Disk = ℕ → ℕ

-- The `n` bytes from address `a` on.
unfoldable pub slice : Disk → ℕ → ℕ → List ℕ
slice d a zero = []
slice d a (suc n) = d a ∷ slice d (a + 1) n

-- The disk after `bytes` were written from address `a` on: nothing else changes.
pub overlay : Disk → ℕ → List ℕ → Disk
overlay d a bytes i = if leb a i && ltb i (a + length bytes) then get_or bytes (i - a) 0 else d i
