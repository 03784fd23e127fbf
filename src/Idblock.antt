-- ===== src/Idblock.antt =====
-- Building an IDBlock (src/idblock): limits, errors and the areas that both formats share, and
-- the choice between them.
pub mod Areas
pub mod New
pub mod Old
pub mod Build
pub mod Rkns
use rkusb.Prelude.{
  ℕ, zero, suc, ◌+◌, ◌-◌, ◌*◌, ◌/◌, List, [], ◌∷◌, ◌++◌, Bool, true, false, ltb, if◌then◌else◌,
  length, take, drop, replicate,
}

abbrev pub sector_size : ℕ
sector_size = 512

abbrev pub idblock_alignment : ℕ
idblock_alignment = 2048

abbrev pub rc4_key : List ℕ
rc4_key = 124 ∷ 78 ∷ 3 ∷ 4 ∷ 85 ∷ 5 ∷ 9 ∷ 7 ∷ 45 ∷ 44 ∷ 123 ∷ 56 ∷ 23 ∷ 13 ∷ 23 ∷ 17 ∷ []

pub data IdBlockError : Type 0 where
  ddr_too_large loader_too_large size_overflow : IdBlockError

-- `usize::next_multiple_of` on lengths, for a multiple of the alignment.
abbrev pub next_multiple_of : ℕ → ℕ → ℕ
next_multiple_of n k = (n + (k - 1)) / k * k

-- An area of `n` zero bytes with `bytes` copied to its start.
abbrev pub area : ℕ → List ℕ → List ℕ
area n bytes = bytes ++ replicate (n - length bytes) 0

-- `f` on every whole sector, in place: `as_chunks_mut::<SECTOR_SIZE>().0`. A round takes a
-- sector, so as many rounds as bytes are enough.
pub map_sectors_fuel : ℕ → (List ℕ → List ℕ) → List ℕ → List ℕ
map_sectors_fuel zero f xs = xs
map_sectors_fuel (suc fuel) f xs =
    let rest = f (take sector_size xs) ++ map_sectors_fuel fuel f (drop sector_size xs) in
    if ltb (length xs) sector_size then xs else rest

pub map_sectors : (List ℕ → List ℕ) → List ℕ → List ℕ
unfolding map_sectors_fuel
map_sectors f xs = map_sectors_fuel (length xs) f xs

-- The cipher on every sector of an area, if it is enabled. `rc4 key` is a cipher that is started
-- with the key anew for each sector (crate rc4).
abbrev pub encrypt : (List ℕ → List ℕ → List ℕ) → Bool → List ℕ → List ℕ
encrypt rc4 enabled xs = if enabled then map_sectors (rc4 rc4_key) xs else xs
