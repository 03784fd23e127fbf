-- ===== src/Idblock/Old/Sectors.antt =====
-- The fields of the header sectors, read back.
use rkusb.Prelude.{
  ℕ, ◌^◌, ◌<◌, ◌≡◌, refl, List, [], ◌∷◌, replicate, Bool, true, false, length, take, drop, arith,
}
use rkusb.Prelude.Bytes.{le_bytes16, le_bytes32, from_le}
use rkusb.Idblock.Old.{build_sector_0, build_sector_1, build_sector_2, build_sector_3, flag}

-- The number in the `n` bytes from `k` on.
abbrev pub field : ℕ → ℕ → List ℕ → ℕ
field k n sector = from_le (take n (drop k sector))

from_le-le_bytes16 : (x : ℕ) → x < 2 ^ 16 → from_le (le_bytes16 x) ≡ x
unfolding from_le
from_le-le_bytes16 x h = omega arith

from_le-le_bytes32 : (x : ℕ) → x < 2 ^ 32 → from_le (le_bytes32 x) ≡ x
unfolding from_le
from_le-le_bytes32 x h = omega arith

pub length-sector_0 : (e : Bool) (a b : ℕ) → length (build_sector_0 e a b) ≡ 512
unfolding build_sector_0
length-sector_0 e a b = refl

pub length-sector_1 : length build_sector_1 ≡ 512
unfolding build_sector_1
length-sector_1 = refl

pub length-sector_2 : (a b c d : ℕ) → length (build_sector_2 a b c d) ≡ 512
unfolding build_sector_2
length-sector_2 a b c d = refl

pub length-sector_3 : length build_sector_3 ≡ 512
unfolding build_sector_3
length-sector_3 = refl

-- Some bytes of a sector.
abbrev pub bytes_at : ℕ → ℕ → List ℕ → List ℕ
bytes_at k n sector = take n (drop k sector)

pub sector_0-fields :
    (e : Bool) (a b : ℕ)
    → a < 2 ^ 16
    → b < 2 ^ 16
    → (field 8 4 (build_sector_0 e a b) ≡ flag e)
      × (field 500 2 (build_sector_0 e a b) ≡ a)
      × (field 502 2 (build_sector_0 e a b) ≡ b)
unfolding build_sector_0 from_le
sector_0-fields true a b ha hb = (refl, from_le-le_bytes16 a ha, from_le-le_bytes16 b hb)
sector_0-fields false a b ha hb = (refl, from_le-le_bytes16 a ha, from_le-le_bytes16 b hb)

pub sector_0-rest :
    (e : Bool) (a b : ℕ)
    → (bytes_at 0 8 (build_sector_0 e a b) ≡ 0x55 ∷ 0xAA ∷ 0xF0 ∷ 0x0F ∷ 0 ∷ 0 ∷ 0 ∷ 0 ∷ [])
      × (bytes_at 12 4 (build_sector_0 e a b) ≡ 4 ∷ 0 ∷ 4 ∷ 0 ∷ [])
      × (bytes_at 16 484 (build_sector_0 e a b) ≡ replicate 484 0)
      × (bytes_at 504 8 (build_sector_0 e a b) ≡ replicate 8 0)
unfolding build_sector_0
sector_0-rest true a b = (refl, refl, refl, refl)
sector_0-rest false a b = (refl, refl, refl, refl)

pub sector_1-bytes :
    build_sector_1
    ≡ 0x0C ∷ 0x00 ∷ 0xFF ∷ 0xFF ∷ 0 ∷ 0 ∷ 0 ∷ 0 ∷ b'R' ∷ b'K' ∷ b'2' ∷ b'8' ∷ replicate 500 0
unfolding build_sector_1
sector_1-bytes = refl

pub sector_3-bytes : build_sector_3 ≡ replicate 512 0
unfolding build_sector_3
sector_3-bytes = refl

pub sector_2-rest :
    (a b c d : ℕ)
    → (bytes_at 0 491 (build_sector_2 a b c d) ≡ replicate 491 0)
      × (bytes_at 491 3 (build_sector_2 a b c d) ≡ b'V' ∷ b'C' ∷ 0 ∷ [])
      × (bytes_at 502 2 (build_sector_2 a b c d) ≡ 0 ∷ 0 ∷ [])
      × (bytes_at 504 4 (build_sector_2 a b c d) ≡ b'C' ∷ b'R' ∷ b'C' ∷ 0 ∷ [])
      × (bytes_at 510 2 (build_sector_2 a b c d) ≡ 0 ∷ 0 ∷ [])
unfolding build_sector_2
sector_2-rest a b c d = (refl, refl, refl, refl, refl)

pub sector_2-fields :
    (a b c d : ℕ)
    → a < 2 ^ 16
    → b < 2 ^ 16
    → c < 2 ^ 32
    → d < 2 ^ 16
    → (field 494 2 (build_sector_2 a b c d) ≡ a)
      × (field 496 2 (build_sector_2 a b c d) ≡ b)
      × (field 498 4 (build_sector_2 a b c d) ≡ c)
      × (field 508 2 (build_sector_2 a b c d) ≡ d)
unfolding build_sector_2
sector_2-fields a b c d ha hb hc hd = (
  from_le-le_bytes16 a ha,
  from_le-le_bytes16 b hb,
  from_le-le_bytes32 c hc,
  from_le-le_bytes16 d hd,
)
