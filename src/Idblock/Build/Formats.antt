-- ===== src/Idblock/Build/Formats.antt =====
-- Which format an image gets.
use rkusb.Prelude.{ℕ, ◌≡◌, refl, List, Bool, none, some}
use rkusb.Idblock.Old
use rkusb.Idblock.New
use rkusb.Idblock.Build

-- Without a head, the old format.
pub build_idblock-old :
    (rc4 : List ℕ → List ℕ → List ℕ) (crc16 rk_crc : List ℕ → ℕ) (ddr loader : List ℕ)
    (enabled : Bool)
    → Build.build_idblock rc4 crc16 rk_crc none ddr loader enabled
      ≡ Old.build_idblock rc4 crc16 rk_crc ddr loader enabled
unfolding Build.build_idblock
build_idblock-old rc4 crc16 rk_crc ddr loader enabled = refl

-- With a head, the new one.
pub build_idblock-new :
    (rc4 : List ℕ → List ℕ → List ℕ) (crc16 rk_crc : List ℕ → ℕ) (head ddr loader : List ℕ)
    (enabled : Bool)
    → Build.build_idblock rc4 crc16 rk_crc (some head) ddr loader enabled
      ≡ New.build_idblock rc4 head ddr loader enabled
unfolding Build.build_idblock
build_idblock-new rc4 crc16 rk_crc head ddr loader enabled = refl
