-- ===== src/Idblock/Build.antt =====
-- The choice of the format (src/idblock/mod.rs).
pub mod Formats
use rkusb.Prelude.{ℕ, List, Bool, Option, none, some, Result}
use rkusb.Idblock.{IdBlockError}
use rkusb.Idblock.New
use rkusb.Idblock.Old

pub build_idblock :
    (List ℕ → List ℕ → List ℕ)
    → (List ℕ → ℕ)
    → (List ℕ → ℕ)
    → Option (List ℕ)
    → List ℕ
    → List ℕ
    → Bool
    → Result IdBlockError (List ℕ)
build_idblock rc4 crc16 rk_crc (some loader_head) ddr loader rc4_enabled =
    New.build_idblock rc4 loader_head ddr loader rc4_enabled
build_idblock rc4 crc16 rk_crc none ddr loader rc4_enabled =
    Old.build_idblock rc4 crc16 rk_crc ddr loader rc4_enabled
