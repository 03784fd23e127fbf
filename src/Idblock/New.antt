-- ===== src/Idblock/New.antt =====
-- The IDBlock of an image with a `FlashHead` (src/idblock/new.rs).
pub mod Layout
use rkusb.Prelude.{ℕ, ◌+◌, ◌^◌, List, ◌++◌, Bool, Result, ok, err, ltb, if◌then◌else◌, length}
use rkusb.Idblock.{IdBlockError, size_overflow, idblock_alignment, next_multiple_of, area, encrypt}

-- The areas are separate slices of one buffer, in this order; each is encrypted in place.
pub build_idblock :
    (List ℕ → List ℕ → List ℕ) → List ℕ → List ℕ → List ℕ → Bool → Result IdBlockError (List ℕ)
build_idblock rc4 loader_head ddr loader rc4_enabled =
    let head_len = next_multiple_of (length loader_head) idblock_alignment in
    let ddr_len = next_multiple_of (length ddr) idblock_alignment in
    let loader_len = next_multiple_of (length loader) idblock_alignment in
    if ltb (head_len + ddr_len) (2 ^ 64)
    then if ltb (head_len + ddr_len + loader_len) (2 ^ 64)
      then ok (
          encrypt rc4 rc4_enabled (area head_len loader_head)
          ++ (encrypt rc4 rc4_enabled (area ddr_len ddr)
              ++ encrypt rc4 rc4_enabled (area loader_len loader)))
      else err size_overflow
    else err size_overflow
