-- ===== src/Idblock/New/Layout.antt =====
-- What the new IDBlock holds, encrypted or not.
use rkusb.Prelude.{
  ℕ, ◌+◌, ◌*◌, ◌/◌, ◌^◌, ◌<◌, ◌≡◌, ◌∙◌, refl, ap, List, ◌++◌, Bool, ok, length, length-append,
  lt→ltb, arith,
}
use rkusb.Idblock.{next_multiple_of, area, encrypt}
use rkusb.Idblock.Areas.{IsCipher, length-area, length-encrypt, decrypt_front, encrypt-encrypt}
use rkusb.Idblock.New.{build_idblock}

-- Unless the size overflows, the block is built; it is as long as its three areas, which are
-- multiples of 2048 bytes; and the cipher, run once more over the sectors of the block where it
-- is enabled, gives the head, the DDR code and the loader back, each padded with zeros.
-- The cipher undoes itself and keeps the length.
pub build_idblock-layout :
    (rc4 : List ℕ → List ℕ → List ℕ) (cipher : IsCipher rc4) (head ddr loader : List ℕ)
    (enabled : Bool)
    → next_multiple_of (length head) 2048
        + next_multiple_of (length ddr) 2048
        + next_multiple_of (length loader) 2048
      < 2 ^ 64
    → (block : List ℕ) × (build_idblock rc4 head ddr loader enabled ≡ ok block)
      × (length block
          ≡ next_multiple_of (length head) 2048
            + next_multiple_of (length ddr) 2048
            + next_multiple_of (length loader) 2048)
      × (encrypt rc4 enabled block
          ≡ area (next_multiple_of (length head) 2048) head
            ++ (area (next_multiple_of (length ddr) 2048) ddr
                ++ area (next_multiple_of (length loader) 2048) loader))
unfolding build_idblock
build_idblock-layout rc4 cipher head ddr loader enabled h =
    let hl = next_multiple_of (length head) 2048 in
    let dl = next_multiple_of (length ddr) 2048 in
    let ll = next_multiple_of (length loader) 2048 in
    let head' = area hl head in
    let ddr' = area dl ddr in
    let loader' = area ll loader in
    let size1 : length head' ≡ hl / 512 * 512 = length-area hl head (omega arith) ∙ omega arith in
    let size2 : length ddr' ≡ dl / 512 * 512 = length-area dl ddr (omega arith) ∙ omega arith in
    let size3 : length loader' ≡ ll / 512 * 512 =
      length-area ll loader (omega arith) ∙ omega arith in
    rw (lt→ltb (hl + dl) (2 ^ 64) (omega arith), lt→ltb (hl + dl + ll) (2 ^ 64) (omega arith))
      (
        encrypt rc4 enabled head' ++ (encrypt rc4 enabled ddr' ++ encrypt rc4 enabled loader'),
        refl,
        omega (
          arith,
          length-append (encrypt rc4 enabled head')
              (encrypt rc4 enabled ddr' ++ encrypt rc4 enabled loader'),
          length-append (encrypt rc4 enabled ddr') (encrypt rc4 enabled loader'),
          length-encrypt rc4 cipher enabled (hl / 512) head' size1,
          length-encrypt rc4 cipher enabled (dl / 512) ddr' size2,
          length-encrypt rc4 cipher enabled (ll / 512) loader' size3,
        ),
        decrypt_front rc4 cipher enabled (hl / 512) head' _ size1
            ∙ ap (λ l. head' ++ l)
                (decrypt_front rc4 cipher enabled (dl / 512) ddr' _ size2
                  ∙ ap (λ l. ddr' ++ l)
                      (encrypt-encrypt rc4 cipher enabled (ll / 512) loader' size3)),
      )
