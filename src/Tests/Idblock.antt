-- ===== src/Tests/Idblock.antt =====
-- IDBlocks with a cipher that turns bytes around in pairs.
use rkusb.Prelude.{
  ℕ, suc, ◌+◌, ◌%◌, ◌/◌, leb, if◌then◌else◌, ◌^◌, ◌≡◌, refl, ap, List, [], ◌∷◌, ◌++◌, true, false,
  ok, err, length, replicate, length-replicate, arith,
}
use rkusb.Idblock.{area, encrypt, ddr_too_large, loader_too_large, size_overflow}
use rkusb.Idblock.Areas.{IsCipher}
use rkusb.Idblock.New
use rkusb.Idblock.New.Layout.{build_idblock-layout}
use rkusb.Idblock.Old
use rkusb.Idblock.Old.Layout.{
  IsIdblock, padded, build_idblock-IsIdblock, padded, build_idblock-errors,
}

abbrev swap_pairs : List ℕ → List ℕ
swap_pairs [] = []
swap_pairs (x ∷ []) = x ∷ []
swap_pairs (x ∷ y ∷ xs) = y ∷ x ∷ swap_pairs xs

length-swap_pairs : (xs : List ℕ) → length (swap_pairs xs) ≡ length xs
length-swap_pairs [] = refl
length-swap_pairs (x ∷ []) = refl
length-swap_pairs (x ∷ y ∷ xs) = ap (λ n. suc (suc n)) (length-swap_pairs xs)

swap_pairs-swap_pairs : (xs : List ℕ) → swap_pairs (swap_pairs xs) ≡ xs
swap_pairs-swap_pairs [] = refl
swap_pairs-swap_pairs (x ∷ []) = refl
swap_pairs-swap_pairs (x ∷ y ∷ xs) = ap (λ l. x ∷ y ∷ l) (swap_pairs-swap_pairs xs)

abbrev pub swap : List ℕ → List ℕ → List ℕ
swap key xs = swap_pairs xs

pub swap-IsCipher : IsCipher swap
swap-IsCipher = record {
  keeps = λ key xs. length-swap_pairs xs;
  undoes = λ key xs. swap_pairs-swap_pairs xs;
}

abbrev sum : List ℕ → ℕ
sum [] = 0
sum (x ∷ xs) = x + sum xs

abbrev pub checksum16 : List ℕ → ℕ
checksum16 xs = sum xs % 2 ^ 16

abbrev pub checksum32 : List ℕ → ℕ
checksum32 xs = sum xs % 2 ^ 32

abbrev head_bytes : List ℕ
head_bytes = 1 ∷ 2 ∷ 3 ∷ []

abbrev ddr_bytes : List ℕ
ddr_bytes = replicate 2049 7

abbrev loader_bytes : List ℕ
loader_bytes = 5 ∷ 6 ∷ []

build_idblock-layout_example :
    (block : List ℕ) × (New.build_idblock swap head_bytes ddr_bytes loader_bytes true ≡ ok block)
    × (length block ≡ 8192)
    × (encrypt swap true block
        ≡ area 2048 head_bytes ++ (area 4096 ddr_bytes ++ area 2048 loader_bytes))
build_idblock-layout_example =
    build_idblock-layout swap swap-IsCipher head_bytes ddr_bytes loader_bytes true (omega arith)

build_idblock-IsIdblock_example :
    (block : List ℕ) × (Old.build_idblock swap checksum16 checksum32 ddr_bytes loader_bytes true
      ≡ ok block)
    × IsIdblock (encrypt swap true) checksum16 checksum32 true ddr_bytes loader_bytes block
build_idblock-IsIdblock_example =
    build_idblock-IsIdblock swap swap-IsCipher checksum16 checksum32 (λ xs. omega arith)
      (λ xs. omega arith) ddr_bytes loader_bytes true (omega arith)

zeros : ℕ → List ℕ
zeros n = replicate n 0

length-zeros : (n : ℕ) → length (zeros n) ≡ n
unfolding zeros
length-zeros n = length-replicate n 0

long_loader : List ℕ
long_loader = zeros (2 ^ 25)

length-long_loader : length long_loader ≡ 2 ^ 25
unfolding long_loader
length-long_loader = length-zeros (2 ^ 25)

long_loader-padded : padded ddr_bytes / 512 + padded long_loader / 512 ≡ 65544
long_loader-padded = rw length-long_loader

build_idblock-errors_example :
    Old.build_idblock swap checksum16 checksum32 ddr_bytes long_loader false
    ≡ err (
        if leb (2 ^ 16) (padded ddr_bytes / 512)
        then ddr_too_large
        else if leb (2 ^ 16) (padded long_loader / 512)
        then loader_too_large
        else size_overflow)
build_idblock-errors_example =
    build_idblock-errors swap checksum16 checksum32 ddr_bytes long_loader false
      (omega (arith, long_loader-padded))
