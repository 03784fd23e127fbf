-- ===== src/Prelude/Bytes.antt =====
-- Machine words as byte sequences. A byte is a number below 256.
use Prim.Native.Nat.{ℕ, ◌+◌, ◌*◌, ◌/◌, ◌%◌}
use mathlib.Core.List.{List, [], ◌∷◌}

-- `to_le_bytes` of a word of two and of four bytes.
abbrev pub le_bytes16 : ℕ → List ℕ
le_bytes16 x = (x % 256) ∷ (x / 256 % 256) ∷ []

abbrev pub le_bytes32 : ℕ → List ℕ
le_bytes32 x = (x % 256) ∷ (x / 256 % 256) ∷ (x / 65536 % 256) ∷ (x / 16777216 % 256) ∷ []

-- `from_le_bytes`: the value of a byte sequence, least significant byte first.
unfoldable pub from_le : List ℕ → ℕ
from_le [] = 0
from_le (b ∷ bs) = b + 256 * from_le bs

-- `to_be` on a little-endian host: the bytes of the word in the opposite order.
unfoldable pub to_be16 : ℕ → ℕ
to_be16 x = x / 256 % 256 + 256 * (x % 256)

unfoldable pub to_be32 : ℕ → ℕ
to_be32 x =
    x / 16777216 % 256 + 256 * (x / 65536 % 256) + 65536 * (x / 256 % 256) + 16777216 * (x % 256)
