-- ===== src/Idblock/Rkns.antt =====
-- The header of an image with the `RKNS` tag (`RkNsImage` of src/idblock/new.rs): a header has 2048
-- bytes, and its boot flags are the little-endian number behind the first 12.
use rkusb.Prelude.{
  ℕ, ◌%◌, List, Option, none, some, Result, ok, err, ltb, ◌==◌, if◌then◌else◌, length, take, drop,
}
use rkusb.Prelude.Bytes.{from_le}

abbrev pub rkns_tag : ℕ
rkns_tag = 0x534E_4B52

abbrev pub size_of_rkns_header : ℕ
size_of_rkns_header = 2048

pub data RkNsHashType : Type 0 where
  none_hash sha_256 sha_512 : RkNsHashType
  unknown : ℕ → RkNsHashType

pub data RkNsParseError : Type 0 where
  too_short : ℕ → ℕ → RkNsParseError
  invalid_magic : ℕ → RkNsParseError

-- The image is the list of its bytes.
pub new_rkns_image : List ℕ → Result RkNsParseError (List ℕ)
new_rkns_image bytes =
    if ltb (length bytes) size_of_rkns_header
    then err (too_short size_of_rkns_header (length bytes))
    else ok bytes

abbrev pub boot_flag : List ℕ → ℕ
boot_flag bytes = from_le (take 4 (drop 12 bytes))

-- `& 0b111` is `% 8`.
unfoldable pub hash_type : List ℕ → Option RkNsHashType
hash_type bytes =
    let flag = boot_flag bytes % 8 in
    if flag == 0
    then none
    else if flag == 1
    then some sha_256
    else if flag == 2
    then some sha_512
    else some (unknown flag)
