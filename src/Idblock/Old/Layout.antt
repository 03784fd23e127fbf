-- ===== src/Idblock/Old/Layout.antt =====
-- What stands in the old IDBlock, and when there is none.
use rkusb.Prelude.{
  ℕ, ◌+◌, ◌*◌, ◌/◌, ◌^◌, ◌≤◌, ◌<◌, ◌≡◌, ◌∙◌, refl, ap, List, [], ◌∷◌, replicate, ◌++◌, Bool, ok,
  err, length, take, drop, length-append, lt→ltb, leb, if◌then◌else◌, arith,
}
use rkusb.Idblock.{ddr_too_large, loader_too_large, size_overflow, next_multiple_of, area, encrypt}
use rkusb.Idblock.Areas.{
  IsCipher, length-area, length-encrypt, decrypt_front, encrypt-encrypt, take-append_eq,
  drop-append_behind,
}
use rkusb.Idblock.Old.{
  build_idblock, assemble, build_sector_0, build_sector_1, build_sector_2, build_sector_3, flag,
}
use rkusb.Idblock.Old.Sectors.{
  field, bytes_at, sector_0-rest, sector_2-rest, sector_1-bytes, sector_3-bytes, length-sector_0,
  length-sector_1, length-sector_2, length-sector_3, sector_0-fields, sector_2-fields,
}

-- The length of an area in bytes.
abbrev pub padded : List ℕ → ℕ
padded bytes = next_multiple_of (length bytes) 2048

-- Sector `k` of a block as it is stored.
abbrev pub sector : ℕ → List ℕ → List ℕ
sector k block = take 512 (drop (k * 512) block)

-- The layout of an old IDBlock, with `plain` to decrypt a sector. Sector 0 has the tag, the flag, the
-- two boot offsets and the sizes of the two parts, sector 1 its three constants, and sector 2 two marks
-- and the checksums of the others and of the payload as it is stored; every other byte of the
-- four header sectors is 0. The payload decrypts to the padded parts.
pub record IsIdblock (plain : List ℕ → List ℕ) (crc16 rk_crc : List ℕ → ℕ) (enabled : Bool)
    (ddr loader block : List ℕ) : Type 0 where
  pub tag : bytes_at 0 8 (plain (sector 0 block)) ≡ 0x55 ∷ 0xAA ∷ 0xF0 ∷ 0x0F ∷ 0 ∷ 0 ∷ 0 ∷ 0 ∷ []
  pub cipher_flag : field 8 4 (plain (sector 0 block)) ≡ flag enabled
  pub boot_offsets : bytes_at 12 4 (plain (sector 0 block)) ≡ 4 ∷ 0 ∷ 4 ∷ 0 ∷ []
  pub unused_0 : bytes_at 16 484 (plain (sector 0 block)) ≡ replicate 484 0
  pub data_size : field 500 2 (plain (sector 0 block)) * 512 ≡ padded ddr
  pub code_size : field 502 2 (plain (sector 0 block)) * 512 ≡ padded ddr + padded loader
  pub end_0 : bytes_at 504 8 (plain (sector 0 block)) ≡ replicate 8 0
  pub sector_1 :
      sector 1 block
      ≡ 0x0C ∷ 0x00 ∷ 0xFF ∷ 0xFF ∷ 0 ∷ 0 ∷ 0 ∷ 0 ∷ b'R' ∷ b'K' ∷ b'2' ∷ b'8' ∷ replicate 500 0
  pub unused_2 : bytes_at 0 491 (plain (sector 2 block)) ≡ replicate 491 0
  pub vc_mark : bytes_at 491 3 (plain (sector 2 block)) ≡ b'V' ∷ b'C' ∷ 0 ∷ []
  pub crc_0 : field 494 2 (plain (sector 2 block)) ≡ crc16 (plain (sector 0 block))
  pub crc_1 : field 496 2 (plain (sector 2 block)) ≡ crc16 (sector 1 block)
  pub crc_code : field 498 4 (plain (sector 2 block)) ≡ rk_crc (drop 2048 block)
  pub gap_2 : bytes_at 502 2 (plain (sector 2 block)) ≡ 0 ∷ 0 ∷ []
  pub crc_mark : bytes_at 504 4 (plain (sector 2 block)) ≡ b'C' ∷ b'R' ∷ b'C' ∷ 0 ∷ []
  pub crc_3 : field 508 2 (plain (sector 2 block)) ≡ crc16 (plain (sector 3 block))
  pub end_2 : bytes_at 510 2 (plain (sector 2 block)) ≡ 0 ∷ 0 ∷ []
  pub sector_3 : plain (sector 3 block) ≡ replicate 512 0
  pub payload : plain (drop 2048 block) ≡ area (padded ddr) ddr ++ area (padded loader) loader
  pub size : length block ≡ 2048 + padded ddr + padded loader

-- Four sectors and what follows them.
module _ (a b c d p : List ℕ) (ha : length a ≡ 512) (hb : length b ≡ 512) (hc : length c ≡ 512)
    (hd : length d ≡ 512) where
  abbrev pub four : List ℕ
  four = a ++ (b ++ (c ++ (d ++ p)))

  four_sectors :
      (sector 0 four ≡ a)
      × (sector 1 four ≡ b)
      × (sector 2 four ≡ c)
      × (sector 3 four ≡ d)
      × (drop 2048 four ≡ p)
  four_sectors =
      let b1 = drop-append_behind 512 0 512 a (b ++ (c ++ (d ++ p))) ha (omega arith) in
      let b2 =
        drop-append_behind 512 512 1024 a (b ++ (c ++ (d ++ p))) ha (omega arith)
        ∙ drop-append_behind 512 0 512 b (c ++ (d ++ p)) hb (omega arith) in
      let b3 =
        drop-append_behind 512 1024 1536 a (b ++ (c ++ (d ++ p))) ha (omega arith)
        ∙ drop-append_behind 512 512 1024 b (c ++ (d ++ p)) hb (omega arith)
        ∙ drop-append_behind 512 0 512 c (d ++ p) hc (omega arith) in
      let b4 =
        drop-append_behind 512 1536 2048 a (b ++ (c ++ (d ++ p))) ha (omega arith)
        ∙ drop-append_behind 512 1024 1536 b (c ++ (d ++ p)) hb (omega arith)
        ∙ drop-append_behind 512 512 1024 c (d ++ p) hc (omega arith)
        ∙ drop-append_behind 512 0 512 d p hd (omega arith) in
      (
        take-append_eq 512 a _ ha,
        ap (take 512) b1 ∙ take-append_eq 512 b _ hb,
        ap (take 512) b2 ∙ take-append_eq 512 c _ hc,
        ap (take 512) b3 ∙ take-append_eq 512 d _ hd,
        b4,
      )

module _ (rc4 : List ℕ → List ℕ → List ℕ) (cipher : IsCipher rc4) (crc16 rk_crc : List ℕ → ℕ)
    (crc16_lt : (xs : List ℕ) → crc16 xs < 2 ^ 16)
    (rk_crc_lt : (xs : List ℕ) → rk_crc xs < 2 ^ 32) where
  -- A block of plain sectors and a stored payload, in the form that `four_sectors` reads.
  assemble-IsIdblock :
      (enabled : Bool) (ddr loader payload : List ℕ)
      → padded ddr / 512 + padded loader / 512 < 2 ^ 16
      → encrypt rc4 enabled payload ≡ area (padded ddr) ddr ++ area (padded loader) loader
      → length payload ≡ padded ddr + padded loader
      → IsIdblock (encrypt rc4 enabled) crc16 rk_crc enabled ddr loader (
          assemble rc4 crc16 rk_crc enabled
            (padded ddr / 512)
            (padded ddr / 512 + padded loader / 512)
            payload)
  unfolding assemble
  assemble-IsIdblock enabled ddr loader payload fits opened size =
      let n = padded ddr / 512 in
      let m = padded ddr / 512 + padded loader / 512 in
      let enc = encrypt rc4 enabled in
      let s0 = build_sector_0 enabled n m in
      let s1 = build_sector_1 in
      let s3 = build_sector_3 in
      let s2 = build_sector_2 (crc16 s0) (crc16 s1) (rk_crc payload) (crc16 s3) in
      let z0 : length s0 ≡ 512 = length-sector_0 enabled n m in
      let z2 : length s2 ≡ 512 =
        length-sector_2 (crc16 s0) (crc16 s1) (rk_crc payload) (crc16 s3) in
      let l0 : length (enc s0) ≡ 512 = length-encrypt rc4 cipher enabled 1 s0 z0 in
      let l2 : length (enc s2) ≡ 512 = length-encrypt rc4 cipher enabled 1 s2 z2 in
      let l3 : length (enc s3) ≡ 512 = length-encrypt rc4 cipher enabled 1 s3 length-sector_3 in
      let o0 = encrypt-encrypt rc4 cipher enabled 1 s0 z0 in
      let o2 = encrypt-encrypt rc4 cipher enabled 1 s2 z2 in
      let o3 = encrypt-encrypt rc4 cipher enabled 1 s3 length-sector_3 in
      let (at0, at1, at2, at3, at4) =
        four_sectors (enc s0) s1 (enc s2) (enc s3) payload l0 length-sector_1 l2 l3 in
      let (cipher_flag, data_sectors, code_sectors) =
        sector_0-fields enabled n m (omega arith) fits in
      let (tag, boot_offsets, unused_0, end_0) = sector_0-rest enabled n m in
      let (unused_2, vc_mark, gap_2, crc_mark, end_2) =
        sector_2-rest (crc16 s0) (crc16 s1) (rk_crc payload) (crc16 s3) in
      let (crc_0, crc_1, crc_code, crc_3) =
        sector_2-fields (crc16 s0) (crc16 s1) (rk_crc payload) (crc16 s3) (crc16_lt _) (crc16_lt _)
          (rk_crc_lt _) (crc16_lt _) in
      record {
        tag = rw (at0, o0) tag;
        cipher_flag = rw (at0, o0) cipher_flag;
        boot_offsets = rw (at0, o0) boot_offsets;
        unused_0 = rw (at0, o0) unused_0;
        end_0 = rw (at0, o0) end_0;
        sector_1 = at1 ∙ sector_1-bytes;
        unused_2 = rw (at2, o2) unused_2;
        vc_mark = rw (at2, o2) vc_mark;
        gap_2 = rw (at2, o2) gap_2;
        crc_mark = rw (at2, o2) crc_mark;
        end_2 = rw (at2, o2) end_2;
        sector_3 = rw (at3, o3) sector_3-bytes;
        data_size = rw (at0, o0) (ap (λ k. k * 512) data_sectors ∙ omega arith);
        code_size = rw (at0, o0) (ap (λ k. k * 512) code_sectors ∙ omega arith);
        crc_0 = rw (at2, o2, at0, o0) crc_0;
        crc_1 = rw (at2, o2, at1) crc_1;
        crc_code = rw (at2, o2, at4) crc_code;
        crc_3 = rw (at2, o2, at3, o3) crc_3;
        payload = rw at4 opened;
        size = omega (
          arith,
          l0,
          l2,
          l3,
          length-sector_1,
          length-append (enc s0) (s1 ++ (enc s2 ++ (enc s3 ++ payload))),
          length-append s1 (enc s2 ++ (enc s3 ++ payload)),
          length-append (enc s2) (enc s3 ++ payload),
          length-append (enc s3) payload,
        );
      }

  -- If the padded parts together are less than 65536 sectors, `build_idblock` builds a block with
  -- the layout of an old IDBlock, whether or not the cipher is enabled: the tag, the flag, the boot
  -- offsets, the sizes, the constants of sector 1, the two marks and all four checksums stand at their
  -- places, every other byte of the header sectors is 0, and both parts follow, padded.
  -- The cipher undoes itself and keeps the length, and the checksums fit 16 and 32 bits.
  pub build_idblock-IsIdblock :
      (ddr loader : List ℕ) (enabled : Bool)
      → padded ddr / 512 + padded loader / 512 < 2 ^ 16
      → (block : List ℕ) × (build_idblock rc4 crc16 rk_crc ddr loader enabled ≡ ok block)
        × IsIdblock (encrypt rc4 enabled) crc16 rk_crc enabled ddr loader block
  unfolding build_idblock
  build_idblock-IsIdblock ddr loader enabled fits =
      let n = padded ddr / 512 in
      let m = padded loader / 512 in
      let ddr' = area (padded ddr) ddr in
      let loader' = area (padded loader) loader in
      let enc = encrypt rc4 enabled in
      let size1 : length ddr' ≡ n * 512 =
        length-area (padded ddr) ddr (omega arith) ∙ omega arith in
      let size2 : length loader' ≡ m * 512 =
        length-area (padded loader) loader (omega arith) ∙ omega arith in
      let payload = enc ddr' ++ enc loader' in
      rw
        (
          lt→ltb n (2 ^ 16) (omega arith),
          lt→ltb m (2 ^ 16) (omega arith),
          lt→ltb ((4 + n + m) * 512) (2 ^ 64) (omega arith),
          lt→ltb (n + m) (2 ^ 16) fits,
        )
        (
          assemble rc4 crc16 rk_crc enabled n (n + m) payload,
          refl,
          assemble-IsIdblock enabled ddr loader payload fits
              (decrypt_front rc4 cipher enabled n ddr' (enc loader') size1
                ∙ ap (λ l. ddr' ++ l) (encrypt-encrypt rc4 cipher enabled m loader' size2))
              (omega (
                arith,
                length-append (enc ddr') (enc loader'),
                length-encrypt rc4 cipher enabled n ddr' size1,
                length-encrypt rc4 cipher enabled m loader' size2,
              )),
        )

module _ (rc4 : List ℕ → List ℕ → List ℕ) (crc16 rk_crc : List ℕ → ℕ) where
  -- The errors of `build_idblock`: a DDR part of 65536 sectors or more is too large, else such a
  -- loader is, and else two parts that together have so many overflow the size. No block is built
  -- whose sector counts do not fit their fields.
  pub build_idblock-errors :
      (ddr loader : List ℕ) (enabled : Bool)
      → 2 ^ 16 ≤ padded ddr / 512 + padded loader / 512
      → build_idblock rc4 crc16 rk_crc ddr loader enabled
        ≡ err (
            if leb (2 ^ 16) (padded ddr / 512)
            then ddr_too_large
            else if leb (2 ^ 16) (padded loader / 512)
            then loader_too_large
            else size_overflow)
  unfolding build_idblock
  build_idblock-errors ddr loader enabled h = ground arith
