-- ===== src/Image/Firmware/Parts.antt =====
-- The parts of a firmware image.
use rkusb.Prelude.{
  ℕ, zero, suc, ◌+◌, ◌^◌, ◌≤◌, ◌<◌, ◌≡◌, ◌∙◌, refl, sym, ap, List, [], ◌∷◌, ◌++◌, true, ok, err,
  ltb, if◌then◌else◌, length, take, drop, length-take, length-drop, take-append-drop, lt→ltb,
  ltb→lt, le→leb, lt→not_leb, not_ltb→le, Bool-cases, inl, inr, arith,
}
use rkusb.Image.{unknown_tag, too_short, fw_out_of_range, md5_out_of_range}
use rkusb.Image.Entries.{get_range-inside, get_range-outside}
use rkusb.Image.Firmware.{FwHeader, RkFwImage, new_fw_image, signature_of}

drop-nil : (m : ℕ) → drop {A = ℕ} m [] ≡ []
drop-nil zero = refl
drop-nil (suc m) = refl

drop-drop : (m n k : ℕ) (xs : List ℕ) → k ≡ m + n → drop m (drop n xs) ≡ drop k xs
drop-drop m zero k xs h = ap (λ j. drop j xs) (omega arith)
drop-drop m (suc n) zero xs h = absurd (omega arith)
drop-drop m (suc n) (suc k) [] h = drop-nil m
drop-drop m (suc n) (suc k) (x ∷ xs) h = drop-drop m n k xs (omega arith)

module _ (H : FwHeader) (bytes : List ℕ) where
  -- An image with the header's tag that reaches 32 bytes behind the end of the firmware is
  -- accepted: what lies before the firmware, the firmware, the MD5 of 32 bytes and the rest are the
  -- whole image, in this order and without gaps, the firmware starts and is as long as the header
  -- says, and the rest is the signature if it has 128 bytes. The image is smaller than 2^64 bytes.
  pub new_fw_image-parts :
      H.size_of ≤ length bytes
      → H.is_tagged bytes ≡ true
      → 32 + (H.fw_size bytes + H.fw_offset bytes) ≤ length bytes
      → length bytes < 2 ^ 64
      → (image : RkFwImage) × (front rest : List ℕ) × (new_fw_image H bytes ≡ ok image)
        × (front ++ (image.fw ++ (image.md5 ++ rest)) ≡ bytes)
        × (length front ≡ H.fw_offset bytes)
        × (length image.fw ≡ H.fw_size bytes)
        × (length image.md5 ≡ 32)
        × (image.sign ≡ signature_of rest)
  unfolding new_fw_image
  new_fw_image-parts hs ht hl hw =
      let o = H.fw_offset bytes in
      let n = H.fw_size bytes in
      let behind = drop o bytes in
      let rest1 = drop (n + o) bytes in
      rw
        (
          get_range-inside bytes o n (omega arith),
          get_range-inside bytes (n + o) 32 hl,
          lt→ltb (n + o) (2 ^ 64) (omega arith),
          lt→ltb (32 + (n + o)) (2 ^ 64) (omega arith),
          ht,
          le→leb H.size_of (length bytes) hs,
        )
        (
          _,
          take o bytes,
          drop (32 + (n + o)) bytes,
          refl,
          ap (λ l. take o bytes ++ (take n behind ++ (take 32 rest1 ++ l)))
                (sym (drop-drop 32 (n + o) (32 + (n + o)) bytes refl))
              ∙ ap (λ l. take o bytes ++ (take n behind ++ l)) (take-append-drop 32 rest1)
              ∙ ap (λ l. take o bytes ++ (take n behind ++ l))
                  (sym (drop-drop n o (n + o) bytes refl))
              ∙ ap (λ l. take o bytes ++ l) (take-append-drop n behind)
              ∙ take-append-drop o bytes,
          length-take o bytes ∙ omega arith,
          length-take n behind ∙ omega (arith, length-drop o bytes),
          length-take 32 rest1 ∙ omega (arith, length-drop (n + o) bytes),
          refl,
        )

  -- The errors, in the order in which they are found: an image shorter than the header, another
  -- tag, a firmware that reaches behind the end of the image, and an MD5 that does.
  -- The end of the firmware is below 2^63, as two 32-bit fields make it.
  pub new_fw_image-errors :
      length bytes < 32 + (H.fw_size bytes + H.fw_offset bytes)
      → H.fw_size bytes + H.fw_offset bytes < 2 ^ 63
      → new_fw_image H bytes
        ≡ err (
            if ltb (length bytes) H.size_of
            then too_short
            else if H.is_tagged bytes
            then if ltb (length bytes) (H.fw_size bytes + H.fw_offset bytes)
              then fw_out_of_range
              else md5_out_of_range
            else unknown_tag)
  unfolding new_fw_image
  new_fw_image-errors h hw =
      let o = H.fw_offset bytes in
      let n = H.fw_size bytes in
      elim (Bool-cases (ltb (length bytes) H.size_of)) [
        | inl short ↦ rw (short, lt→not_leb H.size_of (length bytes) (ltb→lt _ _ short))
        | inr long ↦
            rw (long, le→leb H.size_of (length bytes) (not_ltb→le _ _ long))
              (elim (Bool-cases (H.is_tagged bytes)) [
                | inr other ↦ rw other
                | inl tagged ↦
                    rw (tagged, lt→ltb (n + o) (2 ^ 64) (omega arith))
                      (elim (Bool-cases (ltb (length bytes) (n + o))) [
                        | inl far ↦ rw (far, get_range-outside bytes o (n + o) (ltb→lt _ _ far))
                        | inr near ↦ rw (
                          near,
                          get_range-inside bytes o n (not_ltb→le _ _ near),
                          lt→ltb (32 + (n + o)) (2 ^ 64) (omega arith),
                          get_range-outside bytes (n + o) (32 + (n + o)) h,
                        )
                      ])
              ])
      ]
