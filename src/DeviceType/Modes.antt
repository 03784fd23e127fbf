-- ===== src/DeviceType/Modes.antt =====
-- In which mode `detect` finds a device.
use rkusb.Prelude.{ℕ, ◌%◌, ◌≤◌, ◌≡◌, ◌⊎◌, ◌≢◌, ◌↔◌, refl, Option, none, some, arith, inl, inr}
use rkusb.DeviceType.{
  RkDeviceType, RkUsbType, DeviceDescriptor, unknown, maskrom, loader, msc, from_pid_vid,
  to_pid_vid, is_msc_device, detect,
}
use rkusb.DeviceType.Identifiers.{from_pid_vid-to_pid_vid, to_pid_vid-from_pid_vid}

-- The pairs of Rockchip's boot modes: those that represent a type, and those of the vendor 0x2207
-- with a product id from 0x100 on.
abbrev pub IsRockchip : ℕ → ℕ → Type 0
IsRockchip pid vid =
    ((t : RkDeviceType) × (to_pid_vid t ≡ some (pid, vid))) ⊎ ((vid ≡ 0x2207) × (0x100 ≤ pid))

-- The pairs of mass storage.
abbrev pub IsMassStorage : ℕ → ℕ → Type 0
IsMassStorage pid vid =
    ((pid ≡ 0x3203) × (vid ≡ 0x071B))
    ⊎ (((pid ≡ 0x3205) × (vid ≡ 0x071B))
        ⊎ (((pid ≡ 0x2910) × (vid ≡ 0x0BB4))
            ⊎ (((pid ≡ 0x0000) × (vid ≡ 0x2207)) ⊎ ((pid ≡ 0x0010) × (vid ≡ 0x2207)))))

-- What the first two arms of `detect` ask.
abbrev IsKnown : ℕ → ℕ → Type 0
IsKnown pid vid = (from_pid_vid pid vid ≢ none) ⊎ ((vid ≡ 0x2207) × (0x100 ≤ pid))

IsRockchip-IsKnown : (pid vid : ℕ) → IsRockchip pid vid → IsKnown pid vid
IsRockchip-IsKnown pid vid (inr h) = inr h
IsRockchip-IsKnown pid vid (inl (t, h)) =
    let known = from_pid_vid-to_pid_vid t pid vid h in inl (λ missing. cc (known, missing))

IsKnown-IsRockchip : (pid vid : ℕ) → IsKnown pid vid → IsRockchip pid vid
IsKnown-IsRockchip pid vid (inr h) = inr h
IsKnown-IsRockchip pid vid (inl h) = named (from_pid_vid pid vid) refl
  where
    named : (found : Option RkDeviceType) → from_pid_vid pid vid ≡ found → IsRockchip pid vid
    named none missing = absurd (h missing)
    named (some t) found = elim (to_pid_vid-from_pid_vid pid vid t found) [
      | inl represents ↦ inl (t, represents)
      | inr (hp, hv, _) ↦ inr (hv, omega arith)
    ]

detect_at : ℕ → ℕ → ℕ → Option RkUsbType
detect_at p v m = detect (record { product_id = p; vendor_id = v; sub_minor = m })

detect_at-msc : (p v m : ℕ) → IsMassStorage p v → detect_at p v m ≡ some msc
unfolding detect_at detect is_msc_device from_pid_vid
detect_at-msc p v m (inl (hp, hv)) = rw (hp, hv) refl
detect_at-msc p v m (inr (inl (hp, hv))) = rw (hp, hv) refl
detect_at-msc p v m (inr (inr (inl (hp, hv)))) = rw (hp, hv) refl
detect_at-msc p v m (inr (inr (inr (inl (hp, hv))))) = rw (hp, hv) refl
detect_at-msc p v m (inr (inr (inr (inr (hp, hv))))) = rw (hp, hv) refl

module _ (desc : DeviceDescriptor) where
  detect-maskrom :
      (detect desc ≡ some maskrom)
      ↔ (IsKnown desc.product_id desc.vendor_id × (desc.sub_minor % 2 ≡ 0))
  unfolding detect
  detect-maskrom = (λ h. ground arith, λ h. ground arith)

  detect-loader :
      (detect desc ≡ some loader)
      ↔ (IsKnown desc.product_id desc.vendor_id × (desc.sub_minor % 2 ≡ 1))
  unfolding detect
  detect-loader = (λ h. ground arith, λ h. ground arith)

  detect-ne-unknown : detect desc ≢ some unknown
  unfolding detect
  detect-ne-unknown = ground arith

  detect-msc : (detect desc ≡ some msc) ↔ IsMassStorage desc.product_id desc.vendor_id
  unfolding detect is_msc_device detect_at
  detect-msc =
      (λ h. ground arith, λ h. detect_at-msc desc.product_id desc.vendor_id desc.sub_minor h)

  -- `detect` finds a device in the maskrom mode exactly if its identifiers are of Rockchip's boot
  -- modes and the lowest bit of its minor version is 0, in the loader mode exactly if they are and
  -- the bit is 1, and as mass storage exactly for the five pairs of mass storage; it never answers
  -- `unknown`. Of Rockchip's boot modes are the pairs that `to_pid_vid` gives for a type, and every
  -- product id from 0x100 on of the vendor 0x2207.
  pub detect-modes :
      ((detect desc ≡ some maskrom)
        ↔ (IsRockchip desc.product_id desc.vendor_id × (desc.sub_minor % 2 ≡ 0)))
      × ((detect desc ≡ some loader)
          ↔ (IsRockchip desc.product_id desc.vendor_id × (desc.sub_minor % 2 ≡ 1)))
      × ((detect desc ≡ some msc) ↔ IsMassStorage desc.product_id desc.vendor_id)
      × (detect desc ≢ some unknown)
  detect-modes =
      let to = IsKnown-IsRockchip desc.product_id desc.vendor_id in
      let from = IsRockchip-IsKnown desc.product_id desc.vendor_id in
      (
        (
          λ h. let (known, bit) = detect-maskrom.0 h in (to known, bit),
          λ (pair, bit). detect-maskrom.1 (from pair, bit),
        ),
        (
          λ h. let (known, bit) = detect-loader.0 h in (to known, bit),
          λ (pair, bit). detect-loader.1 (from pair, bit),
        ),
        detect-msc,
        detect-ne-unknown,
      )
