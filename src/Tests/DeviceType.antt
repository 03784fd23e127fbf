-- ===== src/Tests/DeviceType.antt =====
-- Identifier pairs and modes.
use rkusb.Prelude.{ℕ, ◌↔◌, ◌≢◌, ◌%◌, ◌≡◌, ◌⊎◌, refl, some}
use rkusb.DeviceType.{
  DeviceDescriptor, rk31, rkcrown, unknown, maskrom, loader, msc, from_pid_vid, to_pid_vid, detect,
}
use rkusb.DeviceType.Identifiers.{from_pid_vid-to_pid_vid, to_pid_vid-from_pid_vid}
use rkusb.DeviceType.Modes.{IsRockchip, IsMassStorage, detect-modes}

rkcrown_pair : to_pid_vid rkcrown ≡ some (0x261A, 0x2207)
unfolding to_pid_vid
rkcrown_pair = refl

second_rk31 : from_pid_vid 0x310C 0x2207 ≡ some rk31
unfolding from_pid_vid
second_rk31 = refl

from_pid_vid-to_pid_vid_example : from_pid_vid 0x261A 0x2207 ≡ some rkcrown
from_pid_vid-to_pid_vid_example = from_pid_vid-to_pid_vid rkcrown 0x261A 0x2207 rkcrown_pair

abbrev second_pid : ℕ
second_pid = 0x310C

abbrev vendor : ℕ
vendor = 0x2207

to_pid_vid-from_pid_vid_example :
    (to_pid_vid rk31 ≡ some (second_pid, vendor))
    ⊎ ((second_pid ≡ 0x310C) × (vendor ≡ 0x2207) × (rk31 ≡ rk31))
to_pid_vid-from_pid_vid_example = to_pid_vid-from_pid_vid second_pid vendor rk31 second_rk31

-- An RK3588 in the maskrom mode, which the table does not have.
abbrev rk3588 : DeviceDescriptor
rk3588 = record { product_id = 0x350B; vendor_id = 0x2207; sub_minor = 0x00 }

detect-modes_example :
    ((detect rk3588 ≡ some maskrom) ↔ (IsRockchip 0x350B 0x2207 × (0 % 2 ≡ 0)))
    × ((detect rk3588 ≡ some loader) ↔ (IsRockchip 0x350B 0x2207 × (0 % 2 ≡ 1)))
    × ((detect rk3588 ≡ some msc) ↔ IsMassStorage 0x350B 0x2207)
    × (detect rk3588 ≢ some unknown)
detect-modes_example = detect-modes rk3588
