-- ===== src/DeviceType.antt =====
-- Device types and USB modes (src/lib.rs): which device an identifier pair names, and in which
-- mode the device is.
pub mod Identifiers
pub mod Modes
use rkusb.Prelude.{
  ℕ, ◌/◌, ◌%◌, ◌<◌, Bool, true, false, ◌&&◌, ◌||◌, Option, none, some, ltb, ◌==◌, if◌then◌else◌,
}

pub data RkDeviceType : Type 0 where
  rknone rk27 rkcayman rk28 rk281x rkpanda rknano rksmart rkcrown rk29 rk292x rk30 rk30b rk31 rk32 :
      RkDeviceType

-- The match on a pair: one arm.
abbrev pub is_pair : ℕ → ℕ → ℕ → ℕ → Bool
is_pair pid vid p v = pid == p && vid == v

unfoldable pub from_pid_vid : ℕ → ℕ → Option RkDeviceType
from_pid_vid pid vid =
    if is_pair pid vid 0x3201 0x071B
    then some rk27
    else if is_pair pid vid 0x3228 0x071B
    then some rk28
    else if is_pair pid vid 0x3226 0x071B
    then some rknano
    else if is_pair pid vid 0x261A 0x2207
    then some rkcrown
    else if is_pair pid vid 0x281A 0x2207
    then some rk281x
    else if is_pair pid vid 0x273A 0x2207
    then some rkcayman
    else if is_pair pid vid 0x290A 0x2207
    then some rk29
    else if is_pair pid vid 0x282B 0x2207
    then some rkpanda
    else if is_pair pid vid 0x262C 0x2207
    then some rksmart
    else if is_pair pid vid 0x292A 0x2207
    then some rk292x
    else if is_pair pid vid 0x300A 0x2207
    then some rk30
    else if is_pair pid vid 0x300B 0x2207
    then some rk30b
    else if is_pair pid vid 0x310B 0x2207
    then some rk31
    else if is_pair pid vid 0x310C 0x2207
    then some rk31
    else if is_pair pid vid 0x320A 0x2207
    then some rk32
    else none

unfoldable pub to_pid_vid : RkDeviceType → Option (ℕ × ℕ)
to_pid_vid rknone = none
to_pid_vid rk27 = some (0x3201, 0x071B)
to_pid_vid rk28 = some (0x3228, 0x071B)
to_pid_vid rknano = some (0x3226, 0x071B)
to_pid_vid rkcrown = some (0x261A, 0x2207)
to_pid_vid rk281x = some (0x281A, 0x2207)
to_pid_vid rkcayman = some (0x273A, 0x2207)
to_pid_vid rk29 = some (0x290A, 0x2207)
to_pid_vid rkpanda = some (0x282B, 0x2207)
to_pid_vid rksmart = some (0x262C, 0x2207)
to_pid_vid rk292x = some (0x292A, 0x2207)
to_pid_vid rk30 = some (0x300A, 0x2207)
to_pid_vid rk30b = some (0x300B, 0x2207)
to_pid_vid rk31 = some (0x310B, 0x2207)
to_pid_vid rk32 = some (0x320A, 0x2207)

unfoldable pub is_msc_device : ℕ → ℕ → Bool
is_msc_device pid vid =
    is_pair pid vid 0x3203 0x071B
    || is_pair pid vid 0x3205 0x071B
    || is_pair pid vid 0x2910 0x0BB4
    || is_pair pid vid 0x0000 0x2207
    || is_pair pid vid 0x0010 0x2207

pub data RkUsbType : Type 0 where
  unknown maskrom loader msc : RkUsbType

-- What `detect` reads of a `rusb::DeviceDescriptor`.
pub record DeviceDescriptor : Type 0 where
  pub product_id : ℕ
  pub vendor_id : ℕ
  pub sub_minor : ℕ

abbrev pub is_some {ℓ} : {A : Type ℓ} → Option A → Bool
is_some none = false
is_some (some _) = true

-- `sub_minor & 0x01` is `sub_minor % 2`, and `pid >> 8` is `pid / 256`.
unfoldable pub detect : DeviceDescriptor → Option RkUsbType
detect desc =
    let low_bit = desc.sub_minor % 2 in
    if is_some (from_pid_vid desc.product_id desc.vendor_id)
    then if low_bit == 0 then some maskrom else some loader
    else if desc.vendor_id == 0x2207 && ltb 0 (desc.product_id / 256)
    then if low_bit == 0 then some maskrom else if low_bit == 1 then some loader else some unknown
    else if is_msc_device desc.product_id desc.vendor_id
    then some msc
    else none
