-- ===== src/DeviceType/Identifiers.antt =====
-- Identifier pairs and device types correspond.
use rkusb.Prelude.{
  ℕ, ◌≡◌, ◌⊎◌, refl, Option, none, some, arith, Bool-cases, inl, inr, if◌then◌else◌,
}
use rkusb.DeviceType.{
  RkDeviceType, is_pair, from_pid_vid, to_pid_vid, rknone, rk27, rkcayman, rk28, rk281x, rkpanda,
  rknano, rksmart, rkcrown, rk29, rk292x, rk30, rk30b, rk31, rk32,
}

-- The representative pair of a type is recognised as that type, for every type that has one.
pub from_pid_vid-to_pid_vid :
    (t : RkDeviceType) (pid vid : ℕ)
    → to_pid_vid t ≡ some (pid, vid)
    → from_pid_vid pid vid ≡ some t
unfolding from_pid_vid to_pid_vid
from_pid_vid-to_pid_vid rknone pid vid h = cc
from_pid_vid-to_pid_vid t pid vid h = ground arith

-- What a recognised pair is, for the type `t`.
abbrev Named : ℕ → ℕ → RkDeviceType → Type 0
Named pid vid t = (to_pid_vid t ≡ some (pid, vid)) ⊎ ((pid ≡ 0x310C) × (vid ≡ 0x2207) × (t ≡ rk31))

module _ (pid vid : ℕ) (t : RkDeviceType) where
  -- One arm of the match: it names a representative, or the arms below decide.
  arm :
      (p v : ℕ) (u : RkDeviceType) (rest : Option RkDeviceType)
      → to_pid_vid u ≡ some (p, v)
      → (rest ≡ some t → Named pid vid t)
      → (if is_pair pid vid p v then some u else rest) ≡ some t
      → Named pid vid t
  arm p v u rest represents below h = elim (Bool-cases (is_pair pid vid p v)) [
    | inl hit ↦ ground arith
    | inr miss ↦ below (rw miss at h)
  ]

  last_arms :
      (if is_pair pid vid 0x310C 0x2207
          then some rk31
          else if is_pair pid vid 0x320A 0x2207
          then some rk32
          else none)
        ≡ some t
      → Named pid vid t
  unfolding to_pid_vid
  last_arms h = ground arith

-- A recognised pair is the representative of its type, but for the second pair of RK31.
pub to_pid_vid-from_pid_vid :
    (pid vid : ℕ) (t : RkDeviceType)
    → from_pid_vid pid vid ≡ some t
    → (to_pid_vid t ≡ some (pid, vid)) ⊎ ((pid ≡ 0x310C) × (vid ≡ 0x2207) × (t ≡ rk31))
unfolding from_pid_vid to_pid_vid
to_pid_vid-from_pid_vid pid vid t = arm pid vid t 0x3201 0x071B rk27 _ refl (
    arm pid vid t 0x3228 0x071B rk28 _ refl (
      arm pid vid t 0x3226 0x071B rknano _ refl (
        arm pid vid t 0x261A 0x2207 rkcrown _ refl (
          arm pid vid t 0x281A 0x2207 rk281x _ refl (
            arm pid vid t 0x273A 0x2207 rkcayman _ refl (
              arm pid vid t 0x290A 0x2207 rk29 _ refl (
                arm pid vid t 0x282B 0x2207 rkpanda _ refl (
                  arm pid vid t 0x262C 0x2207 rksmart _ refl (
                    arm pid vid t 0x292A 0x2207 rk292x _ refl (
                      arm pid vid t 0x300A 0x2207 rk30 _ refl (
                        arm pid vid t 0x300B 0x2207 rk30b _ refl
                          (arm pid vid t 0x310B 0x2207 rk31 _ refl (last_arms pid vid t)))))))))))))
