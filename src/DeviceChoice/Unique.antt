-- ===== src/DeviceChoice/Unique.antt =====
-- When a device is chosen.
use rkusb.Prelude.{
  ℕ, ◌≡◌, refl, ap, List, [], ◌∷◌, ◌++◌, true, false, Option, none, ok, err, Bool-cases, inl, inr,
}
use rkusb.DeviceChoice.{
  Hub, UsbDevice, several_found, selection, multiple_devices_found, is_device_matching, candidates,
  choose, find_device,
}

module _ (bus addr : Option ℕ) where
  -- None of the devices matches.
  abbrev pub Unmatched : List UsbDevice → Type 0
  Unmatched [] = Unit {0}
  Unmatched (dev ∷ devices) = (is_device_matching dev bus addr none ≡ false) × Unmatched devices

  candidates-append :
      (xs ys : List UsbDevice)
      → candidates (xs ++ ys) bus addr ≡ candidates xs bus addr ++ candidates ys bus addr
  unfolding candidates
  candidates-append [] ys = refl
  candidates-append (x ∷ xs) ys = elim (Bool-cases (is_device_matching x bus addr none)) [
    | inl hit ↦ rw hit (ap (λ l. x ∷ l) (candidates-append xs ys))
    | inr miss ↦ rw miss (candidates-append xs ys)
  ]

  candidates-Unmatched : (xs : List UsbDevice) → Unmatched xs → candidates xs bus addr ≡ []
  unfolding candidates
  candidates-Unmatched [] h = refl
  candidates-Unmatched (x ∷ xs) (miss, rest) = rw miss (candidates-Unmatched xs rest)

  candidates-hit :
      (x : UsbDevice) (xs : List UsbDevice)
      → is_device_matching x bus addr none ≡ true
      → candidates (x ∷ xs) bus addr ≡ x ∷ candidates xs bus addr
  unfolding candidates
  candidates-hit x xs hit = rw hit

  -- A device that matches is chosen at once if no other device does, wherever it stands among the
  -- devices, and whether or not there is a time limit.
  pub find_device-only :
      (H : Hub) (fuel : ℕ) (before : List UsbDevice) (dev : UsbDevice) (after : List UsbDevice)
      (limit : Option ℕ) (s s' : H.State)
      → H.devices s ≡ (ok (before ++ (dev ∷ after)), s')
      → is_device_matching dev bus addr none ≡ true
      → Unmatched before
      → Unmatched after
      → find_device H fuel bus addr limit s ≡ (ok dev, s')
  unfolding find_device choose
  find_device-only H fuel before dev after limit s s' hd hit h1 h2 = rw (
    hd,
    candidates-append before (dev ∷ after),
    candidates-Unmatched before h1,
    candidates-hit dev after hit,
    candidates-Unmatched after h2,
  )

  choose-many :
      (xs ys zs : List UsbDevice) (a b : UsbDevice)
      → choose (xs ++ (a ∷ (ys ++ (b ∷ zs)))) ≡ several_found
  unfolding choose
  choose-many [] [] zs a b = refl
  choose-many [] (y ∷ ys) zs a b = refl
  choose-many (x ∷ []) ys zs a b = refl
  choose-many (x ∷ x' ∷ xs) ys zs a b = refl

  -- If two devices match, none is chosen, and `find_device` fails at once.
  find_device-two :
      (H : Hub) (fuel : ℕ) (before between after : List UsbDevice) (a b : UsbDevice)
      (limit : Option ℕ) (s s' : H.State)
      → H.devices s ≡ (ok (before ++ (a ∷ (between ++ (b ∷ after)))), s')
      → is_device_matching a bus addr none ≡ true
      → is_device_matching b bus addr none ≡ true
      → find_device H fuel bus addr limit s ≡ (err (selection multiple_devices_found), s')
  unfolding find_device
  find_device-two H fuel before between after a b limit s s' hd hit_a hit_b =
      rw
        (
          hd,
          candidates-append before (a ∷ (between ++ (b ∷ after))),
          candidates-hit a (between ++ (b ∷ after)) hit_a,
          candidates-append between (b ∷ after),
          candidates-hit b after hit_b,
          choose-many (candidates before bus addr) (candidates between bus addr)
              (candidates after bus addr) a b,
        )
        refl
