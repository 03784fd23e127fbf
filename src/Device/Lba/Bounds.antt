-- ===== src/Device/Lba/Bounds.antt =====
-- Where a transfer that succeeds ends, on any host and device.
use rkusb.Prelude.{
  ℕ, zero, suc, ◌+◌, ◌*◌, ◌-◌, ◌/◌, ◌%◌, ◌^◌, ◌≤◌, ◌<◌, ◌≡◌, refl, List, [], ◌∷◌, ◌++◌, ◌>>=◌, pure,
  Result, ok, err, OnOk, on_ok, on_err, OnOk-bind, OnOk-then, OnOk-mono, Bool-cases, inl, inr, ltb,
  ltb→lt, ◌==◌, min, length, take, drop, length-take, length-drop, chunks, chunks_fuel, arith,
}
use rkusb.Bus.{Bus}
use rkusb.Device.{RkDevice, advance_lba_by_bytes, checked_u32, remaining_timeout, now, lift}
use rkusb.Device.Lba.{
  aligned_len, u16_max, write_chunks, write_tail, write_lba, read_chunks, read_tail, read_lba,
  erase_loop, erase_lba,
}
use rkusb.Device.Raw.{write_lba_raw, read_lba_raw, erase_lba_raw}

-- What holds of any value.
OnOk-after : {S E A P : Type 0} (r : Result E A × S) → P → OnOk (λ _ _. P) r
OnOk-after (ok a, s) p = on_ok p
OnOk-after (err e, s) p = on_err

checked_u32-bounds :
    {S : Type 0} (x : ℕ) (s : S) → OnOk (λ got _. (got ≡ x) × (x < 2 ^ 32)) (lift (checked_u32 x) s)
checked_u32-bounds x s = elim (Bool-cases (ltb x (2 ^ 32))) [
  | inl h ↦ rw h (on_ok (refl, ltb→lt x (2 ^ 32) h))
  | inr h ↦ rw h on_err
]

advance_lba_by_bytes-bounds :
    {S : Type 0} (pos n : ℕ) (s : S)
    → OnOk (λ got _. (got ≡ pos + n / 512) × (got < 2 ^ 32)) (lift (advance_lba_by_bytes pos n) s)
unfolding advance_lba_by_bytes
advance_lba_by_bytes-bounds pos n s = elim (Bool-cases (ltb (n / 512) (2 ^ 32))) [
  | inl h ↦ elim (Bool-cases (ltb (pos + n / 512) (2 ^ 32))) [
    | inl fits ↦ rw (h, fits) (on_ok (refl, ltb→lt (pos + n / 512) (2 ^ 32) fits))
    | inr over ↦ rw (h, over) on_err
  ]
  | inr h ↦ rw h on_err
]

module _ (B : Bus) (dev : RkDevice) (subcode deadline : ℕ) where
  write_chunks-bounds :
      (fuel : ℕ) (xs : List ℕ) (pos : ℕ) (s : B.State)
      → length xs ≤ fuel
      → length xs % 512 ≡ 0
      → pos < 2 ^ 32
      → OnOk
          (λ next _. pos + length xs / 512 < 2 ^ 32)
          (write_chunks B dev (chunks_fuel fuel (128 * 512) xs) pos subcode deadline s)
  unfolding write_chunks chunks_fuel
  write_chunks-bounds zero [] pos s hf hm hp = on_ok (omega arith)
  write_chunks-bounds zero (x ∷ xs) pos s hf hm hp = absurd (omega arith)
  write_chunks-bounds (suc fuel) [] pos s hf hm hp = on_ok (omega arith)
  write_chunks-bounds (suc fuel) (x ∷ xs) pos s hf hm hp =
      let chunk = take (128 * 512) (x ∷ xs) in
      let rest = drop (128 * 512) (x ∷ xs) in
      let size : length chunk ≡ min (128 * 512) (length (x ∷ xs)) =
        length-take (128 * 512) (x ∷ xs) in
      let left : length rest ≡ length (x ∷ xs) - 128 * 512 = length-drop (128 * 512) (x ∷ xs) in
      OnOk-bind (remaining_timeout B deadline s) λ t s1.
        OnOk-bind (write_lba_raw B dev pos chunk subcode t s1) λ _ s2.
          OnOk-then (advance_lba_by_bytes-bounds pos (length chunk) s2) λ next s3 (at, below).
            OnOk-mono (write_chunks-bounds fuel rest next s3 (omega arith) (omega arith) below)
              λ last s4 fits. omega arith

  read_chunks-bounds :
      (fuel : ℕ) (xs : List ℕ) (pos : ℕ) (s : B.State)
      → length xs ≤ fuel
      → length xs % 512 ≡ 0
      → pos < 2 ^ 32
      → OnOk
          (λ got _. pos + length xs / 512 < 2 ^ 32)
          (read_chunks B dev (chunks_fuel fuel (128 * 512) xs) pos subcode deadline s)
  unfolding read_chunks chunks_fuel
  read_chunks-bounds zero [] pos s hf hm hp = on_ok (omega arith)
  read_chunks-bounds zero (x ∷ xs) pos s hf hm hp = absurd (omega arith)
  read_chunks-bounds (suc fuel) [] pos s hf hm hp = on_ok (omega arith)
  read_chunks-bounds (suc fuel) (x ∷ xs) pos s hf hm hp =
      let chunk = take (128 * 512) (x ∷ xs) in
      let rest = drop (128 * 512) (x ∷ xs) in
      let size : length chunk ≡ min (128 * 512) (length (x ∷ xs)) =
        length-take (128 * 512) (x ∷ xs) in
      let left : length rest ≡ length (x ∷ xs) - 128 * 512 = length-drop (128 * 512) (x ∷ xs) in
      OnOk-bind (remaining_timeout B deadline s) λ t s1.
        OnOk-bind (read_lba_raw B dev pos chunk subcode t s1) λ filled s2.
          OnOk-then (advance_lba_by_bytes-bounds pos (length chunk) s2) λ next s3 (at, below).
            OnOk-then (read_chunks-bounds fuel rest next s3 (omega arith) (omega arith) below)
              λ got s4 fits. on_ok (omega arith)

  erase_loop-bounds :
      (fuel pos remaining : ℕ) (s : B.State)
      → remaining ≤ fuel
      → pos < 2 ^ 32
      → OnOk (λ _ _. pos + remaining < 2 ^ 32) (erase_loop B dev fuel pos remaining deadline s)
  unfolding erase_loop
  erase_loop-bounds zero pos remaining s hf hp = on_ok (omega arith)
  erase_loop-bounds (suc fuel) pos remaining s hf hp = elim (Bool-cases (remaining == 0)) [
    | inl none_left ↦ rw none_left (on_ok (ground arith))
    | inr some_left ↦ rw some_left (
        OnOk-bind (remaining_timeout B deadline s) λ t s1.
          OnOk-bind (erase_lba_raw B dev pos (min remaining u16_max % 2 ^ 16) t s1) λ _ s2.
            OnOk-then (checked_u32-bounds (pos + min remaining u16_max) s2) λ next s3 (at, below).
              OnOk-mono
                (erase_loop-bounds fuel next (remaining - min remaining u16_max) s3 (ground arith)
                  (omega arith))
                λ _ s4 fits. omega arith)
  ]

module _ (B : Bus) (dev : RkDevice) where
  aligned-length :
      (xs : List ℕ) → length (take (aligned_len (length xs)) xs) ≡ aligned_len (length xs)
  aligned-length xs = omega (arith, length-take (aligned_len (length xs)) xs)

  module _ (pos timeout : ℕ) (s : B.State) (hp : pos < 2 ^ 32) where
    write_lba-bounds :
        (bytes : List ℕ) (subcode : ℕ)
        → OnOk
            (λ _ _. pos + length bytes / 512 < 2 ^ 32)
            (write_lba B dev pos bytes subcode timeout s)
    unfolding write_lba chunks
    write_lba-bounds bytes subcode = elim (Bool-cases (length bytes == 0)) [
      | inl h ↦ rw h (on_ok (ground arith))
      | inr h ↦
          let aligned = take (aligned_len (length bytes)) bytes in
          let size = aligned-length bytes in
          rw h (
            OnOk-bind (now B s) λ start s1.
              OnOk-then
                (write_chunks-bounds B dev subcode (start + timeout) (length aligned) aligned pos s1
                  (omega arith) (omega arith) hp)
                λ next s2 fits.
                  OnOk-after
                    (write_tail B dev (drop (aligned_len (length bytes)) bytes) next subcode
                      (start + timeout) s2)
                    (omega arith))
    ]

    read_lba-bounds :
        (buf : List ℕ) (subcode : ℕ)
        → OnOk (λ _ _. pos + length buf / 512 < 2 ^ 32) (read_lba B dev pos buf subcode timeout s)
    unfolding read_lba chunks
    read_lba-bounds buf subcode = elim (Bool-cases (length buf == 0)) [
      | inl h ↦ rw h (on_ok (ground arith))
      | inr h ↦
          let aligned = take (aligned_len (length buf)) buf in
          let size = aligned-length buf in
          rw h (
            OnOk-bind (now B s) λ start s1.
              OnOk-then
                {f = λ got.
                  read_tail B dev (drop (aligned_len (length buf)) buf) got.1 subcode
                    (start + timeout)
                  >>= λ tail. pure (got.0 ++ tail)}
                (read_chunks-bounds B dev subcode (start + timeout) (length aligned) aligned pos s1
                  (omega arith) (omega arith) hp)
                λ got s2 fits.
                  OnOk-bind
                    (read_tail B dev (drop (aligned_len (length buf)) buf) got.1 subcode
                      (start + timeout) s2)
                    λ tail s3. on_ok {a = got.0 ++ tail} {s = s3} (omega arith))
    ]

    erase_lba-bounds :
        (count : ℕ) → OnOk (λ _ _. pos + count < 2 ^ 32) (erase_lba B dev pos count timeout s)
    unfolding erase_lba
    erase_lba-bounds count = elim (Bool-cases (count == 0)) [
      | inl h ↦ rw h (on_ok (ground arith))
      | inr h ↦ rw h (
          OnOk-bind (now B s) λ start s1.
            erase_loop-bounds B dev 0 (start + timeout) count pos count s1 (omega arith) hp)
    ]

    -- Whatever the host and the device do, a write, a read or an erasure that succeeds has ended
    -- below sector 2^32: its first sector and the count of its whole sectors add up to less. The
    -- first sector is a number of 32 bits.
    pub lba-bounds :
        (bytes buf : List ℕ) (count subcode : ℕ)
        → OnOk
            (λ _ _. pos + length bytes / 512 < 2 ^ 32)
            (write_lba B dev pos bytes subcode timeout s)
          × OnOk (λ _ _. pos + length buf / 512 < 2 ^ 32) (read_lba B dev pos buf subcode timeout s)
          × OnOk (λ _ _. pos + count < 2 ^ 32) (erase_lba B dev pos count timeout s)
    lba-bounds bytes buf count subcode =
        (write_lba-bounds bytes subcode, read_lba-bounds buf subcode, erase_lba-bounds count)
