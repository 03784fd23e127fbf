-- ===== src/Device/Commands/Queries.antt =====
-- What the program learns from a device that answers its queries.
use rkusb.Prelude.{
  ℕ, ◌+◌, ◌*◌, ◌^◌, ◌≤◌, ◌<◌, ◌≡◌, ◌⊎◌, ◌∙◌, inl, inr, refl, sym, ap, List, [], ◌∷◌, ◌++◌,
  length-replicate, length-append, append-nil, some, Ensures, ensures, Ensures-bind, Ensures-mono,
  le→leb, length, take, drop, replicate, arith,
}
use rkusb.Prelude.Bytes.{from_le}
use rkusb.Bus.{Bus}
use rkusb.Device.{RkDevice}
use rkusb.Device.Commands.{
  RkFlashInfo, read_flash_info, selected_storage, input_command, read_capability, read_storage_info,
  read_storage,
}
use rkusb.Device.Transaction.Queries.{transaction-query}
use rkusb.Drive.{ready, Link}
use rkusb.Drive.Queries.{Informant}

take-length : (xs ys : List ℕ) → take (length xs) (xs ++ ys) ≡ xs
take-length [] ys = refl
take-length (x ∷ xs) ys = ap (λ l. x ∷ l) (take-length xs ys)

module _ {B : Bus} {dev : RkDevice} (L : Link B dev) (I : Informant L) where
  -- The drive is ready again, with the same disk, after eight calls of the bus at most.
  abbrev pub Asked : B.State → B.State → Type 0
  Asked s s' = (L.phase s' ≡ ready) × (L.disk s' ≡ L.disk s) × (L.clock s' ≤ L.clock s + 8 * L.step)

  input_command-answers :
      (op n size timeout : ℕ) (s : B.State)
      → (op ≡ 0x1A) ⊎ ((op ≡ 0xAA) ⊎ (op ≡ 0x2B))
      → n < 2 ^ 32
      → 0 < n
      → n ≡ length (I.answer op)
      → n ≤ size
      → 7 * L.step < timeout
      → L.phase s ≡ ready
      → Ensures
          (λ got s'. (got.0 ≡ n) × (got.1 ≡ I.answer op ++ drop n (replicate size 0)) × Asked s s')
          (input_command B dev op n size timeout s)
  unfolding input_command
  input_command-answers op n size timeout s hop hn positive hl fits enough idle =
      let s1 = (B.random_u32 s).1 in
      Ensures-mono
        (transaction-query L I (B.random_u32 s).0 op n (replicate size 0) timeout s1 hop
          (L.drive.random-lt s) hn positive hl (omega (arith, length-replicate {A = ℕ} size 0))
          enough (L.drive.random-phase s ∙ idle))
        λ got s2 (count, content, phase, disk, time). (
          count,
          content,
          (phase, disk ∙ L.drive.random-disk s, omega (arith, L.drive.random-clock s)),
        )

  -- The capability is the device's answer of eight bytes.
  pub read_capability-answers :
      (timeout : ℕ) (s : B.State)
      → length (I.answer 0xAA) ≡ 8
      → 7 * L.step < timeout
      → L.phase s ≡ ready
      → Ensures (λ got s'. (got ≡ I.answer 0xAA) × Asked s s') (read_capability B dev timeout s)
  unfolding read_capability
  read_capability-answers timeout s hl enough idle =
      Ensures-bind
        (input_command-answers 0xAA 8 8 timeout s (inr (inl refl)) (omega arith) (omega arith)
          (sym hl) (omega arith) enough idle)
        λ got s1 (count, content, asked). ensures (content ∙ append-nil (I.answer 0xAA), asked)

  -- The storage is the lowest bit of the device's answer of four bytes.
  read_storage-answers :
      (s : B.State)
      → length (I.answer 0x2B) ≡ 4
      → 7 * L.step < 5000
      → L.phase s ≡ ready
      → Ensures
          (λ got s'. (got ≡ selected_storage (from_le (I.answer 0x2B))) × Asked s s')
          (read_storage B dev s)
  unfolding read_storage
  read_storage-answers s hl enough idle =
      Ensures-bind
        (input_command-answers 0x2B 4 4 5000 s (inr (inr refl)) (omega arith) (omega arith) (sym hl)
          (omega arith) enough idle)
        λ got s1 (count, content, asked).
          ensures
            (ap (λ b. selected_storage (from_le b)) (content ∙ append-nil (I.answer 0x2B)), asked)

  -- The flash information is read from the device's answer of eleven bytes.
  pub read_storage_info-answers :
      (info : RkFlashInfo) (s : B.State)
      → length (I.answer 0x1A) ≡ 11
      → read_flash_info (I.answer 0x1A) ≡ some info
      → 7 * L.step < 5000
      → L.phase s ≡ ready
      → Ensures (λ got s'. (got ≡ info) × Asked s s') (read_storage_info B dev s)
  unfolding read_storage_info
  read_storage_info-answers info s hl hi enough idle =
      Ensures-bind
        (input_command-answers 0x1A 11 512 5000 s (inl refl) (omega arith) (omega arith) (sym hl)
          (omega arith) enough idle)
        λ got s1 (count, content, asked).
          let bytes : take got.0 got.1 ≡ I.answer 0x1A =
            ap (λ k. take k got.1) (count ∙ sym hl)
            ∙ ap (take (length (I.answer 0x1A))) content
            ∙ take-length (I.answer 0x1A) (drop 11 (replicate 512 0)) in
          let whole : length got.1 ≡ length (I.answer 0x1A) + 501 =
            ap length content ∙ length-append (I.answer 0x1A) (drop 11 (replicate 512 0)) in
          rw (le→leb got.0 (length got.1) (omega arith), bytes, hi) (ensures (refl, asked))
