-- ===== src/Copy/Writes.antt =====
-- `copy` against a device that follows the protocol.
use rkusb.Prelude.{
  ℕ, zero, suc, ◌+◌, ◌-◌, ◌^◌, ◌≤◌, ◌<◌, ◌≡◌, ◌∙◌, refl, sym, ap, ok, List, [], ◌∷◌, Ensures,
  ensures, Ensures-bind, Ensures-mono, length, take, drop, length-take, length-drop,
  take-append-drop, chunks, chunks_fuel, ne→not_==, min, arith,
}
use rkusb.Bus.{Bus}
use rkusb.Disk.{overlay}
use rkusb.Disk.Laws.{overlay-append, overlay-nil}
use rkusb.Device.{RkDevice}
use rkusb.Drive.{ready, Link, allowance, allowance-le}
use rkusb.Storage.{RkBlockDevice}
use rkusb.Storage.Writes.{write-overlay}
use rkusb.Copy.{write_all, copy_pieces, copy}

-- The device after `n` bytes more.
abbrev pub forward : RkBlockDevice → ℕ → RkBlockDevice
forward d n = record d { pos = d.pos + n }

drop_all : (xs : List ℕ) → drop (length xs) xs ≡ []
drop_all [] = refl
drop_all (x ∷ xs) = drop_all xs

pub forward-forward :
    (d : RkBlockDevice) (m n k : ℕ) → m + n ≡ k → forward (forward d m) n ≡ forward d k
forward-forward d m n k h = ap (λ p. record d { pos = p }) (omega arith)

pub forward-zero : (d : RkBlockDevice) → d ≡ forward d 0
forward-zero d = ap (λ p. record d { pos = p }) (omega arith)

write_all-nil :
    (B : Bus) (dev : RkDevice) (fuel : ℕ) (d : RkBlockDevice) (s : B.State)
    → write_all B dev fuel [] d s ≡ (ok d, s)
unfolding write_all
write_all-nil B dev zero d s = refl
write_all-nil B dev (suc fuel) d s = refl

module _ {B : Bus} {dev : RkDevice} (L : Link B dev) where
  write_all-overlay :
      (buf : List ℕ) (d : RkBlockDevice) (s : B.State)
      → allowance L.step (length buf + 512) < d.timeout
      → d.pos + length buf + 512 < 2 ^ 41
      → L.phase s ≡ ready
      → Ensures
          (λ d' s'.
            (d' ≡ forward d (length buf))
            × (L.disk s' ≡ overlay (L.disk s) d.pos buf)
            × (L.phase s' ≡ ready))
          (write_all B dev (length buf) buf d s)
  unfolding write_all
  write_all-overlay [] d s ht hp hr =
      ensures (forward-zero d, sym (overlay-nil (L.disk s) d.pos), hr)
  write_all-overlay (b ∷ bs) d s ht hp hr =
      let buf = b ∷ bs in
      Ensures-bind (write-overlay L d buf s ht hp hr) λ got s1 (count, moved, disk, phase).
        let whole : drop got.0 buf ≡ [] = ap (λ n. drop n buf) count ∙ drop_all buf in
        rw (ne→not_== got.0 0 (omega arith), whole, write_all-nil B dev (length bs) got.1 s1)
          (ensures (moved, disk, phase))

  copy_pieces-overlay :
      (fuel : ℕ) (bytes : List ℕ) (d : RkBlockDevice) (s : B.State)
      → length bytes ≤ fuel
      → allowance L.step 8704 < d.timeout
      → d.pos + length bytes + 512 < 2 ^ 41
      → L.phase s ≡ ready
      → Ensures
          (λ d' s'.
            (d' ≡ forward d (length bytes))
            × (L.disk s' ≡ overlay (L.disk s) d.pos bytes)
            × (L.phase s' ≡ ready))
          (copy_pieces B dev (chunks_fuel fuel 8192 bytes) d s)
  unfolding copy_pieces chunks_fuel
  copy_pieces-overlay zero [] d s hf ht hp hr =
      ensures (forward-zero d, sym (overlay-nil (L.disk s) d.pos), hr)
  copy_pieces-overlay zero (b ∷ bs) d s hf ht hp hr = absurd (omega arith)
  copy_pieces-overlay (suc fuel) [] d s hf ht hp hr =
      ensures (forward-zero d, sym (overlay-nil (L.disk s) d.pos), hr)
  copy_pieces-overlay (suc fuel) (b ∷ bs) d s hf ht hp hr =
      let bytes = b ∷ bs in
      let piece = take 8192 bytes in
      let rest = drop 8192 bytes in
      let size : length piece ≡ min 8192 (length bytes) = length-take 8192 bytes in
      let left : length rest ≡ length bytes - 8192 = length-drop 8192 bytes in
      Ensures-bind
        (write_all-overlay piece d s
          (omega (arith, allowance-le L.step (length piece + 512) 8704 (omega arith))) (omega arith)
          hr)
        λ d1 s1 (moved1, disk1, phase1).
          let at : d1.pos ≡ d.pos + length piece = ap (λ (e : RkBlockDevice). e.pos) moved1 in
          let limit : d1.timeout ≡ d.timeout = ap (λ (e : RkBlockDevice). e.timeout) moved1 in
          Ensures-mono
            (copy_pieces-overlay fuel rest d1 s1 (omega arith) (rw limit ht) (omega arith) phase1)
            λ d2 s2 (moved2, disk2, phase2). (
              moved2
                  ∙ ap (λ e. forward e (length rest)) moved1
                  ∙ forward-forward d (length piece) (length rest) (length bytes) (omega arith),
              disk2
                  ∙ ap (λ e. overlay e d1.pos rest) disk1
                  ∙ overlay-append (L.disk s) d.pos d1.pos piece rest at
                  ∙ ap (overlay (L.disk s) d.pos) (take-append-drop 8192 bytes),
              phase2,
            )

  -- `copy` succeeds and leaves exactly the bytes on the disk from the device's position on, in
  -- whatever pieces they are written, moves the position behind them, and no other byte of the disk
  -- changes. Premises: the range ends a sector below byte 2^41, the device follows the protocol and
  -- is ready, and its time limit is above the allowance for 8704 bytes.
  pub copy-overlay :
      (bytes : List ℕ) (d : RkBlockDevice) (s : B.State)
      → allowance L.step 8704 < d.timeout
      → d.pos + length bytes + 512 < 2 ^ 41
      → L.phase s ≡ ready
      → Ensures
          (λ d' s'.
            (d' ≡ forward d (length bytes))
            × (L.disk s' ≡ overlay (L.disk s) d.pos bytes)
            × (L.phase s' ≡ ready))
          (copy B dev bytes d s)
  unfolding copy chunks
  copy-overlay bytes d s ht hp hr =
      copy_pieces-overlay (length bytes) bytes d s (omega arith) ht hp hr
