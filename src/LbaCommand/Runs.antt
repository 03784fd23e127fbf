-- ===== src/LbaCommand/Runs.antt =====
-- The subcommand on an opened device.
use rkusb.Prelude.{
  ℕ, ◌+◌, ◌*◌, ◌/◌, ◌^◌, ◌<◌, ◌≡◌, ◌∙◌, refl, sym, ap, List, ◌++◌, some, Ensures, ensures,
  Ensures-bind, length, replicate, length-replicate, arith,
}
use rkusb.Bus.{Bus}
use rkusb.Disk.{Disk, slice, overlay}
use rkusb.Disk.Laws.{slice-append, slice-overlay, slice-overlay_behind}
use rkusb.Device.{RkDevice}
use rkusb.Device.Lba.{u16_max}
use rkusb.Device.Lba.Writes.{write_lba-overlay}
use rkusb.Device.Lba.Reads.{read_lba-slice}
use rkusb.Device.Lba.Erases.{erase_lba-overlay}
use rkusb.Drive.{ready, Link, allowance}
use rkusb.LbaCommand.{
  ReadArgs, WriteArgs, EraseArgs, read, write, erase, exec_read, exec_write, exec_erase, exec,
}

-- What was written, and what was behind it.
pub slice-overlay_more :
    (disk : Disk) (a : ℕ) (xs : List ℕ) (k n : ℕ)
    → length xs + k ≡ n
    → slice (overlay disk a xs) a n ≡ xs ++ slice disk (a + length xs) k
slice-overlay_more disk a xs k n h =
    ap (slice (overlay disk a xs) a) (sym h)
    ∙ sym (slice-append (overlay disk a xs) (length xs) k a (a + length xs) refl)
    ∙ ap (λ l. l ++ slice (overlay disk a xs) (a + length xs) k) (slice-overlay disk a xs)
    ∙ ap (λ l. xs ++ l) (slice-overlay_behind disk a (a + length xs) k xs (omega arith))

-- Bytes that were written over and over.
pub slice-overlay_blank :
    (disk : Disk) (a n blank : ℕ)
    → slice (overlay disk a (replicate n blank)) a n ≡ replicate n blank
slice-overlay_blank disk a n blank =
    ap (slice (overlay disk a (replicate n blank)) a) (sym (length-replicate {A = ℕ} n blank))
    ∙ slice-overlay disk a (replicate n blank)

module _ {B : Bus} {dev : RkDevice} (L : Link B dev) where
  pub exec-read-slice :
      (args : ReadArgs) (timeout : ℕ) (s : B.State)
      → args.begin_sector + args.sector_count < 2 ^ 32
      → allowance L.step (args.sector_count * 512) < timeout
      → L.phase s ≡ ready
      → Ensures
          (λ file s'.
            (file ≡ some (slice (L.disk s) (args.begin_sector * 512) (args.sector_count * 512)))
            × (L.disk s' ≡ L.disk s)
            × (L.phase s' ≡ ready))
          (exec B dev (read args) timeout s)
  unfolding exec exec_read
  exec-read-slice args timeout s hp ht idle =
      let size : length (replicate (args.sector_count * 512) 0) ≡ args.sector_count * 512 =
        length-replicate {A = ℕ} (args.sector_count * 512) 0 in
      Ensures-bind
        (read_lba-slice L args.begin_sector (replicate (args.sector_count * 512) 0) args.subcode
          timeout s (omega (arith, size)) (rw size ht) idle)
        λ file s1 (bytes, phase, disk, time).
          ensures
            (ap some (bytes ∙ ap (slice (L.disk s) (args.begin_sector * 512)) size), disk, phase)

  pub exec-write-overlay :
      (args : WriteArgs) (timeout : ℕ) (s : B.State)
      → args.begin_sector + length args.input / 512 < 2 ^ 32
      → allowance L.step (length args.input) < timeout
      → L.phase s ≡ ready
      → Ensures
          (λ _ s'.
            (L.disk s' ≡ overlay (L.disk s) (args.begin_sector * 512) args.input)
            × (L.phase s' ≡ ready))
          (exec B dev (write args) timeout s)
  unfolding exec exec_write
  exec-write-overlay args timeout s hp ht idle =
      Ensures-bind
        (write_lba-overlay L args.begin_sector args.input args.subcode timeout s hp ht idle)
        λ _ s1 (phase, disk, time). ensures (disk, phase)

  pub exec-erase-blank :
      (args : EraseArgs) (timeout : ℕ) (s : B.State)
      → args.begin_sector + args.sector_count < 2 ^ 32
      → L.step * (9 * (args.sector_count / u16_max) + 10) < timeout
      → L.phase s ≡ ready
      → Ensures
          (λ _ s'.
            (L.disk s'
              ≡ overlay
                  (L.disk s)
                  (args.begin_sector * 512)
                  (replicate (args.sector_count * 512) L.blank))
            × (L.phase s' ≡ ready))
          (exec B dev (erase args) timeout s)
  unfolding exec exec_erase
  exec-erase-blank args timeout s hp ht idle =
      Ensures-bind (erase_lba-overlay L args.begin_sector args.sector_count timeout s hp ht idle)
        λ _ s1 (phase, disk, time). ensures (disk, phase)
