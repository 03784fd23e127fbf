-- ===== src/Program/Main/Sectors.antt =====
-- What one run of the program leaves on the sectors for the next.
use rkusb.Prelude.{
  ℕ, ◌+◌, ◌*◌, ◌^◌, ◌<◌, ◌≡◌, refl, ap, List, ◌++◌, some, Option, Ensures, ensures, Ensures-bind,
  Ensures-mono, ◌>>=◌, length, arith, Action, replicate, ◌/◌, ◌∙◌,
}
use rkusb.Disk.{Disk, slice, overlay}
use rkusb.Device.{RkDevice}
use rkusb.Device.Lba.{u16_max}
use rkusb.DeviceChoice.{UsbDevice}
use rkusb.Drive.{ready, Link, allowance, allowance-le}
use rkusb.LbaCommand.{ReadArgs, WriteArgs, EraseArgs, Command, read, write, erase, exec}
use rkusb.LbaCommand.Runs.{
  exec-read-slice, exec-write-overlay, exec-erase-blank, slice-overlay_more, slice-overlay_blank,
}
use rkusb.Program.Errors.{CommandError, command_errors, converted-Ensures, or_error}
use rkusb.Program.Lba.{Args, exec_lba}
use rkusb.Program.Main.{Crates, Output, file, lba, handle_command}
use rkusb.Session.{Host, State}
use rkusb.Session.Connects.{IsPlugged, connect-only, on_bus-Ensures}

-- The program, run with a command on sectors.
abbrev pub run_lba :
    (X : Host)
    → Crates X
    → ℕ
    → Option ℕ
    → Option ℕ
    → Option ℕ
    → ℕ
    → Command
    → Action (State X) CommandError Output
run_lba X crates fuel bus addr wait timeout command =
    handle_command X crates fuel
      (lba (record { bus = bus; addr = addr; wait = wait; timeout = timeout; command = command }))

module _ (X : Host) {dev : RkDevice} (L : Link X.bus dev) (H : X.hub.State → Type 0) where
  -- The host is in a state that `H` holds of, and the device is ready with this disk.
  abbrev pub IsIdle : Disk → State X → Type 0
  IsIdle disk w = H w.0 × ((L.phase w.1 ≡ ready) × (L.disk w.1 ≡ disk))

  -- One run on an idle device, from the run of the opened device.
  exec_lba-runs :
      (fuel : ℕ) (args : Args) (device : UsbDevice) (disk disk' : Disk)
      (Q : Option (List ℕ) → Type 0) (w : State X)
      → IsPlugged X args.bus args.addr device dev (IsIdle disk) (IsIdle disk)
      → ((s : X.bus.State)
          → L.phase s ≡ ready
          → L.disk s ≡ disk
          → Ensures
              (λ output s'. Q output × (L.disk s' ≡ disk') × (L.phase s' ≡ ready))
              (exec X.bus dev args.command args.timeout s))
      → IsIdle disk w
      → Ensures (λ output w'. Q output × IsIdle disk' w') (exec_lba X fuel args w)
  unfolding exec_lba
  exec_lba-runs fuel args device disk disk' Q w plugged runs idle =
      Ensures-bind (connect-only X command_errors args.bus args.addr args.wait fuel plugged w idle)
        λ got w1 (_, same, (held, (phase, kept))). rw same (
          on_bus-Ensures X (or_error CommandError.rk_usb (exec X.bus dev args.command args.timeout))
            w1
            (converted-Ensures CommandError.rk_usb (
              Ensures-mono (runs w1.1 phase kept)
                λ output s (q, disk2, phase2). (q, (held, (phase2, disk2))))))

  module _ (crates : Crates X) (fuel : ℕ) (bus addr wait : Option ℕ) (timeout : ℕ)
      (device : UsbDevice)
      (plugged : (d : Disk) → IsPlugged X bus addr device dev (IsIdle d) (IsIdle d))
      (contexts : (d : Disk) (w : State X)
        → IsIdle d w
        → Ensures (λ _ w'. IsIdle d w') (X.new_context w)) where
    run_lba-runs :
        (command : Command) (disk disk' : Disk) (Q : Option (List ℕ) → Type 0) (w : State X)
        → ((s : X.bus.State)
            → L.phase s ≡ ready
            → L.disk s ≡ disk
            → Ensures
                (λ output s'. Q output × (L.disk s' ≡ disk') × (L.phase s' ≡ ready))
                (exec X.bus dev command timeout s))
        → IsIdle disk w
        → Ensures
            (λ output w'.
              ((bytes : Option (List ℕ)) × (output ≡ file bytes) × Q bytes) × IsIdle disk' w')
            (run_lba X crates fuel bus addr wait timeout command w)
    unfolding handle_command
    run_lba-runs command disk disk' Q w runs idle =
        Ensures-bind (converted-Ensures CommandError.rusb (contexts disk w idle)) λ _ w0 idle0.
          Ensures-bind
            (exec_lba-runs fuel
              (record { bus = bus; addr = addr; wait = wait; timeout = timeout; command = command })
              device disk disk' Q w0 (plugged disk) runs idle0)
            λ bytes w1 (q, idle1). ensures ((bytes, refl, q), idle1)

    read-run :
        (r : ReadArgs) (disk : Disk) (w : State X)
        → r.begin_sector + r.sector_count < 2 ^ 32
        → allowance L.step (r.sector_count * 512) < timeout
        → IsIdle disk w
        → Ensures
            (λ output w'.
              (output ≡ file (some (slice disk (r.begin_sector * 512) (r.sector_count * 512))))
              × IsIdle disk w')
            (run_lba X crates fuel bus addr wait timeout (read r) w)
    read-run r disk w hp ht idle =
        Ensures-mono
          (run_lba-runs (read r) disk disk
            (λ bytes. bytes ≡ some (slice disk (r.begin_sector * 512) (r.sector_count * 512))) w
            (λ s phase kept.
              Ensures-mono (exec-read-slice L r timeout s hp ht phase)
                λ got s' (content, disk', phase'). (
                  content
                      ∙ ap (λ d. some (slice d (r.begin_sector * 512) (r.sector_count * 512))) kept,
                  disk' ∙ kept,
                  phase',
                ))
            idle)
          λ output w' ((bytes, printed, content), idle'). (printed ∙ ap file content, idle')

    -- A run of the program that writes a file to sectors, and a later run that reads as many
    -- sectors as hold the file: the output file has the bytes of the file and, behind them, what was
    -- on the disk before (nothing is padded with zeros). Every run searches for the device and opens
    -- it anew. Premises: in every idle state a context can be made and leaves the state idle, and the
    -- host lists one device with the bus and the address, which can be opened and is idle
    -- then; the sectors lie below sector 2^32, the device follows the protocol, and the time limit
    -- is above the allowance for the sectors.
    pub handle_command-write-read :
        (a : WriteArgs) (r : ReadArgs) (k : ℕ) (disk : Disk) (w : State X)
        → r.begin_sector ≡ a.begin_sector
        → length a.input + k ≡ r.sector_count * 512
        → r.begin_sector + r.sector_count < 2 ^ 32
        → allowance L.step (r.sector_count * 512) < timeout
        → IsIdle disk w
        → Ensures
            (λ output w'.
              (output
                ≡ file (some (a.input ++ slice disk (a.begin_sector * 512 + length a.input) k)))
              × IsIdle (overlay disk (a.begin_sector * 512) a.input) w')
            ((run_lba X crates fuel bus addr wait timeout (write a) >>= λ _.
                run_lba X crates fuel bus addr wait timeout (read r))
              w)
    handle_command-write-read a r k disk w hb hk hp ht idle =
        let less = allowance-le L.step (length a.input) (r.sector_count * 512) (omega arith) in
        let disk' = overlay disk (a.begin_sector * 512) a.input in
        Ensures-bind
          (run_lba-runs (write a) disk disk' (λ _. Unit {0}) w
            (λ s phase kept.
              Ensures-mono (exec-write-overlay L a timeout s (omega arith) (omega arith) phase)
                λ _ s' (disk1, phase1).
                  (tt, disk1 ∙ ap (λ d. overlay d (a.begin_sector * 512) a.input) kept, phase1))
            idle)
          λ _ w1 (_, idle1).
            Ensures-mono (read-run r disk' w1 hp ht idle1) λ output w2 (printed, idle2). (
              printed
                  ∙ ap (λ bytes. file (some bytes))
                      (ap (λ b. slice disk' (b * 512) (r.sector_count * 512)) hb
                        ∙ slice-overlay_more disk (a.begin_sector * 512) a.input k
                            (r.sector_count * 512) hk),
              idle2,
            )

    -- A run of the program that erases sectors, and a later run that reads them: the output file has
    -- the blank byte of the device at every place, and no other byte of the disk changes. Premises:
    -- in every idle state a context can be made and leaves the state idle, and the host lists one device with the bus and the address, which can be opened
    -- and is idle then; the sectors lie below sector 2^32, the device follows the protocol, and the
    -- time limit is above the allowance for the sectors, and above the one for their erasure.
    pub handle_command-erase-read :
        (e : EraseArgs) (r : ReadArgs) (disk : Disk) (w : State X)
        → r.begin_sector ≡ e.begin_sector
        → r.sector_count ≡ e.sector_count
        → r.begin_sector + r.sector_count < 2 ^ 32
        → L.step * (9 * (e.sector_count / u16_max) + 10) < timeout
        → allowance L.step (r.sector_count * 512) < timeout
        → IsIdle disk w
        → Ensures
            (λ output w'.
              (output ≡ file (some (replicate (e.sector_count * 512) L.blank)))
              × IsIdle
                  (overlay disk (e.begin_sector * 512) (replicate (e.sector_count * 512) L.blank))
                  w')
            ((run_lba X crates fuel bus addr wait timeout (erase e) >>= λ _.
                run_lba X crates fuel bus addr wait timeout (read r))
              w)
    handle_command-erase-read e r disk w hb hn hp he ht idle =
        let blank = replicate (e.sector_count * 512) L.blank in
        let disk' = overlay disk (e.begin_sector * 512) blank in
        Ensures-bind
          (run_lba-runs (erase e) disk disk' (λ _. Unit {0}) w
            (λ s phase kept.
              Ensures-mono (exec-erase-blank L e timeout s (omega arith) he phase)
                λ _ s' (disk1, phase1).
                  (tt, disk1 ∙ ap (λ d. overlay d (e.begin_sector * 512) blank) kept, phase1))
            idle)
          λ _ w1 (_, idle1).
            Ensures-mono (read-run r disk' w1 hp ht idle1) λ output w2 (printed, idle2). (
              printed
                  ∙ ap (λ bytes. file (some bytes))
                      (ap (λ b. slice disk' (b * 512) (r.sector_count * 512)) hb
                        ∙ ap (λ n. slice disk' (e.begin_sector * 512) (n * 512)) hn
                        ∙ slice-overlay_blank disk (e.begin_sector * 512) (e.sector_count * 512)
                            L.blank),
              idle2,
            )
