-- ===== src/Program/Wait.antt =====
-- The subcommand that waits for a device (src/bin/rktools/subcommands/wait.rs).
use rkusb.Prelude.{ℕ, ◌*◌, ◌^◌, ◌-◌, Option, none, some, Action}
use rkusb.DeviceChoice.{UsbDevice}
use rkusb.Program.Errors.{CommandError, command_errors}
use rkusb.Session.{Host, State, select}

-- `Duration::MAX`, in nanoseconds.
abbrev pub duration_max : ℕ
duration_max = 2 ^ 64 * 1_000_000_000 - 1

-- `or(Some(Duration::MAX))`
abbrev pub or_max : Option ℕ → Option ℕ
or_max none = some duration_max
or_max (some t) = some t

pub record Args : Type 0 where
  pub bus : Option ℕ
  pub addr : Option ℕ
  pub timeout : Option ℕ

pub exec : (X : Host) → ℕ → Args → Action (State X) CommandError UsbDevice
exec X fuel args = select X fuel args.bus args.addr (or_max args.timeout)
