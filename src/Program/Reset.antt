-- ===== src/Program/Reset.antt =====
-- The subcommand that resets a device (src/bin/rktools/subcommands/reset.rs).
use rkusb.Prelude.{ℕ, Option, Action, ◌>>=◌}
use rkusb.Device.Commands.{reset_device}
use rkusb.Program.Errors.{CommandError, command_errors, or_error}
use rkusb.Session.{Host, State, connect, on_bus}

pub record Args : Type 0 where
  pub bus : Option ℕ
  pub addr : Option ℕ
  pub subcode : ℕ
  pub wait : Option ℕ

pub exec : (X : Host) → ℕ → Args → Action (State X) CommandError (Unit {0})
exec X fuel args = do
  (_, rkdev) ← connect X fuel args.bus args.addr args.wait
  on_bus X (or_error CommandError.rk_usb (reset_device X.bus rkdev args.subcode))
