-- ===== src/Program/Lba.antt =====
-- The subcommand that reads, writes and erases sectors, from its arguments on (`exec` of
-- src/bin/rktools/subcommands/lba.rs).
use rkusb.Prelude.{ℕ, List, Option, Action, ◌>>=◌}
use rkusb.LbaCommand.{Command, exec}
use rkusb.Program.Errors.{CommandError, command_errors, or_error}
use rkusb.Session.{Host, State, connect, on_bus}

pub record Args : Type 0 where
  pub bus : Option ℕ
  pub addr : Option ℕ
  pub wait : Option ℕ
  pub timeout : ℕ
  pub command : Command

-- The value is the output file of a read.
unfoldable pub exec_lba : (X : Host) → ℕ → Args → Action (State X) CommandError (Option (List ℕ))
exec_lba X fuel args = do
  (_, rkdev) ← connect X fuel args.bus args.addr args.wait
  on_bus X (or_error CommandError.rk_usb (exec X.bus rkdev args.command args.timeout))
