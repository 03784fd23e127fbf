-- ===== src/Bus.antt =====
-- What the library uses of its host: a USB device handle (crate rusb), the monotonic clock, the
-- random numbers and the pause of the thread. None of this is code of the repository.
use rkusb.Prelude.{ℕ, List, Action}

-- The values of `rusb::Error` that the program names; `other` stands for those that it passes on.
pub data UsbError : Type 0 where
  timeout : UsbError
  io : UsbError
  not_found : UsbError
  invalid_param : UsbError
  other : ℕ → UsbError

-- Times are whole units, all the same. `read_bulk` takes a buffer and returns the count of bytes
-- received with the buffer as it is afterwards.
pub record Bus : Type 1 where
  pub State : Type 0
  pub now : State → ℕ × State
  pub random_u32 : State → ℕ × State
  pub sleep : ℕ → State → State
  pub write_bulk : ℕ → List ℕ → ℕ → Action State UsbError ℕ
  pub read_bulk : ℕ → List ℕ → ℕ → Action State UsbError (ℕ × List ℕ)
  pub write_control : ℕ → ℕ → ℕ → ℕ → List ℕ → ℕ → Action State UsbError ℕ
