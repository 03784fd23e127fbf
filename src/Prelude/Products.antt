-- ===== src/Prelude/Products.antt =====
-- Products of two variables, which linear arithmetic takes as unknowns.
use Prim.Native.Nat.{ℕ, zero, suc, ◌*◌, ◌≤◌}
use native.Mathlib.Omega.{arith}

pub times-le : (m n k : ℕ) → m ≤ k → m * n ≤ k * n
times-le m zero k h = omega arith
times-le m (suc n) k h = omega (arith, times-le m n k h)

pub le-times : (k m n : ℕ) → m ≤ n → k * m ≤ k * n
le-times zero m n h = omega arith
le-times (suc k) m n h = omega (arith, le-times k m n h)
