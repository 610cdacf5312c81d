-- ===== src/Prelude/Products.antt =====
-- Products on the two sides of an order.
use Prim.Native.Nat.{ℕ, ◌+◌, ◌*◌, ◌≤◌}
use mathlib.Core.Path.{◌≡◌}
use native.Mathlib.Omega.{arith}

pub mul_mono : (a b k : ℕ) → a ≤ b → a * k ≤ b * k
mul_mono a b k l = grind arith

pub mul_step : (a b k : ℕ) → a + 1 ≡ b → a * k + k ≡ b * k
mul_step a b k e = rw (← e) (grind arith)
