-- ===== src/Prelude/Counts.antt =====
-- How many booleans of an array are true.
use Prim.Native.Nat.{ℕ, zero, suc, ◌+◌, ◌≤◌, ◌<◌}
use mathlib.Core.Path.{◌≡◌, refl}
use mathlib.Core.Logic.{inl, inr}
use mathlib.Core.Bool.{Bool}
use native.Mathlib.Omega.{arith}
use free_bsd_messaround.Prelude.Tests.{◌==◌, ==_iff, if◌then◌else◌, Bool-cases}
use free_bsd_messaround.Prelude.Maps.{update}

-- The number of the indices below n at which an array of booleans is true.
unfoldable pub number_of : (ℕ → Bool) → ℕ → ℕ
number_of f zero = 0
number_of f (suc n) = (if f n then 1 else 0) + number_of f n

pub number_of_above :
    (f : ℕ → Bool) (d n : ℕ) (b : Bool) → n ≤ d → number_of (update f d b) n ≡ number_of f n
unfolding number_of
number_of_above f d zero b l = refl
number_of_above f d (suc n) b l = ground (arith, number_of_above f d n b)

pub number_of-update :
    (f : ℕ → Bool) (d n : ℕ) (b : Bool)
    → d < n
    → number_of (update f d b) n + (if f d then 1 else 0) ≡ number_of f n + (if b then 1 else 0)
unfolding number_of
number_of-update f d zero b l = absurd (omega (arith, l))
number_of-update f d (suc n) b l = elim (Bool-cases (d == n)) [
  | inl e ↦ let j : d ≡ n = (==_iff d n).0 e in ground (arith, j, number_of_above f d n b)
  | inr e ↦ ground (arith, number_of-update f d n b)
]

pub number_of_le : (f : ℕ → Bool) (n : ℕ) → number_of f n ≤ n
unfolding number_of
number_of_le f zero = omega arith
number_of_le f (suc n) = ground (arith, number_of_le f n)
