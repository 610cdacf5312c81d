-- ===== src/Vm/Bits/Check.antt =====
-- A test of all numbers below a bound.
use free_bsd_messaround.Prelude.{
  ℕ, zero, suc, ◌<◌, ◌≡◌, inl, inr, Bool, true, ◌&&◌, arith, ◌==◌, Bool-cases,
}

unfoldable pub check_below : ℕ → (ℕ → Bool) → Bool
check_below zero p = true
check_below (suc n) p = let rest = check_below n p in p n && rest

pub check_below-true : (n i : ℕ) (p : ℕ → Bool) → check_below n p ≡ true → i < n → p i ≡ true
unfolding check_below
check_below-true zero i p all l = absurd (omega (arith, l))
check_below-true (suc n) i p all l = elim (Bool-cases (i == n)) [
  | inl e ↦ ground (arith, all, e)
  | inr e ↦ check_below-true n i p (ground (arith, all)) (ground (arith, l, e))
]
