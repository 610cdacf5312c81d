-- ===== src/Vm/Isqrt.antt =====
-- asgn3/vm/vm_pageout.c: isqrt, the integer square root of the laundry's targets.
use free_bsd_messaround.Prelude.{
  ℕ, zero, suc, ◌+◌, ◌-◌, ◌*◌, ◌/◌, ◌^◌, ◌≤◌, ◌<◌, ◌≡◌, refl, subst, inl, inr, true, false, ltb,
  leb, if◌then◌else◌, arith, Bool-cases, ltb→lt, leb→le, Option, none, some,
}

-- while (bit > num) bit >>= 2: it ends within the fuel, or with none.
unfoldable pub highest_bit : ℕ → ℕ → ℕ → Option ℕ
highest_bit zero bit num = none
highest_bit (suc fuel) bit num =
    let rest = highest_bit fuel (bit / 4) num in if ltb num bit then rest else some bit

-- while (bit != 0): num, root and bit.
unfoldable pub root_loop : ℕ → ℕ → ℕ → ℕ → Option ℕ
root_loop zero num root bit = none
root_loop (suc fuel) num root bit =
    let taken = root_loop fuel (num - (root + bit)) (root / 2 + bit) (bit / 4) in
    let passed = root_loop fuel num (root / 2) (bit / 4) in
    if leb bit 0 then some root else if leb (root + bit) num then taken else passed

-- The first bit is 1 << 30 for an u_int of 32 bits; 17 rounds are enough for either loop.
unfoldable pub isqrt : ℕ → Option ℕ
isqrt num = elim (highest_bit 17 (2 ^ 30) num) [ none ↦ none | some bit ↦ root_loop 17 num 0 bit ]

-- The integer square root of n.
pub record IsRoot (n r : ℕ) : Type 0 where
  pub below : r * r ≤ n
  pub above : n < (r + 1) * (r + 1)

abbrev RootOf : ℕ → Option ℕ → Type 0
RootOf n o = (r : ℕ) × (o ≡ some r) × IsRoot n r

le→leb : (a b : ℕ) → a ≤ b → leb a b ≡ true
le→leb a b h = ground arith

lt→leb : (a b : ℕ) → b < a → leb a b ≡ false
lt→leb a b h = ground arith

positive_square : (p : ℕ) → 0 < p → 0 < p * p
positive_square zero h = omega arith
positive_square (suc p) h = omega arith

halve : (r p : ℕ) → (2 * (r * p)) / 2 ≡ r * p
halve r p = omega arith

-- A round at bit p * p, with the bits of the root found so far in R.
module _ (fuel num R p : ℕ) (positive : 0 < p) where
  bit_left : leb (p * p) 0 ≡ false
  bit_left = lt→leb (p * p) 0 (positive_square p positive)

  round_taken :
      2 * (R * p) + p * p ≤ num
      → root_loop (suc fuel) num (2 * (R * p)) (p * p)
        ≡ root_loop fuel (num - (2 * (R * p) + p * p)) (R * p + p * p) (p * p / 4)
  unfolding root_loop
  round_taken h = rw (bit_left, le→leb (2 * (R * p) + p * p) num h, halve R p) refl

  round_passed :
      num < 2 * (R * p) + p * p
      → root_loop (suc fuel) num (2 * (R * p)) (p * p) ≡ root_loop fuel num (R * p) (p * p / 4)
  unfolding root_loop
  round_passed h = rw (bit_left, lt→leb (2 * (R * p) + p * p) num h, halve R p) refl

double : ℕ → ℕ
double zero = 1
double (suc j) = 2 * double j

double_positive : (j : ℕ) → 0 < double j
unfolding double
double_positive zero = omega arith
double_positive (suc j) = omega (arith, double_positive j)

-- What the next round starts from, with h half of p.
next_root : (R h : ℕ) → R * (2 * h) + (2 * h) * (2 * h) ≡ 2 * ((R + 2 * h) * h)
next_root R h = omega arith

next_bit : (h : ℕ) → (2 * h) * (2 * h) / 4 ≡ h * h
next_bit h = omega arith

next_sum :
    (num R p : ℕ)
    → 2 * (R * p) + p * p ≤ num
    → (num - (2 * (R * p) + p * p)) + (R + p) * (R + p) ≡ num + R * R
next_sum num R p h = omega arith

last_round : (fuel num root : ℕ) → root_loop (suc fuel) num root 0 ≡ some root
unfolding root_loop
last_round fuel num root = refl

leb→lt : (a b : ℕ) → leb a b ≡ false → b < a
leb→lt a b h = ground arith

-- The rounds from bit p * p on, where p is 2 ^ j, find the root of num + R * R.
root_loop-RootOf :
    (j fuel num R : ℕ)
    → j < fuel
    → num + R * R < (R + 2 * double j) * (R + 2 * double j)
    → RootOf (num + R * R) (root_loop (suc fuel) num (2 * (R * double j)) (double j * double j))
unfolding double
root_loop-RootOf j zero num R l above = absurd (omega (arith, l))
root_loop-RootOf zero (suc fuel) num R l above = elim (Bool-cases (leb (2 * (R * 1) + 1 * 1) num)) [
  | inl e ↦ rw (round_taken (suc fuel) num R 1 (omega arith) (leb→le _ num e)) (
    R * 1 + 1 * 1,
    last_round fuel _ _,
    record { below = omega (arith, leb→le _ num e); above = omega (arith, above) },
  )
  | inr e ↦ rw (round_passed (suc fuel) num R 1 (omega arith) (leb→lt _ num e)) (
    R * 1,
    last_round fuel _ _,
    record { below = omega arith; above = omega (arith, leb→lt _ num e) },
  )
]
root_loop-RootOf (suc j) (suc fuel) num R l above =
    let h = double j in
    elim (Bool-cases (leb (2 * (R * (2 * h)) + (2 * h) * (2 * h)) num)) [
      | inl e ↦
          rw
            (
              round_taken (suc fuel) num R (2 * h) (double_positive (suc j)) (leb→le _ num e),
              next_root R h,
              next_bit h,
            )
            (taken num R h _ (leb→le _ num e) (
              root_loop-RootOf j fuel (num - (2 * (R * (2 * h)) + (2 * h) * (2 * h))) (R + 2 * h)
                (omega (arith, l)) (taken_above num R h above (leb→le _ num e))))
      | inr e ↦
          rw
            (
              round_passed (suc fuel) num R (2 * h) (double_positive (suc j)) (leb→lt _ num e),
              next_bit h,
              swap R h,
            )
            (root_loop-RootOf j fuel num R (omega (arith, l))
              (passed_above num R h (leb→lt _ num e)))
    ]
  where
    taken :
        (num R h : ℕ) (o : Option ℕ)
        → 2 * (R * (2 * h)) + (2 * h) * (2 * h) ≤ num
        → RootOf ((num - (2 * (R * (2 * h)) + (2 * h) * (2 * h))) + (R + 2 * h) * (R + 2 * h)) o
        → RootOf (num + R * R) o
    taken num R h o l r = subst (λ (n : ℕ). RootOf n o) (next_sum num R (2 * h) l) r

    taken_above :
        (num R h : ℕ)
        → num + R * R < (R + 2 * (2 * h)) * (R + 2 * (2 * h))
        → 2 * (R * (2 * h)) + (2 * h) * (2 * h) ≤ num
        → (num - (2 * (R * (2 * h)) + (2 * h) * (2 * h))) + (R + 2 * h) * (R + 2 * h)
          < ((R + 2 * h) + 2 * h) * ((R + 2 * h) + 2 * h)
    taken_above num R h a l = omega (arith, a, next_sum num R (2 * h) l)

    passed_above :
        (num R h : ℕ)
        → num < 2 * (R * (2 * h)) + (2 * h) * (2 * h)
        → num + R * R < (R + 2 * h) * (R + 2 * h)
    passed_above num R h l = omega (arith, l)

    swap : (R h : ℕ) → R * (2 * h) ≡ 2 * (R * h)
    swap R h = omega arith

-- highest_bit ends, and finds zero for zero and else the highest power of four in num.
data Highest (num : ℕ) (o : Option ℕ) : Type 0 where
  nothing : num ≡ 0 → o ≡ some 0 → Highest num o
  power :
      (j : ℕ)
      → j < 16
      → num < (2 * double j) * (2 * double j)
      → o ≡ some (double j * double j)
      → Highest num o

below_one : (n : ℕ) → ltb n (1 * 1) ≡ true → n ≡ 0
below_one n e = ground arith

highest_bit-Highest :
    (j fuel num : ℕ)
    → j < fuel
    → j < 16
    → num < (2 * double j) * (2 * double j)
    → Highest num (highest_bit (suc fuel) (double j * double j) num)
unfolding double highest_bit
highest_bit-Highest j zero num l b above = absurd (omega (arith, l))
highest_bit-Highest zero (suc fuel) num l b above = elim (Bool-cases (ltb num (1 * 1))) [
  | inl e ↦ nothing (below_one num e) (rw (below_one num e) refl)
  | inr e ↦ rw e (power 0 b above refl)
]
highest_bit-Highest (suc j) (suc fuel) num l b above =
    let h = double j in
    elim (Bool-cases (ltb num ((2 * h) * (2 * h)))) [
      | inl e ↦
          rw (e, next_bit h)
            (highest_bit-Highest j fuel num (omega (arith, l)) (omega (arith, b)) (ltb→lt _ _ e))
      | inr e ↦ rw e (power (suc j) b above refl)
    ]

at_zero :
    (n p : ℕ)
    → RootOf (n + 0 * 0) (root_loop 17 n (2 * (0 * p)) (p * p))
    → RootOf n (root_loop 17 n 0 (p * p))
at_zero n p r =
    let e : n + 0 * 0 ≡ n = omega arith in
    let z : 2 * (0 * p) ≡ 0 = omega arith in
    subst (λ (m : ℕ). RootOf m (root_loop 17 n 0 (p * p))) e
      (subst (λ (m : ℕ). RootOf (n + 0 * 0) (root_loop 17 n m (p * p))) z r)

from-Highest :
    (n : ℕ) (o : Option ℕ)
    → Highest n o
    → RootOf n (elim o [ none ↦ none | some bit ↦ root_loop 17 n 0 bit ])
from-Highest n o (nothing z e) =
    rw (e, z) (0, last_round 16 0 0, record { below = omega arith; above = omega arith })
from-Highest n o (power j l above e) =
    rw e (at_zero n (double j) (root_loop-RootOf j 16 n 0 l (omega (arith, above))))

-- isqrt ends on every number of 32 bits, with the integer square root: the number whose square is
-- not above it while that of the next number is.
pub isqrt-root :
    (n : ℕ) → n < 2 ^ 32 → (r : ℕ) × (isqrt n ≡ some r) × (r * r ≤ n) × (n < (r + 1) * (r + 1))
unfolding isqrt double
isqrt-root n l =
    let (r, e, root) =
      from-Highest n _ (highest_bit-Highest 15 16 n (omega arith) (omega arith) l) in
    (r, e, root.below, root.above)
