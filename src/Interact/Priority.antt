-- ===== src/Interact/Priority.antt =====
-- The priorities that sched_priority assigns lie in the ranges that its assertions name.
use free_bsd_messaround.Prelude.{
  ℕ, suc, ◌+◌, ◌-◌, ◌*◌, ◌/◌, ◌%◌, ◌≤◌, ◌<◌, ◌≡◌, min, ltb, ltb→lt, refl, ◌==◌, arith,
  if◌then◌else◌, ℤ, pos, negsuc, ◌+ℤ◌, inl, inr, Bool-cases, pos_part, neg_part,
}
use native.Mathlib.Nat.{div-mul-le_self}
use free_bsd_messaround.Interact.{
  Settings, Usage, min_batch, max_interact, pri_min, pri_range, pri_nhalf, score_of, pri_ticks,
  new_priority,
}

-- The timeshare range has room for the nice values and fits a u_char.
pub record IsSound (k : Settings) : Type 0 where
  pub fits : k.max_timeshare < 256
  pub even : k.pri_nresv % 2 ≡ 0
  pub room : k.min_timeshare + k.pri_nresv + 2 ≤ k.max_timeshare
  pub threshold : 0 < k.sched_interact

-- A nice value between PRIO_MIN and PRIO_MAX.
abbrev pub NiceInRange : Settings → ℤ → Type 0
NiceInRange k n = (neg_part n ≤ pri_nhalf k) × (pos_part n ≤ pri_nhalf k)

scaled : (r i s : ℕ) → 0 < r → s < i → r / i * s < r
scaled r i s p h =
    let x = div-mul-le_self r i in
    elim (Bool-cases (r / i == 0)) [
      | inl e ↦ let z : r / i ≡ 0 = ground arith in rw z (omega arith)
      | inr e ↦ let z : 1 ≤ r / i = ground arith in grind arith
    ]

add_nice :
    (a : ℕ) (n : ℤ)
    → neg_part n ≤ a
    → (p : ℕ) × (pos a +ℤ n ≡ pos p) × (p + neg_part n ≡ a + pos_part n)
unfolding ◌+ℤ◌
add_nice a (pos n) h = (a + n, ground arith, omega arith)
add_nice a (negsuc n) h = (a - suc n, ground arith, omega arith)

batch_range_lem :
    (k : Settings) (x : ℕ) (n : ℤ)
    → IsSound k
    → NiceInRange k n
    → x ≤ pri_range k - 1
    → (p : ℕ) × (pos (pri_min k + x) +ℤ n ≡ pos p) × ((min_batch k ≤ p) × (p ≤ k.max_timeshare))
batch_range_lem k x n v r h =
    let (p, e, s) = add_nice (pri_min k + x) n (omega arith) in (p, e, (omega arith, omega arith))

ticks_part : (t z r : ℕ) → (if z == 0 then 0 else min t (r - 1)) ≤ r - 1
ticks_part t z r = ground arith

-- With room for the nice values in a timeshare range below 256, a threshold above 0 and a nice
-- value in its range, the priority is a number p: an interactive one from PRI_MIN_INTERACT to PRI_MAX_INTERACT when the
-- score is below the threshold, and one from PRI_MIN_BATCH to PRI_MAX_BATCH otherwise.
pub new_priority-range :
    (k : Settings) (td : Usage)
    → IsSound k
    → NiceInRange k td.nice
    → (p : ℕ) × (new_priority k td ≡ pos p)
      × (if ltb (score_of k td) k.sched_interact
          then (k.min_timeshare ≤ p) × (p ≤ max_interact k)
          else (min_batch k ≤ p) × (p ≤ k.max_timeshare))
unfolding new_priority
new_priority-range k td v n = elim (Bool-cases (ltb (score_of k td) k.sched_interact)) [
  | inl e ↦
      let l = ltb→lt _ _ e in
      let w =
        scaled (max_interact k - k.min_timeshare + 1) k.sched_interact (score_of k td) (omega arith)
          l in
      rw e (_, refl, (omega arith, omega arith))
  | inr e ↦
      rw e (batch_range_lem k _ td.nice v n (ticks_part (pri_ticks k td) td.ticks (pri_range k)))
]
