-- ===== src/Interact/Decay.antt =====
-- sched_interact_update and sched_interact_fork bring the recorded history back into its limits.
use free_bsd_messaround.Prelude.{
  ℕ, ◌+◌, ◌*◌, ◌/◌, ◌^◌, ◌≤◌, ◌<◌, ◌≡◌, ltb, lt→ltb, arith, if◌then◌else◌, inl, inr, Bool-cases,
}
use native.Mathlib.Nat.{div-mul-le_self, lt-mul-div-succ}
use free_bsd_messaround.Interact.{
  Settings, Usage, u_int, slp_run_max, slp_run_fork, sched_interact_update, sched_interact_fork,
}

-- While the counters do not wrap, a history of at most twice the limit SCHED_SLP_RUN_MAX is at most
-- the limit after sched_interact_update, and any longer one is at most one tick above it.
pub sched_interact_update-bound :
    (k : Settings) (ts : Usage)
    → ts.runtime + ts.slptime < 2 ^ 32
    → let ts' = sched_interact_update k ts in
      ts'.runtime + ts'.slptime
      ≤ slp_run_max k + (if ltb (slp_run_max k * 2) (ts.runtime + ts.slptime) then 1 else 0)
unfolding sched_interact_update
sched_interact_update-bound k ts h = ground arith

le_of_one : (s f : ℕ) → 0 < f → f < s → 1 ≤ s / f
le_of_one s f p h = elim (Bool-cases (ltb 0 (s / f))) [
  | inl e ↦ ground arith
  | inr e ↦
      let z : s / f ≡ 0 = ground arith in
      let up = lt-mul-div-succ s p in let up' : s < f * (0 + 1) = rw z at up in absurd (omega arith)
]

lt_of_mul-lt : (q t r : ℕ) → q * r < t * r → q < t
lt_of_mul-lt q t r h = elim (Bool-cases (ltb q t)) [
  | inl e ↦ ground arith
  | inr e ↦ let le : t ≤ q = ground arith in absurd (grind arith)
]

share : (a b r f : ℕ) → a + b < f * 2 * r → a / r + b / r < f * 2
share a b r f h =
    let x = div-mul-le_self a r in
    let y = div-mul-le_self b r in lt_of_mul-lt (a / r + b / r) (f * 2) r (omega arith)

-- The sum divided by the limit leaves a ratio that brings the sum under twice the limit.
ratio_lem : (s f : ℕ) → 0 < f → f < s → s < f * 2 * (s / f)
ratio_lem s f p h =
    let up = lt-mul-div-succ s p in let one : 1 ≤ s / f = le_of_one s f p h in grind arith

-- While the sum of the counters fits an int and hz is at least 2, a forked thread inherits a history shorter
-- than twice SCHED_SLP_RUN_FORK.
pub sched_interact_fork-bound :
    (k : Settings) (ts : Usage)
    → 2 ≤ k.hz
    → ts.runtime + ts.slptime < 2 ^ 31
    → let ts' = sched_interact_fork k ts in ts'.runtime + ts'.slptime < slp_run_fork k * 2
unfolding sched_interact_fork
sched_interact_fork-bound k ts h l =
    let sum : ℕ = ts.runtime + ts.slptime in
    let f : ℕ = slp_run_fork k in
    let e : u_int sum ≡ sum = omega arith in
    elim (Bool-cases (ltb f sum)) [
      | inl t ↦
          rw (e, lt→ltb sum (2 ^ 31) l, t)
            (share ts.runtime ts.slptime (sum / f) f (ratio_lem sum f (omega arith) (ground arith)))
      | inr t ↦ rw (e, lt→ltb sum (2 ^ 31) l, t) (ground arith)
    ]
