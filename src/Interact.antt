-- ===== src/Interact.antt =====
-- The interactivity scorer and the priority of a timeshare thread, in asgn2/kern/sched_ule.c.
-- u_int arithmetic wraps at 2 ^ 32; the counters of a thread are numbers below that.
pub mod Score
pub mod Decay
pub mod Windows
pub mod Priority
pub mod Tests
use free_bsd_messaround.Prelude.{
  ℕ, suc, ◌+◌, ◌-◌, ◌*◌, ◌/◌, ◌%◌, ◌^◌, ◌≤◌, ◌<◌, min, max, Bool, true, false, ◌&&◌, ltb, leb, ◌==◌,
  if◌then◌else◌, ℤ, pos, negsuc, ◌+ℤ◌, ltb_ℤ,
}

abbrev pub u_int : ℕ → ℕ
u_int n = n % 2 ^ 32

-- Constants of the kernel's headers, and the settings of the scheduler: hz, sched_interact, the
-- timeshare priorities and PRIO_MAX - PRIO_MIN.
pub record Settings : Type 0 where
  pub hz : ℕ
  pub sched_interact : ℕ
  pub min_timeshare : ℕ
  pub max_timeshare : ℕ
  pub pri_nresv : ℕ

abbrev pub interact_max : ℕ
interact_max = 100

abbrev pub interact_half : ℕ
interact_half = interact_max / 2

-- The macros PRI_… and SCHED_… of sched_ule.c.
module _ (k : Settings) where
  abbrev pub timeshare_range : ℕ
  timeshare_range = k.max_timeshare - k.min_timeshare + 1

  abbrev pub interact_range : ℕ
  interact_range = (timeshare_range - k.pri_nresv) / 2

  abbrev pub batch_range : ℕ
  batch_range = timeshare_range - interact_range

  abbrev pub max_interact : ℕ
  max_interact = k.min_timeshare + interact_range - 1

  abbrev pub min_batch : ℕ
  min_batch = k.min_timeshare + interact_range

  abbrev pub pri_nhalf : ℕ
  pri_nhalf = k.pri_nresv / 2

  abbrev pub pri_min : ℕ
  pri_min = min_batch + pri_nhalf

  abbrev pub pri_max : ℕ
  pri_max = k.max_timeshare - pri_nhalf

  abbrev pub pri_range : ℕ
  pri_range = pri_max - pri_min + 1

  abbrev pub slp_run_max : ℕ
  slp_run_max = k.hz * 5 * 2 ^ 10

  abbrev pub slp_run_fork : ℕ
  slp_run_fork = k.hz / 2 * 2 ^ 10

-- The counters of struct td_sched, and the priorities of struct thread that are set from them.
pub record Usage : Type 0 where
  pub runtime : ℕ
  pub slptime : ℕ
  pub ticks : ℕ
  pub ltick : ℕ
  pub ftick : ℕ
  pub nice : ℤ
  pub timeshare : Bool
  pub base_user_pri : ℕ
  pub lend_user_pri : ℕ
  pub user_pri : ℕ

-- A conversion to u_char.
abbrev pub u_char : ℤ → ℕ
u_char (pos n) = n % 256
u_char (negsuc n) = 255 - n % 256

-- imax(0, z).
abbrev imax_zero : ℤ → ℕ
imax_zero (pos n) = n
imax_zero (negsuc n) = 0

roundup : ℕ → ℕ → ℕ
roundup x y = (x + (y - 1)) / y * y

pub sched_user_prio : Usage → ℕ → Usage
sched_user_prio td prio =
    let td' = record td { base_user_pri = prio } in
    if leb td.lend_user_pri prio then td' else record td' { user_pri = prio }

module _ (k : Settings) where
  pub sched_interact_score : Usage → ℕ
  sched_interact_score ts =
      if leb k.sched_interact interact_half && leb ts.slptime ts.runtime
      then interact_half
      else if ltb ts.slptime ts.runtime
      then (let div = max 1 (ts.runtime / interact_half) in
          u_int (interact_half + u_int (interact_half + 2 ^ 32 - ts.slptime / div)))
      else if ltb ts.runtime ts.slptime
      then ts.runtime / max 1 (ts.slptime / interact_half)
      else if ts.runtime == 0
      then 0
      else interact_half

  pub sched_interact_update : Usage → Usage
  sched_interact_update ts =
      let sum = u_int (ts.runtime + ts.slptime) in
      if ltb sum (slp_run_max k)
      then ts
      else if ltb (slp_run_max k * 2) sum
      then if ltb ts.slptime ts.runtime
        then record ts { runtime = slp_run_max k; slptime = 1 }
        else record ts { slptime = slp_run_max k; runtime = 1 }
      else if ltb (slp_run_max k / 5 * 6) sum
      then record ts { runtime = ts.runtime / 2; slptime = ts.slptime / 2 }
      else record ts { runtime = ts.runtime / 5 * 4; slptime = ts.slptime / 5 * 4 }

  -- The sum is stored in an int: from 2^31 on it is negative, and nothing is scaled.
  pub sched_interact_fork : Usage → Usage
  sched_interact_fork ts =
      let sum = u_int (ts.runtime + ts.slptime) in
      let ratio = sum / slp_run_fork k in
      if ltb sum (2 ^ 31) && ltb (slp_run_fork k) sum
      then record ts { runtime = ts.runtime / ratio; slptime = ts.slptime / ratio }
      else ts

  -- SCHED_PRI_TICKS, from SCHED_TICK_HZ and SCHED_TICK_TOTAL.
  pub pri_ticks : Usage → ℕ
  unfolding roundup
  pri_ticks ts =
      ts.ticks
      / 2 ^ 10
      / (roundup (max (u_int (ts.ltick + 2 ^ 32 - ts.ftick)) k.hz) (pri_range k) / pri_range k)

  pub score_of : Usage → ℕ
  unfolding sched_interact_score ◌+ℤ◌
  score_of td = imax_zero (pos (sched_interact_score td) +ℤ td.nice)

  -- The priority that sched_priority computes.
  pub new_priority : Usage → ℤ
  unfolding score_of pri_ticks ◌+ℤ◌
  new_priority td =
      if ltb (score_of td) k.sched_interact
      then pos (
          k.min_timeshare + (max_interact k - k.min_timeshare + 1) / k.sched_interact * score_of td)
      else pos (pri_min k + (if td.ticks == 0 then 0 else min (pri_ticks td) (pri_range k - 1)))
        +ℤ td.nice

  pub sched_priority : Usage → Usage
  unfolding new_priority sched_user_prio
  sched_priority td = if td.timeshare then sched_user_prio td (u_char (new_priority td)) else td
