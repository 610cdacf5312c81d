-- ===== src/Sched/Clock.antt =====
-- sched_clock of asgn2/kern/sched_ule.c: a tick of the statistics clock for the thread that runs. The
-- turn that it gives the balancer on the first processor is balance_clock of Smp/Balance.
pub mod Slices
use free_bsd_messaround.Prelude.{
  ℕ, suc, ◌+◌, ◌*◌, Bool, true, false, ◌||◌, ◌&&◌, not, Option, none, some, leb, if◌then◌else◌,
}
use free_bsd_messaround.Interact.{Settings, Usage, u_int, sched_interact_update, sched_priority}
use free_bsd_messaround.Tdq.{Config, Tdq, tdq_slice, rotate}
use free_bsd_messaround.Sched.Ticks.{sched_pctcpu_update}

-- The fields of the running thread: its counters, PRI_FIFO_BIT of its class, whether it is the idle
-- thread, ts_slice, TDF_NEEDRESCHED and TDF_SLICEEND.
pub record Running : Type 0 where
  pub usage : Usage
  pub fifo : Bool
  pub idle : Bool
  pub slice : ℕ
  pub needresched : Bool
  pub sliceend : Bool

module _ (k : Settings) (c : Config) (tickincr : ℕ) where
  -- The charge of a timeshare thread.
  unfoldable pub charge_tick : Usage → Usage
  charge_tick ts =
      if ts.timeshare
      then sched_priority k
          (sched_interact_update k (record ts { runtime = u_int (ts.runtime + tickincr) }))
      else ts

  -- The end of the slice.
  unfoldable pub count_slice : Tdq → Running → Running
  count_slice tdq td =
      if td.idle
      then td
      else if leb (tdq_slice c tdq) (td.slice + 1)
      then record td { slice = 0; needresched = true; sliceend = true }
      else record td { slice = td.slice + 1 }

  unfoldable pub after_update : Tdq → Running → Option Usage → Option (Tdq × Running)
  after_update tdq td none = none
  after_update tdq td (some ts) =
      if td.fifo
      then some (tdq, record td { usage = ts })
      else some (tdq, count_slice tdq (record td { usage = charge_tick ts }))

  -- At the time t; `none` is a division by zero in sched_pctcpu_update.
  unfoldable pub sched_clock : ℕ → Tdq → Running → Option (Tdq × Running)
  sched_clock t tdq td =
      let tdq' = rotate c tdq in after_update tdq' td (sched_pctcpu_update k.hz t td.usage true)
