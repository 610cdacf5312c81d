-- ===== src/Sched/Life.antt =====
-- sched_fork, sched_fork_thread, sched_exit_thread, sched_sleep and sched_wakeup of
-- asgn2/kern/sched_ule.c: what a thread inherits, gives back and gains by sleeping.
pub mod Forks
use free_bsd_messaround.Prelude.{
  ℕ, ◌+◌, ◌-◌, ◌*◌, ◌^◌, Bool, true, false, ◌&&◌, ◌||◌, not, Option, none, some, ltb, leb, ◌==◌,
  if◌then◌else◌, update, ℤ,
}
use free_bsd_messaround.Interact.{
  Settings, Usage, u_int, sched_interact_update, sched_interact_fork, sched_priority,
}
use free_bsd_messaround.Tdq.{Config, Tdq, tdq_slice}
use free_bsd_messaround.Sched.Ticks.{since, sched_pctcpu_update}
use free_bsd_messaround.Sched.Add.{Host, State, boring, sched_add}
use free_bsd_messaround.Sched.Prio.{sched_prio}

-- The counters that a child takes from its parent.
unfoldable pub inherit : Usage → Usage → Usage
inherit td child = record child {
  ticks = td.ticks;
  ltick = td.ltick;
  ftick = td.ftick;
  slptime = td.slptime;
  runtime = td.runtime;
}

-- The other fields that sched_fork_thread sets: ts_cpu, whether TSF_BOUND or TSF_XFERABLE is set, and
-- td_base_pri and td_priority. td_oncpu, td_lastcpu, td_lock and td_cpuset are left out.
pub record Child : Type 0 where
  pub usage : Usage
  pub ts_cpu : ℕ
  pub bound : Bool
  pub xferable : Bool
  pub base_pri : ℕ
  pub priority : ℕ
  pub slice : ℕ

unfoldable pub sched_fork_thread : Config → Tdq → Usage → ℕ → Child → Child
sched_fork_thread c tdq td ts_cpu child = record child {
  usage = inherit td child.usage;
  ts_cpu = ts_cpu;
  bound = false;
  xferable = false;
  priority = child.base_pri;
  slice = tdq_slice c tdq - c.sched_slice_min;
}

module _ (k : Settings) (c : Config) (tickincr : ℕ) where
  -- The end of sched_fork, for the child and for the parent.
  unfoldable pub penalize_child : Child → Child
  penalize_child child = record child {
    usage = sched_priority k (sched_interact_fork k child.usage);
  }

  -- ts_runtime += n, and what follows from it.
  unfoldable pub penalize : ℕ → Usage → Usage
  penalize n td =
      sched_priority k (sched_interact_update k (record td { runtime = u_int (td.runtime + n) }))

  abbrev pub then_fork : Tdq → ℕ → Child → Option Usage → Option (Usage × Child)
  then_fork tdq ts_cpu child none = none
  then_fork tdq ts_cpu child (some td) =
      some (penalize tickincr td, penalize_child (sched_fork_thread c tdq td ts_cpu child))

  -- At the time t; `none` is a division by zero in sched_pctcpu_update.
  unfoldable pub sched_fork : ℕ → Tdq → Usage → ℕ → Child → Option (Usage × Child)
  sched_fork t tdq td ts_cpu child = then_fork tdq ts_cpu child (sched_pctcpu_update k.hz t td true)

  -- The parent, and the child that ends.
  unfoldable pub sched_exit_thread : Usage → Usage → Usage
  sched_exit_thread td child = penalize child.runtime td

-- td_slptick, ts_slice and TDF_CANSWAP of the threads.
pub record Sleepers : Type 0 where
  pub state : State
  pub slptick : ℕ → ℕ
  pub slice : ℕ → ℕ
  pub canswap : ℕ → Bool

abbrev pub with_state : Sleepers → Option State → Option Sleepers
with_state s none = none
with_state s (some state) = some (record s { state = state })

module _ (h : Host) where
  -- `suspended` is TD_IS_SUSPENDED.
  unfoldable pub sched_sleep : ℕ → ℕ → Sleepers → ℕ → Bool → ℕ → Option Sleepers
  sched_sleep psock static_boost s td suspended prio =
      let s1 = record s { slptick = update s.slptick td h.ticks } in
      let s2 =
        if suspended || leb psock prio
        then record s1 { canswap = update s1.canswap td true }
        else s1 in
      if not (s.state.usage td).timeshare
      then some s2
      else if static_boost == 1 && not (prio == 0)
      then with_state s2 (sched_prio h s.state td prio)
      else if not (static_boost == 0) && ltb static_boost (s.state.sys.threads td).priority
      then with_state s2 (sched_prio h s.state td static_boost)
      else some s2

  -- The time slept, and the update of the window.
  unfoldable pub slept : ℕ → Usage → Option Usage
  slept slptick td =
      sched_pctcpu_update h.settings.hz h.ticks
        (sched_interact_update h.settings
          (record td { slptime = u_int (td.slptime + since h.ticks slptick * 2 ^ 10) }))
        false

  abbrev pub with_usage : State → ℕ → Option Usage → Option State
  with_usage s td none = none
  with_usage s td (some u) = some (record s { usage = update s.usage td u })

  abbrev pub then_wake : ℕ → Sleepers → Option State → Option Sleepers
  then_wake td s none = none
  then_wake td s (some state) =
      with_state (record s { slice = update s.slice td 0 })
        (sched_add h state td (boring h) false false)

  unfoldable pub sched_wakeup : Sleepers → ℕ → Option Sleepers
  sched_wakeup s td =
      let slptick = s.slptick td in
      let s1 = record s { canswap = update s.canswap td false; slptick = update s.slptick td 0 } in
      then_wake td s1 (
        if not (slptick == 0) && not (slptick == h.ticks)
        then with_usage s.state td (slept slptick (s.state.usage td))
        else some s.state)
