-- ===== src/Sched/Prio.antt =====
-- The priorities that are set and lent in asgn2/kern/sched_ule.c: sched_thread_priority,
-- sched_lend_prio, sched_unlend_prio, sched_prio, sched_lend_user_prio, sched_nice and sched_userret.
pub mod Lower
pub mod Lend
use free_bsd_messaround.Prelude.{
  ℕ, Bool, true, false, ◌&&◌, not, Option, none, some, List, [], ◌∷◌, min, ltb, leb, ◌==◌,
  if◌then◌else◌, update, ℤ,
}
use free_bsd_messaround.Runq.{Thread, Store}
use free_bsd_messaround.Interact.{Settings, Usage, sched_priority}
use free_bsd_messaround.Tdq.{Config, Flags, Tdq}
use free_bsd_messaround.Smp.Move.{System, Board, sched_rem, tdq_setlowpri}
use free_bsd_messaround.Sched.Add.{Host, State, curthread, self, sched_add, reprioritize}

abbrev pub with_sys : State → Option System → Option State
with_sys s none = none
with_sys s (some sys) = some (record s { sys = sys })

unfoldable pub set_priority : System → ℕ → ℕ → System
set_priority s td prio = record s {
  threads = update s.threads td (record (s.threads td) { priority = prio });
}

module _ (h : Host) where
  -- A thread that runs: the lowest priority of its processor goes with it.
  unfoldable pub running_priority : State → ℕ → ℕ → Option State
  running_priority s td prio =
      let cpu = s.sys.ts_cpu td in
      let sys = set_priority s.sys td prio in
      let lowpri = (sys.tdq_cpu cpu).lowpri in
      with_sys s (
        if ltb prio lowpri
        then some (record sys {
          tdq_cpu = update sys.tdq_cpu cpu (record (sys.tdq_cpu cpu) { lowpri = prio });
        })
        else if lowpri == (s.sys.threads td).priority
        then tdq_setlowpri h.board sys cpu td
        else some sys)

  abbrev pub then_borrow : ℕ → ℕ → State → Option System → Option State
  then_borrow td prio s none = none
  then_borrow td prio s (some sys) =
      sched_add h (record s { sys = set_priority sys td prio }) td
        (record { borrowing = true; preempted = false }) false false

  -- `none` is a fault in the lottery, or a processor not found.
  unfoldable pub sched_thread_priority : State → ℕ → ℕ → Option State
  sched_thread_priority s td prio =
      let t = s.sys.threads td in
      if t.priority == prio
      then some s
      else if t.runnable && ltb prio t.priority
      then then_borrow td prio s (sched_rem h.board s.sys td)
      else if s.running td
      then running_priority s td prio
      else some (record s { sys = set_priority s.sys td prio })

  unfoldable pub sched_lend_prio : State → ℕ → ℕ → Option State
  sched_lend_prio s td prio =
      sched_thread_priority (record s { borrowing = update s.borrowing td true }) td prio

  -- The priority that the thread has by itself.
  unfoldable pub own_pri : State → ℕ → ℕ
  own_pri s td =
      if leb h.settings.min_timeshare (s.base_pri td)
        && leb (s.base_pri td) h.settings.max_timeshare
      then (s.usage td).user_pri
      else s.base_pri td

  unfoldable pub sched_unlend_prio : State → ℕ → ℕ → Option State
  sched_unlend_prio s td prio =
      if leb (own_pri s td) prio
      then sched_thread_priority (record s { borrowing = update s.borrowing td false }) td
          (own_pri s td)
      else sched_lend_prio s td prio

  abbrev pub adjust : ℕ → ℕ → ℕ → Option State → Option State
  adjust td oldprio prio none = none
  adjust td oldprio prio (some s) = some (
      if s.on_lock td && not (oldprio == prio)
      then record s { adjusted = (td, oldprio) ∷ s.adjusted }
      else s)

  unfoldable pub sched_prio : State → ℕ → ℕ → Option State
  sched_prio s td prio =
      let s' = record s { base_pri = update s.base_pri td prio } in
      let oldprio = (s.sys.threads td).priority in
      if s.borrowing td && ltb oldprio prio
      then some s'
      else adjust td oldprio prio (sched_thread_priority s' td prio)

  unfoldable pub sched_lend_user_prio : State → ℕ → ℕ → Option State
  sched_lend_user_prio s td prio =
      let user_pri = min prio (s.usage td).base_user_pri in
      let s' = record s {
        usage =
            update s.usage td (record (s.usage td) { lend_user_pri = prio; user_pri = user_pri });
      } in
      if ltb user_pri (s.sys.threads td).priority
      then sched_prio s' td user_pri
      else if not ((s.sys.threads td).priority == user_pri)
      then some (record s' { needresched = update s'.needresched td true })
      else some s'

  abbrev pub then_nice : (State → Option State) → Option State → Option State
  then_nice next none = none
  then_nice next (some s) = next s

  -- p_nice, which the counters and the run queues read of each thread of the process.
  unfoldable pub set_nice : List ℕ → ℤ → State → State
  set_nice [] nice s = s
  set_nice (td ∷ tds) nice s = set_nice tds nice (record s {
    usage = update s.usage td (record (s.usage td) { nice = nice });
    sys = record s.sys {
      threads = update s.sys.threads td (record (s.sys.threads td) { nice = nice });
    };
  })

  unfoldable pub each_nice : List ℕ → State → Option State
  each_nice [] s = some s
  each_nice (td ∷ tds) s =
      let s' = reprioritize h s td in
      then_nice (each_nice tds) (sched_prio s' td (s'.usage td).base_user_pri)

  unfoldable pub sched_nice : List ℕ → ℤ → State → Option State
  sched_nice tds nice s = each_nice tds (set_nice tds nice s)

  -- `none` is also the failed assertion.
  unfoldable pub sched_userret : State → ℕ → Option State
  sched_userret s td =
      let user_pri = (s.usage td).user_pri in
      if s.borrowing td
      then none
      else if (s.sys.threads td).priority == user_pri
      then some s
      else with_sys (record s { base_pri = update s.base_pri td user_pri })
          (tdq_setlowpri h.board (set_priority s.sys td user_pri) (self h) td)
