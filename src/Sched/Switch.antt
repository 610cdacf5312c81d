-- ===== src/Sched/Switch.antt =====
-- sched_switch and sched_switch_migrate of asgn2/kern/sched_ule.c: the current thread gives up its
-- processor and the next one is chosen. cpu_switch and the locks are left out.
pub mod Steps
pub mod Yields
use free_bsd_messaround.Prelude.{
  ℕ, suc, ◌+◌, Bool, true, false, ◌&&◌, ◌||◌, not, Option, none, some, List, [], ◌∷◌, ◌==◌,
  if◌then◌else◌, update, ℤ, pos, ◌+ℤ◌, pos_part, neg_part,
}
use free_bsd_messaround.Runq.{Thread, Store}
use free_bsd_messaround.Interact.{Settings, Usage}
use free_bsd_messaround.Tdq.{Config, Flags, Tdq, tdq_runq_add, tdq_add, tdq_load_rem}
use free_bsd_messaround.Smp.{CpuGroup}
use free_bsd_messaround.Smp.Pick.{Picked, sched_pickcpu}
use free_bsd_messaround.Smp.Move.{System, Board, tdq_notify}
use free_bsd_messaround.Smp.Balance.{Balanced, done, faults, spins}
use free_bsd_messaround.Smp.Idle.{is_loaded, tdq_trysteal}
use free_bsd_messaround.Sched.Ticks.{sched_pctcpu_update}
use free_bsd_messaround.Sched.Choose.{Taken, choosethread}
use free_bsd_messaround.Sched.Add.{Host, State, self, curthread, machines, placed}

-- What the choice reads besides: whether panicstr is set, which threads run in a panic and for how
-- many of them it looks; the idle thread, NOCPU, trysteal_limit and steal_thresh.
pub record Chooser : Type 0 where
  pub panicstr : Bool
  pub passes : ℕ → Bool
  pub rounds : ℕ
  pub idlethread : ℕ
  pub nocpu : ℕ
  pub trysteal_limit : ℕ
  pub steal_thresh : ℤ

-- With TDF_SLICEEND and td_oncpu of the threads.
pub record Switching : Type 0 where
  pub state : State
  pub sliceend : ℕ → Bool
  pub oncpu : ℕ → ℕ

abbrev pub then_state : Option State → (State → Option State) → Option State
then_state none next = none
then_state (some s) next = next s

module _ (h : Host) (x : Chooser) where
  -- The thread is no longer on its processor.
  unfoldable pub leave : Switching → ℕ → Usage → Switching
  leave w td usage =
      let s = w.state in
      let tdq = s.sys.tdq_cpu (self h) in
      record {
        state = record s {
          usage = update s.usage td usage;
          rltick = update s.rltick td h.ticks;
          needresched = update s.needresched td false;
          owepreempt = update s.owepreempt td false;
          sys = record s.sys {
            threads = update s.sys.threads td (record (s.sys.threads td) { lastcpu = w.oncpu td });
            tdq_cpu =
                if h.board.is_idle td
                then s.sys.tdq_cpu
                else update s.sys.tdq_cpu (self h)
                    (record tdq { switchcnt = tdq.switchcnt +ℤ pos 1 });
          };
        };
        sliceend = update w.sliceend td false;
        oncpu = update w.oncpu td x.nocpu;
      }

  abbrev pub set_cpu : State → ℕ → Picked → Option State
  set_cpu s td p = elim p.cpu [
    | none ↦ none
    | some cpu ↦ some (record s {
      sys = record s.sys { ts_cpu = update s.sys.ts_cpu td cpu; randomval = p.randomval };
    })
  ]

  -- A thread that may no longer run here gets another processor; `none` is a processor not found.
  unfoldable pub repick : State → ℕ → Option State
  repick s td =
      if (s.sys.threads td).pinned == 0 && not (h.board.allowed td (s.sys.ts_cpu td))
      then set_cpu s td (sched_pickcpu (machines h s) (placed h s td) false s.sys.randomval)
      else some s

  -- tdq_runq_add; the thread does not run any more.
  unfoldable pub stay : State → ℕ → Flags → State
  stay s td flags =
      let (threads, tdq) =
        tdq_runq_add h.board.config s.sys.threads (s.sys.tdq_cpu (self h)) td flags in
      record s {
        running = update s.running td false;
        sys = record s.sys { threads = threads; tdq_cpu = update s.sys.tdq_cpu (self h) tdq };
      }

  unfoldable pub sched_switch_migrate : State → ℕ → Flags → State
  sched_switch_migrate s td flags =
      let tdn = s.sys.ts_cpu td in
      let left =
        update s.sys.tdq_cpu (self h) (tdq_load_rem s.sys.threads (s.sys.tdq_cpu (self h)) td) in
      let (threads, tdq) = tdq_add h.board.config s.sys.threads (left tdn) td flags in
      record s {
        running = update s.running td false;
        sys =
            tdq_notify h.board (record s.sys { threads = threads; tdq_cpu = update left tdn tdq })
              tdn td;
      }

  unfoldable pub requeue : ℕ → Flags → State → Option State
  requeue td flags s =
      some (if s.sys.ts_cpu td == self h then stay s td flags else sched_switch_migrate s td flags)

  abbrev pub stolen : State → Balanced → Option State
  stolen s (done sys) = some (record s { sys = sys })
  stolen s faults = none
  stolen s spins = none

  -- A thread that goes to sleep.
  unfoldable pub fall_asleep : State → ℕ → Option State
  fall_asleep s td =
      let tdq = tdq_load_rem s.sys.threads (s.sys.tdq_cpu (self h)) td in
      let s' = record s { sys = record s.sys { tdq_cpu = update s.sys.tdq_cpu (self h) tdq } } in
      if is_loaded tdq
      then some s'
      else stolen s' (
          tdq_trysteal h.board x.steal_thresh h.smp_started x.trysteal_limit
            (h.tdq_cg (self h) ∷ h.cg_parents (self h)) s'.sys)

  -- What becomes of the thread that gives up its processor.
  unfoldable pub give_up : State → ℕ → Bool → Option State
  give_up s td preempted =
      if h.board.is_idle td
      then some (record s { running = update s.running td false })
      else if s.running td
      then then_state (repick s td)
          (requeue td (record { borrowing = false; preempted = preempted }))
      else fall_asleep s td

  -- The thread that runs next.
  unfoldable pub enter : State → Taken → Option (State × ℕ)
  enter s none = none
  enter s (some (threads, tdq, td)) = some (
    record s {
      running = update s.running td true;
      sys = record s.sys {
        threads = threads;
        tdq_cpu = update s.sys.tdq_cpu (self h) tdq;
        draws = s.sys.draws + suc x.rounds;
      };
    },
    td,
  )

  unfoldable pub choose : State → Option (State × ℕ)
  choose s = enter s (
      choosethread h.board.config x.idlethread x.panicstr x.passes
        (λ n. h.board.random (s.sys.draws + suc n)) x.rounds s.sys.threads (s.sys.tdq_cpu (self h))
        (h.board.random s.sys.draws))

  abbrev pub with_window : State → ℕ → Option Usage → Option State
  with_window s td none = none
  with_window s td (some usage) = some (record s { usage = update s.usage td usage })

  unfoldable pub arrive : State → ℕ → ℕ → Option State
  arrive s td newtd =
      if td == newtd
      then some s
      else with_window s newtd (sched_pctcpu_update h.settings.hz h.ticks (s.usage newtd) false)

  abbrev pub on_cpu : Switching → ℕ → Option State → Option (Switching × ℕ)
  on_cpu w td none = none
  on_cpu w td (some s) = some (record w { state = s; oncpu = update w.oncpu td (self h) }, td)

  abbrev pub switch_to : Switching → ℕ → Option (State × ℕ) → Option (Switching × ℕ)
  switch_to w td none = none
  switch_to w td (some (s, newtd)) = on_cpu w newtd (arrive s td newtd)

  abbrev pub switch_after : Switching → ℕ → Option State → Option (Switching × ℕ)
  switch_after w td none = none
  switch_after w td (some s) = switch_to w td (choose s)

  abbrev pub switch_from : Switching → ℕ → Bool → Option Usage → Option (Switching × ℕ)
  switch_from w td preempted none = none
  switch_from w td preempted (some usage) =
      let w' = leave w td usage in switch_after w' td (give_up w'.state td preempted)

  -- The thread that runs afterwards; the end of the call, where td_oncpu is set, is its own.
  -- `preempt` is SW_PREEMPT; `none` is a fault in the lottery, a division by zero or a processor not
  -- found.
  unfoldable pub sched_switch : Switching → ℕ → Bool → Option (Switching × ℕ)
  sched_switch w td preempt =
      switch_from w td (not (w.sliceend td) && preempt)
        (sched_pctcpu_update h.settings.hz h.ticks (w.state.usage td) true)
