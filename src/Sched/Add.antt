-- ===== src/Sched/Add.antt =====
-- sched_add, sched_setpreempt and sched_affinity of asgn2/kern/sched_ule.c: a thread goes on the queues
-- of the processor picked for it.
use free_bsd_messaround.Prelude.{
  ℕ, Bool, true, false, ◌||◌, not, Option, none, some, List, ◌∷◌, ltb, leb, ◌==◌, if◌then◌else◌,
  update,
}
use free_bsd_messaround.Interact.{Settings, Usage, sched_priority}
use free_bsd_messaround.Tdq.{Flags, tdq_add, sched_shouldpreempt}
use free_bsd_messaround.Smp.{CpuGroup}
use free_bsd_messaround.Smp.Pick.{Machines, Placed, Picked, sched_pickcpu}
use free_bsd_messaround.Smp.Move.{System, Board, sched_rem, tdq_notify}

-- What does not change during a call; `panicking` is panicstr != NULL or cold.
pub record Host : Type 0 where
  pub board : Board
  pub settings : Settings
  pub tdq_cg : ℕ → CpuGroup
  pub cg_parents : ℕ → List CpuGroup
  pub cpu_top : CpuGroup
  pub smp_started : Bool
  pub td_intr_nesting_level : Bool
  pub ticks : ℕ
  pub affinity : ℕ
  pub cg_share_l2 : ℕ
  pub pri_max_ithd : ℕ
  pub panicking : Bool

-- The queues and processors, and the fields of the threads beyond those that the queues read:
-- the counters, td_base_pri, ts_rltick, TDF_BORROWING, TDF_NEEDRESCHED, td_owepreempt, whether the
-- thread runs, is inhibited or waits for a lock, and the calls of turnstile_adjust.
pub record State : Type 0 where
  pub sys : System
  pub usage : ℕ → Usage
  pub base_pri : ℕ → ℕ
  pub rltick : ℕ → ℕ
  pub borrowing : ℕ → Bool
  pub needresched : ℕ → Bool
  pub owepreempt : ℕ → Bool
  pub running : ℕ → Bool
  pub inhibited : ℕ → Bool
  pub on_lock : ℕ → Bool
  pub adjusted : List (ℕ × ℕ)

module _ (h : Host) where
  abbrev pub self : ℕ
  self = h.board.self

  abbrev pub curthread : ℕ
  curthread = h.board.curthread self

  unfoldable pub sched_setpreempt : State → ℕ → State
  sched_setpreempt s td =
      let pri = (s.sys.threads td).priority in
      let cpri = (s.sys.threads curthread).priority in
      let s' =
        if ltb pri cpri
        then record s { needresched = update s.needresched curthread true }
        else s in
      if h.panicking || leb cpri pri || s.inhibited curthread
      then s'
      else if not (sched_shouldpreempt h.board.config pri cpri false)
      then s'
      else record s' { owepreempt = update s'.owepreempt curthread true }

  -- What sched_pickcpu reads.
  abbrev pub machines : State → Machines
  machines s = record {
    mp_maxid = h.board.mp_maxid;
    tdq_cpu = s.sys.tdq_cpu;
    tdq_cg = h.tdq_cg;
    cg_parents = h.cg_parents;
    cpu_top = h.cpu_top;
    smp_started = h.smp_started;
    self = self;
    td_intr_nesting_level = h.td_intr_nesting_level;
    ticks = h.ticks;
    affinity = h.affinity;
    cg_share_l2 = h.cg_share_l2;
    pri_max_ithd = h.pri_max_ithd;
    pri_max_timeshare = h.settings.max_timeshare;
    pri_min_idle = h.board.config.min_idle;
  }

  abbrev pub placed : State → ℕ → Placed
  placed s td = record {
    td_priority = (s.sys.threads td).priority;
    td_pinned = (s.sys.threads td).pinned;
    cs_mask = h.board.allowed td;
    ts_rltick = s.rltick td;
    ts_cpu = s.sys.ts_cpu td;
  }

  -- sched_setcpu, whose locks are left out, and tdq_add.
  unfoldable pub add_to : State → ℕ → ℕ → Flags → State
  add_to s td cpu flags =
      let (threads, tdq) = tdq_add h.board.config s.sys.threads (s.sys.tdq_cpu cpu) td flags in
      record s {
        sys = record s.sys {
          threads = threads;
          tdq_cpu = update s.sys.tdq_cpu cpu tdq;
          ts_cpu = update s.sys.ts_cpu td cpu;
        };
      }

  -- `yielding` is SRQ_YIELDING; `none` is a processor not found.
  unfoldable pub add_picked : State → ℕ → Flags → Bool → Picked → Option State
  add_picked s td flags yielding p = elim p.cpu [
    | none ↦ none
    | some cpu ↦
        let s' =
          add_to (record s { sys = record s.sys { randomval = p.randomval } }) td cpu flags in
        some (
          if not (cpu == self)
          then record s' { sys = tdq_notify h.board s'.sys cpu td }
          else if yielding
          then s'
          else sched_setpreempt s' td)
  ]

  unfoldable pub reprioritize : State → ℕ → State
  reprioritize s td = record s {
    usage = update s.usage td (sched_priority h.settings (s.usage td));
  }

  unfoldable pub sched_add : State → ℕ → Flags → Bool → Bool → Option State
  sched_add s td flags ourself yielding =
      let s' = if (s.usage td).timeshare then reprioritize s td else s in
      add_picked s' td flags yielding
        (sched_pickcpu (machines s') (placed s' td) ourself s'.sys.randomval)

  abbrev pub boring : Flags
  boring = record { borrowing = false; preempted = false }

  abbrev pub then_add : ℕ → Flags → State → Option System → Option State
  then_add td flags s none = none
  then_add td flags s (some sys) = sched_add (record s { sys = sys }) td flags false false

  -- A thread that may no longer run where it is; an interrupt goes to another processor.
  unfoldable pub sched_affinity : State → ℕ → Option State
  sched_affinity s td =
      if h.board.allowed td (s.sys.ts_cpu td)
      then some s
      else if (s.sys.threads td).runnable
      then then_add td boring s (sched_rem h.board s.sys td)
      else if not (s.running td)
      then some s
      else some (
          let s' = record s { needresched = update s.needresched td true } in
          if td == curthread
          then s'
          else record s' { sys = record s.sys { ipis = s.sys.ts_cpu td ∷ s.sys.ipis } })
