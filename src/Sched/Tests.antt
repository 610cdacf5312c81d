-- ===== src/Sched/Tests.antt =====
-- Threads on the processors of Smp/Tests, with a clock of 1000 ticks a second.
use free_bsd_messaround.Prelude.{
  pos, ◌<◌, ◌^◌, if◌then◌else◌, ◌+◌, ℕ, ◌≡◌, refl, true, false, some, List, [], ◌∷◌, min, ltb, ◌==◌,
  arith,
}
use free_bsd_messaround.Runq.{Store, runq_init, enqueue, lottery_q_add}
use free_bsd_messaround.Interact.{Usage}
use free_bsd_messaround.Interact.Tests.{settings, usage}
use free_bsd_messaround.Tdq.{Config, Tdq}
use free_bsd_messaround.Lottery.Draw.{NiceEnough}
use free_bsd_messaround.Tdq.Tests.{
  config, waiting, waiting-IsValid, in_queue, queued_threads, waiting-IsLinked,
}
use free_bsd_messaround.Tdq.Linked.{IsLinked, Linked-fields, Linked-same}
use free_bsd_messaround.Tdq.Removes.{queue_of-same}
use free_bsd_messaround.Smp.Tests.{board, system, low_group, top}
use free_bsd_messaround.Sched.Ticks.{sched_pctcpu_update}
use free_bsd_messaround.Sched.Ticks.Window.{IsWindow, IsTimely, sched_pctcpu_update-fits}
use free_bsd_messaround.Sched.Clock.{Running}
use free_bsd_messaround.Sched.Clock.Slices.{AreTimely, clocks, clocks-yields}
use free_bsd_messaround.Sched.Choose.{sched_choose}
use free_bsd_messaround.Sched.Choose.Next.{Next, sched_choose-Next}
use free_bsd_messaround.Sched.Critical.{Critical, Switcher}
use free_bsd_messaround.Sched.Critical.Requests.{
  Event, enter, leave, preempt, depth, events, IsKept, events-IsKept,
}
use free_bsd_messaround.Sched.Add.{Host, State}
use free_bsd_messaround.Sched.Prio.{sched_lend_prio, sched_unlend_prio, own_pri}
use free_bsd_messaround.Sched.Prio.Lend.{IsOff, lend-unlend}
use free_bsd_messaround.Sched.Switch.{Chooser, Switching, sched_switch}
use free_bsd_messaround.Sched.Switch.Yields.{IsYielding, Switched, sched_switch-Switched}
use free_bsd_messaround.Sched.Life.{Child, sched_fork}
use free_bsd_messaround.Sched.Life.Forks.{IsForked, sched_fork-IsForked}

usage-IsWindow : IsWindow 1000 usage
usage-IsWindow = record {
  last = omega arith;
  first = omega arith;
  short = omega arith;
  counted = omega arith;
}

-- At 9500 the window of 10000 ticks has not been left, at 12000 it has.
usage-IsTimely : IsTimely 1000 9500 usage true
usage-IsTimely = record { time = omega arith; later = omega arith; often = λ r. omega arith }

later-IsTimely : IsTimely 1000 12000 usage true
later-IsTimely = record { time = omega arith; later = omega arith; often = λ r. omega arith }

sched_pctcpu_update-fits_example :
    (ts' : Usage) × (sched_pctcpu_update 1000 12000 usage true ≡ some ts')
    × IsWindow 1000 ts'
    × (ts'.ticks < 2 ^ 31)
sched_pctcpu_update-fits_example =
    sched_pctcpu_update-fits 1000 (omega arith) (omega arith) 12000 usage true usage-IsWindow
      later-IsTimely (omega arith)

abbrev running : Running
running = record {
  usage = usage;
  fifo = false;
  idle = false;
  slice = 4;
  needresched = false;
  sliceend = false;
}

-- Slices of six ticks.
abbrev quick : Config
quick = record config { sched_slice = 6 }

abbrev six_ticks : List (ℕ × Tdq)
six_ticks =
    (9001, waiting)
    ∷ (9002, waiting)
    ∷ (9003, waiting)
    ∷ (9004, waiting)
    ∷ (9005, waiting)
    ∷ (9006, waiting)
    ∷ []

six-AreTimely :
    AreTimely settings quick 1024 (omega arith) (omega arith) (omega arith) 9000 six_ticks
unfolding AreTimely
six-AreTimely = (
  omega arith,
  omega arith,
  (
    omega arith,
    omega arith,
    (
      omega arith,
      omega arith,
      (omega arith, omega arith, (omega arith, omega arith, (omega arith, omega arith, tt))),
    ),
  ),
)

clocks-yields_example :
    (td' : Running) × (clocks settings quick 1024
        (omega arith)
        (omega arith)
        (omega arith)
        six_ticks
        running
      ≡ some td')
    × (td'.needresched ≡ true)
    × (td'.sliceend ≡ true)
clocks-yields_example =
    clocks-yields settings quick 1024 (omega arith) (omega arith) (omega arith) six_ticks running
      refl refl usage-IsWindow six-AreTimely (omega arith) (omega arith)

abbrev outside : Critical
outside = record { critnest = 0; owepreempt = false; ipipending = true; switches = [] }

abbrev switcher : Switcher
switcher = record {
  mi_switch = λ td. record td { owepreempt = false };
  clears = λ td. refl;
  nests = λ td. refl;
  notes = λ td. refl;
}

abbrev nested : List Event
nested = enter ∷ enter ∷ preempt true ∷ leave ∷ leave ∷ preempt true ∷ enter ∷ []

events-IsKept_example :
    (td' : Critical) × (events switcher nested outside ≡ some td') × (td'.critnest ≡ 1) × IsKept td'
unfolding depth
events-IsKept_example =
    events-IsKept switcher nested outside 1 (record { answered = λ e. refl; outside = tt }) refl

queued_nice : NiceEnough queued_threads (waiting.rq_lottery.queues 0)
unfolding lottery_q_add enqueue runq_init
queued_nice = ((2, refl), ((4, refl), tt))

sched_choose-Next_example :
    (s' : Store) × (tdq' : Tdq) × (td : ℕ) × (sched_choose config 99 queued_threads waiting 1000
      ≡ some (s', tdq', td))
    × Next config 99 in_queue queued_threads waiting s' tdq' td
sched_choose-Next_example =
    sched_choose-Next config 99 in_queue queued_threads waiting 1000 waiting-IsValid
      waiting-IsLinked queued_nice

abbrev new_child : Child
new_child = record {
  usage = usage;
  ts_cpu = 0;
  bound = true;
  xferable = true;
  base_pri = 160;
  priority = 90;
  slice = 0;
}

sched_fork-IsForked_example :
    (parent : Usage) × (child' : Child) × (sched_fork settings config 1024 9500 waiting usage 2
        new_child
      ≡ some (parent, child'))
    × IsForked settings parent child'
sched_fork-IsForked_example =
    sched_fork-IsForked settings config 1024 (omega arith) (omega arith) 9500 waiting usage 2
      new_child usage-IsWindow usage-IsTimely (omega arith)

abbrev host : Host
host = record {
  board = record board { curthread = λ cpu. if cpu == 0 then 40 else 10 + cpu };
  settings = settings;
  tdq_cg = λ cpu. low_group;
  cg_parents = λ cpu. top ∷ [];
  cpu_top = top;
  smp_started = true;
  td_intr_nesting_level = false;
  ticks = 9500;
  affinity = 1;
  cg_share_l2 = 2;
  pri_max_ithd = 47;
  panicking = false;
}

-- Thread 40, of priority 160, runs on the first processor.
abbrev state : State
state = record {
  sys = record system { threads = λ td. record (queued_threads td) { runnable = false } };
  usage = λ td. usage;
  base_pri = λ td. 160;
  rltick = λ td. 0;
  borrowing = λ td. false;
  needresched = λ td. false;
  owepreempt = λ td. false;
  running = λ td. td == 40;
  inhibited = λ td. false;
  on_lock = λ td. false;
  adjusted = [];
}

state_nice : NiceEnough state.sys.threads (waiting.rq_lottery.queues 0)
unfolding lottery_q_add enqueue runq_init
state_nice = ((2, refl), ((4, refl), tt))

state-IsOff : IsOff host 40 state
state-IsOff = record { unqueued = refl; fit = (waiting-IsValid, state_nice) }

lend-unlend_example :
    (s' : State) × (s'' : State) × (sched_lend_prio host state 40 100 ≡ some s')
    × ((s'.sys.threads 40).priority ≡ 100)
    × (sched_unlend_prio host s' 40 140 ≡ some s'')
    × ((s''.sys.threads 40).priority ≡ min 140 (own_pri host state 40))
    × (s''.borrowing 40 ≡ ltb 140 (own_pri host state 40))
lend-unlend_example = lend-unlend host state 40 100 140 state-IsOff

abbrev chooser : Chooser
chooser = record {
  panicstr = false;
  passes = λ td. true;
  rounds = 1;
  idlethread = 10;
  nocpu = 255;
  trysteal_limit = 2;
  steal_thresh = pos 2;
}

abbrev switching : Switching
switching = record { state = state; sliceend = λ td. false; oncpu = λ td. 0 }

idle-IsTimely : IsTimely 1000 9500 usage false
idle-IsTimely = record { time = omega arith; later = omega arith; often = λ r. omega arith }

state-IsLinked : IsLinked in_queue state.sys.threads (state.sys.tdq_cpu 0)
state-IsLinked =
    Linked-fields in_queue queued_threads state.sys.threads (state.sys.tdq_cpu 0)
      (λ u. (refl, refl))
      (Linked-same in_queue queued_threads waiting (state.sys.tdq_cpu 0)
        (queue_of-same waiting (state.sys.tdq_cpu 0) refl refl refl refl) waiting-IsLinked)

switching-IsYielding : IsYielding host chooser (omega arith) (omega arith) switching 40
switching-IsYielding = record {
  runs = refl;
  busy = refl;
  place = refl;
  allowed = refl;
  fit = (waiting-IsValid, state_nice);
  priority = omega arith;
  nice = (40, refl);
  waits = in_queue;
  unqueued = refl;
  linked = state-IsLinked;
  windows = λ u. usage-IsWindow;
  timely = usage-IsTimely;
  others = λ u ne. idle-IsTimely;
}

sched_switch-Switched_example :
    (w' : Switching) × (newtd : ℕ) × (sched_switch host chooser switching 40 true
      ≡ some (w', newtd))
    × Switched host chooser (omega arith) (omega arith) in_queue switching 40 true w' newtd
unfolding switching-IsYielding
sched_switch-Switched_example =
    sched_switch-Switched host chooser (omega arith) (omega arith) switching 40 true refl
      switching-IsYielding
