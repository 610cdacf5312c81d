-- ===== src/Smp/Tests.antt =====
-- The placement of threads on four processors in two groups that share a cache.
use free_bsd_messaround.Prelude.{
  ℕ, zero, suc, ◌+◌, ◌*◌, ◌≢◌, refl, true, false, ◌&&◌, not, [], ◌∷◌, ltb, pos, arith,
}
use free_bsd_messaround.Runq.Tests.{threads}
use free_bsd_messaround.Tdq.{Tdq, tdq_setup}
use free_bsd_messaround.Tdq.Tests.{config, waiting}
use free_bsd_messaround.Smp.{
  Mask, CpuGroup, cpu_group, no_child, child, nand_children, sched_highest,
}
use free_bsd_messaround.Smp.Search.{in_group}
use free_bsd_messaround.Smp.Finds.{IsDonor, Finds, sched_highest-Finds}
use free_bsd_messaround.Smp.Pick.{Machines, Placed, sched_pickcpu}
use free_bsd_messaround.Smp.Pick.Allowed.{IsAllowed, CanRun, sched_pickcpu-IsAllowed}
use free_bsd_messaround.Smp.Move.{System, Board}
use free_bsd_messaround.Smp.Balance.{spins, sched_balance_group}
use free_bsd_messaround.Smp.Idle.{tdq_idled}
use free_bsd_messaround.Smp.Idle.Conserves.{Ended, tdq_idled-Ended}
use free_bsd_messaround.Smp.Balance.Ends.{sched_balance_group-ends}

-- The first processor has three threads, two of which may move, and the others have none.
abbrev pub tdqs : ℕ → Tdq
tdqs zero = record waiting { load = pos 3; transferable = pos 2; lowpri = 130 }
tdqs (suc n) = record tdq_setup { load = pos 0; lowpri = 255 }

abbrev pub all_cpus : Mask
all_cpus cpu = ltb cpu 4

abbrev low_cpus : Mask
low_cpus cpu = ltb cpu 2

abbrev high_cpus : Mask
high_cpus cpu = not (ltb cpu 2) && ltb cpu 4

abbrev pub low_group : CpuGroup
low_group = cpu_group low_cpus 2 false no_child

abbrev pub top : CpuGroup
top =
    cpu_group all_cpus 1 false
      (child (cpu_group high_cpus 2 false no_child) (child low_group no_child))

sched_highest-Finds_example :
    Finds
      (in_group 3 top)
      (IsDonor tdqs all_cpus (pos 2))
      (sched_highest 3 tdqs top all_cpus (pos 2) 7).0
sched_highest-Finds_example = sched_highest-Finds 3 tdqs top all_cpus (pos 2) 7

abbrev machines : Machines
machines = record {
  mp_maxid = 3;
  tdq_cpu = tdqs;
  tdq_cg = λ cpu. low_group;
  cg_parents = λ cpu. top ∷ [];
  cpu_top = top;
  smp_started = true;
  self = 0;
  td_intr_nesting_level = false;
  ticks = 5000;
  affinity = 1;
  cg_share_l2 = 2;
  pri_max_ithd = 47;
  pri_max_timeshare = 223;
  pri_min_idle = 224;
}

-- A thread that may run on the processors 2 and 3.
abbrev placed : Placed
placed = record {
  td_priority = 150;
  td_pinned = 0;
  cs_mask = high_cpus;
  ts_rltick = 4999;
  ts_cpu = 0;
}

placed-CanRun : CanRun machines placed 3
unfolding in_group nand_children
placed-CanRun = record { known = refl; allowed = refl; loaded = omega arith }

sched_pickcpu-IsAllowed_example : IsAllowed high_cpus (sched_pickcpu machines placed false 7).cpu
sched_pickcpu-IsAllowed_example =
    sched_pickcpu-IsAllowed machines placed 3 7 refl refl placed-CanRun

-- The idle thread of each processor runs.
abbrev pub board : Board
board = record {
  config = config;
  mp_maxid = 3;
  self = 0;
  curthread = λ cpu. 10 + cpu;
  is_idle = λ td. not (ltb td 10) && ltb td 14;
  tdq_cpu_idle = λ cpu. true;
  cpu_idle_wakeup = λ cpu. false;
  allowed = λ td cpu. true;
  random = λ n. 1000 * n;
}

abbrev pub system : System
system = record {
  threads = threads;
  tdq_cpu = tdqs;
  ts_cpu = λ td. 0;
  ipipending = λ cpu. false;
  ipis = [];
  randomval = 7;
  draws = 0;
}

sched_balance_group-ends_example : sched_balance_group board 4 top system ≢ spins
sched_balance_group-ends_example = sched_balance_group-ends board 4 top system

-- The same queues, seen from the last processor.
abbrev idle_board : Board
idle_board = record board { self = 3 }

tdq_idled-Ended_example :
    Ended idle_board
      (pos 2)
      system
      (low_group ∷ top ∷ [])
      (tdq_idled idle_board (pos 2) true true (low_group ∷ top ∷ []) system)
tdq_idled-Ended_example = tdq_idled-Ended idle_board (pos 2) system (low_group ∷ top ∷ [])
