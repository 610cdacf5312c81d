-- ===== src/Steal/Tests.antt =====
-- Stealing from the queues of the run-queue tests, thread 3 being pinned.
use free_bsd_messaround.Prelude.{ℕ, ◌≡◌, refl, Bool, false, not, none, ◌==◌, arith}
use free_bsd_messaround.Runq.{Runq, rq_nqs, runq_init, runq_add, lottery_q_add}
use free_bsd_messaround.Runq.Invariant.{
  IsConsistent, runq_init-IsConsistent, runq_add-IsConsistent, lottery_q_add-IsConsistent,
}
use free_bsd_messaround.Runq.Tests.{machine, threads}
use free_bsd_messaround.Tdq.{Tdq, tdq_setup}
use free_bsd_messaround.Tdq.Tests.{config}
use free_bsd_messaround.Steal.{can_move, runq_steal, tdq_steal}
use free_bsd_messaround.Steal.First.{FirstTaken, runq_steal-FirstTaken, tdq_steal_lottery}

-- Every thread but the third may run on processor 1.
abbrev may_go : ℕ → Bool
may_go = can_move (λ td cpu. not (td == 3)) threads 1

abbrev two_queued : Runq
two_queued = (runq_add machine threads (runq_add machine threads runq_init 3 false).1 9 false).1

two_queued-IsConsistent : IsConsistent machine two_queued
two_queued-IsConsistent =
    runq_add-IsConsistent machine threads _ 9 false
      (runq_add-IsConsistent machine threads runq_init 3 false (runq_init-IsConsistent machine))

runq_steal-FirstTaken_example :
    FirstTaken machine may_go two_queued 0 rq_nqs (runq_steal machine may_go two_queued)
runq_steal-FirstTaken_example =
    runq_steal-FirstTaken machine may_go two_queued two_queued-IsConsistent

abbrev only_lottery : Tdq
only_lottery = record tdq_setup {
  idx = 0;
  ridx = 0;
  rq_realtime = runq_init;
  rq_timeshare = runq_init;
  rq_lottery = lottery_q_add machine runq_init 4;
  rq_idle = runq_init;
}

tdq_steal_lottery_example : tdq_steal config may_go only_lottery ≡ none
unfolding runq_init
tdq_steal_lottery_example =
    tdq_steal_lottery config may_go only_lottery
      (
        runq_init-IsConsistent machine,
        runq_init-IsConsistent machine,
        lottery_q_add-IsConsistent machine runq_init 4 (runq_init-IsConsistent machine),
        runq_init-IsConsistent machine,
        omega arith,
        omega arith,
      )
      (λ p l. refl) (λ p l. refl) (λ p l. refl)
