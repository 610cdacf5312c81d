-- ===== src/Tdq/Tests.antt =====
-- The queues of a processor with the priority classes of FreeBSD's sys/priority.h.
use free_bsd_messaround.Prelude.{
  ℕ, ◌*◌, ◌%◌, ◌≡◌, refl, Bool, false, ◌&&◌, ◌||◌, ◌==◌, if◌then◌else◌, some, none, List, [], ◌∷◌,
  count, arith,
}
use free_bsd_messaround.Runq.{Store, QueueName, realtime, timeshare, lottery, idle, runq_init}
use free_bsd_messaround.Runq.Invariant.{runq_init-IsConsistent, lottery_q_add-IsConsistent}
use free_bsd_messaround.Runq.{lottery_q_add, enqueue}
use free_bsd_messaround.Runq.Tests.{machine, threads}
use free_bsd_messaround.Lottery.Draw.{NiceEnough}
use free_bsd_messaround.Tdq.{Config, Flags, Tdq, tdq_setup, tdq_choose}
use free_bsd_messaround.Tdq.Invariant.{IsValid}
use free_bsd_messaround.Tdq.Removes.{queue_of}
use free_bsd_messaround.Tdq.Linked.{IsLinked, stands}
use free_bsd_messaround.Tdq.Reached.{
  Call, adds, removes, ticks, run, IsReached, waiting_after, run-tdq_setup,
}
use free_bsd_messaround.Tdq.Choose.{Chosen, tdq_choose-Chosen}

abbrev pub config : Config
config = record {
  machine = machine;
  max_interact = 151;
  min_batch = 152;
  max_batch = 223;
  min_idle = 224;
  max_idle = 255;
  preempt_thresh = 80;
  sched_slice = 12;
  sched_slice_min = 1;
  batch_ordered = omega arith;
  batch_fits = omega arith;
}

abbrev plain : Flags
plain = record { borrowing = false; preempted = false }

-- Two threads wait in the lottery queue, and the calendar is at queue 7, being drained.
abbrev pub waiting : Tdq
waiting = record tdq_setup {
  idx = 8;
  ridx = 7;
  rq_realtime = runq_init;
  rq_timeshare = runq_init;
  rq_lottery = lottery_q_add machine (lottery_q_add machine runq_init 4) 2;
  rq_idle = runq_init;
}

pub waiting-IsValid : IsValid config waiting
waiting-IsValid =
    let c = runq_init-IsConsistent machine in
    let l =
      lottery_q_add-IsConsistent machine _ 2 (lottery_q_add-IsConsistent machine runq_init 4 c) in
    (c, c, l, c, omega arith, omega arith)

pub waiting_nice : NiceEnough threads (waiting.rq_lottery.queues 0)
unfolding lottery_q_add enqueue runq_init
waiting_nice = ((2, refl), ((4, refl), tt))

tdq_choose-Chosen_example : Chosen config waiting (tdq_choose config threads waiting 1000)
tdq_choose-Chosen_example =
    tdq_choose-Chosen config threads waiting 1000 waiting-IsValid waiting_nice

-- Thread 5 of the real-time range and thread 40 of the lottery.
abbrev calls : List Call
calls = adds 40 plain ∷ adds 5 plain ∷ ticks ∷ removes 40 ∷ []

-- Threads with priorities below 256.
abbrev pub threads_low : Store
threads_low td = record (threads td) { priority = 4 * td % 256 }

run-tdq_setup_example :
    (s' : Store) × (tdq' : Tdq) × (run config (threads_low, tdq_setup) calls ≡ some (s', tdq'))
    × IsReached config (waiting_after calls (λ x. false)) s' tdq'
run-tdq_setup_example =
    run-tdq_setup config threads_low calls (λ x. omega arith) (refl, (refl, (tt, (refl, tt))))

-- The threads of the two queued ones, which name the lottery queue.
abbrev pub in_queue : ℕ → Bool
in_queue td = td == 2 || td == 4

abbrev pub queued_threads : Store
queued_threads td = record (threads td) { runq = if in_queue td then some lottery else none }

stands_by_name :
    (x : ℕ) (name : QueueName) (p : ℕ)
    → count x ((queue_of waiting name).queues p)
      ≡ (if in_queue x && stands (queued_threads x) name p then 1 else 0)
unfolding lottery_q_add enqueue runq_init
stands_by_name x realtime p = ground arith
stands_by_name x timeshare p = ground arith
stands_by_name x lottery p = ground arith
stands_by_name x idle p = ground arith

pub waiting-IsLinked : IsLinked in_queue queued_threads waiting
waiting-IsLinked = record {
  counted = stands_by_name;
  ranged = λ x w. (lottery, rw w refl, omega arith);
}

-- The calendar at queue 60.
abbrev late : Tdq
late = record tdq_setup { idx = 60; ridx = 60 }
