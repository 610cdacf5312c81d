-- ===== src/Sched/Choose.antt =====
-- sched_choose of asgn2/kern/sched_ule.c, and choosethread and choosethread_panic of
-- asgn2/kern/kern_switch.c: the thread that runs next, taken off its queue.
pub mod Next
use free_bsd_messaround.Prelude.{
  ℕ, zero, suc, ◌+◌, Bool, true, false, ◌||◌, Option, none, some, if◌then◌else◌, update,
}
use free_bsd_messaround.Runq.{Thread, Store}
use free_bsd_messaround.Lottery.{Outcome, returns, divides_by_zero, null_dereference}
use free_bsd_messaround.Tdq.{Config, Tdq, tdq_runq_rem, tdq_choose}

-- The threads, the queues and the thread that runs next; `none` is a fault in the
-- lottery or a thread without a queue.
abbrev pub Taken : Type 0
Taken = Option (Store × Tdq × ℕ)

-- The idle thread of the processor is `idlethread`.
module _ (k : Config) (idlethread : ℕ) where
  abbrev pub runs_at : ℕ → ℕ → Option (Store × Tdq) → Taken
  runs_at pri td none = none
  runs_at pri td (some (s, tdq)) = some (s, record tdq { lowpri = pri }, td)

  unfoldable pub take : Store → Tdq → Outcome → Taken
  take s tdq (returns (some td) line) = runs_at (s td).priority td (tdq_runq_rem k s tdq td)
  take s tdq (returns none line) = some (s, record tdq { lowpri = k.max_idle }, idlethread)
  take s tdq divides_by_zero = none
  take s tdq null_dereference = none

  unfoldable pub sched_choose : Store → Tdq → ℕ → Taken
  sched_choose s tdq rnd = take s tdq (tdq_choose k s tdq rnd)

  -- TD_SET_RUNNING and TD_SET_CAN_RUN: the thread is on no run queue.
  abbrev pub off_queue : Store → ℕ → Store
  off_queue s td = update s td (record (s td) { runnable = false })

  abbrev pub set_running : Taken → Taken
  set_running none = none
  set_running (some (s, tdq, td)) = some (off_queue s td, tdq, td)

  -- `passes` tells the threads of system processes and that in panic; `n` is the number of rounds
  -- left, and random answers each round.
  unfoldable pub choosethread_panic : (ℕ → Bool) → (ℕ → ℕ) → ℕ → Taken → Taken
  choosethread_panic passes random n none = none
  choosethread_panic passes random zero (some (s, tdq, td)) = none
  choosethread_panic passes random (suc n) (some (s, tdq, td)) =
      let again =
        choosethread_panic passes random n (sched_choose (off_queue s td) tdq (random n)) in
      if passes td then some (off_queue s td, tdq, td) else again

  unfoldable pub choosethread : Bool → (ℕ → Bool) → (ℕ → ℕ) → ℕ → Store → Tdq → ℕ → Taken
  choosethread panicking passes random n s tdq rnd =
      let td = sched_choose s tdq rnd in
      if panicking then choosethread_panic passes random n td else set_running td
