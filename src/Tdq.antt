-- ===== src/Tdq.antt =====
-- The queues of one processor, struct tdq of asgn2/kern/sched_ule.c, with the lottery queue for the
-- timeshare threads of users other than root. Locks are held by the callers; assertions,
-- statistics and names are left out.
pub mod Slot
pub mod Slice
pub mod Removes
pub mod Places
pub mod Linked
pub mod Invariant
pub mod Reached
pub mod Nice
pub mod Choose
pub mod Joins
pub mod Tests
use free_bsd_messaround.Prelude.{
  ℕ, suc, ◌+◌, ◌-◌, ◌*◌, ◌/◌, ◌%◌, ◌≤◌, ◌<◌, ◌≡◌, Bool, true, false, ◌&&◌, ◌||◌, not, Option, none,
  some, List, [], ◌∷◌, ltb, leb, ◌==◌, if◌then◌else◌, is_empty, update, ℤ, pos, pos_part, ◌+ℤ◌,
  ◌-ℤ◌, ltb_ℤ,
}
use free_bsd_messaround.Runq.{
  Machine, Runq, Thread, Store, QueueName, realtime, timeshare, lottery, idle, rq_nqs, runq_init,
  runq_add, runq_add_pri, lottery_q_add, lottery_q_remove, runq_remove_idx, runq_remove,
  runq_choose, runq_choose_from,
}
use free_bsd_messaround.Lottery.{
  Outcome, returns, divides_by_zero, null_dereference, lottery_q_choose,
}

-- The priority classes, of the kernel's headers and of the macros of sched_ule.c, the preemption
-- threshold and the slices.
pub record Config : Type 0 where
  pub machine : Machine
  pub max_interact : ℕ
  pub min_batch : ℕ
  pub max_batch : ℕ
  pub min_idle : ℕ
  pub max_idle : ℕ
  pub preempt_thresh : ℕ
  pub sched_slice : ℕ
  pub sched_slice_min : ℕ
  pub batch_ordered : min_batch ≤ max_batch
  pub batch_fits : max_batch < 256

-- SRQ_BORROWING, SRQ_PREEMPTED, SRQ_YIELDING.
pub record Flags : Type 0 where
  pub borrowing : Bool
  pub preempted : Bool

pub record Tdq : Type 0 where
  pub load : ℤ
  pub sysload : ℤ
  pub transferable : ℤ
  pub switchcnt : ℤ
  pub oldswitchcnt : ℤ
  pub lowpri : ℕ
  pub idx : ℕ
  pub ridx : ℕ
  pub rq_realtime : Runq
  pub rq_timeshare : Runq
  pub rq_lottery : Runq
  pub rq_idle : Runq

-- isRoot.
abbrev pub is_root : Thread → Bool
is_root t = t.uid == 0

-- tdq_setup on memory that is zero.
pub tdq_setup : Tdq
tdq_setup = record {
  load = pos 0;
  sysload = pos 0;
  transferable = pos 0;
  switchcnt = pos 0;
  oldswitchcnt = pos 0;
  lowpri = 0;
  idx = 0;
  ridx = 0;
  rq_realtime = runq_init;
  rq_timeshare = runq_init;
  rq_lottery = runq_init;
  rq_idle = runq_init;
}

pub tdq_load_add : Store → Tdq → ℕ → Tdq
tdq_load_add s tdq td = record tdq {
  load = tdq.load +ℤ pos 1;
  sysload = if (s td).noload then tdq.sysload else tdq.sysload +ℤ pos 1;
}

pub tdq_load_rem : Store → Tdq → ℕ → Tdq
tdq_load_rem s tdq td = record tdq {
  load = tdq.load -ℤ pos 1;
  sysload = if (s td).noload then tdq.sysload else tdq.sysload -ℤ pos 1;
}

module _ (k : Config) where
  abbrev pub batch_range : ℕ
  batch_range = k.max_batch + 1 - k.min_batch

  pub sched_shouldpreempt : ℕ → ℕ → Bool → Bool
  sched_shouldpreempt pri cpri remote =
      if leb cpri pri
      then false
      else if leb k.min_idle cpri
      then true
      else if k.preempt_thresh == 0
      then false
      else if leb pri k.preempt_thresh
      then true
      else if remote && leb pri k.max_interact && ltb k.max_interact cpri
      then true
      else false

  -- The queue of the calendar on which a root timeshare thread goes; each assignment to the u_char
  -- `pri` is taken modulo 256.
  pub timeshare_slot : Tdq → ℕ → Flags → ℕ
  timeshare_slot tdq pri flags =
      if flags.borrowing || flags.preempted
      then tdq.ridx
      else (let pri' = rq_nqs * (pri - k.min_batch) / batch_range % 256 in
          let pri'' = (pri' + tdq.idx) % rq_nqs in
          if not (tdq.ridx == tdq.idx) && (pri'' == tdq.ridx)
          then (pri'' + 256 - 1) % 256 % rq_nqs
          else pri'')

  -- TD_SET_RUNQ and the count of transferable threads.
  pub mark_runq : Store → Tdq → ℕ → Store × Tdq
  mark_runq s tdq td =
      let t = s td in
      if t.pinned == 0
      then (
        update s td (record t { runnable = true; xferable = true }),
        record tdq { transferable = tdq.transferable +ℤ pos 1 },
      )
      else (update s td (record t { runnable = true }), tdq)

  abbrev pub set_runq : Store → ℕ → QueueName → Store
  set_runq s td name = update s td (record (s td) { runq = some name })

  -- The choice of the queue, from the priority that the thread has.
  pub place : Store → Tdq → ℕ → Flags → Store × Tdq
  unfolding timeshare_slot
  place s tdq td flags =
      let pri = (s td).priority in
      if ltb pri k.min_batch
      then (let (s', rq) =
            runq_add k.machine (set_runq s td realtime) tdq.rq_realtime td flags.preempted in
          (s', record tdq { rq_realtime = rq }))
      else if leb pri k.max_batch
      then if not (is_root (s td))
        then (
          set_runq s td lottery,
          record tdq { rq_lottery = lottery_q_add k.machine tdq.rq_lottery td },
        )
        else (let (s', rq) =
              runq_add_pri k.machine (set_runq s td timeshare) tdq.rq_timeshare td
                (timeshare_slot tdq pri flags) flags.preempted in
            (s', record tdq { rq_timeshare = rq }))
      else (let (s', rq) = runq_add k.machine (set_runq s td idle) tdq.rq_idle td flags.preempted in
          (s', record tdq { rq_idle = rq }))

  pub tdq_runq_add : Store → Tdq → ℕ → Flags → Store × Tdq
  unfolding mark_runq place
  tdq_runq_add s tdq td flags = let (s', tdq') = mark_runq s tdq td in place s' tdq' td flags

  pub unmark : Store → Tdq → ℕ → Store × Tdq
  unmark s tdq td =
      let t = s td in
      if t.xferable
      then (
        update s td (record t { xferable = false }),
        record tdq { transferable = tdq.transferable -ℤ pos 1 },
      )
      else (s, tdq)

  abbrev or_old : Option ℕ → ℕ → ℕ
  or_old none old = old
  or_old (some i) old = i

  -- `none` is the failed assertion, a NULL ts_runq.
  pub unplace : Store → Tdq → ℕ → Option QueueName → Option Tdq
  unplace s tdq td none = none
  unplace s tdq td (some timeshare) =
      let (rq, ridx) =
        runq_remove_idx k.machine s tdq.rq_timeshare td
          (if not (tdq.idx == tdq.ridx) then some tdq.ridx else none) in
      some (record tdq { rq_timeshare = rq; ridx = or_old ridx tdq.ridx })
  unplace s tdq td (some lottery) =
      some (record tdq { rq_lottery = lottery_q_remove k.machine tdq.rq_lottery td })
  unplace s tdq td (some realtime) =
      some (record tdq { rq_realtime = runq_remove k.machine s tdq.rq_realtime td })
  unplace s tdq td (some idle) =
      some (record tdq { rq_idle = runq_remove k.machine s tdq.rq_idle td })

  abbrev pub with_store : Store → Option Tdq → Option (Store × Tdq)
  with_store s none = none
  with_store s (some tdq) = some (s, tdq)

  pub tdq_runq_rem : Store → Tdq → ℕ → Option (Store × Tdq)
  unfolding unmark unplace
  tdq_runq_rem s tdq td =
      let (s', tdq') = unmark s tdq td in with_store s' (unplace s' tdq' td (s td).runq)

  pub tdq_slice : Tdq → ℕ
  tdq_slice tdq =
      let load = tdq.sysload -ℤ pos 1 in
      if not (ltb_ℤ load (pos 6))
      then k.sched_slice_min
      else if not (ltb_ℤ (pos 1) load)
      then k.sched_slice
      else k.sched_slice / pos_part load

  -- tdq_choose, with the number that random() returns if the lottery is drawn.
  pub or_idle : Runq → Outcome → Outcome
  or_idle rq (returns (some td) line) = returns (some td) line
  or_idle rq (returns none line) = returns (runq_choose k.machine rq) none
  or_idle rq divides_by_zero = divides_by_zero
  or_idle rq null_dereference = null_dereference

  pub or_lottery : Store → Tdq → ℕ → Option ℕ → Outcome
  unfolding or_idle
  or_lottery s tdq rnd (some td) = returns (some td) none
  or_lottery s tdq rnd none = or_idle tdq.rq_idle (lottery_q_choose s tdq.rq_lottery true rnd)

  pub or_timeshare : Store → Tdq → ℕ → Option ℕ → Outcome
  unfolding or_lottery
  or_timeshare s tdq rnd (some td) = returns (some td) none
  or_timeshare s tdq rnd none =
      or_lottery s tdq rnd (runq_choose_from k.machine tdq.rq_timeshare tdq.ridx)

  pub tdq_choose : Store → Tdq → ℕ → Outcome
  unfolding or_timeshare
  tdq_choose s tdq rnd = or_timeshare s tdq rnd (runq_choose k.machine tdq.rq_realtime)

  -- tdq_setlowpri, from what tdq_choose returned and the priority of the current thread.
  unfoldable pub set_lowpri : Store → Tdq → ℕ → Option ℕ → Tdq
  set_lowpri s tdq cpri none = record tdq { lowpri = cpri }
  set_lowpri s tdq cpri (some td) = record tdq {
    lowpri = if ltb cpri (s td).priority then cpri else (s td).priority;
  }

  pub tdq_add : Store → Tdq → ℕ → Flags → Store × Tdq
  unfolding tdq_runq_add tdq_load_add
  tdq_add s tdq td flags =
      let tdq' =
        if ltb (s td).priority tdq.lowpri then record tdq { lowpri = (s td).priority } else tdq in
      let (s'', tdq'') = tdq_runq_add s tdq' td flags in (s'', tdq_load_add s'' tdq'' td)

  -- The part of sched_clock that turns the calendar.
  pub rotate : Tdq → Tdq
  rotate tdq =
      let tdq' = record tdq { oldswitchcnt = tdq.switchcnt; switchcnt = tdq.load } in
      if tdq.idx == tdq.ridx
      then (let idx = (tdq.idx + 1) % rq_nqs in
          record tdq' {
            idx = idx;
            ridx = if is_empty (tdq.rq_timeshare.queues tdq.ridx) then idx else tdq.ridx;
          })
      else tdq'
