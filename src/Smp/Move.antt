-- ===== src/Smp/Move.antt =====
-- sched_rem, tdq_move, tdq_notify, sched_balance_pair and sched_balance_group of
-- asgn2/kern/sched_ule.c, by which threads go from one processor to another.
use free_bsd_messaround.Prelude.{
  ℕ, ◌+◌, Bool, true, false, ◌&&◌, ◌||◌, not, Option, none, some, List, ◌∷◌, ◌==◌, if◌then◌else◌,
  update, pos_part, neg_part, ltb_ℤ,
}
use free_bsd_messaround.Runq.{Store}
use free_bsd_messaround.Lottery.{Outcome, returns, divides_by_zero, null_dereference}
use free_bsd_messaround.Tdq.{
  Config, Tdq, tdq_runq_rem, tdq_load_rem, tdq_choose, set_lowpri, tdq_add, sched_shouldpreempt,
}
use free_bsd_messaround.Steal.{tdq_steal, can_move}

-- The threads, the queues of the processors, ts_cpu of each thread, pc_curthread and
-- tdq_ipipending of each processor, the processors that an interrupt was sent to, the state
-- randomval, and how often tdq_choose was called, each time with the next answer of random() at hand.
pub record System : Type 0 where
  pub threads : Store
  pub tdq_cpu : ℕ → Tdq
  pub ts_cpu : ℕ → ℕ
  pub ipipending : ℕ → Bool
  pub ipis : List ℕ
  pub randomval : ℕ
  pub draws : ℕ

-- What does not change: pc_curthread of each processor, the idle threads, tdq_cpu_idle and the
-- answer of cpu_idle_wakeup, the processor sets of the threads, and the answers of random().
pub record Board : Type 0 where
  pub config : Config
  pub mp_maxid : ℕ
  pub self : ℕ
  pub curthread : ℕ → ℕ
  pub is_idle : ℕ → Bool
  pub tdq_cpu_idle : ℕ → Bool
  pub cpu_idle_wakeup : ℕ → Bool
  pub allowed : ℕ → ℕ → Bool
  pub random : ℕ → ℕ

module _ (b : Board) where
  -- tdq_setlowpri with the thread `ctd`, from what tdq_choose gives; `none` is a fault in the lottery.
  unfoldable pub lower : System → ℕ → ℕ → Outcome → Option System
  lower s cpu ctd (returns td line) = some (record s {
    tdq_cpu =
        update s.tdq_cpu cpu
          (set_lowpri b.config s.threads (s.tdq_cpu cpu) (s.threads ctd).priority td);
    draws = s.draws + 1;
  })
  lower s cpu ctd divides_by_zero = none
  lower s cpu ctd null_dereference = none

  unfoldable pub tdq_setlowpri : System → ℕ → ℕ → Option System
  tdq_setlowpri s cpu ctd =
      lower s cpu ctd (tdq_choose b.config s.threads (s.tdq_cpu cpu) (b.random s.draws))

  -- What follows the removal: tdq_load_rem and TD_SET_CAN_RUN.
  unfoldable pub take_off : System → ℕ → Option (Store × Tdq) → Option System
  take_off s td none = none
  take_off s td (some (threads, tdq)) = some (record s {
    threads = update threads td (record (threads td) { runnable = false });
    tdq_cpu = update s.tdq_cpu (s.ts_cpu td) (tdq_load_rem threads tdq td);
  })

  unfoldable pub relower : ℕ → ℕ → Option System → Option System
  relower td cpu none = none
  relower td cpu (some s) =
      if (s.threads td).priority == (s.tdq_cpu cpu).lowpri
      then tdq_setlowpri s cpu (b.curthread cpu)
      else some s

  -- `none` is a fault in the lottery or a thread without a queue.
  unfoldable pub sched_rem : System → ℕ → Option System
  sched_rem s td =
      let cpu = s.ts_cpu td in
      relower td cpu (take_off s td (tdq_runq_rem b.config s.threads (s.tdq_cpu cpu) td))

  -- The end of tdq_move: SRQ_YIELDING is neither of the flags that tdq_add reads.
  unfoldable pub put_on : System → ℕ → ℕ → System
  put_on s td to =
      let (threads, tdq) =
        tdq_add b.config s.threads (s.tdq_cpu to) td
          (record { borrowing = false; preempted = false }) in
      record s {
        threads = threads;
        tdq_cpu = update s.tdq_cpu to tdq;
        ts_cpu = update s.ts_cpu td to;
      }

  abbrev pub then_put : ℕ → ℕ → Option System → Option (System × Option ℕ)
  then_put td to none = none
  then_put td to (some s) = some (put_on s td to, some td)

  unfoldable pub move : System → ℕ → Option ℕ → Option (System × Option ℕ)
  move s to none = some (s, none)
  move s to (some td) = then_put td to (sched_rem s td)

  -- The thread that was moved, if there was one.
  unfoldable pub tdq_move : System → ℕ → ℕ → Option (System × Option ℕ)
  tdq_move s from to =
      move s to (tdq_steal b.config (can_move b.allowed s.threads to) (s.tdq_cpu from))

  unfoldable pub tdq_notify : System → ℕ → ℕ → System
  tdq_notify s tdq td =
      let cpu = s.ts_cpu td in
      let ctd = b.curthread cpu in
      if s.ipipending tdq
      then s
      else if not
          (sched_shouldpreempt b.config (s.threads td).priority (s.threads ctd).priority true)
      then s
      else if b.is_idle ctd && (not (b.tdq_cpu_idle tdq) || b.cpu_idle_wakeup cpu)
      then s
      else record s { ipipending = update s.ipipending tdq true; ipis = cpu ∷ s.ipis }

  unfoldable pub notify_moved : ℕ → Option (System × Option ℕ) → Option (System × Bool)
  notify_moved low none = none
  notify_moved low (some (s, none)) = some (s, false)
  notify_moved low (some (s, some td)) =
      some (if low == b.self then s else tdq_notify s low td, true)

  -- Whether a thread was moved.
  unfoldable pub sched_balance_pair : System → ℕ → ℕ → Option (System × Bool)
  sched_balance_pair s high low =
      let t = (s.tdq_cpu high).transferable in
      if not (pos_part t + neg_part t == 0) && ltb_ℤ (s.tdq_cpu low).load (s.tdq_cpu high).load
      then notify_moved low (tdq_move s high low)
      else some (s, false)
