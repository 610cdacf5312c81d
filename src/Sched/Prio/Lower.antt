-- ===== src/Sched/Prio/Lower.antt =====
-- tdq_setlowpri returns on queues that are fit for a choice, and leaves them so.
use free_bsd_messaround.Prelude.{ℕ, ◌≡◌, refl, Option, none, some, update_self}
use free_bsd_messaround.Runq.{Store}
use free_bsd_messaround.Lottery.{Outcome, returns, divides_by_zero, null_dereference}
use free_bsd_messaround.Lottery.Draw.{NiceEnough}
use free_bsd_messaround.Tdq.{Config, Tdq, set_lowpri}
use free_bsd_messaround.Tdq.Invariant.{IsValid}
use free_bsd_messaround.Tdq.Choose.{Chosen, tdq_choose-Chosen}
use free_bsd_messaround.Smp.Move.{System, Board, lower, tdq_setlowpri}

-- The queues of a processor are fit for a choice.
abbrev pub IsFit : Config → Store → Tdq → Type 0
IsFit k threads tdq = IsValid k tdq × NiceEnough threads (tdq.rq_lottery.queues 0)

set_lowpri-IsFit :
    (k : Config) (s : Store) (tdq : Tdq) (cpri : ℕ) (r : Option ℕ)
    → IsFit k s tdq
    → IsFit k s (set_lowpri k s tdq cpri r)
unfolding set_lowpri
set_lowpri-IsFit k s tdq cpri none f = f
set_lowpri-IsFit k s tdq cpri (some td) f = f

module _ (b : Board) where
  -- The same threads on the same processors, and the queues of one of them still fit.
  pub record Lowered (s s' : System) (cpu : ℕ) : Type 0 where
    pub threads : s'.threads ≡ s.threads
    pub places : s'.ts_cpu ≡ s.ts_cpu
    pub fit : IsFit b.config s.threads (s'.tdq_cpu cpu)

  lower-Lowered :
      (s : System) (cpu ctd : ℕ) (o : Outcome)
      → IsFit b.config s.threads (s.tdq_cpu cpu)
      → Chosen b.config (s.tdq_cpu cpu) o
      → (s' : System) × (lower b s cpu ctd o ≡ some s') × Lowered s s' cpu
  unfolding lower
  lower-Lowered s cpu ctd (returns td line) f c = (
    _,
    refl,
    record {
      threads = refl;
      places = refl;
      fit =
          rw
            (update_self s.tdq_cpu cpu
              (set_lowpri b.config s.threads (s.tdq_cpu cpu) (s.threads ctd).priority td))
            (set_lowpri-IsFit b.config s.threads (s.tdq_cpu cpu) (s.threads ctd).priority td f);
    },
  )
  lower-Lowered s cpu ctd divides_by_zero f c = absurd c
  lower-Lowered s cpu ctd null_dereference f c = absurd c

  pub setlowpri-Lowered :
      (s : System) (cpu ctd : ℕ)
      → IsFit b.config s.threads (s.tdq_cpu cpu)
      → (s' : System) × (tdq_setlowpri b s cpu ctd ≡ some s') × Lowered s s' cpu
  unfolding tdq_setlowpri
  setlowpri-Lowered s cpu ctd f =
      lower-Lowered s cpu ctd _ f
        (tdq_choose-Chosen b.config s.threads (s.tdq_cpu cpu) (b.random s.draws) f.0 f.1)
