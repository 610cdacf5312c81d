-- ===== src/Sched/Choose/Next.antt =====
-- sched_choose takes the thread that is next, or the idle thread.
use free_bsd_messaround.Prelude.{
  ℕ, ◌≡◌, ◌⊎◌, ◌<◌, refl, ap, ◌∙◌, inl, inr, Bool, true, false, none, some, List, [], ◌∷◌, has,
  count, update, arith,
}
use free_bsd_messaround.Runq.{Runq, Store, QueueName, realtime, timeshare, lottery, idle}
use free_bsd_messaround.Lottery.{Outcome, returns, divides_by_zero, null_dereference}
use free_bsd_messaround.Lottery.Draw.{NiceEnough}
use free_bsd_messaround.Tdq.{Config, Tdq, unmark, tdq_choose}
use free_bsd_messaround.Tdq.Removes.{
  queue_of, queue_of-same, slot, Off, unmark-index, tdq_runq_rem-Off,
}
use free_bsd_messaround.Tdq.Linked.{IsLinked, Linked-count, Linked-waits, Off-IsLinked}
use free_bsd_messaround.Tdq.Invariant.{IsValid, tdq_runq_rem-IsValid}
use free_bsd_messaround.Tdq.Choose.{Chosen, tdq_choose-Chosen}
use free_bsd_messaround.Sched.Choose.{runs_at, take, sched_choose}

-- The thread is off the queue that its fields name, where it stood, and waits no more; the rest of
-- the queues is as it was. Of the threads only TSF_XFERABLE of this one has changed.
pub record Leaves (k : Config) (waits : ℕ → Bool) (s : Store) (tdq : Tdq) (s' : Store) (tdq' : Tdq)
    (td : ℕ) : Type 0 where
  pub name : QueueName
  pub named : (s td).runq ≡ some name
  pub stood : 0 < count td ((queue_of tdq name).queues (slot (s td).rqindex name))
  pub off : Off name (slot (s td).rqindex name) td tdq tdq'
  pub linked : IsLinked (update waits td false) s' tdq'
  pub threads : s' ≡ (unmark k s tdq td).0

count-head : (td : ℕ) (q rest : List ℕ) → q ≡ td ∷ rest → 0 < count td q
count-head td [] rest e = absurd (cc)
count-head td (x ∷ q) rest e = let same : x ≡ td = cc in ground (arith, same)

count-has : (td : ℕ) (q : List ℕ) → has td q ≡ true → 0 < count td q
count-has td [] h = absurd (cc)
count-has td (x ∷ q) h = ground (arith, count-has td q, h)

-- Where the thread that is due stands.
due_stands :
    (k : Config) (tdq : Tdq) (td : ℕ)
    → Chosen k tdq (returns (some td) none)
    → (name : QueueName) × (p : ℕ) × (0 < count td ((queue_of tdq name).queues p))
due_stands k tdq td (inl (p, rest, l, e, f)) = (realtime, p, count-head td _ rest e)
due_stands k tdq td (inr (inl (r, (p, rest, l, e, f)))) = (timeshare, p, count-head td _ rest e)
due_stands k tdq td (inr (inr (inl (r, t, h)))) = (lottery, 0, count-has td _ h)
due_stands k tdq td (inr (inr (inr (r, t, q, (p, rest, l, e, f))))) =
    (idle, p, count-head td _ rest e)

module _ (k : Config) (idlethread : ℕ) (waits : ℕ → Bool) where
  -- The thread is the one that is due, with its priority as lowpri, and has left the queues; or none
  -- is due, and the idle thread runs.
  pub record Next (s : Store) (tdq : Tdq) (s' : Store) (tdq' : Tdq) (td : ℕ) : Type 0 where
    pub valid : IsValid k tdq'
    pub due :
        (Chosen k tdq (returns (some td) none)
          × (tdq'.lowpri ≡ (s td).priority)
          × Leaves k waits s tdq s' tdq' td)
        ⊎ (Chosen k tdq (returns none none)
            × (td ≡ idlethread)
            × (tdq'.lowpri ≡ k.max_idle)
            × (s' ≡ s))

  lower-Off :
      (name : QueueName) (p td pri : ℕ) (tdq tdq' : Tdq)
      → Off name p td tdq tdq'
      → Off name p td tdq (record tdq' { lowpri = pri })
  lower-Off name p td pri tdq tdq' o =
      let same = queue_of-same tdq' (record tdq' { lowpri = pri }) refl refl refl refl in
      record {
        here = λ q. ap (λ (r : Runq). r.queues q) (same name) ∙ o.here q;
        others = λ x ne. same x ∙ o.others x ne;
      }

  take-Next :
      (s : Store) (tdq : Tdq) (o : Outcome)
      → IsValid k tdq
      → IsLinked waits s tdq
      → Chosen k tdq o
      → (s' : Store) × (tdq' : Tdq) × (td : ℕ) × (take k idlethread s tdq o ≡ some (s', tdq', td))
        × Next s tdq s' tdq' td
  unfolding take
  take-Next s tdq (returns (some td) line) v l c =
      let (home, p, n) = due_stands k tdq td c in
      let on = Linked-waits waits s tdq td home p n l in
      let (name, f, i) = l.ranged td on in
      let (tdq1, e, o) = tdq_runq_rem-Off k s tdq td name f in
      let s1 = (unmark k s tdq td).0 in
      let off = lower-Off name _ td (s td).priority tdq tdq1 o in
      (
        s1,
        record tdq1 { lowpri = (s td).priority },
        td,
        ap (runs_at k idlethread (s td).priority td) e,
        record {
          valid = tdq_runq_rem-IsValid k s tdq td s1 tdq1 v e;
          due = inl (
            c,
            refl,
            record {
              name = name;
              named = f;
              stood = Linked-count waits s tdq td name on f l;
              off = off;
              linked = Off-IsLinked waits s s1 tdq _ td name on f (unmark-index k s tdq td) l off;
              threads = refl;
            },
          );
        },
      )
  take-Next s tdq (returns none line) v l c =
      (_, _, idlethread, refl, record { valid = v; due = inr (c, refl, refl, refl) })
  take-Next s tdq divides_by_zero v l c = absurd c
  take-Next s tdq null_dereference v l c = absurd c

  -- With the queues well formed, each waiting thread standing once, in the queue that its fields
  -- name, and no other thread standing there, and no negative nice value among the queued lottery
  -- threads: sched_choose returns the thread that is due, with its priority as the lowest of the
  -- processor, and takes it off the queue where it stood, so that it stands nowhere and all others
  -- stand where they did; or it returns the idle thread when all queues are empty. The queues stay
  -- well formed.
  pub sched_choose-Next :
      (s : Store) (tdq : Tdq) (rnd : ℕ)
      → IsValid k tdq
      → IsLinked waits s tdq
      → NiceEnough s (tdq.rq_lottery.queues 0)
      → (s' : Store) × (tdq' : Tdq) × (td : ℕ) × (sched_choose k idlethread s tdq rnd
          ≡ some (s', tdq', td))
        × Next s tdq s' tdq' td
  unfolding sched_choose
  sched_choose-Next s tdq rnd v l n =
      take-Next s tdq (tdq_choose k s tdq rnd) v l (tdq_choose-Chosen k s tdq rnd v n)
