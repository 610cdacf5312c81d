-- ===== src/Tdq/Reached.antt =====
-- What any sequence of threads queued and taken off and of clock ticks makes of the queues.
use free_bsd_messaround.Prelude.{
  ℕ, ◌<◌, ◌≡◌, refl, ap, ◌∙◌, Bool, true, false, Option, none, some, List, [], ◌∷◌, ltb,
  if◌then◌else◌, count, update, arith,
}
use free_bsd_messaround.Runq.{Store, QueueName, realtime, timeshare, lottery, idle, runq_init}
use free_bsd_messaround.Tdq.{
  Config, Flags, Tdq, tdq_setup, unmark, tdq_runq_add, tdq_runq_rem, tdq_load_add, tdq_add, rotate,
}
use free_bsd_messaround.Tdq.Removes.{
  queue_of, queue_of-same, unmark-index, unmark-priority, tdq_runq_rem-Off,
}
use free_bsd_messaround.Tdq.Slot.{InRange}
use free_bsd_messaround.Tdq.Places.{tdq_runq_add-Placed}
use free_bsd_messaround.Tdq.Linked.{IsLinked, Linked-same, Placed-IsLinked, Off-IsLinked}
use free_bsd_messaround.Tdq.Invariant.{
  IsValid, tdq_setup-IsValid, tdq_add-IsValid, tdq_runq_rem-IsValid, rotate-IsValid,
}

-- What a processor does to its queues: a thread is queued or taken off, and a clock tick.
pub data Call : Type 0 where
  adds : ℕ → Flags → Call
  removes : ℕ → Call
  ticks : Call

-- Which threads wait after a call.
abbrev pub waiting : Call → (ℕ → Bool) → ℕ → Bool
waiting (adds td flags) waits = update waits td true
waiting (removes td) waits = update waits td false
waiting ticks waits = waits

abbrev pub waiting_after : List Call → (ℕ → Bool) → ℕ → Bool
waiting_after [] waits = waits
waiting_after (c ∷ cs) waits = waiting_after cs (waiting c waits)

-- The call queues a thread that does not wait, or takes off one that does.
abbrev pub MayCall : (ℕ → Bool) → Call → Type 0
MayCall waits (adds td flags) = waits td ≡ false
MayCall waits (removes td) = waits td ≡ true
MayCall waits ticks = Unit

abbrev pub MayRun : (ℕ → Bool) → List Call → Type 0
MayRun waits [] = Unit
MayRun waits (c ∷ cs) = MayCall waits c × MayRun (waiting c waits) cs

abbrev then_run : Option (Store × Tdq) → (Store × Tdq → Option (Store × Tdq)) → Option (Store × Tdq)
then_run none next = none
then_run (some st) next = next st

module _ (k : Config) where
  unfoldable pub step : Store × Tdq → Call → Option (Store × Tdq)
  step (s, tdq) (adds td flags) = some (tdq_add k s tdq td flags)
  step (s, tdq) (removes td) = tdq_runq_rem k s tdq td
  step (s, tdq) ticks = some (s, rotate k tdq)

  unfoldable pub run : Store × Tdq → List Call → Option (Store × Tdq)
  run st [] = some st
  run st (c ∷ cs) = then_run (step st c) (λ next. run next cs)

  -- The queues are well formed and hold the threads that wait.
  pub record IsReached (waits : ℕ → Bool) (s : Store) (tdq : Tdq) : Type 0 where
    pub valid : IsValid k tdq
    pub linked : IsLinked waits s tdq
    pub priorities : (x : ℕ) → (s x).priority < 256

  none_waits : (x : ℕ) (name : QueueName) (p : ℕ) → count x ((queue_of tdq_setup name).queues p) ≡ 0
  unfolding tdq_setup runq_init
  none_waits x realtime p = refl
  none_waits x timeshare p = refl
  none_waits x lottery p = refl
  none_waits x idle p = refl

  start-IsReached :
      (s : Store) → ((x : ℕ) → (s x).priority < 256) → IsReached (λ x. false) s tdq_setup
  start-IsReached s low = record {
    valid = tdq_setup-IsValid k;
    linked = record { counted = none_waits; ranged = λ x w. absurd (cc) };
    priorities = low;
  }

  lowered-range :
      (tdq : Tdq) (b : Bool) (p : ℕ)
      → InRange tdq
      → InRange (if b then record tdq { lowpri = p } else tdq)
  lowered-range tdq true p r = r
  lowered-range tdq false p r = r

  lowered-queues :
      (tdq : Tdq) (b : Bool) (p : ℕ) (name : QueueName)
      → queue_of (if b then record tdq { lowpri = p } else tdq) name ≡ queue_of tdq name
  lowered-queues tdq true p = queue_of-same tdq (record tdq { lowpri = p }) refl refl refl refl
  lowered-queues tdq false p = λ name. refl

  tdq_load_add-queues :
      (s : Store) (tdq : Tdq) (td : ℕ) (name : QueueName)
      → queue_of (tdq_load_add s tdq td) name ≡ queue_of tdq name
  unfolding tdq_load_add
  tdq_load_add-queues s tdq td = queue_of-same tdq (tdq_load_add s tdq td) refl refl refl refl

  rotate-queues : (tdq : Tdq) (name : QueueName) → queue_of (rotate k tdq) name ≡ queue_of tdq name
  unfolding rotate
  rotate-queues tdq =
      queue_of-same tdq (rotate k tdq) (ground arith) (ground arith) (ground arith) (ground arith)

  tdq_add-IsReached :
      (waits : ℕ → Bool) (s : Store) (tdq : Tdq) (td : ℕ) (flags : Flags)
      → waits td ≡ false
      → IsReached waits s tdq
      → IsReached (update waits td true) (tdq_add k s tdq td flags).0 (tdq_add k s tdq td flags).1
  unfolding tdq_add
  tdq_add-IsReached waits s tdq td flags out r =
      let low =
        if ltb (s td).priority tdq.lowpri then record tdq { lowpri = (s td).priority } else tdq in
      let s' = (tdq_runq_add k s low td flags).0 in
      let tdq' = (tdq_runq_add k s low td flags).1 in
      let v = r.valid in
      let (i, j) = lowered-range tdq (ltb (s td).priority tdq.lowpri) (s td).priority (v.4, v.5) in
      let p = tdq_runq_add-Placed k s low td flags (r.priorities td) (i, j) in
      let same = lowered-queues tdq (ltb (s td).priority tdq.lowpri) (s td).priority in
      record {
        valid = tdq_add-IsValid k s tdq td flags v;
        linked = Linked-same _ s' tdq' _ (tdq_load_add-queues s' tdq' td) (
            Placed-IsLinked k waits s s' low tdq' td flags out
              (Linked-same waits s tdq low same r.linked) p);
        priorities = λ x. let q = r.priorities x in omega (arith, p.priority x, q);
      }

  tdq_runq_rem-IsReached :
      (waits : ℕ → Bool) (s : Store) (tdq : Tdq) (td : ℕ)
      → waits td ≡ true
      → IsReached waits s tdq
      → (s' : Store) × (tdq' : Tdq) × (tdq_runq_rem k s tdq td ≡ some (s', tdq'))
        × IsReached (update waits td false) s' tdq'
  tdq_runq_rem-IsReached waits s tdq td on r =
      let (name, f, i) = r.linked.ranged td on in
      let (tdq', e, off) = tdq_runq_rem-Off k s tdq td name f in
      let s' = (unmark k s tdq td).0 in
      (
        s',
        tdq',
        e,
        record {
          valid = tdq_runq_rem-IsValid k s tdq td s' tdq' r.valid e;
          linked =
              Off-IsLinked waits s s' tdq tdq' td name on f (unmark-index k s tdq td) r.linked off;
          priorities =
              λ x. let q = r.priorities x in omega (arith, unmark-priority k s tdq td x, q);
        },
      )

  step-IsReached :
      (waits : ℕ → Bool) (s : Store) (tdq : Tdq) (c : Call)
      → MayCall waits c
      → IsReached waits s tdq
      → (s' : Store) × (tdq' : Tdq) × (step (s, tdq) c ≡ some (s', tdq'))
        × IsReached (waiting c waits) s' tdq'
  unfolding step
  step-IsReached waits s tdq (adds td flags) h r =
      (_, _, refl, tdq_add-IsReached waits s tdq td flags h r)
  step-IsReached waits s tdq (removes td) h r = tdq_runq_rem-IsReached waits s tdq td h r
  step-IsReached waits s tdq ticks h r = (
    _,
    _,
    refl,
    record {
      valid = rotate-IsValid k tdq r.valid;
      linked = Linked-same waits s tdq (rotate k tdq) (rotate-queues tdq) r.linked;
      priorities = r.priorities;
    },
  )

  run-IsReached :
      (waits : ℕ → Bool) (s : Store) (tdq : Tdq) (cs : List Call)
      → MayRun waits cs
      → IsReached waits s tdq
      → (s' : Store) × (tdq' : Tdq) × (run (s, tdq) cs ≡ some (s', tdq'))
        × IsReached (waiting_after cs waits) s' tdq'
  unfolding run
  run-IsReached waits s tdq [] h r = (s, tdq, refl, r)
  run-IsReached waits s tdq (c ∷ cs) (h, hs) r =
      let (s1, tdq1, e, r1) = step-IsReached waits s tdq c h r in
      let (s2, tdq2, f, r2) = run-IsReached (waiting c waits) s1 tdq1 cs hs r1 in
      (s2, tdq2, ap (λ o. then_run o (λ next. run next cs)) e ∙ f, r2)

  -- After tdq_setup, with priorities below 256, any sequence of threads queued that do not wait, threads
  -- taken off that wait and clock ticks passes the assertion of tdq_runq_rem: every status bit of the
  -- four run queues agrees with its queue, both indices of the calendar are below RQ_NQS, and each
  -- thread that was queued and not taken off since stands exactly once, in the queue below RQ_NQS that
  -- its fields name, and no other thread stands in any queue.
  pub run-tdq_setup :
      (s : Store) (cs : List Call)
      → ((x : ℕ) → (s x).priority < 256)
      → MayRun (λ x. false) cs
      → (s' : Store) × (tdq' : Tdq) × (run (s, tdq_setup) cs ≡ some (s', tdq'))
        × IsReached (waiting_after cs (λ x. false)) s' tdq'
  run-tdq_setup s cs low may = run-IsReached (λ x. false) s tdq_setup cs may (start-IsReached s low)
