-- ===== src/Sched/Switch/Yields.antt =====
-- A thread that yields waits for its next turn, and the one that is due runs.
use free_bsd_messaround.Prelude.{
  none, inl, inr, ℕ, ◌^◌, ◌<◌, ◌≡◌, ◌≢◌, refl, sym, ap, ◌∙◌, Bool, true, false, ◌&&◌, not, some,
  update, update_self, subst, pos, ◌+ℤ◌, arith,
}
use free_bsd_messaround.Runq.{Store}
use free_bsd_messaround.Interact.{Usage}
use free_bsd_messaround.Tdq.{Tdq}
use free_bsd_messaround.Tdq.Invariant.{tdq_runq_add-IsValid}
use free_bsd_messaround.Lottery.{returns}
use free_bsd_messaround.Tdq.Choose.{Chosen}
use free_bsd_messaround.Tdq.Removes.{queue_of-same}
use free_bsd_messaround.Tdq.Places.{Placed, Placed-same, tdq_runq_add-Placed}
use free_bsd_messaround.Tdq.Linked.{IsLinked, Linked-fields, Placed-IsLinked}
use free_bsd_messaround.Tdq.Joins.{tdq_runq_add-Chosen}
use free_bsd_messaround.Tdq.Nice.{NiceEnough-same, tdq_runq_add-NiceEnough}
use free_bsd_messaround.Smp.Move.{System}
use free_bsd_messaround.Sched.Ticks.Window.{IsWindow, IsTimely, sched_pctcpu_update-IsWindow}
use free_bsd_messaround.Sched.Choose.{off_queue}
use free_bsd_messaround.Sched.Choose.Next.{Next}
use free_bsd_messaround.Sched.Prio.Lower.{IsFit}
use free_bsd_messaround.Sched.Add.{Host, State, self}
use free_bsd_messaround.Sched.Switch.{
  Chooser, Switching, leave, stay, give_up, choose, arrive, on_cpu, switch_to, switch_after,
  switch_from, sched_switch,
}
use free_bsd_messaround.Sched.Switch.Steps.{
  here, queued, give_up-stays, stay-here, Next-same, Chose, choose-Chose, Windows, Windows-update,
  Arrived, arrive-Arrived,
}

module _ (h : Host) (x : Chooser) (positive : 0 < h.settings.hz)
    (small : h.settings.hz < 2 ^ 17) where
  -- A running thread that may stay on its processor, and queues, nice values and windows in order.
  pub record IsYielding (w : Switching) (td : ℕ) : Type 0 where
    pub runs : w.state.running td ≡ true
    pub busy : h.board.is_idle td ≡ false
    pub place : w.state.sys.ts_cpu td ≡ self h
    pub allowed : h.board.allowed td (self h) ≡ true
    pub fit : IsFit h.board.config w.state.sys.threads (here h x w.state)
    pub priority : (w.state.sys.threads td).priority < 256
    pub nice : (n : ℕ) × ((w.state.sys.threads td).nice ≡ pos n)
    pub waits : ℕ → Bool
    pub unqueued : waits td ≡ false
    pub linked : IsLinked waits w.state.sys.threads (here h x w.state)
    pub windows : (u : ℕ) → IsWindow h.settings.hz (w.state.usage u)
    pub timely : IsTimely h.settings.hz h.ticks (w.state.usage td) true
    pub others : (u : ℕ) → u ≢ td → IsTimely h.settings.hz h.ticks (w.state.usage u) false

  -- The threads, with td_lastcpu of the one that gives up its processor.
  abbrev left : Switching → ℕ → Store
  left w td =
      update w.state.sys.threads td (record (w.state.sys.threads td) { lastcpu = w.oncpu td })

  -- The thread is on the queues, the one that is due among them all runs, and what was asked of the
  -- thread is no longer asked.
  pub record Switched (waits : ℕ → Bool) (w : Switching) (td : ℕ) (preempted : Bool)
      (w' : Switching) (newtd : ℕ) : Type 0 where
    pub joined :
        Placed h.board.config
          (left w td)
          (here h x w.state)
          td
          (record { borrowing = false; preempted = preempted })
          (queued h x w td preempted).0
          (queued h x w td preempted).1
    pub next :
        (threads : Store) × Next h.board.config x.idlethread
          (update waits td true)
          (queued h x w td preempted).0
          (queued h x w td preempted).1
          threads
          (here h x w'.state)
          newtd
        × (w'.state.sys.threads ≡ off_queue h.board.config x.idlethread threads newtd)
    pub due : Chosen h.board.config (queued h x w td preempted).1 (returns (some newtd) none)
    pub runs : (w'.state.running newtd ≡ true) × (w'.oncpu newtd ≡ self h)
    pub answered :
        (w'.state.needresched td ≡ false)
        × (w'.state.owepreempt td ≡ false)
        × (w'.sliceend td ≡ false)
    pub windows : (u : ℕ) → IsWindow h.settings.hz (w'.state.usage u)

  leave-here :
      (w : Switching) (td : ℕ) (u : Usage)
      → h.board.is_idle td ≡ false
      → here h x (leave h x w td u).state
        ≡ record (here h x w.state) { switchcnt = (here h x w.state).switchcnt +ℤ pos 1 }
  unfolding leave
  leave-here w td u busy = rw busy (update_self w.state.sys.tdq_cpu (self h) _)

  queued-Chosen :
      (w : Switching) (td : ℕ) (preempted : Bool)
      → IsYielding w td
      → ¬ (Chosen h.board.config (queued h x w td preempted).1 (returns none none))
  queued-Chosen w td preempted y =
      let s1 =
        update w.state.sys.threads td (record (w.state.sys.threads td) { lastcpu = w.oncpu td }) in
      let same : (s1 td).priority ≡ (w.state.sys.threads td).priority = ground arith in
      tdq_runq_add-Chosen h.board.config s1 _ td _ (omega (arith, same, y.priority))
        (y.fit.0.4, y.fit.0.5)

  -- If there is a thread to choose, it is chosen.
  Next-Chosen :
      (waits : ℕ → Bool) (s : Store) (tdq : Tdq) (s' : Store) (tdq' : Tdq) (newtd : ℕ)
      → ¬ (Chosen h.board.config tdq (returns none none))
      → Next h.board.config x.idlethread waits s tdq s' tdq' newtd
      → Chosen h.board.config tdq (returns (some newtd) none)
  Next-Chosen waits s tdq s' tdq' newtd some_due n = elim n.due [
    | inl c ↦ c.0
    | inr c ↦ absurd (some_due c.0)
  ]

  queued-IsFit :
      (w : Switching) (td : ℕ) (preempted : Bool)
      → IsYielding w td
      → IsFit h.board.config (queued h x w td preempted).0 (queued h x w td preempted).1
  queued-IsFit w td preempted y =
      let s1 =
        update w.state.sys.threads td (record (w.state.sys.threads td) { lastcpu = w.oncpu td }) in
      let same : (u : ℕ) → (s1 u).nice ≡ (w.state.sys.threads u).nice = λ u. ground arith in
      let (n, e) = y.nice in
      (
        tdq_runq_add-IsValid h.board.config s1 _ td _ y.fit.0,
        tdq_runq_add-NiceEnough h.board.config s1 _ td n _ (same td ∙ e)
            (NiceEnough-same w.state.sys.threads s1 _ same y.fit.1),
      )

  switch_from-some :
      (w : Switching) (td newtd : ℕ) (preempted : Bool) (u : Usage) (s2 s3 s4 : State)
      → give_up h x (leave h x w td u).state td preempted ≡ some s2
      → choose h x s2 ≡ some (s3, newtd)
      → arrive h x s3 td newtd ≡ some s4
      → switch_from h x w td preempted (some u) ≡ on_cpu h x (leave h x w td u) newtd (some s4)
  switch_from-some w td newtd preempted u s2 s3 s4 g f a =
      let w1 = leave h x w td u in
      ap (switch_after h x w1 td) g ∙ ap (switch_to h x w1 td) f ∙ ap (on_cpu h x w1 newtd) a

  leave-Windows :
      (w : Switching) (td : ℕ) (u : Usage)
      → IsYielding w td
      → IsWindow h.settings.hz u
      → Windows h x (leave h x w td u).state
  unfolding leave
  leave-Windows w td u y v = Windows-update h x w.state td u y.windows v

  leave-others :
      (w : Switching) (td v : ℕ) (u : Usage)
      → v ≢ td
      → (leave h x w td u).state.usage v ≡ w.state.usage v
  unfolding leave
  leave-others w td v u ne = ground (arith, ne)

  -- What was asked of the thread is taken back.
  leave-answered :
      (w : Switching) (td : ℕ) (u : Usage)
      → ((leave h x w td u).state.needresched td ≡ false)
        × ((leave h x w td u).state.owepreempt td ≡ false)
        × ((leave h x w td u).sliceend td ≡ false)
  unfolding leave
  leave-answered w td u = (ground arith, ground arith, ground arith)

  gives_up :
      (w : Switching) (td : ℕ) (u : Usage) (preempted : Bool)
      → IsYielding w td
      → give_up h x (leave h x w td u).state td preempted
        ≡ some (
            stay h x
              (leave h x w td u).state
              td
              (record { borrowing = false; preempted = preempted }))
  unfolding leave
  gives_up w td u preempted y =
      give_up-stays h x (leave h x w td u).state td preempted y.busy y.runs y.place y.allowed

  stays_queued :
      (w : Switching) (td : ℕ) (u : Usage) (preempted : Bool)
      → IsYielding w td
      → let s2 =
          stay h x
            (leave h x w td u).state
            td
            (record { borrowing = false; preempted = preempted }) in
        (here h x s2 ≡ (queued h x w td preempted).1)
        × (s2.sys.threads ≡ (queued h x w td preempted).0)
  unfolding leave
  stays_queued w td u preempted y =
      stay-here h x (leave h x w td u).state td _ _ (leave-here w td u y.busy)

  -- The thread stays, is counted and may be chosen again; the rest of the state is as it was.
  stayed :
      (w : Switching) (td : ℕ) (u : Usage) (preempted : Bool)
      → IsYielding w td
      → (s2 : State) × (give_up h x (leave h x w td u).state td preempted ≡ some s2)
        × (here h x s2 ≡ (queued h x w td preempted).1)
        × (s2.sys.threads ≡ (queued h x w td preempted).0)
        × (s2.usage ≡ (leave h x w td u).state.usage)
        × (s2.needresched ≡ (leave h x w td u).state.needresched)
        × (s2.owepreempt ≡ (leave h x w td u).state.owepreempt)
  unfolding stay
  stayed w td u preempted y =
      let (e, f) = stays_queued w td u preempted y in
      (_, gives_up w td u preempted y, e, f, refl, refl, refl)

  queued-Placed :
      (w : Switching) (td : ℕ) (preempted : Bool)
      → IsYielding w td
      → Placed h.board.config
          (left w td)
          (here h x w.state)
          td
          (record { borrowing = false; preempted = preempted })
          (queued h x w td preempted).0
          (queued h x w td preempted).1
  queued-Placed w td preempted y =
      let counted = record (here h x w.state) {
        switchcnt = (here h x w.state).switchcnt +ℤ pos 1;
      } in
      let same : (left w td td).priority ≡ (w.state.sys.threads td).priority = ground arith in
      Placed-same h.board.config (left w td) (here h x w.state) counted td _ _ _
        (queue_of-same (here h x w.state) counted refl refl refl refl)
        (tdq_runq_add-Placed h.board.config (left w td) counted td _
          (omega (arith, same, y.priority)) (y.fit.0.4, y.fit.0.5))

  left-IsLinked :
      (w : Switching) (td : ℕ)
      → (y : IsYielding w td) → IsLinked y.waits (left w td) (here h x w.state)
  left-IsLinked w td y =
      Linked-fields y.waits w.state.sys.threads (left w td) (here h x w.state)
        (λ u. (ground arith, ground arith)) y.linked

  queued-IsLinked :
      (w : Switching) (td : ℕ) (preempted : Bool)
      → (y : IsYielding w td)
      → IsLinked
          (update y.waits td true)
          (queued h x w td preempted).0
          (queued h x w td preempted).1
  queued-IsLinked w td preempted y =
      Placed-IsLinked h.board.config y.waits (left w td) _ (here h x w.state) _ td _ y.unqueued
        (left-IsLinked w td y) (queued-Placed w td preempted y)

  switched :
      (w : Switching) (td newtd : ℕ) (u : Usage) (preempted : Bool) (s2 s3 s4 : State)
      → (y : IsYielding w td) → here h x s2 ≡ (queued h x w td preempted).1
      → s2.sys.threads ≡ (queued h x w td preempted).0
      → s2.needresched ≡ (leave h x w td u).state.needresched
      → s2.owepreempt ≡ (leave h x w td u).state.owepreempt
      → Chose h x (update y.waits td true) s2 newtd s3
      → Arrived h x s3 s4
      → Switched y.waits w td preempted
          (record (leave h x w td u) {
            state = s4;
            oncpu = update (leave h x w td u).oncpu newtd (self h);
          })
          newtd
  switched w td newtd u preempted s2 s3 s4 y e f r o c a =
      let (threads, n, t) = c.next in
      let (p, q, z) = leave-answered w td u in
      let queues = ap (λ (m : System). m.tdq_cpu (self h)) a.sys in
      let n' = Next-same h x _ _ _ _ _ threads _ _ newtd f e (sym queues) n in
      record {
        joined = queued-Placed w td preempted y;
        next = (threads, n', ap (λ (m : System). m.threads) a.sys ∙ t);
        due = Next-Chosen _ _ _ _ _ newtd (queued-Chosen w td preempted y) n';
        runs = (
          ap (λ (m : ℕ → Bool). m newtd) a.running ∙ c.running,
          update_self (leave h x w td u).oncpu newtd (self h),
        );
        answered = (
          ap (λ (m : ℕ → Bool). m td) (a.needresched ∙ c.needresched ∙ r) ∙ p,
          ap (λ (m : ℕ → Bool). m td) (a.owepreempt ∙ c.owepreempt ∙ o) ∙ q,
          z,
        );
        windows = a.windows;
      }

  -- For a running thread that may stay on its processor and waits on no queue, while no panic is on,
  -- with hz below 2^17, queues in order on which each waiting thread stands once, where its fields
  -- say, and no other thread stands, a priority below 256, no negative nice value that counts, and
  -- windows that are updated in time, sched_switch returns: the thread is put on the run queue of its
  -- priority and user, in the queue that its fields name from then on, the thread that is due among
  -- them all is taken off its queue and runs next, the flags that asked the first one to yield are
  -- cleared, and all windows stay within their bounds.
  pub sched_switch-Switched :
      (w : Switching) (td : ℕ) (preempt : Bool)
      → x.panicstr ≡ false
      → (y : IsYielding w td)
      → (w' : Switching) × (newtd : ℕ) × (sched_switch h x w td preempt ≡ some (w', newtd))
        × Switched y.waits w td (not (w.sliceend td) && preempt) w' newtd
  unfolding sched_switch
  sched_switch-Switched w td preempt calm y =
      let preempted = not (w.sliceend td) && preempt in
      let (u, e, v) =
        sched_pctcpu_update-IsWindow h.settings.hz positive (omega (arith, small)) h.ticks
          (w.state.usage td) true (y.windows td) y.timely in
      let (s2, g, q, t, usage, r, o) = stayed w td u preempted y in
      let fit =
        subst (λ (m : Store). IsFit h.board.config m (here h x s2)) (sym t)
          (subst (λ (m : Tdq). IsFit h.board.config (queued h x w td preempted).0 m) (sym q)
            (queued-IsFit w td preempted y)) in
      let linked =
        subst (λ (m : Store). IsLinked (update y.waits td true) m (here h x s2)) (sym t)
          (subst (λ (m : Tdq). IsLinked (update y.waits td true) (queued h x w td preempted).0 m)
            (sym q) (queued-IsLinked w td preempted y)) in
      let (s3, newtd, f, c) = choose-Chose h x (update y.waits td true) s2 calm linked fit in
      let same : (leave h x w td u).state.usage ≡ s3.usage = sym (c.usage ∙ usage) in
      let all =
        subst (λ (m : ℕ → Usage). (n : ℕ) → IsWindow h.settings.hz (m n)) same
          (leave-Windows w td u y v) in
      let timely : newtd ≢ td → IsTimely h.settings.hz h.ticks (s3.usage newtd) false = λ ne.
        subst (λ (m : ℕ → Usage). IsTimely h.settings.hz h.ticks (m newtd) false) same
          (subst (λ z. IsTimely h.settings.hz h.ticks z false) (sym (leave-others w td newtd u ne))
            (y.others newtd ne)) in
      let (s4, a, b) = arrive-Arrived h x positive (omega (arith, small)) s3 td newtd all timely in
      (
        _,
        newtd,
        ap (switch_from h x w td preempted) e
            ∙ switch_from-some w td newtd preempted u s2 s3 s4 g f a,
        switched w td newtd u preempted s2 s3 s4 y q t r o c b,
      )
