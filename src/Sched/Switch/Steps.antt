-- ===== src/Sched/Switch/Steps.antt =====
-- The steps of sched_switch: what giving up, choosing and arriving leave of the state.
use free_bsd_messaround.Prelude.{
  ℕ, ◌^◌, ◌<◌, ◌≡◌, ◌≢◌, refl, ap, ◌∙◌, inl, inr, Bool, true, false, some, ◌==◌, ==_self,
  Bool-cases, update, update_self, subst, pos, ◌+ℤ◌, arith,
}
use free_bsd_messaround.Runq.{Store}
use free_bsd_messaround.Interact.{Usage}
use free_bsd_messaround.Tdq.Linked.{IsLinked}
use free_bsd_messaround.Tdq.{Flags, Tdq, tdq_runq_add}
use free_bsd_messaround.Sched.Ticks.Window.{IsWindow, IsTimely, sched_pctcpu_update-IsWindow}
use free_bsd_messaround.Sched.Choose.{sched_choose, choosethread, set_running, off_queue}
use free_bsd_messaround.Sched.Choose.Next.{Next, sched_choose-Next}
use free_bsd_messaround.Sched.Prio.Lower.{IsFit}
use free_bsd_messaround.Sched.Add.{Host, State, self}
use free_bsd_messaround.Sched.Switch.{
  Chooser, Switching, repick, stay, requeue, give_up, enter, choose, with_window, arrive,
}

module _ (h : Host) (x : Chooser) where
  abbrev pub here : State → Tdq
  here s = s.sys.tdq_cpu (self h)

  -- The queues of the processor with the thread on them, which has given up the processor.
  abbrev pub queued : Switching → ℕ → Bool → Store × Tdq
  queued w td preempted =
      tdq_runq_add h.board.config
        (update w.state.sys.threads td (record (w.state.sys.threads td) { lastcpu = w.oncpu td }))
        (record (here w.state) { switchcnt = (here w.state).switchcnt +ℤ pos 1 }) td
        (record { borrowing = false; preempted = preempted })

  repick-same :
      (s : State) (td : ℕ) → h.board.allowed td (s.sys.ts_cpu td) ≡ true → repick h x s td ≡ some s
  unfolding repick
  repick-same s td e = rw e (ground arith)

  pub give_up-stays :
      (s : State) (td : ℕ) (preempted : Bool)
      → h.board.is_idle td ≡ false
      → s.running td ≡ true
      → s.sys.ts_cpu td ≡ self h
      → h.board.allowed td (self h) ≡ true
      → give_up h x s td preempted
        ≡ some (stay h x s td (record { borrowing = false; preempted = preempted }))
  unfolding give_up requeue
  give_up-stays s td preempted busy runs place allowed = rw busy (
      rw runs (
        rw (repick-same s td (ap (h.board.allowed td) place ∙ allowed))
          (rw place (rw (==_self (self h)) refl))))

  pub stay-here :
      (s : State) (td : ℕ) (flags : Flags) (tdq : Tdq)
      → here s ≡ tdq
      → (here (stay h x s td flags) ≡ (tdq_runq_add h.board.config s.sys.threads tdq td flags).1)
        × ((stay h x s td flags).sys.threads
            ≡ (tdq_runq_add h.board.config s.sys.threads tdq td flags).0)
  unfolding stay
  stay-here s td flags tdq e = (
    update_self s.sys.tdq_cpu (self h) _
        ∙ ap (λ q. (tdq_runq_add h.board.config s.sys.threads q td flags).1) e,
    ap (λ q. (tdq_runq_add h.board.config s.sys.threads q td flags).0) e,
  )

  pub Next-same :
      (waits : ℕ → Bool) (s s' : Store) (q q' : Tdq) (threads : Store) (r r' : Tdq) (td : ℕ)
      → s ≡ s'
      → q ≡ q'
      → r ≡ r'
      → Next h.board.config x.idlethread waits s q threads r td
      → Next h.board.config x.idlethread waits s' q' threads r' td
  Next-same waits s s' q q' threads r r' td e f g n =
      let k = h.board.config in
      subst (λ (a : Store). Next k x.idlethread waits a q' threads r' td) e
        (subst (λ (a : Tdq). Next k x.idlethread waits s a threads r' td) f
          (subst (λ (a : Tdq). Next k x.idlethread waits s q threads a td) g n))

  -- The thread that runs next, with its queues.
  pub record Chose (waits : ℕ → Bool) (s : State) (newtd : ℕ) (s' : State) : Type 0 where
    pub next :
        (threads : Store) × Next h.board.config x.idlethread waits s.sys.threads
          (here s)
          threads
          (here s')
          newtd
        × (s'.sys.threads ≡ off_queue h.board.config x.idlethread threads newtd)
    pub running : s'.running newtd ≡ true
    pub usage : s'.usage ≡ s.usage
    pub needresched : s'.needresched ≡ s.needresched
    pub owepreempt : s'.owepreempt ≡ s.owepreempt

  enter-Chose :
      (waits : ℕ → Bool) (s : State) (threads : Store) (tdq : Tdq) (newtd : ℕ)
      → Next h.board.config x.idlethread waits s.sys.threads (here s) threads tdq newtd
      → (s' : State) × (enter h x s
            (some (off_queue h.board.config x.idlethread threads newtd, tdq, newtd))
          ≡ some (s', newtd))
        × Chose waits s newtd s'
  unfolding enter
  enter-Chose waits s threads tdq newtd n = (
    _,
    refl,
    record {
      next = (threads, rw (update_self s.sys.tdq_cpu (self h) tdq) n, refl);
      running = update_self s.running newtd true;
      usage = refl;
      needresched = refl;
      owepreempt = refl;
    },
  )

  choosethread_calm :
      (panicking : Bool) (random : ℕ → ℕ) (s : Store) (tdq : Tdq) (rnd : ℕ)
      → panicking ≡ false
      → choosethread h.board.config x.idlethread panicking x.passes random x.rounds s tdq rnd
        ≡ set_running h.board.config x.idlethread
            (sched_choose h.board.config x.idlethread s tdq rnd)
  unfolding choosethread
  choosethread_calm panicking random s tdq rnd e = rw e refl

  pub choose-Chose :
      (waits : ℕ → Bool) (s : State)
      → x.panicstr ≡ false
      → IsLinked waits s.sys.threads (here s)
      → IsFit h.board.config s.sys.threads (here s)
      → (s' : State) × (newtd : ℕ) × (choose h x s ≡ some (s', newtd)) × Chose waits s newtd s'
  unfolding choose
  choose-Chose waits s calm l (v, n) =
      let (threads, tdq, newtd, e, p) =
        sched_choose-Next h.board.config x.idlethread waits s.sys.threads (here s)
          (h.board.random s.sys.draws) v l n in
      let (s', f, c) = enter-Chose waits s threads tdq newtd p in
      let running = set_running h.board.config x.idlethread in
      let same = choosethread_calm x.panicstr _ s.sys.threads (here s) _ calm in
      (s', newtd, ap (enter h x s) (same ∙ ap running e) ∙ f, c)

  abbrev pub Windows : State → Type 0
  Windows s = (u : ℕ) → IsWindow h.settings.hz (s.usage u)

  pub Windows-update :
      (s : State) (td : ℕ) (usage : Usage)
      → Windows s
      → IsWindow h.settings.hz usage
      → (u : ℕ) → IsWindow h.settings.hz (update s.usage td usage u)
  Windows-update s td usage all one u = elim (Bool-cases (u == td)) [
    | inl e ↦ rw e one
    | inr e ↦ rw e (all u)
  ]

  -- Only the window of the new thread changes.
  pub record Arrived (s s' : State) : Type 0 where
    pub windows : Windows s'
    pub sys : s'.sys ≡ s.sys
    pub running : s'.running ≡ s.running
    pub needresched : s'.needresched ≡ s.needresched
    pub owepreempt : s'.owepreempt ≡ s.owepreempt

  module _ (positive : 0 < h.settings.hz) (small : h.settings.hz < 2 ^ 20) where
    pub arrive-Arrived :
        (s : State) (td newtd : ℕ)
        → Windows s
        → (newtd ≢ td → IsTimely h.settings.hz h.ticks (s.usage newtd) false)
        → (s' : State) × (arrive h x s td newtd ≡ some s') × Arrived s s'
    unfolding arrive
    arrive-Arrived s td newtd all timely = elim (Bool-cases (td == newtd)) [
      | inl e ↦ (
        s,
        rw e refl,
        record { windows = all; sys = refl; running = refl; needresched = refl; owepreempt = refl },
      )
      | inr e ↦
          let (u, f, v) =
            sched_pctcpu_update-IsWindow h.settings.hz positive small h.ticks (s.usage newtd) false
              (all newtd) (timely (ground (arith, e))) in
          (
            record s { usage = update s.usage newtd u },
            rw e (ap (with_window h x s newtd) f),
            record {
              windows = Windows-update s newtd u all v;
              sys = refl;
              running = refl;
              needresched = refl;
              owepreempt = refl;
            },
          )
    ]
