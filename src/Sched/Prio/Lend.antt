-- ===== src/Sched/Prio/Lend.antt =====
-- A priority that was lent is given back.
use free_bsd_messaround.Prelude.{
  ℕ, min, ◌≡◌, refl, sym, ap, ◌∙◌, inl, inr, Bool, true, false, some, arith, leb, ltb, ◌==◌, subst,
  Bool-cases, update, update_self,
}
use free_bsd_messaround.Runq.{Store}
use free_bsd_messaround.Tdq.{Tdq}
use free_bsd_messaround.Tdq.Nice.{NiceEnough-same}
use free_bsd_messaround.Smp.Move.{System}
use free_bsd_messaround.Sched.Add.{Host, State}
use free_bsd_messaround.Sched.Prio.{
  set_priority, with_sys, running_priority, sched_thread_priority, sched_lend_prio, own_pri,
  sched_unlend_prio,
}
use free_bsd_messaround.Sched.Prio.Lower.{IsFit, setlowpri-Lowered}

module _ (h : Host) where
  abbrev queues_of : State → ℕ → Tdq
  queues_of s td = s.sys.tdq_cpu (s.sys.ts_cpu td)

  -- A thread that is on no run queue; the queues of its processor are fit for a choice if it runs.
  pub record IsOff (td : ℕ) (s : State) : Type 0 where
    pub unqueued : (s.sys.threads td).runnable ≡ false
    pub fit : IsFit h.board.config s.sys.threads (queues_of s td)

  -- The thread has the priority, and keeps its own ones.
  record Given (td prio : ℕ) (s s' : State) : Type 0 where
    off : IsOff td s'
    given : (s'.sys.threads td).priority ≡ prio
    base : s'.base_pri ≡ s.base_pri
    usage : s'.usage ≡ s.usage
    borrowing : s'.borrowing ≡ s.borrowing

  set_priority-IsFit :
      (s : System) (td prio : ℕ) (tdq : Tdq)
      → IsFit h.board.config s.threads tdq
      → IsFit h.board.config (set_priority s td prio).threads tdq
  unfolding set_priority
  set_priority-IsFit s td prio tdq (v, n) =
      (v, NiceEnough-same s.threads (set_priority s td prio).threads _ (λ x. ground arith) n)

  set_priority_self :
      (s : System) (td prio : ℕ)
      → (((set_priority s td prio).threads td).priority ≡ prio)
        × (((set_priority s td prio).threads td).runnable ≡ (s.threads td).runnable)
  unfolding set_priority
  set_priority_self s td prio = (ground arith, ground arith)

  -- Queues and processors that follow a priority that was set.
  Lowered-Given :
      (s : State) (td prio : ℕ) (sys : System)
      → IsOff td s
      → sys.threads ≡ (set_priority s.sys td prio).threads
      → sys.ts_cpu ≡ s.sys.ts_cpu
      → IsFit h.board.config (set_priority s.sys td prio).threads (sys.tdq_cpu (s.sys.ts_cpu td))
      → Given td prio s (record s { sys = sys })
  Lowered-Given s td prio sys o threads places fit =
      let self = set_priority_self s.sys td prio in
      record {
        off = record {
          unqueued = ap (λ (t : Store). (t td).runnable) threads ∙ self.1 ∙ o.unqueued;
          fit =
              subst (λ (p : ℕ → ℕ). IsFit h.board.config sys.threads (sys.tdq_cpu (p td)))
                (sym places)
                (subst (λ (t : Store). IsFit h.board.config t (sys.tdq_cpu (s.sys.ts_cpu td)))
                  (sym threads) fit);
        };
        given = ap (λ (t : Store). (t td).priority) threads ∙ self.0;
        base = refl;
        usage = refl;
        borrowing = refl;
      }

  set_priority-Given :
      (s : State) (td prio : ℕ)
      → IsOff td s
      → Given td prio s (record s { sys = set_priority s.sys td prio })
  unfolding set_priority
  set_priority-Given s td prio o =
      Lowered-Given s td prio (set_priority s.sys td prio) o refl refl
        (set_priority-IsFit s.sys td prio (queues_of s td) o.fit)

  lowpri-IsFit :
      (threads : Store) (tdqs : ℕ → Tdq) (cpu prio : ℕ)
      → IsFit h.board.config threads (tdqs cpu)
      → IsFit h.board.config threads (update tdqs cpu (record (tdqs cpu) { lowpri = prio }) cpu)
  lowpri-IsFit threads tdqs cpu prio f =
      rw (update_self tdqs cpu (record (tdqs cpu) { lowpri = prio })) f

  running-Given :
      (s : State) (td prio : ℕ)
      → IsOff td s
      → (s' : State) × (running_priority h s td prio ≡ some s') × Given td prio s s'
  unfolding running_priority set_priority
  running-Given s td prio o =
      let cpu = s.sys.ts_cpu td in
      let sys = set_priority s.sys td prio in
      let fit = set_priority-IsFit s.sys td prio (queues_of s td) o.fit in
      elim (Bool-cases (ltb prio (s.sys.tdq_cpu cpu).lowpri)) [
        | inl e ↦
            let sys' = record sys {
              tdq_cpu = update s.sys.tdq_cpu cpu (record (s.sys.tdq_cpu cpu) { lowpri = prio });
            } in
            (
              record s { sys = sys' },
              rw e refl,
              Lowered-Given s td prio sys' o refl refl
                  (lowpri-IsFit sys.threads s.sys.tdq_cpu cpu prio fit),
            )
        | inr e ↦ elim (Bool-cases ((s.sys.tdq_cpu cpu).lowpri == (s.sys.threads td).priority)) [
          | inl f ↦
              let (sys', g, l) = setlowpri-Lowered h.board sys cpu td fit in
              (
                record s { sys = sys' },
                rw e (rw f (ap (with_sys s) g)),
                Lowered-Given s td prio sys' o l.threads l.places l.fit,
              )
          | inr f ↦ (record s { sys = sys }, rw e (rw f refl), set_priority-Given s td prio o)
        ]
      ]

  thread_priority-Given :
      (s : State) (td prio : ℕ)
      → IsOff td s
      → (s' : State) × (sched_thread_priority h s td prio ≡ some s') × Given td prio s s'
  unfolding sched_thread_priority
  thread_priority-Given s td prio o = elim (Bool-cases ((s.sys.threads td).priority == prio)) [
    | inl e ↦ (
      s,
      rw e refl,
      record { off = o; given = ground (arith, e); base = refl; usage = refl; borrowing = refl },
    )
    | inr e ↦ elim (Bool-cases (s.running td)) [
      | inl r ↦ let (s', f, g) = running-Given s td prio o in (s', rw e (rw o.unqueued (rw r f)), g)
      | inr r ↦ (_, rw e (rw o.unqueued (rw r refl)), set_priority-Given s td prio o)
    ]
  ]

  borrowing-IsOff :
      (s : State) (td : ℕ) (b : Bool)
      → IsOff td s
      → IsOff td (record s { borrowing = update s.borrowing td b })
  borrowing-IsOff s td b o = record { unqueued = o.unqueued; fit = o.fit }

  -- The priority that was set, and whether it is borrowed.
  pub record Holds (td prio : ℕ) (b : Bool) (s s' : State) : Type 0 where
    pub off : IsOff td s'
    pub priority : (s'.sys.threads td).priority ≡ prio
    pub borrowed : s'.borrowing td ≡ b
    pub base : s'.base_pri ≡ s.base_pri
    pub usage : s'.usage ≡ s.usage

  Holds-same :
      (td p p' : ℕ) (b b' : Bool) (s s' : State)
      → p ≡ p'
      → b ≡ b'
      → Holds td p b s s'
      → Holds td p' b' s s'
  Holds-same td p p' b b' s s' e f k = record {
    off = k.off;
    priority = k.priority ∙ e;
    borrowed = k.borrowed ∙ f;
    base = k.base;
    usage = k.usage;
  }

  with_borrowing :
      (s : State) (td prio : ℕ) (b : Bool)
      → IsOff td s
      → (s' : State) × (sched_thread_priority h
            (record s { borrowing = update s.borrowing td b })
            td
            prio
          ≡ some s')
        × Holds td prio b s s'
  with_borrowing s td prio b o =
      let (s', e, g) = thread_priority-Given _ td prio (borrowing-IsOff s td b o) in
      (
        s',
        e,
        record {
          off = g.off;
          priority = g.given;
          borrowed = ap (λ (f : ℕ → Bool). f td) g.borrowing ∙ update_self s.borrowing td b;
          base = g.base;
          usage = g.usage;
        },
      )

  own_pri-same :
      (s s' : State) (td : ℕ)
      → s'.base_pri ≡ s.base_pri
      → s'.usage ≡ s.usage
      → own_pri h s' td ≡ own_pri h s td
  unfolding own_pri
  own_pri-same s s' td b u = rw b (rw u refl)

  unlend-Holds :
      (s : State) (td prio : ℕ)
      → IsOff td s
      → (s' : State) × (sched_unlend_prio h s td prio ≡ some s')
        × Holds td (min prio (own_pri h s td)) (ltb prio (own_pri h s td)) s s'
  unfolding sched_unlend_prio sched_lend_prio
  unlend-Holds s td prio o = elim (Bool-cases (leb (own_pri h s td) prio)) [
    | inl e ↦
        let (s', f, k) = with_borrowing s td (own_pri h s td) false o in
        (s', rw e f, Holds-same td _ _ _ _ s s' (ground (arith, e)) (ground (arith, e)) k)
    | inr e ↦
        let (s', f, k) = with_borrowing s td prio true o in
        (s', rw e f, Holds-same td _ _ _ _ s s' (ground (arith, e)) (ground (arith, e)) k)
  ]

  -- For a thread on no run queue, whose processor has queues fit for a choice, a priority that is
  -- lent is that of the thread, and when it is taken back in favour of another loan the thread has
  -- the better of that loan and its own priority, and borrows exactly if the loan is better.
  pub lend-unlend :
      (s : State) (td lent prio : ℕ)
      → IsOff td s
      → (s' : State) × (s'' : State) × (sched_lend_prio h s td lent ≡ some s')
        × ((s'.sys.threads td).priority ≡ lent)
        × (sched_unlend_prio h s' td prio ≡ some s'')
        × ((s''.sys.threads td).priority ≡ min prio (own_pri h s td))
        × (s''.borrowing td ≡ ltb prio (own_pri h s td))
  unfolding sched_lend_prio
  lend-unlend s td lent prio o =
      let (s', e, k) = with_borrowing s td lent true o in
      let (s'', f, l) = unlend-Holds s' td prio k.off in
      let same = own_pri-same s s' td k.base k.usage in
      (s', s'', e, k.priority, f, l.priority ∙ ap (min prio) same, l.borrowed ∙ ap (ltb prio) same)
