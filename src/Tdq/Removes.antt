-- ===== src/Tdq/Removes.antt =====
-- What tdq_runq_rem takes off the queues.
use free_bsd_messaround.Prelude.{
  ℕ, ◌≡◌, ◌≢◌, refl, ap, ◌∙◌, inl, inr, none, some, not, List, ◌==◌, if◌then◌else◌, Bool-cases,
  erase, arith,
}
use free_bsd_messaround.Runq.{
  Runq, Store, runq_remove, runq_remove_idx, lottery_q_remove, QueueName, realtime, timeshare,
  lottery, idle,
}
use free_bsd_messaround.Runq.Remove.{runq_remove-at, runq_remove_idx-at, lottery_q_remove-at}
use free_bsd_messaround.Tdq.{Config, Tdq, unmark, unplace, or_old, with_store, tdq_runq_rem}

-- The run queue with a name.
abbrev pub queue_of : Tdq → QueueName → Runq
queue_of tdq realtime = tdq.rq_realtime
queue_of tdq timeshare = tdq.rq_timeshare
queue_of tdq lottery = tdq.rq_lottery
queue_of tdq idle = tdq.rq_idle

-- The queue in it for a thread that was given the index: the lottery uses queue 0 only.
abbrev pub slot : ℕ → QueueName → ℕ
slot rqindex lottery = 0
slot rqindex realtime = rqindex
slot rqindex timeshare = rqindex
slot rqindex idle = rqindex

-- The first occurrence of the thread is off one queue, and all others are as they were.
pub record Off (name : QueueName) (p td : ℕ) (tdq tdq' : Tdq) : Type 0 where
  pub here :
      (q : ℕ)
      → (queue_of tdq' name).queues q
        ≡ (if q == p then erase td ((queue_of tdq name).queues q) else (queue_of tdq name).queues q)
  pub others : (other : QueueName) → other ≢ name → queue_of tdq' other ≡ queue_of tdq other

pub same_others :
    (tdq tdq' : Tdq) (name : QueueName)
    → (realtime ≢ name → tdq'.rq_realtime ≡ tdq.rq_realtime)
    → (timeshare ≢ name → tdq'.rq_timeshare ≡ tdq.rq_timeshare)
    → (lottery ≢ name → tdq'.rq_lottery ≡ tdq.rq_lottery)
    → (idle ≢ name → tdq'.rq_idle ≡ tdq.rq_idle)
    → (other : QueueName) → other ≢ name
    → queue_of tdq' other ≡ queue_of tdq other
same_others tdq tdq' name a b c d realtime = a
same_others tdq tdq' name a b c d timeshare = b
same_others tdq tdq' name a b c d lottery = c
same_others tdq tdq' name a b c d idle = d

-- The same run queues.
pub queue_of-same :
    (tdq tdq' : Tdq)
    → tdq'.rq_realtime ≡ tdq.rq_realtime
    → tdq'.rq_timeshare ≡ tdq.rq_timeshare
    → tdq'.rq_lottery ≡ tdq.rq_lottery
    → tdq'.rq_idle ≡ tdq.rq_idle
    → (name : QueueName) → queue_of tdq' name ≡ queue_of tdq name
queue_of-same tdq tdq' a b c d realtime = a
queue_of-same tdq tdq' a b c d timeshare = b
queue_of-same tdq tdq' a b c d lottery = c
queue_of-same tdq tdq' a b c d idle = d

module _ (k : Config) where
  unplace-Off :
      (s : Store) (tdq : Tdq) (td : ℕ) (name : QueueName)
      → (tdq' : Tdq) × (unplace k s tdq td (some name) ≡ some tdq')
        × Off name (slot (s td).rqindex name) td tdq tdq'
  unfolding unplace
  unplace-Off s tdq td realtime = (
    _,
    refl,
    record {
      here = λ q. runq_remove-at k.machine s tdq.rq_realtime td q;
      others =
          same_others tdq (record tdq { rq_realtime = runq_remove k.machine s tdq.rq_realtime td })
            realtime (λ ne. absurd (ne refl)) (λ ne. refl) (λ ne. refl) (λ ne. refl);
    },
  )
  unplace-Off s tdq td timeshare = (
    _,
    refl,
    record {
      here = λ q. runq_remove_idx-at k.machine s tdq.rq_timeshare td q _;
      others =
          same_others tdq
            (let cut =
                runq_remove_idx k.machine s tdq.rq_timeshare td
                  (if not (tdq.idx == tdq.ridx) then some tdq.ridx else none) in
              record tdq { rq_timeshare = cut.0; ridx = or_old k cut.1 tdq.ridx })
            timeshare (λ ne. refl) (λ ne. absurd (ne refl)) (λ ne. refl) (λ ne. refl);
    },
  )
  unplace-Off s tdq td lottery = (
    _,
    refl,
    record {
      here = λ q. lottery_q_remove-at k.machine tdq.rq_lottery td q;
      others =
          same_others tdq (record tdq { rq_lottery = lottery_q_remove k.machine tdq.rq_lottery td })
            lottery (λ ne. refl) (λ ne. refl) (λ ne. absurd (ne refl)) (λ ne. refl);
    },
  )
  unplace-Off s tdq td idle = (
    _,
    refl,
    record {
      here = λ q. runq_remove-at k.machine s tdq.rq_idle td q;
      others =
          same_others tdq (record tdq { rq_idle = runq_remove k.machine s tdq.rq_idle td }) idle
            (λ ne. refl) (λ ne. refl) (λ ne. refl) (λ ne. absurd (ne refl));
    },
  )

  unmark-queues :
      (s : Store) (tdq : Tdq) (td : ℕ) (name : QueueName)
      → queue_of (unmark k s tdq td).1 name ≡ queue_of tdq name
  unfolding unmark
  unmark-queues s tdq td name = elim (Bool-cases (s td).xferable) [
    | inl e ↦ rw e (elim name [ realtime ↦ refl | timeshare ↦ refl | lottery ↦ refl | idle ↦ refl ])
    | inr e ↦ rw e refl
  ]

  pub unmark-index :
      (s : Store) (tdq : Tdq) (td x : ℕ)
      → (((unmark k s tdq td).0 x).rqindex ≡ (s x).rqindex)
        × (((unmark k s tdq td).0 x).runq ≡ (s x).runq)
  unfolding unmark
  unmark-index s tdq td x = (ground arith, ground arith)

  pub unmark-priority :
      (s : Store) (tdq : Tdq) (td x : ℕ) → ((unmark k s tdq td).0 x).priority ≡ (s x).priority
  unfolding unmark
  unmark-priority s tdq td x = ground arith

  pub removed :
      (s : Store) (tdq : Tdq) (td : ℕ)
      → tdq_runq_rem k s tdq td
        ≡ with_store k
            (unmark k s tdq td).0
            (unplace k (unmark k s tdq td).0 (unmark k s tdq td).1 td (s td).runq)
  unfolding tdq_runq_rem
  removed s tdq td = refl

  -- tdq_runq_rem of a thread whose ts_runq is not NULL.
  pub tdq_runq_rem-Off :
      (s : Store) (tdq : Tdq) (td : ℕ) (name : QueueName)
      → (s td).runq ≡ some name
      → (tdq' : Tdq) × (tdq_runq_rem k s tdq td ≡ some ((unmark k s tdq td).0, tdq'))
        × Off name (slot (s td).rqindex name) td tdq tdq'
  tdq_runq_rem-Off s tdq td name e =
      let s1 = (unmark k s tdq td).0 in
      let tdq1 = (unmark k s tdq td).1 in
      let (tdq', f, o) = unplace-Off s1 tdq1 td name in
      (
        tdq',
        removed s tdq td
            ∙ ap (λ n. with_store k s1 (unplace k s1 tdq1 td n)) e
            ∙ ap (with_store k s1) f,
        record {
          here = λ q.
              let at : ℕ → Runq → List ℕ =
                λ i r. if q == slot i name then erase td (r.queues q) else r.queues q in
              o.here q
              ∙ ap (λ i. at i (queue_of tdq1 name)) (unmark-index s tdq td td).0
              ∙ ap (at (s td).rqindex) (unmark-queues s tdq td name);
          others = λ x ne. o.others x ne ∙ unmark-queues s tdq td x;
        },
      )
