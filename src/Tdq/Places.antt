-- ===== src/Tdq/Places.antt =====
-- Where tdq_runq_add puts a thread.
use free_bsd_messaround.Prelude.{
  ℕ, ◌/◌, ◌<◌, ◌≡◌, ◌≢◌, refl, ap, ◌∙◌, inl, inr, Bool, true, some, List, [], ◌∷◌, ◌++◌, ◌==◌,
  ==_iff, ltb, leb, if◌then◌else◌, Bool-cases, pos, ◌+ℤ◌, arith,
}
use free_bsd_messaround.Runq.{
  Machine, Runq, Thread, Store, QueueName, realtime, timeshare, lottery, idle, rq_nqs, rq_ppq,
  enqueue, runq_add, runq_add_pri, lottery_q_add,
}
use free_bsd_messaround.Tdq.{
  Config, Flags, Tdq, is_root, mark_runq, set_runq, place, timeshare_slot, tdq_runq_add,
}
use free_bsd_messaround.Tdq.Slot.{InRange, timeshare_slot-lt}
use free_bsd_messaround.Tdq.Removes.{queue_of, slot, same_others, queue_of-same}

-- A queue with a thread at its head or its tail.
abbrev pub joined : Bool → ℕ → List ℕ → List ℕ
joined front td q = if front then td ∷ q else q ++ (td ∷ [])

-- The thread is on one queue more, and all others are as they were.
pub record On (name : QueueName) (p : ℕ) (front : Bool) (td : ℕ) (tdq tdq' : Tdq) : Type 0 where
  pub here :
      (q : ℕ)
      → (queue_of tdq' name).queues q ≡ (
          if q == p
          then joined front td ((queue_of tdq name).queues q)
          else (queue_of tdq name).queues q)
  pub others : (other : QueueName) → other ≢ name → queue_of tdq' other ≡ queue_of tdq other

-- The lottery queue takes threads in at its head, the others only those that were preempted.
abbrev pub front_of : QueueName → Bool → Bool
front_of lottery preempted = true
front_of realtime preempted = preempted
front_of timeshare preempted = preempted
front_of idle preempted = preempted

enqueue-at :
    (m : Machine) (rq : Runq) (td p q : ℕ) (front : Bool)
    → (enqueue m rq td p front).queues q
      ≡ (if q == p then joined front td (rq.queues q) else rq.queues q)
unfolding enqueue
enqueue-at m rq td p q front = elim (Bool-cases (q == p)) [
  | inl e ↦ let same : q ≡ p = (==_iff q p).0 e in rw same refl
  | inr e ↦ rw e refl
]

module _ (k : Config) where
  -- The run queue for a thread of this priority and user.
  abbrev pub home : Thread → QueueName
  home t =
      if ltb t.priority k.min_batch
      then realtime
      else if leb t.priority k.max_batch
      then if is_root t then timeshare else lottery
      else idle

  -- The thread has come to one of the 64 queues of its run queue, which its fields name, and the
  -- fields that name the queues of the others are as they were.
  pub record Placed (s : Store) (tdq : Tdq) (td : ℕ) (flags : Flags) (s' : Store) (tdq' : Tdq)
      : Type 0 where
    pub name : QueueName
    pub by_priority : name ≡ home (s td)
    pub at : ℕ
    pub in_range : at < rq_nqs
    pub on : On name at (front_of name flags.preempted) td tdq tdq'
    pub runq : (s' td).runq ≡ some name
    pub index : slot (s' td).rqindex name ≡ at
    pub others : (x : ℕ) → x ≢ td → ((s' x).runq ≡ (s x).runq) × ((s' x).rqindex ≡ (s x).rqindex)
    pub priority : (x : ℕ) → (s' x).priority ≡ (s x).priority

  -- The other fields of the queues do not matter.
  pub Placed-same :
      (s : Store) (tdq counted : Tdq) (td : ℕ) (flags : Flags) (s' : Store) (tdq' : Tdq)
      → ((name : QueueName) → queue_of counted name ≡ queue_of tdq name)
      → Placed s counted td flags s' tdq'
      → Placed s tdq td flags s' tdq'
  Placed-same s tdq counted td flags s' tdq' same p = record {
    name = p.name;
    by_priority = p.by_priority;
    at = p.at;
    in_range = p.in_range;
    on = record {
      here = λ q.
          let after : Runq → List ℕ = λ rq.
            if q == p.at
            then joined (front_of p.name flags.preempted) td (rq.queues q)
            else rq.queues q in
          p.on.here q ∙ ap after (same p.name);
      others = λ o ne. p.on.others o ne ∙ same o;
    };
    runq = p.runq;
    index = p.index;
    others = p.others;
    priority = p.priority;
  }

  index_of : Store → ℕ → QueueName → ℕ
  index_of s td name = (set_runq k s td name td).priority / rq_ppq

  index_of-lt :
      (s : Store) (td : ℕ) (name : QueueName) → (s td).priority < 256 → index_of s td name < rq_nqs
  unfolding index_of
  index_of-lt s td name l =
      let same : (set_runq k s td name td).priority ≡ (s td).priority = ground arith in
      omega (arith, l, same)

  place-Placed :
      (s : Store) (tdq : Tdq) (td : ℕ) (flags : Flags)
      → (s td).priority < 256
      → InRange tdq
      → Placed s tdq td flags (place k s tdq td flags).0 (place k s tdq td flags).1
  unfolding place runq_add runq_add_pri lottery_q_add index_of
  place-Placed s tdq td flags l r = elim (Bool-cases (ltb (s td).priority k.min_batch)) [
    | inl e ↦ rw e (record {
      name = realtime;
      by_priority = rw e refl;
      at = index_of s td realtime;
      in_range = index_of-lt s td realtime l;
      on = record {
        here =
            λ q. enqueue-at k.machine tdq.rq_realtime td (index_of s td realtime) q flags.preempted;
        others =
            same_others tdq
              (record tdq {
                rq_realtime =
                    enqueue k.machine tdq.rq_realtime td (index_of s td realtime) flags.preempted;
              })
              realtime (λ ne. absurd (ne refl)) (λ ne. refl) (λ ne. refl) (λ ne. refl);
      };
      runq = ground arith;
      index = ground arith;
      others = λ x ne. (ground (arith, ne), ground (arith, ne));
      priority = λ x. ground arith;
    })
    | inr e ↦ rw e (elim (Bool-cases (leb (s td).priority k.max_batch)) [
      | inr f ↦ rw f (record {
        name = idle;
        by_priority = rw (e, f) refl;
        at = index_of s td idle;
        in_range = index_of-lt s td idle l;
        on = record {
          here = λ q. enqueue-at k.machine tdq.rq_idle td (index_of s td idle) q flags.preempted;
          others =
              same_others tdq
                (record tdq {
                  rq_idle = enqueue k.machine tdq.rq_idle td (index_of s td idle) flags.preempted;
                })
                idle (λ ne. refl) (λ ne. refl) (λ ne. refl) (λ ne. absurd (ne refl));
        };
        runq = ground arith;
        index = ground arith;
        others = λ x ne. (ground (arith, ne), ground (arith, ne));
        priority = λ x. ground arith;
      })
      | inl f ↦ rw f (elim (Bool-cases (is_root (s td))) [
        | inl g ↦ rw g (record {
          name = timeshare;
          by_priority = rw (e, f, g) refl;
          at = timeshare_slot k tdq (s td).priority flags;
          in_range = timeshare_slot-lt k tdq (s td).priority flags r;
          on = record {
            here = λ q.
                enqueue-at k.machine tdq.rq_timeshare td
                  (timeshare_slot k tdq (s td).priority flags) q flags.preempted;
            others =
                same_others tdq
                  (record tdq {
                    rq_timeshare =
                        enqueue k.machine tdq.rq_timeshare td
                          (timeshare_slot k tdq (s td).priority flags) flags.preempted;
                  })
                  timeshare (λ ne. refl) (λ ne. absurd (ne refl)) (λ ne. refl) (λ ne. refl);
          };
          runq = ground arith;
          index = ground arith;
          others = λ x ne. (ground (arith, ne), ground (arith, ne));
          priority = λ x. ground arith;
        })
        | inr g ↦ rw g (record {
          name = lottery;
          by_priority = rw (e, f, g) refl;
          at = 0;
          in_range = omega arith;
          on = record {
            here = λ q. enqueue-at k.machine tdq.rq_lottery td 0 q true;
            others =
                same_others tdq
                  (record tdq { rq_lottery = enqueue k.machine tdq.rq_lottery td 0 true }) lottery
                  (λ ne. refl) (λ ne. refl) (λ ne. absurd (ne refl)) (λ ne. refl);
          };
          runq = ground arith;
          index = refl;
          others = λ x ne. (ground (arith, ne), ground (arith, ne));
          priority = λ x. ground arith;
        })
      ])
    ])
  ]

  mark_runq-fields :
      (s : Store) (tdq : Tdq) (td x : ℕ)
      → let t = (mark_runq k s tdq td).0 x in
        (t.priority ≡ (s x).priority)
        × (t.uid ≡ (s x).uid)
        × (t.runq ≡ (s x).runq)
        × (t.rqindex ≡ (s x).rqindex)
  unfolding mark_runq
  mark_runq-fields s tdq td x = (ground arith, ground arith, ground arith, ground arith)

  mark_runq-tdq :
      (s : Store) (tdq : Tdq) (td : ℕ)
      → ((mark_runq k s tdq td).1.idx ≡ tdq.idx)
        × ((mark_runq k s tdq td).1.ridx ≡ tdq.ridx)
        × ((name : QueueName) → queue_of (mark_runq k s tdq td).1 name ≡ queue_of tdq name)
  unfolding mark_runq
  mark_runq-tdq s tdq td = (
    ground arith,
    ground arith,
    elim (Bool-cases ((s td).pinned == 0)) [
      | inl e ↦ rw e (
          queue_of-same tdq (record tdq { transferable = tdq.transferable +ℤ pos 1 }) refl refl refl
            refl)
      | inr e ↦ rw e (λ name. refl)
    ],
  )

  home-same : (t u : Thread) → t.priority ≡ u.priority → t.uid ≡ u.uid → home t ≡ home u
  home-same t u p q = ground (arith, p, q)

  -- A thread of a priority below 256 is put on one queue, while the indices of the calendar are queues.
  pub tdq_runq_add-Placed :
      (s : Store) (tdq : Tdq) (td : ℕ) (flags : Flags)
      → (s td).priority < 256
      → InRange tdq
      → Placed s tdq td flags (tdq_runq_add k s tdq td flags).0 (tdq_runq_add k s tdq td flags).1
  unfolding tdq_runq_add
  tdq_runq_add-Placed s tdq td flags l (i, r) =
      let s1 = (mark_runq k s tdq td).0 in
      let tdq1 = (mark_runq k s tdq td).1 in
      let f = mark_runq-fields s tdq td in
      let (a, b, same) = mark_runq-tdq s tdq td in
      let p =
        place-Placed s1 tdq1 td flags (omega (arith, (f td).0, l))
          (omega (arith, a, i), omega (arith, b, r)) in
      record {
        name = p.name;
        by_priority = p.by_priority ∙ home-same (s1 td) (s td) (f td).0 (f td).1;
        at = p.at;
        in_range = p.in_range;
        on = record {
          here = λ q.
              let after : Runq → List ℕ = λ rq.
                if q == p.at
                then joined (front_of p.name flags.preempted) td (rq.queues q)
                else rq.queues q in
              p.on.here q ∙ ap after (same p.name);
          others = λ o ne. p.on.others o ne ∙ same o;
        };
        runq = p.runq;
        index = p.index;
        others = λ x ne. ((p.others x ne).0 ∙ (f x).2, (p.others x ne).1 ∙ (f x).3);
        priority = λ x. p.priority x ∙ (f x).0;
      }
