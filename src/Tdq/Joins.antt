-- ===== src/Tdq/Joins.antt =====
-- A thread that is queued stands in one of the four queues.
use free_bsd_messaround.Prelude.{
  ℕ, ◌/◌, ◌<◌, ◌≡◌, refl, inl, inr, Bool, true, false, none, List, [], ◌∷◌, ◌++◌, ltb, leb, ==_self,
  if◌then◌else◌, Bool-cases, update_self, has, arith,
}
use free_bsd_messaround.Runq.{
  Machine, Store, Runq, QueueName, realtime, idle, rq_nqs, rq_ppq, enqueue, runq_add, runq_add_pri,
  lottery_q_add,
}
use free_bsd_messaround.Lottery.{returns}
use free_bsd_messaround.Tdq.{
  Config, Flags, Tdq, is_root, mark_runq, set_runq, place, timeshare_slot, tdq_runq_add,
}
use free_bsd_messaround.Tdq.Slot.{InRange, timeshare_slot-lt}
use free_bsd_messaround.Tdq.Choose.{Chosen}

has_last : (td : ℕ) (q : List ℕ) → has td (q ++ (td ∷ [])) ≡ true
has_last td [] = ground arith
has_last td (y ∷ q) = rw (has_last td q) (ground arith)

joined :
    (td : ℕ) (q : List ℕ) (preempted : Bool)
    → has td (if preempted then td ∷ q else q ++ (td ∷ [])) ≡ true
joined td q true = rw (==_self td) refl
joined td q false = has_last td q

filled :
    (m : Machine) (rq : Runq) (td pri : ℕ) (preempted : Bool)
    → ¬ ((enqueue m rq td pri preempted).queues pri ≡ [])
unfolding enqueue
filled m rq td pri preempted e =
    let own =
      update_self rq.queues pri
        (if preempted then td ∷ rq.queues pri else rq.queues pri ++ (td ∷ [])) in
    let h = joined td (rq.queues pri) preempted in cc (own, e, h)

module _ (k : Config) where
  -- The queue of a thread on a queue with this name.
  abbrev index : Store → ℕ → QueueName → ℕ
  index s td name = (set_runq k s td name td).priority / rq_ppq

  index-lt :
      (s : Store) (td : ℕ) (name : QueueName) → (s td).priority < 256 → index s td name < rq_nqs
  index-lt s td name l =
      let same : (set_runq k s td name td).priority ≡ (s td).priority = ground arith in
      omega (arith, l, same)

  place-Chosen :
      (s : Store) (tdq : Tdq) (td : ℕ) (flags : Flags)
      → (s td).priority < 256
      → InRange tdq
      → ¬ (Chosen k (place k s tdq td flags).1 (returns none none))
  unfolding place runq_add runq_add_pri lottery_q_add
  place-Chosen s tdq td flags l r = elim (Bool-cases (ltb (s td).priority k.min_batch)) [
    | inl e ↦ rw e (λ (c, t, q, i).
        filled k.machine tdq.rq_realtime td (index s td realtime) flags.preempted
          (c (index s td realtime) (index-lt s td realtime l)))
    | inr e ↦ rw e (elim (Bool-cases (leb (s td).priority k.max_batch)) [
      | inr f ↦ rw f (λ (c, t, q, i).
          filled k.machine tdq.rq_idle td (index s td idle) flags.preempted
            (i (index s td idle) (index-lt s td idle l)))
      | inl f ↦ rw f (elim (Bool-cases (is_root (s td))) [
        | inl g ↦ rw g (λ (c, t, q, i).
            filled k.machine tdq.rq_timeshare td (timeshare_slot k tdq (s td).priority flags)
              flags.preempted
              (t (timeshare_slot k tdq (s td).priority flags)
                (timeshare_slot-lt k tdq (s td).priority flags r)))
        | inr g ↦ rw g (λ (c, t, q, i). filled k.machine tdq.rq_lottery td 0 true q)
      ])
    ])
  ]

  mark_runq_kept :
      (s : Store) (tdq : Tdq) (td : ℕ)
      → (((mark_runq k s tdq td).0 td).priority ≡ (s td).priority)
        × ((mark_runq k s tdq td).1.idx ≡ tdq.idx)
        × ((mark_runq k s tdq td).1.ridx ≡ tdq.ridx)
  unfolding mark_runq
  mark_runq_kept s tdq td = (ground arith, ground arith, ground arith)

  -- While a thread is queued, NULL is not chosen.
  pub tdq_runq_add-Chosen :
      (s : Store) (tdq : Tdq) (td : ℕ) (flags : Flags)
      → (s td).priority < 256
      → InRange tdq
      → ¬ (Chosen k (tdq_runq_add k s tdq td flags).1 (returns none none))
  unfolding tdq_runq_add
  tdq_runq_add-Chosen s tdq td flags l (i, r) =
      let (p, e, f) = mark_runq_kept s tdq td in
      place-Chosen (mark_runq k s tdq td).0 (mark_runq k s tdq td).1 td flags (omega (arith, p, l))
        (omega (arith, e, i), omega (arith, f, r))
