-- ===== src/Tdq/Choose.antt =====
-- Which queue tdq_choose serves.
use free_bsd_messaround.Prelude.{
  ℕ, ◌<◌, ◌≡◌, ◌⊎◌, inl, inr, true, Option, none, some, [], is_empty, has, Bool-cases,
}
use free_bsd_messaround.Runq.{Runq, Store, rq_nqs}
use free_bsd_messaround.Runq.Choose.{
  IsBest, IsNext, runq_choose-IsBest, runq_choose_from-IsNext, nil_of_empty,
}
use free_bsd_messaround.Lottery.{
  Outcome, returns, divides_by_zero, null_dereference, lottery_q_choose,
}
use free_bsd_messaround.Lottery.Draw.{NiceEnough}
use free_bsd_messaround.Lottery.Choose.{Serves, lottery_q_choose-Serves, lottery_q_choose-nil}
use free_bsd_messaround.Tdq.{Config, Tdq, or_idle, or_lottery, or_timeshare, tdq_choose}
use free_bsd_messaround.Tdq.Invariant.{IsValid}

abbrev pub AllEmpty : Runq → Type 0
AllEmpty rq = (p : ℕ) → p < rq_nqs → rq.queues p ≡ []

-- A thread that is chosen is the best of the real-time queue, or, where that is empty, the next of
-- the timeshare calendar, or, where both are empty, a winner of the lottery, or, where the lottery
-- queue is empty too, the best of the idle queue; NULL is chosen only where all are empty.
abbrev pub Chosen : Config → Tdq → Outcome → Type 0
Chosen k tdq (returns (some td) line) =
    IsBest tdq.rq_realtime (some td)
    ⊎ (AllEmpty tdq.rq_realtime × IsNext k.machine tdq.rq_timeshare tdq.ridx (some td))
    ⊎ (AllEmpty tdq.rq_realtime
        × AllEmpty tdq.rq_timeshare
        × (has td (tdq.rq_lottery.queues 0) ≡ true))
    ⊎ (AllEmpty tdq.rq_realtime
        × AllEmpty tdq.rq_timeshare
        × (tdq.rq_lottery.queues 0 ≡ [])
        × IsBest tdq.rq_idle (some td))
Chosen k tdq (returns none line) =
    AllEmpty tdq.rq_realtime
    × AllEmpty tdq.rq_timeshare
    × (tdq.rq_lottery.queues 0 ≡ [])
    × AllEmpty tdq.rq_idle
Chosen k tdq divides_by_zero = ⊥
Chosen k tdq null_dereference = ⊥

module _ (k : Config) (s : Store) (tdq : Tdq) (rnd : ℕ) where
  served :
      (o : Outcome)
      → AllEmpty tdq.rq_realtime
      → AllEmpty tdq.rq_timeshare
      → Serves (tdq.rq_lottery.queues 0) o
      → Chosen k tdq (or_idle k tdq.rq_idle o)
  unfolding or_idle
  served (returns (some td) line) r t h = inr (inr (inl (r, t, h)))
  served (returns none line) r t h = elim h [ ]
  served divides_by_zero r t h = elim h [ ]
  served null_dereference r t h = elim h [ ]

  idled :
      (r : Option ℕ)
      → AllEmpty tdq.rq_realtime
      → AllEmpty tdq.rq_timeshare
      → tdq.rq_lottery.queues 0 ≡ []
      → IsBest tdq.rq_idle r
      → Chosen k tdq (returns r none)
  idled (some td) r t e b = inr (inr (inr (r, t, e, b)))
  idled none r t e b = (r, t, e, b)

  lottery_or_idle :
      IsValid k tdq
      → NiceEnough s (tdq.rq_lottery.queues 0)
      → AllEmpty tdq.rq_realtime
      → AllEmpty tdq.rq_timeshare
      → Chosen k tdq (or_idle k tdq.rq_idle (lottery_q_choose s tdq.rq_lottery true rnd))
  unfolding or_idle
  lottery_or_idle v n r t = elim (Bool-cases (is_empty (tdq.rq_lottery.queues 0))) [
    | inr e ↦ served _ r t (lottery_q_choose-Serves s tdq.rq_lottery true rnd n e)
    | inl e ↦
        let z = nil_of_empty _ e in
        rw (lottery_q_choose-nil s tdq.rq_lottery true rnd z)
          (idled _ r t z (runq_choose-IsBest k.machine tdq.rq_idle v.3))
  ]

  after_timeshare :
      (o : Option ℕ)
      → IsValid k tdq
      → NiceEnough s (tdq.rq_lottery.queues 0)
      → AllEmpty tdq.rq_realtime
      → IsNext k.machine tdq.rq_timeshare tdq.ridx o
      → Chosen k tdq (or_lottery k s tdq rnd o)
  unfolding or_lottery
  after_timeshare (some td) v n r t = inr (inl (r, t))
  after_timeshare none v n r t = lottery_or_idle v n r t

  after_realtime :
      (o : Option ℕ)
      → IsValid k tdq
      → NiceEnough s (tdq.rq_lottery.queues 0)
      → IsBest tdq.rq_realtime o
      → Chosen k tdq (or_timeshare k s tdq rnd o)
  unfolding or_timeshare
  after_realtime (some td) v n r = inl r
  after_realtime none v n r =
      after_timeshare _ v n r (runq_choose_from-IsNext k.machine tdq.rq_timeshare tdq.ridx v.5 v.1)

  -- With the queues well formed and no negative nice value among the queued lottery threads,
  -- tdq_choose serves the real-time queue before the timeshare calendar, that before the lottery
  -- and that before the idle queue, returns NULL only when all are empty, and does not fault.
  pub tdq_choose-Chosen :
      IsValid k tdq → NiceEnough s (tdq.rq_lottery.queues 0) → Chosen k tdq (tdq_choose k s tdq rnd)
  unfolding tdq_choose
  tdq_choose-Chosen v n = after_realtime _ v n (runq_choose-IsBest k.machine tdq.rq_realtime v.0)
