-- ===== src/Tdq/Invariant.antt =====
-- The queues of a processor stay well formed under every operation.
use free_bsd_messaround.Prelude.{
  ℕ, ◌+◌, ◌%◌, ◌<◌, Bool, true, false, not, Option, none, some, ltb, leb, ◌==◌, if◌then◌else◌,
  is_empty, sym, subst, ◌∙◌, ◌≡◌, Bool-cases, inl, inr, arith,
}
use free_bsd_messaround.Runq.{
  Runq, Store, QueueName, realtime, timeshare, lottery, idle, rq_nqs, runq_remove_idx,
}
use free_bsd_messaround.Runq.Invariant.{
  IsConsistent, runq_init-IsConsistent, runq_add-IsConsistent, runq_add_pri-IsConsistent,
  lottery_q_add-IsConsistent, lottery_q_remove-IsConsistent, runq_remove_idx-IsConsistent,
  runq_remove-IsConsistent, runq_remove_idx-lt, runq_remove_idx-none,
}
use free_bsd_messaround.Tdq.{
  Config, Flags, Tdq, tdq_setup, mark_runq, place, tdq_runq_add, unmark, unplace, or_old,
  with_store, tdq_runq_rem, tdq_load_add, tdq_add, rotate,
}
use free_bsd_messaround.Tdq.Removes.{removed}

-- Each status bit agrees with its queue, and the calendar's indices are queues.
abbrev pub IsValid : Config → Tdq → Type 0
IsValid k tdq =
    IsConsistent k.machine tdq.rq_realtime
    × IsConsistent k.machine tdq.rq_timeshare
    × IsConsistent k.machine tdq.rq_lottery
    × IsConsistent k.machine tdq.rq_idle
    × (tdq.idx < rq_nqs)
    × (tdq.ridx < rq_nqs)

module _ (k : Config) where
  pub tdq_setup-IsValid : IsValid k tdq_setup
  unfolding tdq_setup
  tdq_setup-IsValid =
      let c = runq_init-IsConsistent k.machine in (c, c, c, c, omega arith, omega arith)

  mark_runq-IsValid :
      (s : Store) (tdq : Tdq) (td : ℕ) → IsValid k tdq → IsValid k (mark_runq k s tdq td).1
  unfolding mark_runq
  mark_runq-IsValid s tdq td v = elim (Bool-cases ((s td).pinned == 0)) [
    | inl e ↦ rw e v
    | inr e ↦ rw e v
  ]

  with_realtime :
      (tdq : Tdq) (rq : Runq)
      → IsValid k tdq
      → IsConsistent k.machine rq
      → IsValid k (record tdq { rq_realtime = rq })
  with_realtime tdq rq v c = (c, v.1, v.2, v.3, v.4, v.5)

  with_lottery :
      (tdq : Tdq) (rq : Runq)
      → IsValid k tdq
      → IsConsistent k.machine rq
      → IsValid k (record tdq { rq_lottery = rq })
  with_lottery tdq rq v c = (v.0, v.1, c, v.3, v.4, v.5)

  with_idle :
      (tdq : Tdq) (rq : Runq)
      → IsValid k tdq
      → IsConsistent k.machine rq
      → IsValid k (record tdq { rq_idle = rq })
  with_idle tdq rq v c = (v.0, v.1, v.2, c, v.4, v.5)

  with_timeshare :
      (tdq : Tdq) (rq : Runq) (r : ℕ)
      → IsValid k tdq
      → IsConsistent k.machine rq
      → r < rq_nqs
      → IsValid k (record tdq { rq_timeshare = rq; ridx = r })
  with_timeshare tdq rq r v c l = (v.0, c, v.2, v.3, v.4, l)

  place-IsValid :
      (s : Store) (tdq : Tdq) (td : ℕ) (flags : Flags)
      → IsValid k tdq
      → IsValid k (place k s tdq td flags).1
  unfolding place
  place-IsValid s tdq td flags v = elim (Bool-cases (ltb (s td).priority k.min_batch)) [
    | inl e ↦ rw e (
        with_realtime tdq _ v
          (runq_add-IsConsistent k.machine _ tdq.rq_realtime td flags.preempted v.0))
    | inr e ↦ rw e (elim (Bool-cases (leb (s td).priority k.max_batch)) [
      | inr f ↦
          rw f (
            with_idle tdq _ v
              (runq_add-IsConsistent k.machine _ tdq.rq_idle td flags.preempted v.3))
      | inl f ↦ rw f (elim (Bool-cases ((s td).uid == 0)) [
        | inr g ↦
            rw g (with_lottery tdq _ v (lottery_q_add-IsConsistent k.machine tdq.rq_lottery td v.2))
        | inl g ↦ rw g (
            with_timeshare tdq _ tdq.ridx v
              (runq_add_pri-IsConsistent k.machine _ tdq.rq_timeshare td _ flags.preempted v.1) v.5)
      ])
    ])
  ]

  pub tdq_runq_add-IsValid :
      (s : Store) (tdq : Tdq) (td : ℕ) (flags : Flags)
      → IsValid k tdq
      → IsValid k (tdq_runq_add k s tdq td flags).1
  unfolding tdq_runq_add
  tdq_runq_add-IsValid s tdq td flags v =
      place-IsValid (mark_runq k s tdq td).0 (mark_runq k s tdq td).1 td flags
        (mark_runq-IsValid s tdq td v)

  unmark-IsValid :
      (s : Store) (tdq : Tdq) (td : ℕ) → IsValid k tdq → IsValid k (unmark k s tdq td).1
  unfolding unmark
  unmark-IsValid s tdq td v = elim (Bool-cases (s td).xferable) [ inl e ↦ rw e v | inr e ↦ rw e v ]

  next_ridx :
      (s : Store) (tdq : Tdq) (td : ℕ)
      → IsValid k tdq
      → or_old k
          (runq_remove_idx k.machine s tdq.rq_timeshare td
            (if not (tdq.idx == tdq.ridx) then some tdq.ridx else none)).1
          tdq.ridx
        < rq_nqs
  next_ridx s tdq td v = elim (Bool-cases (tdq.idx == tdq.ridx)) [
    | inl e ↦ rw (e, runq_remove_idx-none k.machine s tdq.rq_timeshare td) v.5
    | inr e ↦
        let (j, je, jl) = runq_remove_idx-lt k.machine s tdq.rq_timeshare td tdq.ridx v.5 in
        rw (e, je) jl
  ]

  -- A result, if there is one, is valid.
  abbrev Valids : Option Tdq → Type 0
  Valids none = Unit
  Valids (some tdq) = IsValid k tdq

  unplace-Valids :
      (s : Store) (tdq : Tdq) (td : ℕ) (name : Option QueueName)
      → IsValid k tdq
      → Valids (unplace k s tdq td name)
  unfolding unplace
  unplace-Valids s tdq td none v = tt
  unplace-Valids s tdq td (some realtime) v =
      with_realtime tdq _ v (runq_remove-IsConsistent k.machine s tdq.rq_realtime td v.0)
  unplace-Valids s tdq td (some lottery) v =
      with_lottery tdq _ v (lottery_q_remove-IsConsistent k.machine tdq.rq_lottery td v.2)
  unplace-Valids s tdq td (some idle) v =
      with_idle tdq _ v (runq_remove-IsConsistent k.machine s tdq.rq_idle td v.3)
  unplace-Valids s tdq td (some timeshare) v =
      with_timeshare tdq _ _ v (runq_remove_idx-IsConsistent k.machine s tdq.rq_timeshare td _ v.1)
        (next_ridx s tdq td v)

  of_store :
      (s : Store) (o : Option Tdq) (s' : Store) (tdq' : Tdq)
      → with_store k s o ≡ some (s', tdq')
      → Valids o
      → IsValid k tdq'
  of_store s none s' tdq' e v = absurd (cc)
  of_store s (some tdq) s' tdq' e v =
      let same : tdq ≡ tdq' = cc in subst (λ (t : Tdq). IsValid k t) same v

  pub tdq_runq_rem-IsValid :
      (s : Store) (tdq : Tdq) (td : ℕ) (s' : Store) (tdq' : Tdq)
      → IsValid k tdq
      → tdq_runq_rem k s tdq td ≡ some (s', tdq')
      → IsValid k tdq'
  tdq_runq_rem-IsValid s tdq td s' tdq' v e =
      of_store (unmark k s tdq td).0 _ s' tdq' (sym (removed k s tdq td) ∙ e) (
        unplace-Valids (unmark k s tdq td).0 (unmark k s tdq td).1 td (s td).runq
          (unmark-IsValid s tdq td v))

  next_of :
      (tdq : Tdq) (b : Bool)
      → IsValid k tdq
      → (if b then (tdq.idx + 1) % rq_nqs else tdq.ridx) < rq_nqs
  next_of tdq true v = omega arith
  next_of tdq false v = v.5

  pub rotate-IsValid : (tdq : Tdq) → IsValid k tdq → IsValid k (rotate k tdq)
  unfolding rotate
  rotate-IsValid tdq v = elim (Bool-cases (tdq.idx == tdq.ridx)) [
    | inr e ↦ rw e v
    | inl e ↦ rw e (
      v.0,
      v.1,
      v.2,
      v.3,
      omega arith,
      next_of tdq (is_empty (tdq.rq_timeshare.queues tdq.ridx)) v,
    )
  ]

  lowered :
      (tdq : Tdq) (b : Bool) (p : ℕ)
      → IsValid k tdq
      → IsValid k (if b then record tdq { lowpri = p } else tdq)
  lowered tdq true p v = v
  lowered tdq false p v = v

  tdq_load_add-IsValid :
      (s : Store) (tdq : Tdq) (td : ℕ) → IsValid k tdq → IsValid k (tdq_load_add s tdq td)
  unfolding tdq_load_add
  tdq_load_add-IsValid s tdq td v = v

  pub tdq_add-IsValid :
      (s : Store) (tdq : Tdq) (td : ℕ) (flags : Flags)
      → IsValid k tdq
      → IsValid k (tdq_add k s tdq td flags).1
  unfolding tdq_add
  tdq_add-IsValid s tdq td flags v =
      let low =
        if ltb (s td).priority tdq.lowpri then record tdq { lowpri = (s td).priority } else tdq in
      tdq_load_add-IsValid (tdq_runq_add k s low td flags).0 (tdq_runq_add k s low td flags).1 td
        (tdq_runq_add-IsValid s low td flags (lowered tdq _ _ v))
