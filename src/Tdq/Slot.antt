-- ===== src/Tdq/Slot.antt =====
-- Where the calendar puts a root timeshare thread.
use free_bsd_messaround.Prelude.{
  ℕ, ◌+◌, ◌-◌, ◌*◌, ◌/◌, ◌%◌, ◌≤◌, ◌<◌, ◌≡◌, ◌≢◌, false, ltb, ltb→lt, arith, Bool-cases, inl, inr,
}
use native.Mathlib.Nat.{div-lt_iff_lt-mul, div-mul-le_self}
use free_bsd_messaround.Runq.{rq_nqs}
use free_bsd_messaround.Tdq.{Config, Flags, Tdq, batch_range, timeshare_slot}

-- The indices of the calendar are queues.
abbrev pub InRange : Tdq → Type 0
InRange tdq = (tdq.idx < rq_nqs) × (tdq.ridx < rq_nqs)

div_mono : (a b c : ℕ) → 0 < c → a ≤ b → a / c ≤ b / c
div_mono a b c p h = elim (Bool-cases (ltb (b / c) (a / c))) [
  | inr e ↦ ground arith
  | inl e ↦
      let over = (div-lt_iff_lt-mul p).0 (ltb→lt (b / c) (a / c) e) in
      absurd (omega (arith, div-mul-le_self a c))
]

module _ (k : Config) where
  pub timeshare_slot-lt :
      (tdq : Tdq) (pri : ℕ) (flags : Flags) → InRange tdq → timeshare_slot k tdq pri flags < rq_nqs
  unfolding timeshare_slot
  timeshare_slot-lt tdq pri flags v = ground arith

  -- While the queue `ridx` is drained (idx and ridx differ, both below RQ_NQS), a thread that is
  -- neither preempted nor lent a priority joins another queue.
  pub timeshare_slot-ne-ridx :
      (tdq : Tdq) (pri : ℕ)
      → InRange tdq
      → tdq.idx ≢ tdq.ridx
      → timeshare_slot k tdq pri (record { borrowing = false; preempted = false }) ≢ tdq.ridx
  unfolding timeshare_slot
  timeshare_slot-ne-ridx tdq pri v ne = ground arith

  share_below :
      (pri : ℕ)
      → k.min_batch ≤ pri
      → pri ≤ k.max_batch
      → rq_nqs * (pri - k.min_batch) / batch_range k < rq_nqs
  share_below pri lo hi =
      let o = k.batch_ordered in (div-lt_iff_lt-mul (omega arith)).1 (omega arith)

  -- How many queues the calendar has to turn before the thread is reached, from `ridx`.
  abbrev pub turns : Tdq → ℕ → ℕ
  turns tdq slot = (slot + rq_nqs - tdq.ridx) % rq_nqs

  turns_share :
      (tdq : Tdq) (pri : ℕ)
      → InRange tdq
      → tdq.idx ≡ tdq.ridx
      → k.min_batch ≤ pri
      → pri ≤ k.max_batch
      → turns tdq (timeshare_slot k tdq pri (record { borrowing = false; preempted = false }))
        ≡ rq_nqs * (pri - k.min_batch) / batch_range k
  unfolding timeshare_slot
  turns_share tdq pri v e lo hi = let s = share_below pri lo hi in ground arith

  -- While the insert and the removal index agree, below RQ_NQS, a thread that is neither preempted
  -- nor lent a priority is put no further round the calendar with a better (smaller) batch priority
  -- than with a worse one.
  pub timeshare_slot_mono :
      (tdq : Tdq) (p q : ℕ)
      → InRange tdq
      → tdq.idx ≡ tdq.ridx
      → k.min_batch ≤ p
      → p ≤ q
      → q ≤ k.max_batch
      → let plain : Flags = record { borrowing = false; preempted = false } in
        turns tdq (timeshare_slot k tdq p plain) ≤ turns tdq (timeshare_slot k tdq q plain)
  timeshare_slot_mono tdq p q v e lo le hi =
      rw (turns_share tdq p v e lo (omega arith), turns_share tdq q v e (omega arith) hi)
        (div_mono (rq_nqs * (p - k.min_batch)) (rq_nqs * (q - k.min_batch)) (batch_range k)
          (let o = k.batch_ordered in omega arith) (omega arith))
