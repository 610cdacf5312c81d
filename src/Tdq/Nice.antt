-- ===== src/Tdq/Nice.antt =====
-- A thread that is queued keeps its nice value, and the lottery queue stays fit for a draw.
use free_bsd_messaround.Prelude.{
  ℕ, ◌≡◌, ◌⊎◌, refl, ◌∙◌, inl, inr, List, [], ◌∷◌, ltb, leb, ◌==◌, Bool-cases, pos, arith,
}
use free_bsd_messaround.Runq.{Store, enqueue, runq_add, runq_add_pri, lottery_q_add}
use free_bsd_messaround.Lottery.Draw.{NiceEnough}
use free_bsd_messaround.Tdq.{Config, Flags, Tdq, is_root, mark_runq, place, tdq_runq_add}

pub NiceEnough-same :
    (s t : Store) (q : List ℕ)
    → ((x : ℕ) → (t x).nice ≡ (s x).nice)
    → NiceEnough s q
    → NiceEnough t q
NiceEnough-same s t [] same n = n
NiceEnough-same s t (x ∷ q) same ((m, e), n) = ((m, same x ∙ e), NiceEnough-same s t q same n)

module _ (k : Config) where
  -- The thread may have joined the lottery queue, and nice values are as they were.
  record Joined (s : Store) (tdq : Tdq) (td : ℕ) (s' : Store) (tdq' : Tdq) : Type 0 where
    nice : (x : ℕ) → (s' x).nice ≡ (s x).nice
    lottery :
        (tdq'.rq_lottery ≡ tdq.rq_lottery)
        ⊎ (tdq'.rq_lottery.queues 0 ≡ td ∷ tdq.rq_lottery.queues 0)

  place-Joined :
      (s : Store) (tdq : Tdq) (td : ℕ) (flags : Flags)
      → Joined s tdq td (place k s tdq td flags).0 (place k s tdq td flags).1
  unfolding place runq_add runq_add_pri lottery_q_add enqueue
  place-Joined s tdq td flags = elim (Bool-cases (ltb (s td).priority k.min_batch)) [
    | inl e ↦ rw e (record { nice = λ x. ground arith; lottery = inl refl })
    | inr e ↦ rw e (elim (Bool-cases (leb (s td).priority k.max_batch)) [
      | inr f ↦ rw f (record { nice = λ x. ground arith; lottery = inl refl })
      | inl f ↦ rw f (elim (Bool-cases (is_root (s td))) [
        | inl g ↦ rw g (record { nice = λ x. ground arith; lottery = inl refl })
        | inr g ↦ rw g (record { nice = λ x. ground arith; lottery = inr refl })
      ])
    ])
  ]

  mark_runq_nice :
      (s : Store) (tdq : Tdq) (td x : ℕ) → ((mark_runq k s tdq td).0 x).nice ≡ (s x).nice
  unfolding mark_runq
  mark_runq_nice s tdq td x = ground arith

  mark_runq_lottery :
      (s : Store) (tdq : Tdq) (td : ℕ) → (mark_runq k s tdq td).1.rq_lottery ≡ tdq.rq_lottery
  unfolding mark_runq
  mark_runq_lottery s tdq td = elim (Bool-cases ((s td).pinned == 0)) [
    | inl e ↦ rw e refl
    | inr e ↦ rw e refl
  ]

  Joined-NiceEnough :
      (s s' : Store) (tdq tdq' : Tdq) (td n : ℕ)
      → Joined s tdq td s' tdq'
      → (s td).nice ≡ pos n
      → NiceEnough s (tdq.rq_lottery.queues 0)
      → NiceEnough s' (tdq'.rq_lottery.queues 0)
  Joined-NiceEnough s s' tdq tdq' td n j e q = elim j.lottery [
    | inl f ↦ rw f (NiceEnough-same s s' _ j.nice q)
    | inr f ↦ rw f (NiceEnough-same s s' (td ∷ tdq.rq_lottery.queues 0) j.nice ((n, e), q))
  ]

  -- A thread without a negative nice value is queued: the lottery queue has no negative nice value
  -- if it had none before.
  pub tdq_runq_add-NiceEnough :
      (s : Store) (tdq : Tdq) (td n : ℕ) (flags : Flags)
      → (s td).nice ≡ pos n
      → NiceEnough s (tdq.rq_lottery.queues 0)
      → NiceEnough
          (tdq_runq_add k s tdq td flags).0
          ((tdq_runq_add k s tdq td flags).1.rq_lottery.queues 0)
  unfolding tdq_runq_add
  tdq_runq_add-NiceEnough s tdq td n flags e q =
      let s1 = (mark_runq k s tdq td).0 in
      let tdq1 = (mark_runq k s tdq td).1 in
      Joined-NiceEnough s1 _ tdq1 _ td n (place-Joined s1 tdq1 td flags)
        (mark_runq_nice s tdq td td ∙ e)
        (rw (mark_runq_lottery s tdq td) (NiceEnough-same s s1 _ (mark_runq_nice s tdq td) q))
