-- ===== src/Runq/Choose.antt =====
-- Which thread the choosing functions return, and where a new thread comes in.
use free_bsd_messaround.Prelude.{
  ℕ, ◌/◌, ◌≤◌, ◌<◌, ◌≡◌, refl, inl, inr, Bool, true, false, Option, none, some, List, [], ◌∷◌, ◌++◌,
  arith, ltb, leb, ◌==◌, if◌then◌else◌, Bool-cases, is_empty,
}
use free_bsd_messaround.Runq.{
  Machine, Runq, Store, rq_nqs, rq_ppq, enqueue, runq_add, head_at, runq_choose, runq_choose_from,
}
use free_bsd_messaround.Runq.Words.{
  bit, FirstFrom, NearestFrom, distance, runq_findbit-first, runq_findbit_from-nearest,
}
use free_bsd_messaround.Runq.Invariant.{IsConsistent, enqueue-IsConsistent}

-- `r` is the head of the first queue that holds a thread, or none if all are empty.
abbrev pub IsBest : Runq → Option ℕ → Type 0
IsBest rq none = (p : ℕ) → p < rq_nqs → rq.queues p ≡ []
IsBest rq (some td) =
    (p : ℕ) × (rest : List ℕ) × (p < rq_nqs)
    × (rq.queues p ≡ td ∷ rest)
    × ((q : ℕ) → q < p → rq.queues q ≡ [])

pub nil_of_empty : (xs : List ℕ) → is_empty xs ≡ true → xs ≡ []
nil_of_empty [] h = refl
nil_of_empty (x ∷ xs) h = absurd (cc)

cons_of_nonempty : (xs : List ℕ) → is_empty xs ≡ false → (x : ℕ) × (rest : List ℕ) × (xs ≡ x ∷ rest)
cons_of_nonempty [] h = absurd (cc)
cons_of_nonempty (x ∷ xs) h = (x, xs, refl)

module _ (m : Machine) where
  clear_queue :
      (rq : Runq) (p : ℕ) → IsConsistent m rq → p < rq_nqs → bit m rq p ≡ false → rq.queues p ≡ []
  clear_queue rq p c l off = nil_of_empty _ (ground (arith, c.bits p l))

  set_queue :
      (rq : Runq) (p : ℕ)
      → IsConsistent m rq
      → p < rq_nqs
      → bit m rq p ≡ true
      → (x : ℕ) × (rest : List ℕ) × (rq.queues p ≡ x ∷ rest)
  set_queue rq p c l on = cons_of_nonempty _ (ground (arith, c.bits p l))

  best :
      (rq : Runq) (r : Option ℕ)
      → IsConsistent m rq
      → FirstFrom m rq 0 r
      → IsBest rq (head_at m rq r)
  unfolding head_at
  best rq none c f = λ p l. clear_queue rq p c l (f p (omega arith) l)
  best rq (some p) c f =
      let (x, rest, e) = set_queue rq p c f.1 f.2 in
      rw e (p, rest, f.1, e, λ q l. clear_queue rq q c (omega arith) (f.3 q (omega arith) l))

  -- With the status bits in step, runq_choose returns the head of the first queue that is not
  -- empty, and NULL exactly when all 64 are empty.
  pub runq_choose-IsBest : (rq : Runq) → IsConsistent m rq → IsBest rq (runq_choose m rq)
  unfolding runq_choose
  runq_choose-IsBest rq c = best rq _ c (runq_findbit-first m rq)

  -- `r` is the head of the queue that comes first when the queues that hold a thread are taken
  -- upwards from `idx` and round.
  abbrev pub IsNext : Runq → ℕ → Option ℕ → Type 0
  IsNext rq idx none = (p : ℕ) → p < rq_nqs → rq.queues p ≡ []
  IsNext rq idx (some td) =
      (p : ℕ) × (rest : List ℕ) × (p < rq_nqs)
      × (rq.queues p ≡ td ∷ rest)
      × ((q : ℕ)
          → q < rq_nqs
          → is_empty (rq.queues q) ≡ false
          → distance m idx p ≤ distance m idx q)

  next :
      (rq : Runq) (idx : ℕ) (r : Option ℕ)
      → IsConsistent m rq
      → NearestFrom m rq idx r
      → IsNext rq idx (head_at m rq r)
  unfolding head_at
  next rq idx none c f = λ p l. clear_queue rq p c l (f p l)
  next rq idx (some p) c f =
      let (x, rest, e) = set_queue rq p c f.0 f.1 in
      rw e (p, rest, f.0, e, λ q l ne. f.2 q l (ground (arith, c.bits q l)))

  -- With the status bits in step, runq_choose_from returns the head of the first queue that is not
  -- empty, taking the queues from `idx` upwards and round, and NULL exactly when all are empty.
  pub runq_choose_from-IsNext :
      (rq : Runq) (idx : ℕ)
      → idx < rq_nqs
      → IsConsistent m rq
      → IsNext rq idx (runq_choose_from m rq idx)
  unfolding runq_choose_from
  runq_choose_from-IsNext rq idx l c = next rq idx _ c (runq_findbit_from-nearest m rq idx l)

  IsBest-unique : (rq : Runq) (r r' : Option ℕ) → IsBest rq r → IsBest rq r' → r ≡ r'
  IsBest-unique rq none none b b' = refl
  IsBest-unique rq none (some y) b (p, rest, l, e, under) = absurd (cc (b p l))
  IsBest-unique rq (some x) none (p, rest, l, e, under) b' = absurd (cc (b' p l))
  IsBest-unique rq (some x) (some y) (p, rest, l, e, under) (p', rest', l', e', under') =
      ground (arith, under p', under' p)

  new-IsBest :
      (rq : Runq) (td pri x : ℕ) (preempted : Bool)
      → pri < rq_nqs
      → (b : IsBest rq (some x))
      → IsBest
          (enqueue m rq td pri preempted)
          (if (if preempted then leb pri b.0 else ltb pri b.0) then some td else some x)
  unfolding enqueue
  new-IsBest rq td pri x true l (p, rest, lp, e, under) = elim (Bool-cases (leb pri p)) [
    | inl t ↦ rw t (pri, rq.queues pri, l, ground arith, λ q h. ground (arith, under q))
    | inr t ↦ rw t (p, rest, lp, ground arith, λ q h. ground (arith, under q))
  ]
  new-IsBest rq td pri x false l (p, rest, lp, e, under) = elim (Bool-cases (ltb pri p)) [
    | inl t ↦ rw t (pri, [], l, ground (arith, under pri), λ q h. ground (arith, under q))
    | inr t ↦ rw t (elim (Bool-cases (p == pri)) [
      | inl u ↦ (p, rest ++ (td ∷ []), lp, ground arith, λ q h. ground (arith, under q))
      | inr u ↦ (p, rest, lp, ground arith, λ q h. ground (arith, under q))
    ])
  ]

  -- With the status bits in step and a priority below 256, a thread that joins goes ahead of the
  -- thread that was to run next if its queue comes before, or is the same and the thread was
  -- preempted; otherwise the choice stays.
  pub runq_choose-runq_add :
      (s : Store) (rq : Runq) (td x : ℕ) (preempted : Bool)
      → IsConsistent m rq
      → (s td).priority < 256
      → (b : IsBest rq (some x))
      → let pri = (s td).priority / rq_ppq in
        runq_choose m (runq_add m s rq td preempted).1
        ≡ (if (if preempted then leb pri b.0 else ltb pri b.0) then some td else some x)
  unfolding runq_add
  runq_choose-runq_add s rq td x preempted c l b =
      IsBest-unique (enqueue m rq td ((s td).priority / rq_ppq) preempted) _ _
        (runq_choose-IsBest _ (enqueue-IsConsistent m rq td _ preempted c))
        (new-IsBest rq td _ x preempted (omega arith) b)
