-- ===== src/Runq/Serve.antt =====
-- The run queue, served as sched_choose serves it: the thread that runq_choose returns is removed, and
-- so on. Every thread that waits gets its turn.
use free_bsd_messaround.Prelude.{
  ℕ, zero, suc, ◌+◌, ◌≤◌, ◌<◌, ◌≡◌, ◌≢◌, refl, sym, ap, ◌∙◌, inl, inr, Bool, true, false, Option,
  none, some, List, [], ◌∷◌, arith, ◌==◌, ==_iff, ==_self, if◌then◌else◌, Bool-cases, erase, has,
  length, subst,
}
use free_bsd_messaround.Runq.{
  Machine, Runq, Store, rq_nqs, runq_choose, runq_remove, runq_remove_idx,
}
use free_bsd_messaround.Runq.Invariant.{IsConsistent, runq_remove-IsConsistent}
use free_bsd_messaround.Runq.Choose.{IsBest, runq_choose-IsBest}
use free_bsd_messaround.Runq.Remove.{dequeue_queues, erase-cons}

-- How many threads wait in the first n queues.
unfoldable pub waiting : (ℕ → List ℕ) → ℕ → ℕ
waiting queues zero = 0
waiting queues (suc n) = length (queues n) + waiting queues n

waiting-same :
    (f g : ℕ → List ℕ) (n : ℕ) → ((p : ℕ) → p < n → f p ≡ g p) → waiting f n ≡ waiting g n
unfolding waiting
waiting-same f g zero same = refl
waiting-same f g (suc n) same =
    omega (
      arith,
      ap length (same n (omega arith)),
      waiting-same f g n (λ p l. same p (omega (arith, l))),
    )

waiting-shorter :
    (f g : ℕ → List ℕ) (d n : ℕ)
    → d < n
    → ((p : ℕ) → p ≢ d → f p ≡ g p)
    → length (g d) + 1 ≡ length (f d)
    → waiting g n + 1 ≡ waiting f n
unfolding waiting
waiting-shorter f g d zero l same less = absurd (omega (arith, l))
waiting-shorter f g d (suc n) l same less = elim (Bool-cases (d == n)) [
  | inl e ↦
      let q : d ≡ n = (==_iff d n).0 e in
      omega (
        arith,
        subst (λ x. length (g x) + 1 ≡ length (f x)) q less,
        waiting-same f g n (λ p b. same p (omega (arith, b, q))),
      )
  | inr e ↦ omega (
    arith,
    ap length (same n (ground (arith, e))),
    waiting-shorter f g d n (ground (arith, l, e)) same less,
  )
]

has-erase : (x y : ℕ) (xs : List ℕ) → y ≢ x → has y (erase x xs) ≡ has y xs
has-erase x y [] ne = refl
has-erase x y (z ∷ xs) ne = ground (arith, has-erase x y xs, ne)

has-of-erase : (x y : ℕ) (xs : List ℕ) → has y (erase x xs) ≡ true → has y xs ≡ true
has-of-erase x y [] h = h
has-of-erase x y (z ∷ xs) h = ground (arith, has-of-erase x y xs, h)

empty_queue : (td : ℕ) (q : List ℕ) → q ≡ [] → has td q ≡ true → ⊥
empty_queue td [] e h = cc
empty_queue td (x ∷ q) e h = cc

has-length : (td : ℕ) (q : List ℕ) → has td q ≡ true → 0 < length q
has-length td [] h = absurd (cc)
has-length td (x ∷ q) h = omega arith

waiting-pos :
    (queues : ℕ → List ℕ) (td p n : ℕ) → p < n → has td (queues p) ≡ true → 0 < waiting queues n
unfolding waiting
waiting-pos queues td p zero l h = absurd (omega (arith, l))
waiting-pos queues td p (suc n) l h = elim (Bool-cases (p == n)) [
  | inl e ↦
      let q : p ≡ n = (==_iff p n).0 e in
      omega (arith, has-length td (queues n) (subst (λ x. has td (queues x) ≡ true) q h))
  | inr e ↦ omega (arith, waiting-pos queues td p n (ground (arith, l, e)) h)
]

abbrev then_serve : Option ℕ → (ℕ → List ℕ) → List ℕ
then_serve none next = []
then_serve (some td) next = td ∷ next td

module _ (m : Machine) (s : Store) where
  -- Each queued thread has the number of its queue.
  unfoldable pub IsIndexed : Runq → Type 0
  IsIndexed rq = (td p : ℕ) → p < rq_nqs → has td (rq.queues p) ≡ true → (s td).rqindex ≡ p

  at_own :
      (q : ℕ → List ℕ) (td p i : ℕ)
      → (if p == i then erase td (q i) else q p) ≡ (if p == i then erase td (q p) else q p)
  at_own q td p i = elim (Bool-cases (p == i)) [
    | inl e ↦ let f : p ≡ i = (==_iff p i).0 e in rw f refl
    | inr e ↦ rw e refl
  ]

  runq_remove_queues :
      (rq : Runq) (td p : ℕ)
      → (runq_remove m s rq td).queues p
        ≡ (if p == (s td).rqindex then erase td (rq.queues p) else rq.queues p)
  unfolding runq_remove runq_remove_idx
  runq_remove_queues rq td p =
      dequeue_queues m rq td (s td).rqindex p ∙ at_own rq.queues td p (s td).rqindex

  has-removed_if :
      (b : Bool) (x y : ℕ) (q : List ℕ) → has y (if b then erase x q else q) ≡ true → has y q ≡ true
  has-removed_if true x y q h = has-of-erase x y q h
  has-removed_if false x y q h = h

  has-kept_if :
      (b : Bool) (x y : ℕ) (q : List ℕ)
      → y ≢ x
      → has y q ≡ true
      → has y (if b then erase x q else q) ≡ true
  has-kept_if true x y q ne h = has-erase x y q ne ∙ h
  has-kept_if false x y q ne h = h

  -- A queue loses nothing but the thread removed.
  has-removed :
      (rq : Runq) (td y p : ℕ)
      → has y ((runq_remove m s rq td).queues p) ≡ true
      → has y (rq.queues p) ≡ true
  has-removed rq td y p h =
      has-removed_if (p == (s td).rqindex) td y (rq.queues p)
        (subst (λ q. has y q ≡ true) (runq_remove_queues rq td p) h)

  has-kept :
      (rq : Runq) (td y p : ℕ)
      → y ≢ td
      → has y (rq.queues p) ≡ true
      → has y ((runq_remove m s rq td).queues p) ≡ true
  has-kept rq td y p ne h =
      subst (λ q. has y q ≡ true) (sym (runq_remove_queues rq td p))
        (has-kept_if (p == (s td).rqindex) td y (rq.queues p) ne h)

  removed-IsIndexed : (rq : Runq) (td : ℕ) → IsIndexed rq → IsIndexed (runq_remove m s rq td)
  unfolding IsIndexed
  removed-IsIndexed rq td x = λ y p l h. x y p l (has-removed rq td y p h)

  waiting-removed :
      (rq : Runq) (td p : ℕ) (rest : List ℕ)
      → p < rq_nqs
      → (s td).rqindex ≡ p
      → rq.queues p ≡ td ∷ rest
      → waiting (runq_remove m s rq td).queues rq_nqs + 1 ≡ waiting rq.queues rq_nqs
  waiting-removed rq td p rest l i e =
      waiting-shorter rq.queues (runq_remove m s rq td).queues p rq_nqs l
        (λ q ne. sym (runq_remove_queues rq td q ∙ ground (arith, i, ne)))
        (ap (λ q. length q + 1) (runq_remove_queues rq td p) ∙ first_removed)
    where
      first_removed :
          length (if p == (s td).rqindex then erase td (rq.queues p) else rq.queues p) + 1
          ≡ length (rq.queues p)
      first_removed = rw (i, ==_self p, e, erase-cons td rest) (omega arith)

  -- The threads in the order in which they are served, in n rounds.
  unfoldable pub serve : ℕ → Runq → List ℕ
  serve zero rq = []
  serve (suc n) rq = then_serve (runq_choose m rq) (λ td. serve n (runq_remove m s rq td))

  -- One round, with the turns of those that wait afterwards.
  round-has :
      (n : ℕ) (rq : Runq) (td p : ℕ) (r : Option ℕ)
      → runq_choose m rq ≡ r
      → IsBest rq r
      → IsIndexed rq
      → p < rq_nqs
      → has td (rq.queues p) ≡ true
      → waiting rq.queues rq_nqs ≤ suc n
      → ((x : ℕ)
          → has td ((runq_remove m s rq x).queues p) ≡ true
          → waiting (runq_remove m s rq x).queues rq_nqs ≤ n
          → has td (serve n (runq_remove m s rq x)) ≡ true)
      → has td (serve (suc n) rq) ≡ true
  unfolding serve IsIndexed
  round-has n rq td p none e best x l h fits later =
      absurd (empty_queue td (rq.queues p) (best p l) h)
  round-has n rq td p (some y) e (q, rest, b, f, first) x l h fits later =
      let own : (s y).rqindex ≡ q = x y q b (rw f (rw (==_self y) refl)) in
      let fewer = waiting-removed rq y q rest b own f in
      rw e (elim (Bool-cases (td == y)) [
        | inl g ↦ rw g refl
        | inr g ↦
            rw g (later y (has-kept rq y td p (ground (arith, g)) h) (omega (arith, fewer, fits)))
      ])

  -- In a run queue whose bits agree with its queues, and whose threads know their queues, every
  -- waiting thread is chosen within as many rounds of choosing and removing as threads wait.
  pub serve-has :
      (n : ℕ) (rq : Runq) (td p : ℕ)
      → IsConsistent m rq
      → IsIndexed rq
      → p < rq_nqs
      → has td (rq.queues p) ≡ true
      → waiting rq.queues rq_nqs ≤ n
      → has td (serve n rq) ≡ true
  serve-has zero rq td p c x l h fits =
      absurd (omega (arith, fits, waiting-pos rq.queues td p rq_nqs l h))
  serve-has (suc n) rq td p c x l h fits =
      round-has n rq td p (runq_choose m rq) refl (runq_choose-IsBest m rq c) x l h fits
        (λ y kept less.
          serve-has n (runq_remove m s rq y) td p (runq_remove-IsConsistent m s rq y c)
            (removed-IsIndexed rq y x) l kept less)
