-- ===== src/Runq/Remove.antt =====
-- Removing a thread undoes adding it, and moves the caller's index past an emptied queue.
use free_bsd_messaround.Prelude.{
  ℕ, ◌/◌, ◌<◌, ◌≡◌, refl, ap, ◌∙◌, inl, inr, Bool, true, false, not, sym, List, [], ◌∷◌, ◌++◌,
  arith, ◌==◌, ==_iff, Option, none, if◌then◌else◌, Bool-cases, is_empty, erase, has, update,
  update_self,
}
use free_bsd_messaround.Runq.{
  Machine, Runq, Thread, Store, rq_nqs, rq_ppq, enqueue, dequeue, runq_add, runq_remove,
  runq_remove_idx, lottery_q_remove,
}
use free_bsd_messaround.Runq.Words.{bit}
use free_bsd_messaround.Runq.Invariant.{IsConsistent, enqueue-IsConsistent, dequeue-IsConsistent}

-- Two run queues with the same queues and the same status bits.
pub record Same (m : Machine) (rq rq' : Runq) : Type 0 where
  pub queues : (p : ℕ) → rq.queues p ≡ rq'.queues p
  pub bits : (p : ℕ) → p < rq_nqs → bit m rq p ≡ bit m rq' p

erase-snoc : (x : ℕ) (xs : List ℕ) → has x xs ≡ false → erase x (xs ++ (x ∷ [])) ≡ xs
erase-snoc x [] h = ground arith
erase-snoc x (y ∷ xs) h = ground (arith, erase-snoc x xs)

pub erase-cons : (x : ℕ) (xs : List ℕ) → erase x (x ∷ xs) ≡ xs
erase-cons x xs = ground arith

module _ (m : Machine) where
  Same-of_queues :
      (rq rq' : Runq)
      → IsConsistent m rq
      → IsConsistent m rq'
      → ((p : ℕ) → rq.queues p ≡ rq'.queues p)
      → Same m rq rq'
  Same-of_queues rq rq' c c' h = record {
    queues = h;
    bits = λ p l. c.bits p l ∙ ap (λ q. not (is_empty q)) (h p) ∙ sym (c'.bits p l);
  }

  pub dequeue_queues :
      (rq : Runq) (td pri p : ℕ)
      → (dequeue m rq td pri).queues p
        ≡ (if p == pri then erase td (rq.queues pri) else rq.queues p)
  unfolding dequeue
  dequeue_queues rq td pri p = elim (Bool-cases (is_empty (erase td (rq.queues pri)))) [
    | inl e ↦ rw e refl
    | inr e ↦ rw e refl
  ]

  -- A removal takes the thread off one queue.
  pub dequeue-at :
      (rq : Runq) (td p q : ℕ)
      → (dequeue m rq td p).queues q ≡ (if q == p then erase td (rq.queues q) else rq.queues q)
  dequeue-at rq td p q = dequeue_queues rq td p q ∙ elim (Bool-cases (q == p)) [
    | inl e ↦ let same : q ≡ p = (==_iff q p).0 e in rw same refl
    | inr e ↦ rw e refl
  ]

  pub runq_remove_idx-at :
      (s : Store) (rq : Runq) (td q : ℕ) (idx : Option ℕ)
      → (runq_remove_idx m s rq td idx).0.queues q
        ≡ (if q == (s td).rqindex then erase td (rq.queues q) else rq.queues q)
  unfolding runq_remove_idx
  runq_remove_idx-at s rq td q idx = dequeue-at rq td (s td).rqindex q

  pub runq_remove-at :
      (s : Store) (rq : Runq) (td q : ℕ)
      → (runq_remove m s rq td).queues q
        ≡ (if q == (s td).rqindex then erase td (rq.queues q) else rq.queues q)
  unfolding runq_remove
  runq_remove-at s rq td q = runq_remove_idx-at s rq td q none

  pub lottery_q_remove-at :
      (rq : Runq) (td q : ℕ)
      → (lottery_q_remove m rq td).queues q
        ≡ (if q == 0 then erase td (rq.queues q) else rq.queues q)
  unfolding lottery_q_remove
  lottery_q_remove-at rq td q = dequeue-at rq td 0 q

  enqueue_queues :
      (rq : Runq) (td pri p : ℕ) (preempted : Bool)
      → (enqueue m rq td pri preempted).queues p
        ≡ update rq.queues pri
            (if preempted then td ∷ rq.queues pri else rq.queues pri ++ (td ∷ []))
            p
  unfolding enqueue
  enqueue_queues rq td pri p preempted = refl

  erase-enqueue :
      (rq : Runq) (td pri : ℕ) (preempted : Bool)
      → has td (rq.queues pri) ≡ false
      → erase td ((enqueue m rq td pri preempted).queues pri) ≡ rq.queues pri
  erase-enqueue rq td pri true out =
      rw (enqueue_queues rq td pri pri true, update_self rq.queues pri (td ∷ rq.queues pri))
        (erase-cons td (rq.queues pri))
  erase-enqueue rq td pri false out =
      rw
        (enqueue_queues rq td pri pri false, update_self rq.queues pri (rq.queues pri ++ (td ∷ [])))
        (erase-snoc td (rq.queues pri) out)

  dequeue-enqueue :
      (rq : Runq) (td pri p : ℕ) (preempted : Bool)
      → has td (rq.queues pri) ≡ false
      → (dequeue m (enqueue m rq td pri preempted) td pri).queues p ≡ rq.queues p
  dequeue-enqueue rq td pri p preempted out =
      rw
        (
          dequeue_queues (enqueue m rq td pri preempted) td pri p,
          erase-enqueue rq td pri preempted out,
        )
        (elim (Bool-cases (p == pri)) [
          | inl e ↦ ground arith
          | inr e ↦ rw (e, enqueue_queues rq td pri p preempted, e) refl
        ])

  -- With the status bits in step, removing a thread that runq_add has just queued gives back the
  -- queues and status bits of before, if the thread did not stand in the queue of its priority
  -- already.
  pub runq_remove-runq_add :
      (s : Store) (rq : Runq) (td : ℕ) (preempted : Bool)
      → IsConsistent m rq
      → has td (rq.queues ((s td).priority / rq_ppq)) ≡ false
      → let added = runq_add m s rq td preempted in Same m (runq_remove m added.0 added.1 td) rq
  unfolding runq_add runq_remove
  runq_remove-runq_add s rq td preempted c out =
      let pri : ℕ = (s td).priority / rq_ppq in
      let idx : (update s td (record (s td) { rqindex = pri }) td).rqindex ≡ pri =
        ap (λ (t : Thread). t.rqindex) (update_self s td (record (s td) { rqindex = pri })) in
      rw idx (
        Same-of_queues _ rq
          (dequeue-IsConsistent m _ td pri (enqueue-IsConsistent m rq td pri preempted c)) c
          (λ p. dequeue-enqueue rq td pri p preempted out))
