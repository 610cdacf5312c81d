-- ===== src/Runq/Invariant.antt =====
-- The status bits tell which queues hold a thread, and every operation keeps them so.
use free_bsd_messaround.Prelude.{
  ℕ, ◌*◌, ◌/◌, ◌%◌, ◌<◌, ◌≡◌, refl, ap, ◌∙◌, inl, inr, Bool, true, false, not, Option, none, some,
  List, [], ◌∷◌, ◌++◌, arith, ◌==◌, if◌then◌else◌, Bool-cases, is_empty, erase, update,
}
use free_bsd_messaround.Runq.{
  Machine, Runq, Store, rq_nqs, write_bit, enqueue, dequeue, runq_init, runq_add, runq_add_pri,
  lottery_q_add, lottery_q_remove, runq_remove_idx, runq_remove,
}
use free_bsd_messaround.Runq.Words.{bit, split_word}

eq_of_split : (b p q : ℕ) → 0 < b → p / b ≡ q / b → p % b ≡ q % b → p ≡ q
eq_of_split b p q h d r = omega (arith, split_word b p h, split_word b q h, ap (λ (t : ℕ). t * b) d)

pub is_empty-snoc : (xs : List ℕ) (x : ℕ) → is_empty (xs ++ (x ∷ [])) ≡ false
is_empty-snoc [] x = refl
is_empty-snoc (y ∷ xs) x = refl

is_empty-erase : (x : ℕ) (xs : List ℕ) → is_empty (erase x xs) ≡ false → is_empty xs ≡ false
is_empty-erase x [] h = h
is_empty-erase x (y ∷ xs) h = refl

module _ (m : Machine) where
  -- Each status bit is set exactly when its queue holds a thread.
  pub record IsConsistent (rq : Runq) : Type 0 where
    pub bits : (p : ℕ) → p < rq_nqs → bit m rq p ≡ not (is_empty (rq.queues p))

  pub bit-write_bit :
      (b : Bool) (rq : Runq) (pri p : ℕ)
      → bit m (write_bit m b rq pri) p ≡ (if p == pri then b else bit m rq p)
  unfolding write_bit
  bit-write_bit b rq pri p = ground (arith, eq_of_split m.bpw p pri m.bpw_pos)

  pub enqueue-IsConsistent :
      (rq : Runq) (td pri : ℕ) (preempted : Bool)
      → IsConsistent rq
      → IsConsistent (enqueue m rq td pri preempted)
  unfolding enqueue
  enqueue-IsConsistent rq td pri preempted c = record {
    bits = λ p l.
        bit-write_bit true rq pri p ∙ ground (arith, c.bits p l, is_empty-snoc (rq.queues pri) td);
  }

  pub dequeue-IsConsistent :
      (rq : Runq) (td pri : ℕ) → IsConsistent rq → IsConsistent (dequeue m rq td pri)
  unfolding dequeue
  dequeue-IsConsistent rq td pri c = record {
    bits = λ p l. elim (Bool-cases (is_empty (erase td (rq.queues pri)))) [
      | inl e ↦ rw e (
          bit-write_bit false
            (record rq { queues = update rq.queues pri (erase td (rq.queues pri)) }) pri p
          ∙ ground (arith, c.bits p l))
      | inr e ↦ rw e (ground (arith, c.bits p l, is_empty-erase td (rq.queues pri)))
    ];
  }

  pub runq_init-IsConsistent : IsConsistent runq_init
  unfolding runq_init
  runq_init-IsConsistent = record { bits = λ p l. refl }

  pub runq_add-IsConsistent :
      (s : Store) (rq : Runq) (td : ℕ) (preempted : Bool)
      → IsConsistent rq
      → IsConsistent (runq_add m s rq td preempted).1
  unfolding runq_add
  runq_add-IsConsistent s rq td preempted c = enqueue-IsConsistent rq td _ preempted c

  pub runq_remove_idx-IsConsistent :
      (s : Store) (rq : Runq) (td : ℕ) (idx : Option ℕ)
      → IsConsistent rq
      → IsConsistent (runq_remove_idx m s rq td idx).0
  unfolding runq_remove_idx
  runq_remove_idx-IsConsistent s rq td idx c = dequeue-IsConsistent rq td _ c

  pub runq_remove-IsConsistent :
      (s : Store) (rq : Runq) (td : ℕ) → IsConsistent rq → IsConsistent (runq_remove m s rq td)
  unfolding runq_remove
  runq_remove-IsConsistent s rq td c = dequeue-IsConsistent rq td _ c

  pub runq_add_pri-IsConsistent :
      (s : Store) (rq : Runq) (td pri : ℕ) (preempted : Bool)
      → IsConsistent rq
      → IsConsistent (runq_add_pri m s rq td pri preempted).1
  unfolding runq_add_pri
  runq_add_pri-IsConsistent s rq td pri preempted c = enqueue-IsConsistent rq td pri preempted c

  pub lottery_q_add-IsConsistent :
      (rq : Runq) (td : ℕ) → IsConsistent rq → IsConsistent (lottery_q_add m rq td)
  unfolding lottery_q_add
  lottery_q_add-IsConsistent rq td c = enqueue-IsConsistent rq td 0 true c

  pub lottery_q_remove-IsConsistent :
      (rq : Runq) (td : ℕ) → IsConsistent rq → IsConsistent (lottery_q_remove m rq td)
  unfolding lottery_q_remove
  lottery_q_remove-IsConsistent rq td c = dequeue-IsConsistent rq td 0 c

  -- The index that is handed back is a queue, if the one that came in was.
  pub runq_remove_idx-lt :
      (s : Store) (rq : Runq) (td i : ℕ)
      → i < rq_nqs
      → (j : ℕ) × ((runq_remove_idx m s rq td (some i)).1 ≡ some j) × (j < rq_nqs)
  unfolding runq_remove_idx
  runq_remove_idx-lt s rq td i l = (_, refl, ground arith)

  pub runq_remove_idx-none :
      (s : Store) (rq : Runq) (td : ℕ) → (runq_remove_idx m s rq td none).1 ≡ none
  unfolding runq_remove_idx
  runq_remove_idx-none s rq td = refl
