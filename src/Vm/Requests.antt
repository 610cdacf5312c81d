-- ===== src/Vm/Requests.antt =====
-- The functions of vm_page.c that put a page on a queue keep the queues valid, and never panic.
use free_bsd_messaround.Prelude.{
  ℕ, suc, ◌^◌, ◌≤◌, ◌<◌, ◌≡◌, ◌≢◌, refl, ap, inl, inr, true, false, ltb, ◌==◌, if◌then◌else◌, arith,
  Bool-cases, ==_iff, lt→ltb, ltb→lt, update_self,
}
use free_bsd_messaround.Vm.{
  Page, Memory, Kernel, pq_none, pq_inactive, pq_active, pq_count, relink, vm_pagequeue_cnt_add,
}
use free_bsd_messaround.Vm.Queue.{
  vm_page_dequeue_locked, vm_page_dequeue, vm_page_remque, give_id, insert_tail, may_queue,
  funnelled, vm_page_enqueue,
}
use free_bsd_messaround.Vm.Valid.{home, IsValid}
use free_bsd_messaround.Vm.Steps.{vm_page_dequeue_locked-IsValid, insert_tail-IsValid}
use free_bsd_messaround.Vm.Agree.{give_id-IsValid, give_id-Rises}
use free_bsd_messaround.Vm.Outcome.{Yields}

module _ (k : Kernel) where
  -- The page is off the queues, with its other fields as they were.
  pub record Off (s : Memory) (m : ℕ) (s' : Memory) : Type 0 where
    pub valid : IsValid k s'
    pub page : s'.pages m ≡ record (s.pages m) { queue = pq_none }
    pub born : s'.pg_cnt ≡ s.pg_cnt

  pub vm_page_dequeue_locked-Off :
      (s : Memory) (m : ℕ)
      → IsValid k s
      → (s.pages m).marker ≡ false
      → (s.pages m).queue < pq_count
      → Off s m (vm_page_dequeue_locked k s m)
  unfolding vm_page_dequeue_locked relink vm_pagequeue_cnt_add
  vm_page_dequeue_locked-Off s m v real on = record {
    valid = vm_page_dequeue_locked-IsValid k s m v real on;
    page = update_self s.pages m _;
    born = refl;
  }

  pub vm_page_remque-Off :
      (s : Memory) (m : ℕ)
      → IsValid k s
      → (s.pages m).marker ≡ false
      → Yields (vm_page_remque k s m) (Off s m)
  unfolding vm_page_remque vm_page_dequeue
  vm_page_remque-Off s m v real = elim (Bool-cases ((s.pages m).queue == pq_none)) [
    | inl e ↦ rw e (record {
      valid = v;
      page = ap (λ (q : ℕ). record (s.pages m) { queue = q }) ((==_iff _ pq_none).0 e);
      born = refl;
    })
    | inr e ↦ rw (e, on e) (vm_page_dequeue_locked-Off s m v real (ltb→lt _ _ (on e)))
  ]
    where
      on : (s.pages m).queue == pq_none ≡ false → ltb (s.pages m).queue pq_count ≡ true
      on e = ground (arith, v.queues m real)

  -- The page is on a queue, with the newest birthday if that is the inactive one.
  pub record On (s : Memory) (m Q : ℕ) (s' : Memory) : Type 0 where
    pub valid : IsValid k s'
    pub queue : (s'.pages m).queue ≡ Q
    pub born : s'.pg_cnt ≤ suc s.pg_cnt

  module _ (s : Memory) (m : ℕ) (v : IsValid k s) (real : (s.pages m).marker ≡ false)
      (off : (s.pages m).queue ≡ pq_none) (may : may_queue (s.pages m) ≡ true)
      (room : suc s.pg_cnt < 2 ^ 64) where
    pub inactive-On :
        On s m pq_inactive (insert_tail (give_id s m) (k.vm_phys_domain m) pq_inactive m)
    unfolding insert_tail relink vm_pagequeue_cnt_add give_id may_queue
    inactive-On =
        let self = update_self s.pages m (record (s.pages m) { id = s.pg_cnt }) in
        record {
          valid =
              insert_tail-IsValid k (give_id s m) m pq_inactive
                (give_id-IsValid k s m v real off room) (rw self real) (rw self off) (rw self may)
                (omega arith) (omega arith)
                (λ e. (
                  rw self (give_id-Rises k s m v real off (k.vm_phys_domain m)),
                  rw self (omega arith),
                ));
          queue = ap Page.queue (update_self (give_id s m).pages m _);
          born = omega arith;
        }

    tail-On :
        (Q : ℕ)
        → Q < pq_count
        → Q ≢ pq_active
        → Q ≢ pq_inactive
        → On s m Q (insert_tail s (home k Q m) Q m)
    unfolding insert_tail relink vm_pagequeue_cnt_add
    tail-On Q below na ni = record {
      valid = insert_tail-IsValid k s m Q v real off may below na (λ e. absurd (ni e));
      queue = ap Page.queue (update_self s.pages m _);
      born = omega arith;
    }

    enqueue_at :
        (Q : ℕ)
        → Q < pq_count
        → Q ≢ pq_active
        → On s m Q (insert_tail (if Q == pq_inactive then give_id s m else s) (home k Q m) Q m)
    enqueue_at Q below na = elim (Bool-cases (Q == pq_inactive)) [
      | inl e ↦ let j : Q ≡ pq_inactive = (==_iff Q pq_inactive).0 e in rw j inactive-On
      | inr e ↦ rw e (tail-On Q below na (λ j. ground (arith, e, j)))
    ]

    pub vm_page_enqueue-On :
        (Q : ℕ) → Q < pq_count → Yields (vm_page_enqueue k Q s m) (On s m (funnelled Q))
    unfolding vm_page_enqueue funnelled
    vm_page_enqueue-On Q below =
        rw (lt→ltb Q pq_count below) (enqueue_at (funnelled Q) (ground arith) (λ e. ground arith))
