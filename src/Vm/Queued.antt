-- ===== src/Vm/Queued.antt =====
-- vm_page_activate, vm_page_deactivate, vm_page_deactivate_noreuse and vm_page_launder on a page that
-- is no marker.
use free_bsd_messaround.Prelude.{
  ℕ, suc, ◌<◌, ◌≤◌, ◌^◌, ◌≡◌, ◌≢◌, refl, ap, ◌∙◌, inl, inr, Bool, true, false, ◌&&◌, not, some, ltb,
  ◌==◌, if◌then◌else◌, arith, Bool-cases,
}
use free_bsd_messaround.Vm.{
  Page, Memory, Kernel, pq_none, pq_inactive, pq_active, pq_laundry, pq_count, ◌>>=◌,
}
use free_bsd_messaround.Vm.Queue.{
  vm_page_dequeue_locked, vm_page_remque, may_queue, funnelled, vm_page_enqueue, raise_act_count,
  vm_page_activate, deactivate, vm_page_deactivate, vm_page_deactivate_noreuse, vm_page_launder,
  act_init,
}
use free_bsd_messaround.Vm.Valid.{IsValid}
use free_bsd_messaround.Vm.Agree.{Agree, Agree-self, Agree-with_page, Agree-IsValid, same_may}
use free_bsd_messaround.Vm.Outcome.{Yields, Yields_weaken, Yields-then}
use free_bsd_messaround.Vm.Requests.{
  Off, On, vm_page_dequeue_locked-Off, vm_page_remque-Off, vm_page_enqueue-On, inactive-On,
}

raise_act_count-Agree : (s : Memory) (m : ℕ) → Agree s (raise_act_count s m)
unfolding raise_act_count
raise_act_count-Agree s m = elim (Bool-cases (ltb (s.pages m).act_count act_init)) [
  | inl e ↦ rw e (
      Agree-with_page s m (record (s.pages m) { act_count = act_init })
        (record {
          queue = refl;
          id = refl;
          marker = refl;
          wire_count = refl;
          unmanaged = refl;
          fictitious = refl;
        }))
  | inr e ↦ rw e (Agree-self s)
]

off_may : (p : Page) → may_queue (record p { queue = pq_none }) ≡ may_queue p
unfolding may_queue
off_may p = refl

module _ (k : Kernel) where
  -- The page is on the queue Q, or on none if it is wired or unmanaged.
  pub record Queued (s : Memory) (m Q : ℕ) (s' : Memory) : Type 0 where
    pub valid : IsValid k s'
    pub queue : (s'.pages m).queue ≡ (if may_queue (s.pages m) then Q else pq_none)
    pub born : s'.pg_cnt ≤ suc s.pg_cnt

  module _ (s : Memory) (m : ℕ) (v : IsValid k s) (real : (s.pages m).marker ≡ false)
      (room : suc s.pg_cnt < 2 ^ 64) where
    unmoved : (s1 : Memory) → Agree s s1 → may_queue (s.pages m) ≡ false → (Q : ℕ) → Queued s m Q s1
    unmoved s1 a may Q = record {
      valid = Agree-IsValid k s s1 a v;
      queue = (a.pages m).queue ∙ v.apart m real may ∙ rw may refl;
      born = rw a.pg_cnt (omega arith);
    }

    stayed :
        (Q : ℕ)
        → Q ≢ pq_none
        → (s.pages m).queue == Q ≡ true
        → (s.pages m).queue ≡ (if may_queue (s.pages m) then Q else pq_none)
    stayed Q known_queue e = ground (arith, e, v.apart m real, known_queue)

    module _ (s0 s1 : Memory) (a : Agree s s0) (o : Off k s0 m s1) where
      off_real : (s1.pages m).marker ≡ false
      off_real = ap Page.marker o.page ∙ (a.pages m).marker ∙ real

      off_none : (s1.pages m).queue ≡ pq_none
      off_none = ap Page.queue o.page

      off_free : may_queue (s.pages m) ≡ true → may_queue (s1.pages m) ≡ true
      off_free may = ap may_queue o.page ∙ off_may (s0.pages m) ∙ same_may _ _ (a.pages m) ∙ may

      off_room : suc s1.pg_cnt < 2 ^ 64
      off_room = rw (o.born, a.pg_cnt) room

      arrived :
          (Q : ℕ) (s2 : Memory) → may_queue (s.pages m) ≡ true → On k s1 m Q s2 → Queued s m Q s2
      arrived Q s2 may n = record {
        valid = n.valid;
        queue = rw may n.queue;
        born = omega (arith, n.born, o.born, a.pg_cnt);
      }

      enqueued :
          may_queue (s.pages m) ≡ true
          → (Q : ℕ) → Q < pq_count
          → Yields (vm_page_enqueue k Q s1 m) (Queued s m (funnelled Q))
      enqueued may Q below =
          Yields_weaken (On k s1 m (funnelled Q)) (Queued s m (funnelled Q)) _
            (λ s2 n. arrived (funnelled Q) s2 may n)
            (vm_page_enqueue-On k s1 m o.valid off_real off_none (off_free may) off_room Q below)

    -- Off its queue and to the tail of another.
    moved :
        (s0 : Memory)
        → Agree s s0
        → may_queue (s.pages m) ≡ true
        → (Q : ℕ) → Q < pq_count
        → Yields
            (vm_page_remque k s0 m >>= (λ s1. vm_page_enqueue k Q s1 m))
            (Queued s m (funnelled Q))
    moved s0 a may Q below =
        Yields-then (Off k s0 m) (Queued s m (funnelled Q)) (vm_page_remque k s0 m) _
          (vm_page_remque-Off k s0 m (Agree-IsValid k s s0 a v) ((a.pages m).marker ∙ real))
          (λ s1 o. enqueued s0 s1 a o may Q below)

    -- vm_page_activate returns; the page is at the tail of the inactive queue, or on no queue if it
    -- is wired or unmanaged.
    pub vm_page_activate-Queued : Yields (vm_page_activate k s m) (Queued s m pq_inactive)
    unfolding vm_page_activate funnelled
    vm_page_activate-Queued = rw never_active (elim (Bool-cases (may_queue (s.pages m))) [
      | inl e ↦
          rw e (moved (raise_act_count s m) (raise_act_count-Agree s m) e pq_inactive (omega arith))
      | inr e ↦ rw (e, v.apart m real e) (unmoved s (Agree-self s) e pq_inactive)
    ])
      where
        never_active : (s.pages m).queue == pq_active ≡ false
        never_active = ground (arith, v.queues m real)

    pub vm_page_launder-Queued : Yields (vm_page_launder k s m) (Queued s m pq_laundry)
    unfolding vm_page_launder funnelled
    vm_page_launder-Queued = elim (Bool-cases ((s.pages m).queue == pq_laundry)) [
      | inl e ↦
          rw e (record { valid = v; queue = stayed pq_laundry (omega arith) e; born = omega arith })
      | inr e ↦ rw e (elim (Bool-cases (may_queue (s.pages m))) [
        | inl f ↦ rw f (moved s (Agree-self s) f pq_laundry (omega arith))
        | inr f ↦ rw (f, v.apart m real f) (unmoved s (Agree-self s) f pq_laundry)
      ])
    ]

    pub deactivate-Queued :
        (noreuse : Bool) → Yields (deactivate k s m noreuse) (Queued s m pq_inactive)
    unfolding deactivate
    deactivate-Queued noreuse =
        elim (Bool-cases ((s.pages m).queue == pq_inactive && not noreuse)) [
          | inl e ↦ rw e (record {
            valid = v;
            queue = stayed pq_inactive (omega arith) (ground arith);
            born = omega arith;
          })
          | inr e ↦ rw e (elim (Bool-cases (may_queue (s.pages m))) [
            | inl f ↦ rw f (
                Yields-then (Off k s m) (Queued s m pq_inactive) _ _ leaves (λ s1 o.
                  arrived s s1 (Agree-self s) o pq_inactive _ f (
                    inactive-On k s1 m o.valid (off_real s s1 (Agree-self s) o)
                      (off_none s s1 (Agree-self s) o) (off_free s s1 (Agree-self s) o f)
                      (off_room s s1 (Agree-self s) o))))
            | inr f ↦ rw f (unmoved s (Agree-self s) f pq_inactive)
          ])
        ]
      where
        leaves :
            Yields
              (if (s.pages m).queue == pq_inactive
                then some (vm_page_dequeue_locked k s m)
                else vm_page_remque k s m)
              (Off k s m)
        leaves = elim (Bool-cases ((s.pages m).queue == pq_inactive)) [
          | inl e ↦ rw e (vm_page_dequeue_locked-Off k s m v real (ground arith))
          | inr e ↦ rw e (vm_page_remque-Off k s m v real)
        ]

  -- In a valid memory, with a birthday left to give, vm_page_activate, vm_page_deactivate,
  -- vm_page_deactivate_noreuse and vm_page_launder of a page that is no marker all return without
  -- a panic, to a valid memory in which the page is on the inactive queue, after vm_page_activate
  -- too, or on the laundry queue for vm_page_launder, and on none if it is wired or unmanaged.
  pub requests-Queued :
      (s : Memory) (m : ℕ)
      → IsValid k s
      → (s.pages m).marker ≡ false
      → suc s.pg_cnt < 2 ^ 64
      → Yields (vm_page_activate k s m) (Queued s m pq_inactive)
        × Yields (vm_page_deactivate k s m) (Queued s m pq_inactive)
        × Yields (vm_page_deactivate_noreuse k s m) (Queued s m pq_inactive)
        × Yields (vm_page_launder k s m) (Queued s m pq_laundry)
  unfolding vm_page_deactivate vm_page_deactivate_noreuse
  requests-Queued s m v real room = (
    vm_page_activate-Queued s m v real room,
    deactivate-Queued s m v real room false,
    deactivate-Queued s m v real room true,
    vm_page_launder-Queued s m v real room,
  )
