-- ===== src/Vm/Freed.antt =====
-- Freeing, holding and advice keep the queues valid.
use free_bsd_messaround.Prelude.{
  ℕ, ◌≡◌, refl, ap, inl, inr, Bool, true, false, ◌&&◌, not, Option, none, some, ◌==◌, arith,
  Bool-cases, ==_iff,
}
use free_bsd_messaround.Vm.{
  Memory, Kernel, pq_none, with_page, vpb_unbusied, vpb_single_exclusiver, vm_page_xbusied,
  vm_page_sbusied,
}
use free_bsd_messaround.Vm.Queue.{vm_page_remque}
use free_bsd_messaround.Vm.Free.{
  vm_page_xunbusy_maybelocked, with_object, forget_page, is_zero_ℤ, drop_empty, leave_object,
  remove_from, vm_page_remove, release_clean, release, unqueue, detach, may_free, vm_page_free_prep,
  vm_page_free_phys, wake_daemon, wake_waiters, vm_page_free_wakeup, free_prepared,
  vm_page_free_toq,
}
use free_bsd_messaround.Vm.Valid.{IsValid}
use free_bsd_messaround.Vm.Agree.{
  SamePage-self, Agree, Agree-self, Agree-then, Agree-with_page, Agree-IsValid,
}
use free_bsd_messaround.Vm.Outcome.{Ensures, Ensures-then, Ensures_weaken, Yields-Ensures}
use free_bsd_messaround.Vm.Requests.{Off, vm_page_dequeue_locked-Off, vm_page_remque-Off}
use free_bsd_messaround.Vm.Wired.{Kept}

-- Changes outside the pages, the queues and pg_cnt.
pub outside-Agree :
    (s s' : Memory) → s'.pages ≡ s.pages → s'.vm_dom ≡ s.vm_dom → s'.pg_cnt ≡ s.pg_cnt → Agree s s'
outside-Agree s s' p d c = record {
  pages = λ x. rw p (SamePage-self (s.pages x));
  vm_dom = d;
  pg_cnt = c;
}

-- New values of the fields that the queues do not depend on.
pub edited-Agree :
    (s : Memory) (m : ℕ) (z u r : Bool) (h b a v d : ℕ) (o : Option ℕ)
    → Agree s (
        with_page s m (record (s.pages m) {
          zeroed = z;
          unholdfree = u;
          referenced = r;
          hold_count = h;
          busy_lock = b;
          act_count = a;
          valid = v;
          dirty = d;
          object = o;
        }))
edited-Agree s m z u r h b a v d o = Agree-with_page s m _ (record {
  queue = refl;
  id = refl;
  marker = refl;
  wire_count = refl;
  unmanaged = refl;
  fictitious = refl;
})

xunbusy-Agree : (s : Memory) (m : ℕ) → Agree s (vm_page_xunbusy_maybelocked s m)
unfolding vm_page_xunbusy_maybelocked
xunbusy-Agree s m =
    let off = with_page s m (record (s.pages m) { busy_lock = vpb_unbusied }) in
    let a : Agree s off = edited-Agree s m _ _ _ _ _ _ _ _ _ in
    elim (Bool-cases ((s.pages m).busy_lock == vpb_single_exclusiver)) [
      | inl e ↦ rw e a
      | inr e ↦ rw e (Agree-then s off _ a (outside-Agree _ _ refl refl refl))
    ]

drop_empty-Agree : (s : Memory) (o : ℕ) → Agree s (drop_empty s o)
unfolding drop_empty
drop_empty-Agree s o =
    elim (Bool-cases (is_zero_ℤ (s.objects o).resident_page_count && (s.objects o).vnode)) [
      | inl e ↦ rw e (outside-Agree _ _ refl refl refl)
      | inr e ↦ rw e (Agree-self s)
    ]

leave_object-Agree : (s : Memory) (m o : ℕ) → Agree s (leave_object s m o)
unfolding leave_object forget_page with_object
leave_object-Agree s m o = Agree-then s (forget_page s m o) _ (outside-Agree _ _ refl refl refl) (
    Agree-then (forget_page s m o) (drop_empty (forget_page s m o) o) _
      (drop_empty-Agree (forget_page s m o) o) (edited-Agree _ m _ _ _ _ _ _ _ _ _))

remove_from-Agree : (s : Memory) (m : ℕ) (o : Option ℕ) → Agree s (remove_from s m o)
unfolding remove_from
remove_from-Agree s m none = Agree-self s
remove_from-Agree s m (some o) = elim (Bool-cases (vm_page_xbusied (s.pages m))) [
  | inl e ↦ rw e (
      Agree-then s (vm_page_xunbusy_maybelocked s m) _ (xunbusy-Agree s m)
        (leave_object-Agree (vm_page_xunbusy_maybelocked s m) m o))
  | inr e ↦ rw e (leave_object-Agree s m o)
]

free_phys-Agree : (k : Kernel) (s : Memory) (m : ℕ) → Agree s (vm_page_free_phys k s m)
unfolding vm_page_free_phys
free_phys-Agree k s m = elim (Bool-cases (s.pages m).zeroed) [
  | inl e ↦ rw e (outside-Agree _ _ refl refl refl)
  | inr e ↦ rw e (outside-Agree _ _ refl refl refl)
]

daemon-Agree : (k : Kernel) (s : Memory) → Agree s (wake_daemon k s)
unfolding wake_daemon
daemon-Agree k s = elim (Bool-cases (s.vm_pageout_pages_needed && k.enough_for_pageout s.events)) [
  | inl e ↦ rw e (outside-Agree _ _ refl refl refl)
  | inr e ↦ rw e (Agree-self s)
]

waiters-Agree : (k : Kernel) (s : Memory) → Agree s (wake_waiters k s)
unfolding wake_waiters
waiters-Agree k s = elim (Bool-cases (s.vm_pages_needed && not (k.vm_page_count_min s.events))) [
  | inl e ↦ rw e (outside-Agree _ _ refl refl refl)
  | inr e ↦ rw e (Agree-self s)
]

module _ (k : Kernel) where
  release_clean-Agree :
      (s : Memory) (m : ℕ) → Ensures (release_clean k s m) (λ (r : Memory × Bool). Agree s r.0)
  unfolding release_clean
  release_clean-Agree s m = elim (Bool-cases ((s.pages m).wire_count == 0)) [
    | inr e ↦ rw e tt
    | inl e ↦ rw e (elim (Bool-cases ((s.pages m).hold_count == 0)) [
      | inr f ↦ rw f (elim (Bool-cases (s.pages m).unholdfree) [
        | inl g ↦ rw g tt
        | inr g ↦ rw g (edited-Agree s m _ _ _ _ _ _ _ _ _)
      ])
      | inl f ↦ rw f (elim (Bool-cases (k.has_memattr s.events m)) [
        | inl g ↦ rw g (outside-Agree _ _ refl refl refl)
        | inr g ↦ rw g (Agree-self s)
      ])
    ])
  ]

  release-Agree :
      (s : Memory) (m : ℕ) → Ensures (release k s m) (λ (r : Memory × Bool). Agree s r.0)
  unfolding release
  release-Agree s m =
      let clean = with_page s m (record (s.pages m) { valid = 0; dirty = 0 }) in
      Ensures_weaken (λ (r : Memory × Bool). Agree clean r.0) (λ (r : Memory × Bool). Agree s r.0)
        (release_clean k clean m)
        (λ r a. Agree-then s clean _ (edited-Agree s m _ _ _ _ _ _ _ _ _) a)
        (release_clean-Agree clean m)

  detach-Agree : (s : Memory) (m : ℕ) → Ensures (detach k s m) (λ (r : Memory × Bool). Agree s r.0)
  unfolding detach vm_page_remove
  detach-Agree s m =
      let gone = remove_from s m (s.pages m).object in
      let a = remove_from-Agree s m (s.pages m).object in
      elim (Bool-cases (gone.pages m).fictitious) [
        | inl e ↦ rw e a
        | inr e ↦ rw e (
            Ensures_weaken (λ (r : Memory × Bool). Agree gone r.0)
              (λ (r : Memory × Bool). Agree s r.0) (release k gone m)
              (λ r b. Agree-then s gone _ a b) (release-Agree gone m))
      ]

  free_prepared-Agree : (m : ℕ) (r : Memory × Bool) → Agree r.0 (free_prepared k m r)
  unfolding free_prepared vm_page_free_wakeup
  free_prepared-Agree m (s, true) =
      Agree-then s (vm_page_free_phys k s m) _ (free_phys-Agree k s m) (
        Agree-then _ (wake_daemon k (vm_page_free_phys k s m)) _ (daemon-Agree k _)
          (waiters-Agree k _))
  free_prepared-Agree m (s, false) = Agree-self s

  -- A page that is on no queue is freed without a change to the queues.
  pub freed_off-Agree :
      (s : Memory) (m : ℕ)
      → (s.pages m).queue ≡ pq_none
      → Ensures (vm_page_free_toq k s m) (Agree s)
  unfolding vm_page_free_toq vm_page_free_prep unqueue
  freed_off-Agree s m off = elim (Bool-cases (may_free k s m)) [
    | inr e ↦ rw e tt
    | inl e ↦ rw e (elim (Bool-cases (vm_page_sbusied (s.pages m))) [
      | inl f ↦ rw f tt
      | inr f ↦
          rw (f, off)
            (Ensures-then (λ (r : Memory × Bool). Agree s r.0) (Agree s) (detach k s m)
              (λ r. some (free_prepared k m r)) (detach-Agree s m)
              (λ r a. Agree-then s r.0 (free_prepared k m r) a (free_prepared-Agree m r)))
    ])
  ]

  module _ (s : Memory) (m : ℕ) (v : IsValid k s) (real : (s.pages m).marker ≡ false) where
    unqueue-Off : (locked : Bool) → Ensures (unqueue k s m locked) (Off k s m)
    unfolding unqueue vm_page_remque
    unqueue-Off false =
        Yields-Ensures (Off k s m) (vm_page_remque k s m) (vm_page_remque-Off k s m v real)
    unqueue-Off true = elim (Bool-cases ((s.pages m).queue == pq_none)) [
      | inl e ↦ rw e (record {
        valid = v;
        page = ap (λ (q : ℕ). record (s.pages m) { queue = q }) ((==_iff _ pq_none).0 e);
        born = refl;
      })
      | inr e ↦ rw e (vm_page_dequeue_locked-Off k s m v real (ground (arith, e, v.queues m real)))
    ]

    free_prep-Kept :
        (locked : Bool)
        → Ensures (vm_page_free_prep k s m locked) (λ (r : Memory × Bool). Kept k s r.0)
    unfolding vm_page_free_prep
    free_prep-Kept locked = elim (Bool-cases (may_free k s m)) [
      | inr e ↦ rw e tt
      | inl e ↦ rw e (elim (Bool-cases (vm_page_sbusied (s.pages m))) [
        | inl f ↦ rw f tt
        | inr f ↦ rw f (
            Ensures-then (Off k s m) (λ (r : Memory × Bool). Kept k s r.0) (unqueue k s m locked)
              (λ s1. detach k s1 m) (unqueue-Off locked)
              (λ s1 o.
                Ensures_weaken (λ (r : Memory × Bool). Agree s1 r.0)
                  (λ (r : Memory × Bool). Kept k s r.0) (detach k s1 m)
                  (λ r a. record {
                    valid = Agree-IsValid k s1 r.0 a o.valid;
                    born = omega (arith, a.pg_cnt, o.born);
                  })
                  (detach-Agree s1 m)))
      ])
    ]

    pub vm_page_free_toq-Kept : Ensures (vm_page_free_toq k s m) (Kept k s)
    unfolding vm_page_free_toq
    vm_page_free_toq-Kept =
        Ensures-then (λ (r : Memory × Bool). Kept k s r.0) (Kept k s)
          (vm_page_free_prep k s m false) (λ r. some (free_prepared k m r)) (free_prep-Kept false)
          (λ r n.
            let a = free_prepared-Agree m r in
            record {
              valid = Agree-IsValid k r.0 (free_prepared k m r) a n.valid;
              born = omega (arith, a.pg_cnt, n.born);
            })
