-- ===== src/Vm/Wired.antt =====
-- Wiring and unwiring keep the queues valid.
use free_bsd_messaround.Prelude.{
  ℕ, suc, ◌+◌, ◌<◌, ◌≤◌, ◌^◌, ◌%◌, ◌≡◌, refl, ap, ◌∙◌, inl, inr, Bool, true, false, ◌&&◌, ◌||◌, not,
  some, ltb, ◌==◌, arith, Bool-cases, ==_iff, update, update_self,
}
use free_bsd_messaround.Vm.{Page, Memory, Kernel, pq_none, pq_inactive, pq_count, with_page}
use free_bsd_messaround.Vm.Queue.{vm_page_remque, vm_page_enqueue, may_queue, funnelled}
use free_bsd_messaround.Vm.Wire.{
  count_unwired, one_wiring_less, count_wired, first_wiring, add_wiring, vm_page_wire, last_wiring,
  unwire_known, vm_page_unwire, has_object,
}
use free_bsd_messaround.Vm.Lists.{Rises-Alike, real_pages-alike}
use free_bsd_messaround.Vm.Valid.{IsValid}
use free_bsd_messaround.Vm.Agree.{Agree, SamePage-self, Agree-IsValid}
use free_bsd_messaround.Vm.Outcome.{Ensures, Ensures-then, Ensures_weaken, Yields-Ensures}
use free_bsd_messaround.Vm.Requests.{Off, On, vm_page_remque-Off, vm_page_enqueue-On}

module _ (k : Kernel) where
  -- The queues are valid, and at most one birthday was given.
  pub record Kept (s s' : Memory) : Type 0 where
    pub valid : IsValid k s'
    pub born : s'.pg_cnt ≤ suc s.pg_cnt

  pub Kept-self : (s : Memory) → IsValid k s → Kept s s
  Kept-self s v = record { valid = v; born = omega arith }

  counted-Agree : (s : Memory) (n : ℕ) → Agree s (record s { v_wire_count = n })
  counted-Agree s n = record {
    pages = λ x. SamePage-self (s.pages x);
    vm_dom = refl;
    pg_cnt = refl;
  }

  -- A page that is on no queue can be wired any number of times.
  pub rewire-IsValid :
      (s : Memory) (m w : ℕ)
      → IsValid k s
      → (s.pages m).queue ≡ pq_none
      → (s.pages m).fictitious ≡ false
      → IsValid k (with_page s m (record (s.pages m) { wire_count = w }))
  rewire-IsValid s m w v off real = record {
    placed = λ x d q r l. ground (arith, v.placed x d q);
    queues = λ x r. ground (arith, v.queues x);
    apart = λ x r n. ground (arith, off, v.apart x);
    wired = λ x f. ground (arith, v.wired x);
    counted = λ d q l.
        rw
          (real_pages-alike s.pages (update s.pages m (record (s.pages m) { wire_count = w }))
            (s.vm_dom d q).pq_pl (λ x. ground arith))
          (v.counted d q l);
    rises = λ d.
        Rises-Alike s.pages (update s.pages m (record (s.pages m) { wire_count = w })) 0
          (s.vm_dom d pq_inactive).pq_pl s.pg_cnt
          (λ x. record { same_marker = ground arith; same_id = ground arith }) (v.rises d);
  }

  module _ (s : Memory) (m : ℕ) (v : IsValid k s) (real : (s.pages m).marker ≡ false)
      (room : suc s.pg_cnt < 2 ^ 64) where
    add_wiring-Kept :
        (s1 : Memory)
        → Off k s m s1
        → (s.pages m).fictitious ≡ false
        → Ensures (add_wiring k s1 m) (Kept s)
    unfolding add_wiring
    add_wiring-Kept s1 o f = elim (Bool-cases (((s1.pages m).wire_count + 1) % 2 ^ 32 == 0)) [
      | inl e ↦ rw e tt
      | inr e ↦ rw e (record {
        valid =
            rewire-IsValid s1 m _ o.valid (ap Page.queue o.page) (ap Page.fictitious o.page ∙ f);
        born = omega (arith, o.born);
      })
    ]

    stays-Off : may_queue (s.pages m) ≡ false → Off k s m s
    stays-Off may = record {
      valid = v;
      page = ap (λ (q : ℕ). record (s.pages m) { queue = q }) (v.apart m real may);
      born = refl;
    }

    count_wired-Off : (s1 : Memory) → Off k s m s1 → Off k s m (count_wired s1)
    unfolding count_wired
    count_wired-Off s1 o = record {
      valid = Agree-IsValid k s1 _ (counted-Agree s1 _) o.valid;
      page = o.page;
      born = o.born;
    }

    first_wiring-Off : Ensures (first_wiring k s m) (Off k s m)
    unfolding first_wiring
    first_wiring-Off =
        elim (Bool-cases (not (s.pages m).unmanaged || (s.pages m).queue == pq_none)) [
          | inl e ↦ rw e (
              Ensures-then (Off k s m) (Off k s m) (vm_page_remque k s m)
                (λ off. some (count_wired off))
                (Yields-Ensures (Off k s m) (vm_page_remque k s m)
                  (vm_page_remque-Off k s m v real))
                (λ s1 o. count_wired-Off s1 o))
          | inr e ↦ rw e tt
        ]

    wired_may : (s.pages m).wire_count == 0 ≡ false → may_queue (s.pages m) ≡ false
    unfolding may_queue
    wired_may f = rw f refl

    pub vm_page_wire-Kept : Ensures (vm_page_wire k s m) (Kept s)
    unfolding vm_page_wire
    vm_page_wire-Kept = elim (Bool-cases (s.pages m).fictitious) [
      | inl e ↦ rw (e, v.wired m e) (Kept-self s v)
      | inr e ↦ rw e (elim (Bool-cases ((s.pages m).wire_count == 0)) [
        | inl f ↦ rw f (
            Ensures-then (Off k s m) (Kept s) (first_wiring k s m) (λ s1. add_wiring k s1 m)
              first_wiring-Off (λ s1 o. add_wiring-Kept s1 o e))
        | inr f ↦ rw f (add_wiring-Kept s (stays-Off (wired_may f)) e)
      ])
    ]

    -- The last wiring goes and the page may be put on a queue.
    last_wiring-Kept :
        (queue : ℕ)
        → (ltb queue pq_count || queue == pq_none) ≡ true
        → (s.pages m).wire_count ≡ 0
        → (s.pages m).queue ≡ pq_none
        → Ensures (last_wiring k queue s m) (λ r. Kept s r.0)
    unfolding last_wiring may_queue count_unwired
    last_wiring-Kept queue named none_left off =
        elim (Bool-cases
          (not (s.pages m).unmanaged && has_object (s.pages m).object && not (queue == pq_none))) [
            | inl e ↦ rw e (
                Ensures-then (On k (count_unwired s) m (funnelled queue))
                  (λ (r : Memory × Bool). Kept s r.0) (vm_page_enqueue k queue (count_unwired s) m)
                  (λ on. some (on, true))
                  (Yields-Ensures (On k (count_unwired s) m (funnelled queue)) _ (
                    vm_page_enqueue-On k (count_unwired s) m counted_valid real off (ground arith)
                      room queue (ground arith)))
                  (λ s1 n. record { valid = n.valid; born = n.born }))
            | inr e ↦ rw e (record { valid = counted_valid; born = omega arith })
          ]
      where
        counted_valid : IsValid k (count_unwired s)
        counted_valid = Agree-IsValid k s _ (counted-Agree s _) v

  module _ (s : Memory) (m : ℕ) (v : IsValid k s) (real : (s.pages m).marker ≡ false)
      (room : suc s.pg_cnt < 2 ^ 64) where
    fewer-IsValid :
        (s.pages m).fictitious ≡ false
        → (s.pages m).wire_count == 0 ≡ false
        → IsValid k (one_wiring_less s m)
    unfolding one_wiring_less
    fewer-IsValid f w = rewire-IsValid s m _ v (v.apart m real (wired_may s m v real room w)) f

    fewer-Kept :
        (s.pages m).fictitious ≡ false
        → (s.pages m).wire_count == 0 ≡ false
        → Kept s (one_wiring_less s m)
    unfolding one_wiring_less
    fewer-Kept f w = record { valid = fewer-IsValid f w; born = omega arith }

    last-Kept :
        (queue : ℕ)
        → (ltb queue pq_count || queue == pq_none) ≡ true
        → (s.pages m).fictitious ≡ false
        → (s.pages m).wire_count == 0 ≡ false
        → ((one_wiring_less s m).pages m).wire_count ≡ 0
        → Ensures (last_wiring k queue (one_wiring_less s m) m) (λ r. Kept s r.0)
    unfolding one_wiring_less
    last-Kept queue named f w z =
        Ensures_weaken (λ (r : Memory × Bool). Kept (one_wiring_less s m) r.0)
          (λ (r : Memory × Bool). Kept s r.0) _ (λ r n. record { valid = n.valid; born = n.born })
          (last_wiring-Kept (one_wiring_less s m) m (fewer-IsValid f w)
            (ap Page.marker (update_self s.pages m _) ∙ real) room queue named z
            (ap Page.queue (update_self s.pages m _)
              ∙ v.apart m real (wired_may s m v real room w)))

    unwire_known-Kept :
        (queue : ℕ)
        → (ltb queue pq_count || queue == pq_none) ≡ true
        → Ensures (unwire_known k queue s m) (λ r. Kept s r.0)
    unfolding unwire_known
    unwire_known-Kept queue named = elim (Bool-cases (s.pages m).fictitious) [
      | inl e ↦ rw (e, v.wired m e) (Kept-self s v)
      | inr e ↦ rw e (elim (Bool-cases ((s.pages m).wire_count == 0)) [
        | inl f ↦ rw f tt
        | inr f ↦ rw f (elim (Bool-cases (((one_wiring_less s m).pages m).wire_count == 0)) [
          | inl z ↦ rw z (last-Kept queue named e f ((==_iff _ 0).0 z))
          | inr z ↦ rw z (fewer-Kept e f)
        ])
      ])
    ]

    pub vm_page_unwire-Kept : (queue : ℕ) → Ensures (vm_page_unwire k queue s m) (λ r. Kept s r.0)
    unfolding vm_page_unwire
    vm_page_unwire-Kept queue = elim (Bool-cases (ltb queue pq_count || queue == pq_none)) [
      | inl e ↦ rw e (unwire_known-Kept queue e)
      | inr e ↦ rw e tt
    ]
