-- ===== src/Vm/Runs.antt =====
-- Any sequence of the calls of vm_page.c that change a page's queue, wiring, hold or life.
use free_bsd_messaround.Prelude.{
  ℕ, suc, ◌+◌, ◌<◌, ◌≤◌, ◌^◌, ◌≡◌, ◌∙◌, subst, inl, inr, Bool, false, ◌&&◌, Option, some, ltb, ◌==◌,
  arith, Bool-cases,
}
use free_bsd_messaround.Vm.{Memory, Kernel, pq_inactive, pq_laundry}
use free_bsd_messaround.Vm.Queue.{vm_page_activate, deactivate, vm_page_launder}
use free_bsd_messaround.Vm.Free.{
  vm_page_free_toq, vm_page_free, vm_page_hold, one_hold_less, vm_page_unhold,
}
use free_bsd_messaround.Vm.Wire.{vm_page_wire, vm_page_unwire}
use free_bsd_messaround.Vm.Valid.{IsValid}
use free_bsd_messaround.Vm.Agree.{Agree, Agree-IsValid}
use free_bsd_messaround.Vm.Outcome.{Yields, Ensures, Ensures_weaken, Ensures-at, Yields-Ensures}
use free_bsd_messaround.Vm.Queued.{
  Queued, vm_page_activate-Queued, vm_page_launder-Queued, deactivate-Queued,
}
use free_bsd_messaround.Vm.Wired.{Kept, vm_page_wire-Kept, vm_page_unwire-Kept}
use free_bsd_messaround.Vm.Freed.{edited-Agree, vm_page_free_toq-Kept}

module _ (k : Kernel) where
  agreed-Kept : (s s' : Memory) → IsValid k s → Agree s s' → Kept k s s'
  agreed-Kept s s' v a = record { valid = Agree-IsValid k s s' a v; born = omega (arith, a.pg_cnt) }

  module _ (s : Memory) (m : ℕ) (v : IsValid k s) (real : (s.pages m).marker ≡ false)
      (room : suc s.pg_cnt < 2 ^ 64) where
    freed-Kept : (s1 : Memory) → Agree s s1 → Ensures (vm_page_free_toq k s1 m) (Kept k s)
    freed-Kept s1 a =
        Ensures_weaken (Kept k s1) (Kept k s) (vm_page_free_toq k s1 m)
          (λ t n. record { valid = n.valid; born = omega (arith, n.born, a.pg_cnt) })
          (vm_page_free_toq-Kept k s1 m (Agree-IsValid k s s1 a v) ((a.pages m).marker ∙ real))

    vm_page_free-Kept : Ensures (vm_page_free k s m) (Kept k s)
    unfolding vm_page_free
    vm_page_free-Kept = freed-Kept _ (edited-Agree s m _ _ _ _ _ _ _ _ _)

    vm_page_hold-Kept : Kept k s (vm_page_hold s m)
    unfolding vm_page_hold
    vm_page_hold-Kept = agreed-Kept s _ v (edited-Agree s m _ _ _ _ _ _ _ _ _)

    one_hold_less-Agree : Agree s (one_hold_less s m)
    unfolding one_hold_less
    one_hold_less-Agree = edited-Agree s m _ _ _ _ _ _ _ _ _

    vm_page_unhold-Kept : Ensures (vm_page_unhold k s m) (Kept k s)
    unfolding vm_page_unhold
    vm_page_unhold-Kept = elim (Bool-cases (ltb 0 (s.pages m).hold_count)) [
      | inr e ↦ rw e tt
      | inl e ↦
          rw e
            (elim (Bool-cases (
              ((one_hold_less s m).pages m).hold_count == 0
              && ((one_hold_less s m).pages m).unholdfree)) [
                | inl f ↦ rw f (freed-Kept (one_hold_less s m) one_hold_less-Agree)
                | inr f ↦ rw f (agreed-Kept s _ v one_hold_less-Agree)
              ])
    ]

  -- A page that is no marker is activated, deactivated, laundered, wired, unwired, held, unheld or
  -- freed, and the call returns.
  pub data Step (s s' : Memory) : Type 0 where
    activates : (m : ℕ) → (s.pages m).marker ≡ false → vm_page_activate k s m ≡ some s' → Step s s'
    deactivates :
        (m : ℕ) (noreuse : Bool)
        → (s.pages m).marker ≡ false
        → deactivate k s m noreuse ≡ some s'
        → Step s s'
    launders : (m : ℕ) → (s.pages m).marker ≡ false → vm_page_launder k s m ≡ some s' → Step s s'
    wires : (m : ℕ) → (s.pages m).marker ≡ false → vm_page_wire k s m ≡ some s' → Step s s'
    unwires :
        (m queue : ℕ) (b : Bool)
        → (s.pages m).marker ≡ false
        → vm_page_unwire k queue s m ≡ some (s', b)
        → Step s s'
    holds : (m : ℕ) → (s.pages m).marker ≡ false → vm_page_hold s m ≡ s' → Step s s'
    unholds : (m : ℕ) → (s.pages m).marker ≡ false → vm_page_unhold k s m ≡ some s' → Step s s'
    frees : (m : ℕ) → (s.pages m).marker ≡ false → vm_page_free k s m ≡ some s' → Step s s'

  -- n such calls lead from the first memory to the second.
  pub data Steps (s : Memory) : ℕ → Memory → Type 0 where
    start : Steps s 0 s
    next : {n : ℕ} {t u : Memory} → Steps s n t → Step t u → Steps s (suc n) u

  Queued-Kept : (s : Memory) (m Q : ℕ) (s' : Memory) → Queued k s m Q s' → Kept k s s'
  Queued-Kept s m Q s' q = record { valid = q.valid; born = q.born }

  requested-Kept :
      (s : Memory) (m Q : ℕ) (r : Option Memory) (s' : Memory)
      → Yields r (Queued k s m Q)
      → r ≡ some s'
      → Kept k s s'
  requested-Kept s m Q r s' y e =
      Queued-Kept s m Q s'
        (Ensures-at (Queued k s m Q) r s' (Yields-Ensures (Queued k s m Q) r y) e)

  Step-Kept : (s s' : Memory) → IsValid k s → suc s.pg_cnt < 2 ^ 64 → Step s s' → Kept k s s'
  Step-Kept s s' v room (activates m real e) =
      requested-Kept s m pq_inactive _ s' (vm_page_activate-Queued k s m v real room) e
  Step-Kept s s' v room (deactivates m noreuse real e) =
      requested-Kept s m pq_inactive _ s' (deactivate-Queued k s m v real room noreuse) e
  Step-Kept s s' v room (launders m real e) =
      requested-Kept s m pq_laundry _ s' (vm_page_launder-Queued k s m v real room) e
  Step-Kept s s' v room (wires m real e) =
      Ensures-at (Kept k s) _ s' (vm_page_wire-Kept k s m v real room) e
  Step-Kept s s' v room (unwires m queue b real e) =
      Ensures-at (λ (r : Memory × Bool). Kept k s r.0) _ (s', b)
        (vm_page_unwire-Kept k s m v real room queue) e
  Step-Kept s s' v room (holds m real e) = subst (Kept k s) e (vm_page_hold-Kept s m v real room)
  Step-Kept s s' v room (unholds m real e) =
      Ensures-at (Kept k s) _ s' (vm_page_unhold-Kept s m v real room) e
  Step-Kept s s' v room (frees m real e) =
      Ensures-at (Kept k s) _ s' (vm_page_free-Kept s m v real room) e

  Steps-Reached :
      (s : Memory) {n : ℕ} {s' : Memory}
      → IsValid k s
      → s.pg_cnt + n < 2 ^ 64
      → Steps s n s'
      → IsValid k s' × (s'.pg_cnt ≤ s.pg_cnt + n)
  Steps-Reached s v room start = (v, omega arith)
  Steps-Reached s v room (next {n} {t} {u} before last) =
      let (tv, tb) = Steps-Reached s v (omega arith) before in
      let kept = Step-Kept t u tv (omega (arith, tb)) last in
      (kept.valid, omega (arith, tb, kept.born))

  -- After any number of calls that activate, deactivate, launder, wire, unwire, hold, unhold or
  -- free pages and return, fewer than are needed for pg_cnt to wrap around, a valid memory is
  -- valid: each page that is no marker stands once on the queue that its field names and on no
  -- other, none is on the active queue, wired and unmanaged pages are on none, the counts agree,
  -- and every inactive queue is in the order of the birthdays.
  pub Steps-IsValid :
      (s : Memory) (n : ℕ) (s' : Memory)
      → IsValid k s
      → s.pg_cnt + n < 2 ^ 64
      → Steps s n s'
      → IsValid k s'
  Steps-IsValid s n s' v room steps = (Steps-Reached s v room steps).0
