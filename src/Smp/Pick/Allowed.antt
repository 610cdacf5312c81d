-- ===== src/Smp/Pick/Allowed.antt =====
-- sched_pickcpu finds a processor on which the thread may run.
use free_bsd_messaround.Prelude.{
  ℕ, ◌≡◌, refl, Bool, true, false, not, Option, none, some, ltb, inl, inr, ◌==◌, if◌then◌else◌,
  Bool-cases, ℤ, pos, negsuc, ◌≤ℤ◌, arith,
}
use free_bsd_messaround.Tdq.{Tdq}
use free_bsd_messaround.Smp.{Mask, CpuGroup, sched_lowest}
use free_bsd_messaround.Smp.Search.{in_group}
use free_bsd_messaround.Smp.Finds.{IsTarget, Finds, sched_lowest-Finds}
use free_bsd_messaround.Smp.Pick.{
  Machines, Placed, int_max, or_search, near, or_local, settle, search_all, last_or_search,
  sched_pickcpu, stays, follows_interrupt,
}

-- The processor found, if one was, is in the mask.
abbrev IsIn : Mask → Option ℕ → Type 0
IsIn mask none = Unit {0}
IsIn mask (some c) = mask c ≡ true

-- A processor was found, and it is in the mask.
abbrev pub IsAllowed : Mask → Option ℕ → Type 0
IsAllowed mask none = ⊥
IsAllowed mask (some c) = mask c ≡ true

Finds-IsIn :
    (group : ℕ → Bool) (tdq_cpu : ℕ → Tdq) (mask : Mask) (pri maxload : ℤ) (r : Option ℕ)
    → Finds group (IsTarget tdq_cpu mask pri maxload) r
    → IsIn mask r
Finds-IsIn group tdq_cpu mask pri maxload none f = tt
Finds-IsIn group tdq_cpu mask pri maxload (some c) f = f.1.0

or_search-IsIn :
    (mask : Mask) (r : Option ℕ × ℕ) (next : ℕ → Option ℕ × ℕ)
    → IsIn mask r.0
    → ((state : ℕ) → IsIn mask (next state).0)
    → IsIn mask (or_search r next).0
or_search-IsIn mask (none, state) next p q = q state
or_search-IsIn mask (some c, state) next p q = p

or_search-IsAllowed :
    (mask : Mask) (r : Option ℕ × ℕ) (next : ℕ → Option ℕ × ℕ)
    → IsIn mask r.0
    → ((state : ℕ) → IsAllowed mask (next state).0)
    → IsAllowed mask (or_search r next).0
or_search-IsAllowed mask (none, state) next p q = q state
or_search-IsAllowed mask (some c, state) next p q = p

module _ (e : Machines) (td : Placed) where
  lowest-IsIn :
      (cg : CpuGroup) (pri : ℤ) (state : ℕ)
      → IsIn td.cs_mask
          (sched_lowest e.mp_maxid e.tdq_cpu cg td.cs_mask pri int_max td.ts_cpu state).0
  lowest-IsIn cg pri state =
      Finds-IsIn (in_group e.mp_maxid cg) e.tdq_cpu td.cs_mask pri int_max _
        (sched_lowest-Finds e.mp_maxid e.tdq_cpu cg td.cs_mask pri int_max td.ts_cpu state)

  unless_same :
      (b : Bool) (r : Option ℕ × ℕ) (state : ℕ)
      → IsIn td.cs_mask r.0
      → IsIn td.cs_mask (if b then (none, state) else r).0
  unless_same true r state p = tt
  unless_same false r state p = p

  near-IsIn :
      (state : ℕ) (found : Option (CpuGroup × Bool)) → IsIn td.cs_mask (near e td state found).0
  unfolding near
  near-IsIn state none = tt
  near-IsIn state (some (cg, true)) = tt
  near-IsIn state (some (cg, false)) = unless_same _ _ state (lowest-IsIn cg _ state)

  -- A processor of the tree on which the thread may run.
  pub record CanRun (c : ℕ) : Type 0 where
    pub known : in_group e.mp_maxid e.cpu_top c ≡ true
    pub allowed : td.cs_mask c ≡ true
    pub loaded : (e.tdq_cpu c).load ≤ℤ int_max

  anywhere :
      (c : ℕ) (r : Option ℕ)
      → CanRun c
      → Finds (in_group e.mp_maxid e.cpu_top) (IsTarget e.tdq_cpu td.cs_mask (negsuc 0) int_max) r
      → IsAllowed td.cs_mask r
  anywhere c none can f = f c can.known (can.allowed, omega arith, can.loaded)
  anywhere c (some d) can f = f.1.0

  search_all-IsAllowed : (c state : ℕ) → CanRun c → IsAllowed td.cs_mask (search_all e td state).0
  unfolding search_all
  search_all-IsAllowed c state can =
      or_search-IsAllowed td.cs_mask _ _
        (or_search-IsIn td.cs_mask _ _ (near-IsIn state _)
          (λ st. lowest-IsIn e.cpu_top (pos td.td_priority) st))
        (λ st.
          anywhere c _ can
            (sched_lowest-Finds e.mp_maxid e.tdq_cpu e.cpu_top td.cs_mask _ int_max td.ts_cpu st))

  self_if :
      (b : Bool) (c : ℕ)
      → (b ≡ true → td.cs_mask e.self ≡ true)
      → td.cs_mask c ≡ true
      → td.cs_mask (if b then e.self else c) ≡ true
  self_if true c p q = p refl
  self_if false c p q = q

  or_local-IsAllowed : (c : ℕ) → td.cs_mask c ≡ true → td.cs_mask (or_local e td c) ≡ true
  unfolding or_local
  or_local-IsAllowed c m = self_if _ c (λ h. ground (arith, h)) m

  settle-IsAllowed :
      (r : Option ℕ × ℕ) → IsAllowed td.cs_mask r.0 → IsAllowed td.cs_mask (settle e td r).cpu
  unfolding settle
  settle-IsAllowed (none, state) p = p
  settle-IsAllowed (some c, state) p = or_local-IsAllowed c p

  stays-mask : stays e td ≡ true → td.cs_mask td.ts_cpu ≡ true
  unfolding stays
  stays-mask h = ground (arith, h)

  follows_interrupt-mask : follows_interrupt e td ≡ true → td.cs_mask e.self ≡ true
  unfolding follows_interrupt
  follows_interrupt-mask h = ground (arith, h)

  last_or_search-IsAllowed :
      (c state : ℕ) → CanRun c → IsAllowed td.cs_mask (last_or_search e td state).cpu
  unfolding last_or_search
  last_or_search-IsAllowed c state can = elim (Bool-cases (stays e td)) [
    | inl h ↦ rw h (stays-mask h)
    | inr h ↦ rw h (settle-IsAllowed (search_all e td state) (search_all-IsAllowed c state can))
  ]

module _ (e : Machines) where
  still : {td : Placed} {c : ℕ} → CanRun e td c → CanRun e (record td { ts_cpu = e.self }) c
  still can = record { known = can.known; allowed = can.allowed; loaded = can.loaded }

  -- For a thread that may migrate, on a system with its processors started, sched_pickcpu returns a
  -- processor of the thread's set, if the tree of groups has one whose load fits an int.
  pub sched_pickcpu-IsAllowed :
      (td : Placed) (c state : ℕ)
      → e.smp_started ≡ true
      → td.td_pinned ≡ 0
      → CanRun e td c
      → IsAllowed td.cs_mask (sched_pickcpu e td false state).cpu
  unfolding sched_pickcpu
  sched_pickcpu-IsAllowed td c state started free can =
      let up : not e.smp_started ≡ false = ground (arith, started) in
      let here : not (td.td_pinned == 0) ≡ false = ground (arith, free) in
      rw up (
        rw here (elim (Bool-cases (follows_interrupt e td)) [
          | inl h ↦ rw h (elim (Bool-cases (ltb td.td_priority (e.tdq_cpu e.self).lowpri)) [
            | inl g ↦ rw g (follows_interrupt-mask e td h)
            | inr g ↦
                rw g
                  (last_or_search-IsAllowed e (record td { ts_cpu = e.self }) c state (still can))
          ])
          | inr h ↦ rw h (last_or_search-IsAllowed e td c state can)
        ]))
