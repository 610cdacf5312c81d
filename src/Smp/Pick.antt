-- ===== src/Smp/Pick.antt =====
-- sched_pickcpu of asgn2/kern/sched_ule.c: the processor on whose queues a thread goes.
pub mod Allowed
use free_bsd_messaround.Prelude.{
  ℕ, zero, suc, ◌+◌, ◌-◌, ◌*◌, ◌^◌, max, Bool, true, false, ◌&&◌, ◌||◌, not, Option, none, some,
  List, [], ◌∷◌, ltb, leb, ◌==◌, if◌then◌else◌, is_empty, ℤ, pos, negsuc, ◌+ℤ◌, ltb_ℤ,
}
use free_bsd_messaround.Tdq.{Tdq}
use free_bsd_messaround.Smp.{Mask, CpuGroup, cpu_group, cg_mask, sched_lowest}

-- What does not change during the call: the processors and their groups, the time, the current
-- processor and whether it handles an interrupt, and constants of the kernel's headers.
-- `cg_parents` has the groups above tdq_cg, up to cpu_top.
pub record Machines : Type 0 where
  pub mp_maxid : ℕ
  pub tdq_cpu : ℕ → Tdq
  pub tdq_cg : ℕ → CpuGroup
  pub cg_parents : ℕ → List CpuGroup
  pub cpu_top : CpuGroup
  pub smp_started : Bool
  pub self : ℕ
  pub td_intr_nesting_level : Bool
  pub ticks : ℕ
  pub affinity : ℕ
  pub cg_share_l2 : ℕ
  pub pri_max_ithd : ℕ
  pub pri_max_timeshare : ℕ
  pub pri_min_idle : ℕ

-- The fields of the thread that are read, and ts_cpu, which is set too.
pub record Placed : Type 0 where
  pub td_priority : ℕ
  pub td_pinned : ℕ
  pub cs_mask : Mask
  pub ts_rltick : ℕ
  pub ts_cpu : ℕ

-- The processor, `none` for a failed assertion, ts_cpu and randomval.
pub record Picked : Type 0 where
  pub cpu : Option ℕ
  pub ts_cpu : ℕ
  pub randomval : ℕ

abbrev pub int_max : ℤ
int_max = pos (2 ^ 31 - 1)

abbrev cg_level : CpuGroup → ℕ
cg_level (cpu_group mask level thread children) = level

abbrev cg_thread : CpuGroup → Bool
cg_thread (cpu_group mask level thread children) = thread

-- A search that is made if the one before has found nothing.
abbrev pub or_search : Option ℕ × ℕ → (ℕ → Option ℕ × ℕ) → Option ℕ × ℕ
or_search (some cpu, state) next = (some cpu, state)
or_search (none, state) next = next state

module _ (e : Machines) where
  -- SCHED_AFFINITY.
  unfoldable pub sched_affinity : Placed → ℕ → Bool
  sched_affinity td t = ltb e.ticks (td.ts_rltick + t * e.affinity)

  -- CPUSET_FOREACH over the processors of an SMT group, and CPU_CMP; `n` processors are left.
  unfoldable pub all_idle : Mask → ℕ → Bool
  all_idle mask zero = true
  all_idle mask (suc n) =
      let rest = all_idle mask n in
      if mask n && ltb (e.tdq_cpu n).lowpri e.pri_min_idle then false else rest

  unfoldable pub same_mask : Mask → Mask → ℕ → Bool
  same_mask a b zero = true
  same_mask a b (suc n) = let rest = same_mask a b n in (if a n then b n else not (b n)) && rest

  -- The last group that passes, and whether it is cpu_top.
  unfoldable pub last_level : Placed → List CpuGroup → Option (CpuGroup × Bool)
  last_level td [] = none
  last_level td (cg ∷ above) = elim (last_level td above) [
    | some found ↦ some found
    | none ↦
        if cg_thread cg || not (sched_affinity td (cg_level cg))
        then none
        else some (cg, is_empty above)
  ]

  -- The search in that group.
  unfoldable pub near : Placed → ℕ → Option (CpuGroup × Bool) → Option ℕ × ℕ
  near td state none = (none, state)
  near td state (some (cg, true)) = (none, state)
  near td state (some (cg, false)) =
      if same_mask (cg_mask cg) (cg_mask e.cpu_top) (e.mp_maxid + 1)
      then (none, state)
      else sched_lowest e.mp_maxid e.tdq_cpu cg td.cs_mask
          (pos (max td.td_priority e.pri_max_timeshare)) int_max td.ts_cpu state

  -- The comparison with the current processor.
  unfoldable pub or_local : Placed → ℕ → ℕ
  or_local td cpu =
      if td.cs_mask e.self
        && ltb td.td_priority (e.tdq_cpu e.self).lowpri
        && ltb (e.tdq_cpu cpu).lowpri e.pri_min_idle
        && not (ltb_ℤ ((e.tdq_cpu cpu).load +ℤ pos 1) (e.tdq_cpu e.self).load)
      then e.self
      else cpu

  unfoldable pub settle : Placed → Option ℕ × ℕ → Picked
  settle td (none, state) = record { cpu = none; ts_cpu = td.ts_cpu; randomval = state }
  settle td (some cpu, state) = record {
    cpu = some (or_local td cpu);
    ts_cpu = td.ts_cpu;
    randomval = state;
  }

  unfoldable pub search_all : Placed → ℕ → Option ℕ × ℕ
  search_all td state =
      or_search
        (or_search (near td state (last_level td (e.tdq_cg td.ts_cpu ∷ e.cg_parents td.ts_cpu))) (
          sched_lowest e.mp_maxid e.tdq_cpu e.cpu_top td.cs_mask (pos td.td_priority) int_max
            td.ts_cpu))
        (sched_lowest e.mp_maxid e.tdq_cpu e.cpu_top td.cs_mask (negsuc 0) int_max td.ts_cpu)

  -- Whether the last processor is idle and its caches may still be warm.
  unfoldable pub stays : Placed → Bool
  stays td =
      let cg = e.tdq_cg td.ts_cpu in
      td.cs_mask td.ts_cpu
      && leb e.pri_min_idle (e.tdq_cpu td.ts_cpu).lowpri
      && sched_affinity td e.cg_share_l2
      && (not (cg_thread cg) || all_idle (cg_mask cg) (e.mp_maxid + 1))

  unfoldable pub last_or_search : Placed → ℕ → Picked
  last_or_search td state =
      if stays td
      then record { cpu = some td.ts_cpu; ts_cpu = td.ts_cpu; randomval = state }
      else settle td (search_all td state)

  -- Whether an interrupt thread goes to the processor that has the interrupt.
  unfoldable pub follows_interrupt : Placed → Bool
  follows_interrupt td =
      leb td.td_priority e.pri_max_ithd
      && td.cs_mask e.self
      && e.td_intr_nesting_level
      && not (td.ts_cpu == e.self)

  -- `ourself` is SRQ_OURSELF.
  unfoldable pub sched_pickcpu : Placed → Bool → ℕ → Picked
  sched_pickcpu td ourself state =
      if not e.smp_started
      then record { cpu = some e.self; ts_cpu = td.ts_cpu; randomval = state }
      else if ourself || not (td.td_pinned == 0)
      then record { cpu = some td.ts_cpu; ts_cpu = td.ts_cpu; randomval = state }
      else if follows_interrupt td
      then (if ltb td.td_priority (e.tdq_cpu e.self).lowpri
          then record { cpu = some e.self; ts_cpu = e.self; randomval = state }
          else last_or_search (record td { ts_cpu = e.self }) state)
      else last_or_search td state
