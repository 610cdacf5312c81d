-- ===== src/Smp/Idle.antt =====
-- tdq_trysteal and tdq_idled of asgn2/kern/sched_ule.c, by which a processor that has run out of
-- threads takes one from another. `groups` are tdq_cg of the processor and the groups above it.
pub mod Conserves
use free_bsd_messaround.Prelude.{
  ℕ, zero, suc, ◌+◌, Bool, true, false, ◌&&◌, ◌||◌, not, Option, none, some, List, [], ◌∷◌, ltb,
  ◌==◌, if◌then◌else◌, length, update, ℤ, pos, pos_part, neg_part, ◌+ℤ◌, ltb_ℤ,
}
use free_bsd_messaround.Tdq.{Tdq}
use free_bsd_messaround.Smp.{Mask, CpuGroup, sched_highest}
use free_bsd_messaround.Smp.Move.{System, Board, tdq_move}
use free_bsd_messaround.Smp.Balance.{Balanced, done, faults, spins}

-- How tdq_idled ends: with the value 1; with 0 as a thread has arrived; with 0 after mi_switch; by a
-- fault in the lottery; or out of fuel.
pub data Idled : Type 0 where
  stays_idle : System → Idled
  has_thread : System → Idled
  switches : System → Idled
  fails : Idled
  runs_on : Idled

-- What follows a round: the group above, a new start, or the same group without a processor.
pub data Step : Type 0 where
  up : System → Step
  restart : System → Step
  without : System → ℕ → Step
  ends : Idled → Step

-- Every processor but this one.
abbrev pub others : ℕ → Mask
others self cpu = not (cpu == self)

-- tdq_load is not zero.
unfoldable pub is_loaded : Tdq → Bool
is_loaded tdq = not (pos_part tdq.load + neg_part tdq.load == 0)

unfoldable pub switch_count : Tdq → ℤ
switch_count tdq = tdq.switchcnt +ℤ tdq.oldswitchcnt

module _ (b : Board) (steal_thresh : ℤ) where
  -- The data of the search is stale: the processor has no thread to give.
  unfoldable pub is_stale : Tdq → Bool
  is_stale steal =
      ltb_ℤ steal.load steal_thresh
      || pos_part steal.transferable + neg_part steal.transferable == 0

  unfoldable pub after_move : ℕ → Option (System × Option ℕ) → Step
  after_move cpu none = ends fails
  after_move cpu (some (s, none)) = without s cpu
  after_move cpu (some (s, some td)) = ends (switches s)

  -- What follows the search.
  unfoldable pub idle_from : System → ℤ → Option ℕ → Step
  idle_from s switchcnt none = up s
  idle_from s switchcnt (some cpu) =
      let tdq = s.tdq_cpu b.self in
      if is_stale (s.tdq_cpu cpu)
      then restart s
      else if is_loaded tdq
      then ends (switches s)
      else if is_stale (s.tdq_cpu cpu)
          || ltb_ℤ switchcnt (switch_count tdq)
          || ltb_ℤ (switch_count tdq) switchcnt
      then restart s
      else after_move cpu (tdq_move b s cpu b.self)

  unfoldable pub idle_round : System → ℤ → Mask → CpuGroup → Step
  idle_round s switchcnt mask cg =
      let (cpu, state) = sched_highest b.mp_maxid s.tdq_cpu cg mask steal_thresh s.randomval in
      let s' = record s { randomval = state } in
      if is_loaded (s.tdq_cpu b.self) then ends (has_thread s') else idle_from s' switchcnt cpu

  -- A round for a group, with the groups above it; `next` makes the rounds that follow.
  unfoldable pub idle_on :
      List CpuGroup
      → ℤ
      → Mask
      → CpuGroup
      → List CpuGroup
      → (System → ℤ → Mask → List CpuGroup → Idled)
      → Step
      → Idled
  idle_on groups switchcnt mask cg above next (up s) = next s switchcnt mask above
  idle_on groups switchcnt mask cg above next (restart s) =
      next s (switch_count (s.tdq_cpu b.self)) mask groups
  idle_on groups switchcnt mask cg above next (without s cpu) =
      next s switchcnt (update mask cpu false) (cg ∷ above)
  idle_on groups switchcnt mask cg above next (ends r) = r

  unfoldable pub idle_loop : List CpuGroup → ℕ → System → ℤ → Mask → List CpuGroup → Idled
  idle_loop groups n s switchcnt mask [] = stays_idle s
  idle_loop groups zero s switchcnt mask (cg ∷ above) = runs_on
  idle_loop groups (suc n) s switchcnt mask (cg ∷ above) =
      idle_on groups switchcnt mask cg above (idle_loop groups n) (idle_round s switchcnt mask cg)

  -- Each round leaves a group or takes a processor from the mask.
  unfoldable pub tdq_idled : Bool → Bool → List CpuGroup → System → Idled
  tdq_idled smp_started steal_idle groups s =
      if not smp_started || not steal_idle
      then stays_idle s
      else idle_loop groups (length groups + b.mp_maxid + 1) s (switch_count (s.tdq_cpu b.self))
          (others b.self) groups

  -- tdq_load > 0.
  unfoldable pub has_load : Tdq → Bool
  has_load tdq = ltb_ℤ (pos 0) tdq.load

  unfoldable pub after_try : Option (System × Option ℕ) → Balanced
  after_try none = faults
  after_try (some (s, td)) = done s

  -- What follows the search of a group, the i-th; `next` makes the round for the groups left.
  unfoldable pub try_from :
      ℕ
      → System
      → ℕ
      → CpuGroup
      → List CpuGroup
      → (System → ℕ → List CpuGroup → Balanced)
      → Option ℕ
      → Balanced
  try_from trysteal_limit s i cg above next none =
      if ltb trysteal_limit (i + 1) then done s else next s (i + 1) above
  try_from trysteal_limit s i cg above next (some cpu) =
      if is_stale (s.tdq_cpu cpu)
      then next s i (cg ∷ above)
      else if has_load (s.tdq_cpu b.self)
      then done s
      else if is_stale (s.tdq_cpu cpu)
      then done s
      else after_try (tdq_move b s cpu b.self)

  unfoldable pub try_round :
      ℕ → System → ℕ → CpuGroup → List CpuGroup → (System → ℕ → List CpuGroup → Balanced) → Balanced
  try_round trysteal_limit s i cg above next =
      let (cpu, state) =
        sched_highest b.mp_maxid s.tdq_cpu cg (others b.self) steal_thresh s.randomval in
      let s' = record s { randomval = state } in
      if has_load (s.tdq_cpu b.self)
      then done s'
      else try_from trysteal_limit s' i cg above next cpu

  unfoldable pub try_loop : ℕ → ℕ → System → ℕ → List CpuGroup → Balanced
  try_loop trysteal_limit n s i [] = done s
  try_loop trysteal_limit zero s i (cg ∷ above) = spins
  try_loop trysteal_limit (suc n) s i (cg ∷ above) =
      try_round trysteal_limit s i cg above (try_loop trysteal_limit n)

  -- A round for each group.
  unfoldable pub tdq_trysteal : Bool → ℕ → List CpuGroup → System → Balanced
  tdq_trysteal smp_started trysteal_limit groups s =
      if not smp_started || trysteal_limit == 0
      then done s
      else try_loop trysteal_limit (length groups) s 1 groups
