-- ===== src/Smp/Balance/Ends.antt =====
-- The loops of sched_balance_group end.
use free_bsd_messaround.Prelude.{
  ℕ, zero, suc, ◌+◌, ◌*◌, ◌≤◌, ◌<◌, ◌≡◌, ◌≢◌, inl, inr, Bool, true, false, Option, none, some, ltb,
  Bool-cases, update, number_of, number_of-update, number_of_le, mul_mono, mul_step, ℤ, pos, negsuc,
  arith,
}
use free_bsd_messaround.Tdq.{Tdq}
use free_bsd_messaround.Smp.{Mask, CpuGroup}
use free_bsd_messaround.Smp.Search.{in_group, in_group-lt}
use free_bsd_messaround.Smp.Finds.{
  Finds, IsDonor, IsTarget, sched_highest-Finds, sched_lowest-Finds,
}
use free_bsd_messaround.Smp.Move.{System, Board}
use free_bsd_messaround.Smp.Balance.{
  spins, Round, next_high, next_low, Next, cpu_empty, from_high, moved, from_low, round, go_on,
  rounds, sched_balance_group,
}

module _ (b : Board) (cpu_setsize : ℕ) (cg : CpuGroup) where
  -- How many processors a mask has, and how many rounds are left.
  size : Mask → ℕ
  size mask = number_of mask (b.mp_maxid + 1)

  left : Round → ℕ
  left (next_high hmask) = size hmask * (b.mp_maxid + 3)
  left (next_low hmask lmask high anylow) = size hmask * (b.mp_maxid + 3) + 1 + size lmask

  -- The next round has fewer left.
  abbrev Falls : ℕ → Next → Type 0
  Falls n none = Unit {0}
  Falls n (some (s, none)) = Unit {0}
  Falls n (some (s, some r)) = left r < n

  size_le : (mask : Mask) → size mask ≤ b.mp_maxid + 1
  unfolding size
  size_le mask = number_of_le mask (b.mp_maxid + 1)

  size-taken :
      (mask : Mask) (c : ℕ)
      → in_group b.mp_maxid cg c ≡ true
      → mask c ≡ true
      → size (update mask c false) + 1 ≡ size mask
  unfolding size
  size-taken mask c g m =
      ground
        (arith, m, number_of-update mask c (b.mp_maxid + 1) false (in_group-lt b.mp_maxid cg c g))

  size-dropped :
      (mask : Mask) (c : ℕ)
      → in_group b.mp_maxid cg c ≡ true
      → size (update mask c false) ≤ size mask
  unfolding size
  size-dropped mask c g =
      ground (arith, number_of-update mask c (b.mp_maxid + 1) false (in_group-lt b.mp_maxid cg c g))

  from_high-Falls :
      (s : System) (hmask : Mask) (minload : ℤ) (tdqs : ℕ → Tdq) (r : Option ℕ)
      → Finds (in_group b.mp_maxid cg) (IsDonor tdqs hmask minload) r
      → Falls (left (next_high hmask)) (from_high b cpu_setsize cg s hmask r)
  unfolding from_high left
  from_high-Falls s hmask minload tdqs none f = tt
  from_high-Falls s hmask minload tdqs (some high) f =
      let taken = size-taken hmask high f.0 f.1.0 in
      elim (Bool-cases (cpu_empty (update hmask high false) cpu_setsize)) [
        | inl e ↦ rw e tt
        | inr e ↦
            rw e (
              omega (arith, size_le (update hmask high false), mul_step _ _ (b.mp_maxid + 3) taken))
      ]

  moved-Falls :
      (hmask lmask : Mask) (high low : ℕ) (anylow : Bool) (r : Option (System × Bool))
      → in_group b.mp_maxid cg low ≡ true
      → lmask low ≡ true
      → Falls
          (left (next_low hmask lmask high anylow))
          (moved b cpu_setsize cg hmask lmask high low r)
  unfolding moved left
  moved-Falls hmask lmask high low anylow none g m = tt
  moved-Falls hmask lmask high low anylow (some (s, true)) g m =
      omega (arith, mul_mono _ _ (b.mp_maxid + 3) (size-dropped hmask low g))
  moved-Falls hmask lmask high low anylow (some (s, false)) g m =
      let taken = size-taken lmask low g m in omega (arith, taken)

  from_low-Falls :
      (s : System) (hmask lmask : Mask) (high : ℕ) (anylow : Bool) (pri maxload : ℤ)
      (tdqs : ℕ → Tdq) (r : Option ℕ)
      → Finds (in_group b.mp_maxid cg) (IsTarget tdqs lmask pri maxload) r
      → Falls
          (left (next_low hmask lmask high anylow))
          (from_low b cpu_setsize cg s hmask lmask high anylow r)
  unfolding from_low left
  from_low-Falls s hmask lmask high true pri maxload tdqs none f = tt
  from_low-Falls s hmask lmask high false pri maxload tdqs none f = omega arith
  from_low-Falls s hmask lmask high anylow pri maxload tdqs (some low) f =
      moved-Falls hmask lmask high low anylow _ f.0 f.1.0

  round-Falls : (s : System) (r : Round) → Falls (left r) (round b cpu_setsize cg s r)
  unfolding round
  round-Falls s (next_high hmask) =
      from_high-Falls _ hmask (pos 2) s.tdq_cpu _
        (sched_highest-Finds b.mp_maxid s.tdq_cpu cg hmask (pos 2) s.randomval)
  round-Falls s (next_low hmask lmask high anylow) =
      from_low-Falls _ hmask lmask high anylow (negsuc 0) _ s.tdq_cpu _
        (sched_lowest-Finds b.mp_maxid s.tdq_cpu cg lmask (negsuc 0) _ high s.randomval)

  go_on-ends :
      (fuel n : ℕ) (x : Next)
      → n ≤ fuel
      → Falls n x
      → ((s : System) (r : Round) → left r < fuel → rounds b cpu_setsize cg fuel s r ≢ spins)
      → go_on b cpu_setsize cg x (rounds b cpu_setsize cg fuel) ≢ spins
  unfolding go_on
  go_on-ends fuel n none le f next = λ e. cc
  go_on-ends fuel n (some (s, none)) le f next = λ e. cc
  go_on-ends fuel n (some (s, some r)) le f next = next s r (omega (arith, le, f))

  rounds-ends :
      (fuel : ℕ) (s : System) (r : Round) → left r < fuel → rounds b cpu_setsize cg fuel s r ≢ spins
  unfolding rounds
  rounds-ends zero s r l = absurd (omega (arith, l))
  rounds-ends (suc fuel) s r l =
      go_on-ends fuel (left r) (round b cpu_setsize cg s r) (omega (arith, l)) (round-Falls s r)
        (λ s' r' l'. rounds-ends fuel s' r' l')

  left-start : (mask : Mask) → left (next_high mask) < (b.mp_maxid + 1) * (b.mp_maxid + 3) + 1
  unfolding left
  left-start mask = omega (arith, mul_mono _ _ (b.mp_maxid + 3) (size_le mask))

  -- From any state of the queues the loops of sched_balance_group end, by a break, by a fault in
  -- the lottery or by the failed assertion of tdq_runq_rem, within (mp_maxid + 1) * (mp_maxid + 3)
  -- + 1 rounds.
  pub sched_balance_group-ends : (s : System) → sched_balance_group b cpu_setsize cg s ≢ spins
  unfolding sched_balance_group
  sched_balance_group-ends s = rounds-ends _ s _ (left-start (λ cpu. ltb cpu cpu_setsize))
