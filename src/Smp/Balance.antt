-- ===== src/Smp/Balance.antt =====
-- sched_balance_group and sched_balance of asgn2/kern/sched_ule.c, which move threads from the
-- processors with the most load to those with the least, and the turn that sched_clock gives them.
pub mod Ends
use free_bsd_messaround.Prelude.{
  ℕ, zero, suc, ◌+◌, ◌-◌, ◌*◌, ◌/◌, ◌%◌, max, Bool, true, false, ◌&&◌, ◌||◌, not, Option, none,
  some, ltb, ◌==◌, if◌then◌else◌, update, ℤ, pos, negsuc, ◌-ℤ◌,
}
use free_bsd_messaround.Smp.{Mask, CpuGroup, next_random, random_of, sched_lowest, sched_highest}
use free_bsd_messaround.Smp.Move.{System, Board, sched_balance_pair}

-- How the loops end: by a break, by a fault in the lottery or a division by zero, or out of fuel.
pub data Balanced : Type 0 where
  done : System → Balanced
  faults : Balanced
  spins : Balanced

-- Where the loops stand: at the search for a donor, or at nextlow with `high` and anylow.
pub data Round : Type 0 where
  next_high : Mask → Round
  next_low : Mask → Mask → ℕ → Bool → Round

abbrev pub Next : Type 0
Next = Option (System × Option Round)

unfoldable pub cpu_empty : Mask → ℕ → Bool
cpu_empty mask zero = true
cpu_empty mask (suc n) = let rest = cpu_empty mask n in not (mask n) && rest

-- The set has room for `cpu_setsize` processors.
module _ (b : Board) (cpu_setsize : ℕ) (cg : CpuGroup) where
  -- What follows the search for a donor; a round of `none` is a break.
  unfoldable pub from_high : System → Mask → Option ℕ → Next
  from_high s hmask none = some (s, none)
  from_high s hmask (some high) =
      let hmask' = update hmask high false in
      if cpu_empty hmask' cpu_setsize
      then some (s, none)
      else some (s, some (next_low hmask' hmask' high true))

  -- What follows the transfer.
  unfoldable pub moved : Mask → Mask → ℕ → ℕ → Option (System × Bool) → Next
  moved hmask lmask high low none = none
  moved hmask lmask high low (some (s, true)) = some (s, some (next_high (update hmask low false)))
  moved hmask lmask high low (some (s, false)) =
      some (s, some (next_low hmask (update lmask low false) high false))

  unfoldable pub from_low : System → Mask → Mask → ℕ → Bool → Option ℕ → Next
  from_low s hmask lmask high anylow none =
      if anylow then some (s, none) else some (s, some (next_high hmask))
  from_low s hmask lmask high anylow (some low) =
      moved hmask lmask high low (sched_balance_pair b s high low)

  unfoldable pub round : System → Round → Next
  round s (next_high hmask) =
      let (high, state) = sched_highest b.mp_maxid s.tdq_cpu cg hmask (pos 2) s.randomval in
      from_high (record s { randomval = state }) hmask high
  round s (next_low hmask lmask high anylow) =
      let (low, state) =
        sched_lowest b.mp_maxid s.tdq_cpu cg lmask (negsuc 0) ((s.tdq_cpu high).load -ℤ pos 1) high
          s.randomval in
      from_low (record s { randomval = state }) hmask lmask high anylow low

  unfoldable pub go_on : Next → (System → Round → Balanced) → Balanced
  go_on none next = faults
  go_on (some (s, none)) next = done s
  go_on (some (s, some r)) next = next s r

  unfoldable pub rounds : ℕ → System → Round → Balanced
  unfolding go_on
  rounds zero s r = spins
  rounds (suc fuel) s r = go_on (round s r) (rounds fuel)

  -- Each processor is taken from hmask once, and each of those left from lmask.
  unfoldable pub sched_balance_group : System → Balanced
  sched_balance_group s =
      rounds ((b.mp_maxid + 1) * (b.mp_maxid + 3) + 1) s (next_high (λ cpu. ltb cpu cpu_setsize))

-- The settings of the balancer: smp_started, rebalance, balance_interval and cpu_top.
pub record Balancer : Type 0 where
  pub smp_started : Bool
  pub rebalance : Bool
  pub balance_interval : ℕ
  pub cpu_setsize : ℕ
  pub cpu_top : CpuGroup

module _ (b : Board) (r : Balancer) where
  -- With balance_ticks; the clock goes on with what is returned.
  unfoldable pub sched_balance : System → ℕ → Balanced × ℕ
  sched_balance s balance_ticks =
      if not r.smp_started || not r.rebalance
      then (done s, balance_ticks)
      else if r.balance_interval == 0
      then (faults, balance_ticks)
      else (let state = next_random s.randomval in
          (
            sched_balance_group b r.cpu_setsize r.cpu_top (record s { randomval = state }),
            max (r.balance_interval / 2) 1 + random_of state % r.balance_interval,
          ))

  -- The first lines of sched_clock; `first` says whether the clock is that of balance_tdq.
  unfoldable pub balance_clock : Bool → System → ℕ → Balanced × ℕ
  balance_clock first s balance_ticks =
      if first && not (balance_ticks == 0)
      then if balance_ticks == 1 then sched_balance s 0 else (done s, balance_ticks - 1)
      else (done s, balance_ticks)
