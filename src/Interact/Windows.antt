-- ===== src/Interact/Windows.antt =====
-- The scorer and the priority leave the window of ticks as it is.
use free_bsd_messaround.Prelude.{◌≡◌, arith}
use free_bsd_messaround.Interact.{
  Settings, Usage, sched_interact_update, sched_interact_fork, sched_priority, sched_user_prio,
}

-- The window fields of two threads are the same.
pub record SameWindow (a b : Usage) : Type 0 where
  pub ticks : a.ticks ≡ b.ticks
  pub last : a.ltick ≡ b.ltick
  pub first : a.ftick ≡ b.ftick

module _ (k : Settings) where
  pub interact-SameWindow : (z : Usage) → SameWindow (sched_interact_update k z) z
  unfolding sched_interact_update
  interact-SameWindow z = record { ticks = ground arith; last = ground arith; first = ground arith }

  pub priority-SameWindow : (z : Usage) → SameWindow (sched_priority k z) z
  unfolding sched_priority sched_user_prio
  priority-SameWindow z = record { ticks = ground arith; last = ground arith; first = ground arith }

  -- The priority leaves the history as it is.
  pub priority-history :
      (z : Usage)
      → ((sched_priority k z).runtime ≡ z.runtime) × ((sched_priority k z).slptime ≡ z.slptime)
  unfolding sched_priority sched_user_prio
  priority-history z = (ground arith, ground arith)

  pub fork-SameWindow : (z : Usage) → SameWindow (sched_interact_fork k z) z
  unfolding sched_interact_fork
  fork-SameWindow z = record { ticks = ground arith; last = ground arith; first = ground arith }
