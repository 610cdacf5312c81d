-- ===== src/Interact/Score.antt =====
-- The interactivity score stays in its range.
use free_bsd_messaround.Prelude.{ℕ, ◌/◌, ◌≤◌, ◌<◌, max, arith}
use native.Mathlib.Nat.{div-lt_iff_lt-mul}
use free_bsd_messaround.Interact.{Settings, Usage, interact_max, sched_interact_score}

quotient_bound : (a b : ℕ) → a < b → a / max 1 (b / 50) < 100
quotient_bound a b h = (div-lt_iff_lt-mul (omega arith)).1 (omega arith)

-- For any settings and any counters, sched_interact_score lies in 0 … 100.
pub sched_interact_score-le-max :
    (k : Settings) (ts : Usage) → sched_interact_score k ts ≤ interact_max
unfolding sched_interact_score
sched_interact_score-le-max k ts =
    ground (arith, quotient_bound ts.slptime ts.runtime, quotient_bound ts.runtime ts.slptime)
